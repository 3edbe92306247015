-- ===== src/Agent/Retry/Tests.antt =====
-- The configuration that New gives, with a provider that answers at the third call.
use notch.Prelude.{ℕ, zero, suc, ◌*◌, ◌<◌, ◌≤◌, ◌≡◌, refl, false, none, some, [], ◌∷◌, arith}
use notch.Prelude.Int.{pos}
use notch.Go.Bytes.{Bytes, codes}
use notch.Go.Space.{trim_space}
use notch.Model.ProviderError.{GoError, second, parse_retry_after}
use notch.Agent.Retry.{
  RetryConfig, Call, answered, failed, Streamed, retry_delay, stream_with_retry,
}
use notch.Agent.Retry.Delay.{IsDelay, retry_delay_lem}
use notch.Agent.Retry.Overflow.{overflow_panics}
use notch.Agent.Retry.Calls.{IsRetried, Ends, stream_with_retry_lem}

abbrev config : RetryConfig
config = record { max_attempts = 3; base_delay = second; max_delay = 30 * second }

abbrev half : ℕ → ℕ
half n = 0

half_below : (n : ℕ) → half (suc n) < suc n
half_below n = omega arith

retry_delay_lem_example :
    IsDelay config 3 (2 * second) (retry_delay config half 3 (pos (2 * second)))
retry_delay_lem_example =
    retry_delay_lem config half half_below (omega arith) (omega arith) 3 (2 * second)

-- In nanoseconds this is 2^63 and a little more.
abbrev header : Bytes
header = codes " 9223372037"

trims : trim_space header ≡ codes "9223372037"
unfolding trim_space
trims = refl

overflow_panics_example : retry_delay config half 1 (parse_retry_after (λ _. none) header) ≡ none
overflow_panics_example =
    overflow_panics config half (λ _. none) header (codes "9223372037") 1 (omega arith)
      (omega arith) trims refl (omega arith) (omega arith) (omega arith)

abbrev overloaded : GoError
overloaded = record {
  provider_error = some (record {
    message = codes "busy";
    status_code = 529;
    code = codes "overloaded_error";
    retry_after = pos 0;
  });
  net_error = none;
  text = codes "busy";
}

abbrev calls : ℕ → Call ℕ
calls (suc (suc (suc zero))) = record {
  deltas = codes "ok" ∷ [];
  answer = answered 7;
  jitter = half;
  canceled = false;
}
calls n = record { deltas = []; answer = failed overloaded; jitter = half; canceled = false }

stream_with_retry_lem_example :
    (s : Streamed ℕ) × (stream_with_retry config (λ b. b) calls ≡ some s)
    × (1 ≤ s.calls)
    × (s.calls ≤ 3)
    × (s.output ≡ (calls s.calls).deltas)
    × Ends (calls s.calls) s.result
    × ((i : ℕ) → 1 ≤ i → i < s.calls → IsRetried (λ b. b) (calls i))
stream_with_retry_lem_example = stream_with_retry_lem config (λ b. b) calls (omega arith)
