-- ===== src/Agent/Retry.antt =====
-- internal/agent/agent.go: the calls of a provider that are tried again, and the delays in between.
-- A delay is an int64 of nanoseconds; the configured ones are positive, and New puts the base below
-- the maximum.
mod Tests
pub mod Delay
pub mod Calls
pub mod Overflow
use notch.Prelude.{
  ℕ, zero, suc, ◌+◌, ◌-◌, ◌*◌, ◌/◌, Bool, true, false, not, ◌||◌, Option, none, some, List, [], ◌∷◌,
  ◌++◌, ltb, leb, ◌==◌, if◌then◌else◌, length,
}
use notch.Prelude.Int.{ℤ, pos, negsuc, ltb_ℤ, pos_part}
use notch.Go.Bytes.{Bytes, codes}
use notch.Go.Int64.{add_int64, sub_int64}
use notch.Model.ProviderError.{GoError, retry_info}

pub record RetryConfig : Type 0 where
  pub max_attempts : ℕ
  pub base_delay : ℕ
  pub max_delay : ℕ

-- The loop of retryDelay, with the number of rounds that are left.
unfoldable pub backoff : ℕ → ℕ → ℕ → ℕ
backoff max zero delay = delay
backoff max (suc n) delay =
    let rest = backoff max n (delay * 2) in
    if not (ltb delay max) then delay else if ltb (max / 2) delay then max else rest

-- rand.Int64N(n) is `jitter n`, a number below n; it panics, which is `none`, unless n is positive.
unfoldable pub jittered : (ℕ → ℕ) → ℤ → ℤ → Option ℤ
unfolding add_int64
jittered jitter floor (pos (suc n)) = some (add_int64 floor (pos (jitter (suc n))))
jittered jitter floor _ = none

unfoldable pub delay_from : (ℕ → ℕ) → ℤ → ℤ → Option ℤ
unfolding jittered sub_int64 add_int64
delay_from jitter retry_after delay =
    let floor = if ltb_ℤ delay retry_after then delay else retry_after in
    if ltb_ℤ floor delay
    then jittered jitter floor (add_int64 (sub_int64 delay floor) (pos 1))
    else some delay

unfoldable pub retry_delay : RetryConfig → (ℕ → ℕ) → ℕ → ℤ → Option ℤ
unfolding backoff delay_from
retry_delay c jitter failed_attempt retry_after =
    let delay = pos (backoff c.max_delay (failed_attempt - 1) c.base_delay) in
    let asked = if ltb_ℤ delay retry_after then retry_after else delay in
    let bounded = if ltb_ℤ (pos c.max_delay) asked then pos c.max_delay else asked in
    delay_from jitter retry_after bounded

pub data Answer (R : Type 0) : Type 0 where
  answered : R → Answer R
  failed : GoError → Answer R

-- What one call of Stream meets: the texts of its text_delta and thinking_delta events, its result,
-- the random number of the delay behind it, and whether the context ends during that delay.
pub record Call (R : Type 0) : Type 0 where
  pub deltas : List Bytes
  pub answer : Answer R
  pub jitter : ℕ → ℕ
  pub canceled : Bool

pub data StreamResult (R : Type 0) : Type 0 where
  response : R → StreamResult R
  stream_error : GoError → StreamResult R
  context_done panicked : StreamResult R

-- `output` is what is emitted of the deltas, `delays` those of the provider_retry events.
pub record Streamed (R : Type 0) : Type 0 where
  pub result : StreamResult R
  pub calls : ℕ
  pub output : List Bytes
  pub delays : List ℤ

module _ {R : Type 0} where
  abbrev pub forwarded : Bool → Call R → List Bytes
  forwarded forward_output call = if forward_output then call.deltas else []

  abbrev pub last_call : Bool → Call R → List ℤ → StreamResult R → Option (Streamed R)
  last_call forward_output call delays result = some (record {
    result = result;
    calls = 1;
    output = forwarded forward_output call;
    delays = delays;
  })

  abbrev pub first_call : Bool → Call R → ℤ → Option (Streamed R) → Option (Streamed R)
  first_call forward_output call delay none = none
  first_call forward_output call delay (some s) = some (record {
    result = s.result;
    calls = suc s.calls;
    output = forwarded forward_output call ++ s.output;
    delays = delay ∷ s.delays;
  })

  -- The wait, where `rest` is what the next round of the loop gives.
  unfoldable pub pause : Bool → Call R → Option ℤ → Option (Streamed R) → Option (Streamed R)
  pause forward_output call none rest = last_call forward_output call [] panicked
  pause forward_output call (some delay) rest =
      if call.canceled
      then last_call forward_output call (delay ∷ []) context_done
      else first_call forward_output call delay rest

  unfoldable pub after_call :
      RetryConfig
      → (Bytes → Bytes)
      → Bool
      → ℕ
      → Call R
      → Answer R
      → Option (Streamed R)
      → Option (Streamed R)
  unfolding pause retry_info retry_delay
  after_call c to_lower forward_output attempt call (answered r) rest =
      last_call forward_output call [] (response r)
  after_call c to_lower forward_output attempt call (failed e) rest =
      let (retryable, retry_after) = retry_info to_lower e in
      let emitted = not (length call.deltas == 0) in
      if not retryable || emitted || leb c.max_attempts attempt
      then last_call forward_output call [] (stream_error e)
      else pause forward_output call (retry_delay c call.jitter attempt retry_after) rest

  -- `none` is the end of the fuel. The calls are numbered by the attempt.
  unfoldable pub stream_with_retry_mode :
      RetryConfig → (Bytes → Bytes) → Bool → (ℕ → Call R) → ℕ → ℕ → Option (Streamed R)
  unfolding after_call
  stream_with_retry_mode c to_lower forward_output calls zero attempt = none
  stream_with_retry_mode c to_lower forward_output calls (suc fuel) attempt =
      let rest = stream_with_retry_mode c to_lower forward_output calls fuel (suc attempt) in
      let call = calls attempt in after_call c to_lower forward_output attempt call call.answer rest

  unfoldable pub stream_with_retry :
      RetryConfig → (Bytes → Bytes) → (ℕ → Call R) → Option (Streamed R)
  unfolding stream_with_retry_mode
  stream_with_retry c to_lower calls =
      stream_with_retry_mode c to_lower true calls (suc c.max_attempts) 1
