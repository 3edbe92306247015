-- ===== src/Agent/Retry/Overflow.antt =====
-- A Retry-After that does not fit an int64 of nanoseconds.
use notch.Prelude.{
  ℕ, zero, suc, ◌+◌, ◌-◌, ◌*◌, ◌^◌, ◌<◌, ◌≤◌, ◌≡◌, refl, ap, ◌∙◌, true, false, Option, none, some,
  if◌then◌else◌, arith, if_split,
}
use native.Mathlib.Nat.{one-le-pow, mul-le-mul_left}
use notch.Prelude.Int.{ℤ, pos, negsuc, ltb_ℤ, ◌+ℤ◌, ◌-ℤ◌}
use notch.Go.Bytes.{Bytes}
use notch.Go.Space.{trim_space}
use notch.Go.Strconv.{value}
use notch.Go.Int64.{signed, is_decimal, add_int64, sub_int64}
use notch.Model.ProviderError.{second, parse_retry_after}
use notch.Model.ProviderError.RetryAfter.{parse_retry_after-decimal}
use notch.Agent.Retry.{RetryConfig, backoff, jittered, delay_from, retry_delay}
use notch.Agent.Retry.Delay.{backoff_lem}

-- The difference of a delay and a very negative floor wraps around.
range_wraps :
    (d m : ℕ)
    → d < 2 ^ 63
    → m < 2 ^ 63
    → 2 ^ 63 ≤ d + m + 2
    → ltb_ℤ (pos 0) (add_int64 (sub_int64 (pos d) (negsuc m)) (pos 1)) ≡ false
unfolding add_int64 sub_int64 ◌+ℤ◌ ◌-ℤ◌
range_wraps d m hd hm wraps = ground arith

jittered-none :
    (jitter : ℕ → ℕ) (floor z : ℤ) → ltb_ℤ (pos 0) z ≡ false → jittered jitter floor z ≡ none
unfolding jittered
jittered-none jitter floor (pos zero) h = refl
jittered-none jitter floor (pos (suc n)) h = absurd (ground arith)
jittered-none jitter floor (negsuc n) h = refl

above_negative : (d m : ℕ) → ¬ (ltb_ℤ (pos d) (negsuc m) ≡ true)
above_negative d m t = ground arith

below_positive : (d m : ℕ) → ¬ (ltb_ℤ (negsuc m) (pos d) ≡ false)
below_positive d m t = ground arith

delay_from-none :
    (jitter : ℕ → ℕ) (d m : ℕ)
    → d < 2 ^ 63
    → m < 2 ^ 63
    → 2 ^ 63 ≤ d + m + 2
    → delay_from jitter (negsuc m) (pos d) ≡ none
unfolding delay_from
delay_from-none jitter d m hd hm wraps =
    let wait : ℤ → Option ℤ = λ floor.
      if ltb_ℤ floor (pos d)
      then jittered jitter floor (add_int64 (sub_int64 (pos d) floor) (pos 1))
      else some (pos d) in
    if_split (λ floor. wait floor ≡ none) (ltb_ℤ (pos d) (negsuc m)) (pos d) (negsuc m)
      (λ t. absurd (above_negative d m t))
      (λ _.
        if_split (λ o. o ≡ none) (ltb_ℤ (negsuc m) (pos d)) _ (some (pos d))
          (λ _. jittered-none jitter (negsuc m) _ (range_wraps d m hd hm wraps))
          (λ t. absurd (below_positive d m t)))

not_asked :
    (top d m : ℕ)
    → d ≤ top
    → (if ltb_ℤ (pos top) (if ltb_ℤ (pos d) (negsuc m) then negsuc m else pos d)
        then pos top
        else if ltb_ℤ (pos d) (negsuc m)
        then negsuc m
        else pos d)
      ≡ pos d
not_asked top d m h = ground arith

retry_delay-negative :
    (c : RetryConfig) (jitter : ℕ → ℕ) (n m : ℕ)
    → backoff c.max_delay (n - 1) c.base_delay ≤ c.max_delay
    → retry_delay c jitter n (negsuc m)
      ≡ delay_from jitter (negsuc m) (pos (backoff c.max_delay (n - 1) c.base_delay))
unfolding retry_delay
retry_delay-negative c jitter n m h =
    ap (delay_from jitter (negsuc m))
      (not_asked c.max_delay (backoff c.max_delay (n - 1) c.base_delay) m h)

signed-high : (p : ℕ) → 2 ^ 63 ≤ p → p < 2 ^ 64 → signed p ≡ negsuc (2 ^ 64 - 1 - p)
signed-high p h k = ground arith

-- For a Retry-After of digits whose seconds are, in nanoseconds, at least 2^63 and no more than
-- that and the base delay: the delay behind a failed call cannot be computed, rand.Int64N
-- panics.
pub overflow_panics :
    (c : RetryConfig) (jitter : ℕ → ℕ) (date : Bytes → Option ℤ) (header v : Bytes) (n : ℕ)
    → c.base_delay ≤ c.max_delay
    → c.max_delay < 2 ^ 63
    → trim_space header ≡ v
    → is_decimal v ≡ true
    → value 0 v < 2 ^ 63
    → 2 ^ 63 ≤ value 0 v * second
    → value 0 v * second ≤ 2 ^ 63 + c.base_delay
    → retry_delay c jitter n (parse_retry_after date header) ≡ none
overflow_panics c jitter date header v n h small e digits short over close =
    let p = value 0 v * second in
    let d = backoff c.max_delay (n - 1) c.base_delay in
    let m = 2 ^ 64 - 1 - p in
    let doubled = backoff_lem c.max_delay (n - 1) c.base_delay h in
    let grows = mul-le-mul_left c.base_delay (one-le-pow (n - 1) 2 (omega arith)) in
    ap (retry_delay c jitter n) (
      parse_retry_after-decimal date header v e digits (omega arith) short
      ∙ signed-high p over (omega arith))
    ∙ retry_delay-negative c jitter n m (omega (arith, doubled))
    ∙ delay_from-none jitter d m (omega (arith, doubled)) (omega arith)
        (omega (arith, doubled, grows))
