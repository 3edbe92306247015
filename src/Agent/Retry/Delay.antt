-- ===== src/Agent/Retry/Delay.antt =====
-- How long the agent waits before it tries a call again.
use notch.Prelude.{
  ℕ, zero, suc, ◌+◌, ◌-◌, ◌*◌, ◌/◌, ◌^◌, ◌<◌, ◌≤◌, ◌≡◌, refl, ap, ◌∙◌, not, Option, some, ltb,
  if◌then◌else◌, arith, if_split,
}
use Prim.Native.Nat.{min, max}
use native.Mathlib.Nat.{mul_assoc, mul-le-mul_left, one-le-pow}
use notch.Prelude.Int.{ℤ, pos, ltb_ℤ}
use notch.Go.Int64.{add_int64, sub_int64, add_int64_fits, sub_int64_fits}
use notch.Agent.Retry.{RetryConfig, backoff, jittered, delay_from, retry_delay}

backoff_step :
    (max base rest far : ℕ)
    → base ≤ max
    → base * 2 ≤ far
    → (base * 2 ≤ max → rest ≡ min max far)
    → (if not (ltb base max) then base else if ltb (max / 2) base then max else rest) ≡ min max far
backoff_step max base rest far h k more =
    let P : ℕ → Type 0 = λ out. out ≡ min max far in
    if_split P (not (ltb base max)) base _ (λ t. ground arith)
      (λ t. if_split P (ltb (max / 2) base) max rest (λ u. ground arith) (λ u. more (ground arith)))

-- The doubling, with no bound on the way.
pub backoff_lem : (max n base : ℕ) → base ≤ max → backoff max n base ≡ min max (base * 2 ^ n)
unfolding backoff
backoff_lem max zero base h = omega arith
backoff_lem max (suc n) base h =
    let far = base * 2 ^ suc n in
    let twice : base * 2 * 2 ^ n ≡ far =
      mul_assoc base 2 (2 ^ n) ∙ ap (λ k. base * k) (omega arith) in
    let once = mul-le-mul_left (base * 2) (one-le-pow n 2 (omega arith)) in
    backoff_step max base (backoff max n (base * 2)) far h (omega (arith, once, twice))
      (λ fits. backoff_lem max n (base * 2) fits ∙ ap (min max) twice)

-- Above a floor within the delay.
above :
    (jitter : ℕ → ℕ)
    → ((n : ℕ) → jitter (suc n) < suc n)
    → (f d : ℕ) → f ≤ d
    → suc d < 2 ^ 63
    → (out : ℕ) × ((if ltb_ℤ (pos f) (pos d)
          then jittered jitter (pos f) (add_int64 (sub_int64 (pos d) (pos f)) (pos 1))
          else some (pos d))
        ≡ some (pos out))
      × (f ≤ out)
      × (out ≤ d)
unfolding jittered
above jitter low f d h small =
    let P : Option ℤ → Type 0 = λ o. (out : ℕ) × (o ≡ some (pos out)) × (f ≤ out) × (out ≤ d) in
    if_split P (ltb_ℤ (pos f) (pos d)) _ (some (pos d))
      (λ t.
        let range = suc (d - f) in
        let whole : add_int64 (sub_int64 (pos d) (pos f)) (pos 1) ≡ pos range =
          ap (λ z. add_int64 z (pos 1)) (sub_int64_fits d f h (omega arith))
          ∙ add_int64_fits (d - f) 1 (ground arith)
          ∙ ap pos (omega arith) in
        let k = low (d - f) in
        (
          f + jitter range,
          ap (jittered jitter (pos f)) whole
              ∙ ap some (add_int64_fits f (jitter range) (omega (arith, k))),
          omega arith,
          omega (arith, k),
        ))
      (λ _. (d, refl, h, omega arith))

delay_from_lem :
    (jitter : ℕ → ℕ)
    → ((n : ℕ) → jitter (suc n) < suc n)
    → (r d : ℕ) → suc d < 2 ^ 63
    → (out : ℕ) × (delay_from jitter (pos r) (pos d) ≡ some (pos out)) × (min r d ≤ out) × (out ≤ d)
unfolding delay_from
delay_from_lem jitter low r d small =
    let P : ℤ → Type 0 = λ floor.
      (out : ℕ) × ((if ltb_ℤ floor (pos d)
          then jittered jitter floor (add_int64 (sub_int64 (pos d) floor) (pos 1))
          else some (pos d))
        ≡ some (pos out))
      × (min r d ≤ out)
      × (out ≤ d) in
    if_split P (ltb_ℤ (pos d) (pos r)) (pos d) (pos r)
      (λ t.
        let (out, e, lo, hi) = above jitter low d d (omega arith) small in
        (out, e, ground arith, hi))
      (λ t.
        let (out, e, lo, hi) = above jitter low r d (ground arith) small in
        (out, e, ground arith, hi))

bounded_delay :
    (c : RetryConfig) (delay r : ℕ)
    → (if ltb_ℤ (pos c.max_delay) (if ltb_ℤ (pos delay) (pos r) then pos r else pos delay)
        then pos c.max_delay
        else if ltb_ℤ (pos delay) (pos r)
        then pos r
        else pos delay)
      ≡ pos (min c.max_delay (max r delay))
bounded_delay c delay r = ground arith

retry_delay-bounded :
    (c : RetryConfig) (jitter : ℕ → ℕ) (n r : ℕ)
    → retry_delay c jitter n (pos r)
      ≡ delay_from jitter
          (pos r)
          (pos (min c.max_delay (max r (backoff c.max_delay (n - 1) c.base_delay))))
unfolding retry_delay
retry_delay-bounded c jitter n r =
    ap (delay_from jitter (pos r)) (bounded_delay c (backoff c.max_delay (n - 1) c.base_delay) r)

-- What is promised of a delay.
abbrev pub IsDelay : RetryConfig → ℕ → ℕ → Option ℤ → Type 0
IsDelay c n r o =
    (out : ℕ) × (o ≡ some (pos out))
    × (min r c.max_delay ≤ out)
    × (out ≤ min c.max_delay (max r (c.base_delay * 2 ^ (n - 1))))

-- For a base delay up to the maximum, below 2^63 - 1, and a delay that is asked for and not
-- negative: the delay behind failed call n is no less than what is asked for, up to the maximum;
-- no more than the maximum; and no more than the greater of what is asked for and the base
-- doubled n - 1 times. No sum wraps around.
pub retry_delay_lem :
    (c : RetryConfig) (jitter : ℕ → ℕ)
    → ((n : ℕ) → jitter (suc n) < suc n)
    → c.base_delay ≤ c.max_delay
    → suc c.max_delay < 2 ^ 63
    → (n r : ℕ) → IsDelay c n r (retry_delay c jitter n (pos r))
retry_delay_lem c jitter low h small n r =
    let doubled = backoff_lem c.max_delay (n - 1) c.base_delay h in
    let bounded = min c.max_delay (max r (backoff c.max_delay (n - 1) c.base_delay)) in
    let (out, e, lo, hi) = delay_from_lem jitter low r bounded (omega arith) in
    (out, retry_delay-bounded c jitter n r ∙ e, omega arith, omega (arith, doubled))
