-- ===== src/Model/ProviderError/RetryAfter.antt =====
-- The delays that a Retry-After header asks for, in seconds.
use notch.Prelude.{
  ℕ, suc, ◌*◌, ◌^◌, ◌<◌, ◌≡◌, refl, ap, ◌∙◌, true, false, Option, some, [], ◌∷◌, ◌==◌,
  if◌then◌else◌, length, arith, if_split,
}
use notch.Prelude.Int.{ℤ, pos, ltb_ℤ}
use notch.Go.Bytes.{Bytes}
use notch.Go.Space.{trim_space}
use notch.Go.Strconv.{value}
use notch.Go.Int64.{signed, is_decimal, atoi, atoi_digits}
use notch.Model.ProviderError.{second, seconds_or_date, parse_retry_after}

atoi-decimal :
    (c : ℕ) (s : Bytes)
    → is_decimal (c ∷ s) ≡ true
    → value 0 (c ∷ s) < 2 ^ 63
    → atoi (c ∷ s) ≡ some (pos (value 0 (c ∷ s)))
unfolding atoi atoi_digits
atoi-decimal c s h small = ground arith

seconds_or_date-pos :
    (date : Bytes → Option ℤ) (v : Bytes) (n : ℕ)
    → 0 < n
    → seconds_or_date date v (some (pos n)) ≡ signed (n * second)
unfolding seconds_or_date
seconds_or_date-pos date v n more =
    if_split (λ z. z ≡ signed (n * second)) (ltb_ℤ (pos 0) (pos n)) _ (pos 0) (λ _. refl)
      (λ t. absurd (ground arith))

not_empty : (n : ℕ) → (suc n == 0) ≡ false
not_empty n = ground arith

-- A text of digits is read as that many seconds, in an int64 of nanoseconds.
pub parse_retry_after-decimal :
    (date : Bytes → Option ℤ) (header v : Bytes)
    → trim_space header ≡ v
    → is_decimal v ≡ true
    → 0 < value 0 v
    → value 0 v < 2 ^ 63
    → parse_retry_after date header ≡ signed (value 0 v * second)
unfolding parse_retry_after
parse_retry_after-decimal date header [] e h more small = absurd (omega arith)
parse_retry_after-decimal date header (c ∷ s) e h more small =
    let n = value 0 (c ∷ s) in
    ap (λ v. if length v == 0 then pos 0 else seconds_or_date date v (atoi v)) e
    ∙ ap (λ b. if b then pos 0 else seconds_or_date date (c ∷ s) (atoi (c ∷ s)))
        (not_empty (length s))
    ∙ ap (seconds_or_date date (c ∷ s)) (atoi-decimal c s h small)
    ∙ seconds_or_date-pos date (c ∷ s) n more
