-- ===== src/Semver/Numbers.antt =====
-- The numbers that digits spell, and what strconv.ParseUint makes of them.
use notch.Prelude.{
  ℕ, zero, suc, ◌+◌, ◌-◌, ◌*◌, ◌≤◌, ◌<◌, ◌≡◌, refl, ap, ap₂, dec_lt, true, false, [], ◌∷◌, arith,
  ◌⊎◌, inl, inr, ◌==◌, length,
}
use notch.Go.Bytes.{Bytes}
pub use notch.Go.Strconv.{value}
use notch.Semver.{
  is_digit, all_digits, starts_with_zero, is_numeric, max_uint64, parse_digits, parse_uint,
}

pub le-value : (digits : Bytes) (before : ℕ) → before ≤ value before digits
le-value [] before = omega arith
le-value (c ∷ digits) before =
    let grows = le-value digits (before * 10 + (c - b'0')) in omega (arith, grows)

parse_digits_fits :
    (s : Bytes) (n : ℕ) → value n s ≤ max_uint64 → parse_digits s n ≡ (value n s, true)
unfolding parse_digits
parse_digits_fits [] n h = refl
parse_digits_fits (c ∷ s) n h =
    let n' = n * 10 + (c - b'0') in ground (arith, le-value s n', parse_digits_fits s n' h)

parse_digits_overflow :
    (s : Bytes) (n : ℕ)
    → n ≤ max_uint64
    → max_uint64 < value n s
    → parse_digits s n ≡ (max_uint64, false)
unfolding parse_digits
parse_digits_overflow [] n le h = absurd (omega arith)
parse_digits_overflow (c ∷ s) n le h = ground (arith, parse_digits_overflow s (n * 10 + (c - b'0')))

parse_digits-le : (s : Bytes) (n : ℕ) → n ≤ max_uint64 → (parse_digits s n).0 ≤ max_uint64
unfolding parse_digits
parse_digits-le [] n h = h
parse_digits-le (c ∷ s) n h = ground (arith, parse_digits-le s (n * 10 + (c - b'0')))

pub parse_uint-le : (s : Bytes) → (parse_uint s).0 ≤ max_uint64
unfolding parse_uint
parse_uint-le s = parse_digits-le s 0 (omega arith)

-- In range the value is that of the digits, and out of range the greatest uint64.
pub parse_uint_fits : (s : Bytes) → value 0 s ≤ max_uint64 → parse_uint s ≡ (value 0 s, true)
unfolding parse_uint
parse_uint_fits s h = parse_digits_fits s 0 h

pub parse_uint_overflow : (s : Bytes) → max_uint64 < value 0 s → parse_uint s ≡ (max_uint64, false)
unfolding parse_uint
parse_uint_overflow s h = parse_digits_overflow s 0 (omega arith) h

pub is_digit_bounds : (c : ℕ) → is_digit c ≡ true → (b'0' ≤ c) × (c ≤ b'9')
unfolding is_digit
is_digit_bounds c h = ground arith

all_digits-cons :
    (c : ℕ) (s : Bytes)
    → all_digits (c ∷ s) ≡ true
    → (b'0' ≤ c) × (c ≤ b'9') × (all_digits s ≡ true)
unfolding all_digits
all_digits-cons c s h = ground arith

mul_mono_left : (a b p : ℕ) → a ≤ b → a * p ≤ b * p
mul_mono_left a b p h = grind arith

power : ℕ → ℕ
power zero = 1
power (suc k) = 10 * power k

power_pos : (k : ℕ) → 1 ≤ power k
unfolding power
power_pos zero = omega arith
power_pos (suc k) = omega (arith, power_pos k)

power_mono : (j k : ℕ) → j ≤ k → power j ≤ power k
unfolding power
power_mono zero k h = power_pos k
power_mono (suc j) zero h = absurd (omega arith)
power_mono (suc j) (suc k) h = omega (arith, power_mono j k (omega arith))

mul-power-le-value : (s : Bytes) (n : ℕ) → n * power (length s) ≤ value n s
unfolding power
mul-power-le-value [] n = omega arith
mul-power-le-value (c ∷ s) n =
    let n' = n * 10 + (c - b'0') in grind (arith, mul-power-le-value s n')

value-lt-mul-power :
    (s : Bytes) (n : ℕ) → all_digits s ≡ true → value n s < (n + 1) * power (length s)
unfolding power
value-lt-mul-power [] n h = omega arith
value-lt-mul-power (c ∷ s) n h =
    let n' = n * 10 + (c - b'0') in
    let (lo, hi, hs) = all_digits-cons c s h in
    omega (
      arith,
      value-lt-mul-power s n' hs,
      mul_mono_left (n' + 1) (10 * (n + 1)) (power (length s)) (omega arith),
    )

same_length :
    (s t : Bytes) (m n : ℕ)
    → all_digits s ≡ true
    → all_digits t ≡ true
    → length s ≡ length t
    → value m s ≡ value n t
    → (m ≡ n) × (s ≡ t)
same_length [] [] m n hs ht l e = (e, refl)
same_length [] (d ∷ t) m n hs ht l e = absurd (omega arith)
same_length (c ∷ s) [] m n hs ht l e = absurd (omega arith)
same_length (c ∷ s) (d ∷ t) m n hs ht l e =
    let (clo, chi, hs') = all_digits-cons c s hs in
    let (dlo, dhi, ht') = all_digits-cons d t ht in
    let (p, q) =
      same_length s t (m * 10 + (c - b'0')) (n * 10 + (d - b'0')) hs' ht' (omega arith) e in
    (omega arith, ap₂ (λ x xs. x ∷ xs) (let r : c ≡ d = omega arith in r) q)

-- A number with no leading zero is greater than any with fewer digits.
fewer_digits :
    (s t : Bytes) (d : ℕ)
    → all_digits s ≡ true
    → all_digits (d ∷ t) ≡ true
    → (d == b'0') ≡ false
    → length s ≤ length t
    → value 0 s < value 0 (d ∷ t)
fewer_digits s t d hs ht nz l =
    let (lo, hi, _) = all_digits-cons d t ht in
    let k : 1 ≤ d - b'0' = ground arith in
    let first : value 0 (d ∷ t) ≡ value (d - b'0') t = ap (λ n. value n t) (omega arith) in
    omega (
      arith,
      first,
      value-lt-mul-power s 0 hs,
      mul-power-le-value t (d - b'0'),
      mul_mono_left 1 (d - b'0') (power (length t)) k,
      power_mono (length s) (length t) l,
    )

-- Digits with no leading zero, but for the number 0 itself.
abbrev pub IsCanonical : Bytes → Type 0
IsCanonical s = (is_numeric s ≡ true) × ((length s ≡ 1) ⊎ (starts_with_zero s ≡ false))

no_zero :
    (c : ℕ) (s : Bytes)
    → (length (c ∷ s) ≡ 1) ⊎ (starts_with_zero (c ∷ s) ≡ false)
    → 0 < length s
    → (c == b'0') ≡ false
unfolding starts_with_zero
no_zero c s (inl one) h = absurd (omega arith)
no_zero c s (inr e) h = e

numeric_digits : (c : ℕ) (s : Bytes) → is_numeric (c ∷ s) ≡ true → all_digits (c ∷ s) ≡ true
unfolding is_numeric
numeric_digits c s h = h

-- Two canonical numbers that spell the same value are the same text.
pub value-injective : (s t : Bytes) → IsCanonical s → IsCanonical t → value 0 s ≡ value 0 t → s ≡ t
value-injective [] t (hs, zs) (ht, zt) e = unfold is_numeric in cc hs
value-injective (c ∷ s) [] (hs, zs) (ht, zt) e = unfold is_numeric in cc ht
value-injective (c ∷ s) (d ∷ t) (hs, zs) (ht, zt) e =
    let ds = numeric_digits c s hs in
    let dt = numeric_digits d t ht in
    elim (dec_lt (length s) (length t)) [
      | yes lt ↦
          absurd (omega (arith, fewer_digits (c ∷ s) t d ds dt (no_zero d t zt (omega arith)) lt))
      | no ge ↦ elim (dec_lt (length t) (length s)) [
        | yes gt ↦
            absurd (omega (arith, fewer_digits (d ∷ t) s c dt ds (no_zero c s zs (omega arith)) gt))
        | no le ↦ (same_length (c ∷ s) (d ∷ t) 0 0 ds dt (omega arith) e).1
      ]
    ]
