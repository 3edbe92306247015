-- ===== src/Semver/Order/Identifiers.antt =====
-- The order of two identifiers of a prerelease.
use notch.Prelude.{
  zero, suc, ◌≤◌, ◌≡◌, refl, Bool, true, false, not, ◌&&◌, [], ◌∷◌, arith, ◌⊎◌, ltb, if◌then◌else◌,
  length,
}
use notch.Prelude.Int.{ℤ, pos, negsuc}
use notch.Go.Bytes.{Bytes, bytes_eq, bytes_eq_iff}
use notch.Go.Strings.{bytes_lt}
use notch.Semver.{is_numeric, starts_with_zero, max_uint64, minus_one, compare_identifier}
use notch.Semver.Numbers.{value, parse_uint_fits, value-injective}

abbrev pub negate : ℤ → ℤ
negate (pos zero) = pos 0
negate (pos (suc n)) = negsuc n
negate (negsuc n) = pos (suc n)

-- A numeric identifier has no leading zero and fits into a uint64.
abbrev pub InRange : Bytes → Type 0
InRange s =
    is_numeric s ≡ true → ((length s ≡ 1) ⊎ (starts_with_zero s ≡ false)) × (value 0 s ≤ max_uint64)

-- The order that the identifiers have by their numbers, without a bound.
pub less : Bytes → Bytes → Bool
less l r =
    if is_numeric l && is_numeric r
    then ltb (value 0 l) (value 0 r)
    else if is_numeric l
    then true
    else if is_numeric r
    then false
    else bytes_lt l r

pub compare_identifier-less :
    (l r : Bytes)
    → InRange l
    → InRange r
    → compare_identifier l r ≡ (if less l r then minus_one else pos 1)
unfolding compare_identifier less
compare_identifier-less l r hl hr = ground (arith, parse_uint_fits l, parse_uint_fits r, hl, hr)

bytes_lt-swap : (l r : Bytes) → bytes_eq l r ≡ false → bytes_lt r l ≡ not (bytes_lt l r)
unfolding bytes_lt bytes_eq
bytes_lt-swap [] [] e = cc
bytes_lt-swap [] (d ∷ t) e = refl
bytes_lt-swap (c ∷ s) [] e = refl
bytes_lt-swap (c ∷ s) (d ∷ t) e = ground (arith, bytes_lt-swap s t)

bytes_lt_trans : (l m r : Bytes) → bytes_lt l m ≡ true → bytes_lt m r ≡ true → bytes_lt l r ≡ true
unfolding bytes_lt
bytes_lt_trans l m [] p q = cc
bytes_lt_trans l [] (d ∷ t) p q = cc
bytes_lt_trans [] (b ∷ m) (d ∷ t) p q = refl
bytes_lt_trans (a ∷ l) (b ∷ m) (d ∷ t) p q = ground (arith, bytes_lt_trans l m t)

different :
    (l r : Bytes)
    → InRange l
    → InRange r
    → bytes_eq l r ≡ false
    → is_numeric l ≡ true
    → is_numeric r ≡ true
    → value 0 l ≡ value 0 r
    → ⊥
different l r hl hr e nl nr v =
    let same : l ≡ r = value-injective l r (nl, (hl nl).0) (nr, (hr nr).0) v in
    cc ((bytes_eq_iff l r).1 same)

-- Of two different identifiers one is less than the other.
pub less-swap :
    (l r : Bytes) → InRange l → InRange r → bytes_eq l r ≡ false → less r l ≡ not (less l r)
unfolding less
less-swap l r hl hr e = ground (arith, bytes_lt-swap l r e, different l r hl hr e)

pub less_trans : (l m r : Bytes) → less l m ≡ true → less m r ≡ true → less l r ≡ true
unfolding less
less_trans l m r p q = ground (arith, bytes_lt_trans l m r)

bytes_lt_irrefl : (s : Bytes) → bytes_lt s s ≡ false
unfolding bytes_lt
bytes_lt_irrefl [] = refl
bytes_lt_irrefl (c ∷ s) = ground (arith, bytes_lt_irrefl s)

pub less_irrefl : (s : Bytes) → less s s ≡ false
unfolding less
less_irrefl s = ground (arith, bytes_lt_irrefl s)
