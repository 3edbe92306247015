-- ===== src/Semver/Overflow.antt =====
-- Numeric identifiers out of the range of strconv.ParseUint in `compareSemVersion`.
use notch.Prelude.{ℕ, ◌<◌, ◌≡◌, true, false, [], ◌∷◌, arith}
use notch.Prelude.Int.{pos}
use notch.Go.Bytes.{Bytes, bytes_eq}
use notch.Semver.{
  SemVersion, is_numeric, max_uint64, compare_identifier, compare_tags, compare_number,
  compare_sem_version,
}
use notch.Semver.Numbers.{value, parse_uint_overflow}

abbrev pub IsTooLarge : Bytes → Type 0
IsTooLarge s = (is_numeric s ≡ true) × (max_uint64 < value 0 s)

abbrev pub tagged : ℕ → ℕ → ℕ → Bytes → SemVersion
tagged major minor patch s = record {
  major = major;
  minor = minor;
  patch = patch;
  prerelease = s ∷ [];
}

compare_identifier_large :
    (l r : Bytes) → IsTooLarge l → IsTooLarge r → compare_identifier l r ≡ pos 1
unfolding compare_identifier
compare_identifier_large l r (nl, bl) (nr, br) =
    ground (arith, parse_uint_overflow l bl, parse_uint_overflow r br)

compare_number_self : (n : ℕ) → compare_number n n ≡ pos 0
unfolding compare_number
compare_number_self n = ground arith

compare_large :
    (x y z : ℕ) (l r : Bytes)
    → bytes_eq l r ≡ false
    → IsTooLarge l
    → IsTooLarge r
    → compare_sem_version (tagged x y z l) (tagged x y z r) ≡ pos 1
unfolding compare_sem_version compare_tags
compare_large x y z l r e hl hr =
    rw (compare_number_self x, compare_number_self y, compare_number_self z, e)
      (compare_identifier_large l r hl hr)

-- Of two versions with the same three numbers, each with a prerelease of one identifier, where
-- the identifiers differ and are numeric and out of the range of a uint64: each compares as
-- later than the other.
pub overflow_both_later :
    (x y z : ℕ) (l r : Bytes)
    → bytes_eq l r ≡ false
    → bytes_eq r l ≡ false
    → IsTooLarge l
    → IsTooLarge r
    → (compare_sem_version (tagged x y z l) (tagged x y z r) ≡ pos 1)
      × (compare_sem_version (tagged x y z r) (tagged x y z l) ≡ pos 1)
overflow_both_later x y z l r e e' hl hr =
    (compare_large x y z l r e hl hr, compare_large x y z r l e' hr hl)
