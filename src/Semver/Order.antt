-- ===== src/Semver/Order.antt =====
-- The comparison of whole versions, `compareSemVersion` of internal/upgrade/semver.go.
mod Identifiers
mod Tags
use notch.Prelude.{
  ℕ, zero, suc, ◌+◌, ◌≤◌, ◌<◌, ◌≡◌, ◌↔◌, refl, ap, ap₂, Bool, true, false, List, [], ◌∷◌, arith,
  ltb, if◌then◌else◌, All,
}
use notch.Prelude.Int.{ℤ, pos, negsuc}
use notch.Go.Bytes.{Bytes}
use notch.Semver.{SemVersion, minus_one, or_next, compare_number, compare_tags, compare_sem_version}
use Identifiers.{negate, InRange}
use Tags.{compare_tags-swap, compare_tags-zero, compare_tags_refl, compare_tags_trans}
pub use Identifiers.{negate, InRange}

abbrev pub IsInRange : SemVersion → Type 0
IsInRange v = All InRange v.prerelease

number-swap :
    (x y : ℕ) (a b : ℤ)
    → b ≡ negate a
    → or_next (compare_number y x) b ≡ negate (or_next (compare_number x y) a)
unfolding compare_number
number-swap x y a b e = ground arith

number-zero : (x y : ℕ) (a : ℤ) → or_next (compare_number x y) a ≡ pos 0 → (x ≡ y) × (a ≡ pos 0)
unfolding compare_number
number-zero x y a e = ground arith

number_refl : (x : ℕ) (a : ℤ) → a ≡ pos 0 → or_next (compare_number x x) a ≡ pos 0
unfolding compare_number
number_refl x a e = ground arith

number_trans :
    (x y z : ℕ) (a b c : ℤ)
    → (a ≡ minus_one → b ≡ minus_one → c ≡ minus_one)
    → or_next (compare_number x y) a ≡ minus_one
    → or_next (compare_number y z) b ≡ minus_one
    → or_next (compare_number x z) c ≡ minus_one
unfolding compare_number
number_trans x y z a b c h p q = ground arith

-- For versions whose numeric identifiers have no leading zero and are below 2^64: swapping the
-- two turns the sign of the comparison.
pub compare_sem_version-swap :
    (l r : SemVersion)
    → IsInRange l
    → IsInRange r
    → compare_sem_version r l ≡ negate (compare_sem_version l r)
unfolding compare_sem_version
compare_sem_version-swap l r hl hr = number-swap l.major r.major _ _ (
    number-swap l.minor r.minor _ _
      (number-swap l.patch r.patch _ _ (compare_tags-swap l.prerelease r.prerelease hl hr)))

-- For versions whose numeric identifiers have no leading zero and are below 2^64: two compare as
-- 0 exactly if they are equal.
pub compare_sem_version-zero :
    (l r : SemVersion) → IsInRange l → IsInRange r → (compare_sem_version l r ≡ pos 0) ↔ (l ≡ r)
unfolding compare_sem_version
compare_sem_version-zero l r hl hr = (to, from)
  where
    to : compare_sem_version l r ≡ pos 0 → l ≡ r
    to e =
        let (p, e1) = number-zero l.major r.major _ e in
        let (q, e2) = number-zero l.minor r.minor _ e1 in
        let (s, e3) = number-zero l.patch r.patch _ e2 in
        let t = compare_tags-zero l.prerelease r.prerelease hl hr e3 in
        λ i. record { major = p i; minor = q i; patch = s i; prerelease = t i }

    from : l ≡ r → compare_sem_version l r ≡ pos 0
    from e = rw e (
        number_refl r.major _
          (number_refl r.minor _ (number_refl r.patch _ (compare_tags_refl r.prerelease))))

-- For versions whose numeric identifiers have no leading zero and are below 2^64: a version
-- older than one that is older than a third is older than the third.
pub compare_sem_version_trans :
    (l m r : SemVersion)
    → IsInRange l
    → IsInRange m
    → IsInRange r
    → compare_sem_version l m ≡ minus_one
    → compare_sem_version m r ≡ minus_one
    → compare_sem_version l r ≡ minus_one
unfolding compare_sem_version
compare_sem_version_trans l m r hl hm hr = number_trans l.major m.major r.major _ _ _ (
    number_trans l.minor m.minor r.minor _ _ _ (
      number_trans l.patch m.patch r.patch _ _ _
        (compare_tags_trans l.prerelease m.prerelease r.prerelease hl hm hr)))

-- For versions whose numeric identifiers have no leading zero and are below 2^64, the comparison
-- is an order: a version older than one that is older than a third is older than the third,
-- swapping two versions turns the sign, and two compare as 0 exactly if they are equal.
pub compare_sem_version-IsOrder :
    (l m r : SemVersion)
    → IsInRange l
    → IsInRange m
    → IsInRange r
    → (compare_sem_version l m ≡ minus_one
        → compare_sem_version m r ≡ minus_one
        → compare_sem_version l r ≡ minus_one)
      × (compare_sem_version m l ≡ negate (compare_sem_version l m))
      × ((compare_sem_version l m ≡ pos 0) ↔ (l ≡ m))
compare_sem_version-IsOrder l m r hl hm hr = (
  compare_sem_version_trans l m r hl hm hr,
  compare_sem_version-swap l m hl hm,
  compare_sem_version-zero l m hl hm,
)
