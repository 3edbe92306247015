-- ===== src/Semver/Tests.antt =====
-- Versions of releases, and a pair that overflows (internal/upgrade/semver.go).
use notch.Prelude.{◌++◌, ◌≡◌, ◌↔◌, refl, some, [], ◌∷◌, arith, inl, All}
use notch.Prelude.Int.{pos}
use notch.Go.Bytes.{Bytes, codes, bytes_eq}
use notch.Go.Space.{trim_space}
use notch.Semver.{
  SemVersion, minus_one, is_numeric, compare_sem_version, valid_prerelease,
  valid_numeric_identifier, parse_uint,
}
use notch.Semver.Order.{negate, IsInRange, compare_sem_version-IsOrder}
use notch.Semver.Parse.{trim_v, parse_sem_version}
use notch.Semver.Parse.Laws.{parse_sem_version-IsInRange}
use notch.Semver.Parse.Print.{tags, IsCore, IsBuild, parse_sem_version_lem}
use notch.Semver.Parse.Identifiers.{IsTag}
use notch.Semver.Overflow.{tagged, overflow_both_later}

abbrev alpha_1 : SemVersion
alpha_1 = record { major = 1; minor = 0; patch = 0; prerelease = codes "alpha" ∷ codes "1" ∷ [] }

abbrev alpha_beta : SemVersion
alpha_beta = record alpha_1 { prerelease = codes "alpha" ∷ codes "beta" ∷ [] }

abbrev release : SemVersion
release = record alpha_1 { prerelease = [] }

alpha_1-IsInRange : IsInRange alpha_1
unfolding is_numeric
alpha_1-IsInRange = ((λ e. cc), ((λ e. (inl refl, omega arith)), tt))

alpha_beta-IsInRange : IsInRange alpha_beta
unfolding is_numeric
alpha_beta-IsInRange = ((λ e. cc), ((λ e. cc), tt))

older_1 : compare_sem_version alpha_1 alpha_beta ≡ minus_one
unfolding compare_sem_version bytes_eq
older_1 = refl

older_2 : compare_sem_version alpha_beta release ≡ minus_one
unfolding compare_sem_version
older_2 = refl

parses_alpha_1 : parse_sem_version (codes "v1.0.0-alpha.1") ≡ some alpha_1
unfolding parse_sem_version trim_space valid_prerelease valid_numeric_identifier parse_uint
parses_alpha_1 = refl

parse_sem_version_lem_example :
    (core : Bytes) × (build : Bytes) × (trim_v (trim_space (codes "v1.0.0-alpha.1"))
      ≡ core ++ tags alpha_1.prerelease ++ build)
    × IsCore core alpha_1
    × IsBuild build
    × All IsTag alpha_1.prerelease
parse_sem_version_lem_example =
    parse_sem_version_lem (codes "v1.0.0-alpha.1") alpha_1 parses_alpha_1

parse_sem_version-IsInRange_example : IsInRange alpha_1
parse_sem_version-IsInRange_example =
    parse_sem_version-IsInRange (codes "v1.0.0-alpha.1") alpha_1 parses_alpha_1
      (omega arith, (omega arith, tt))

abbrev large_1 : Bytes
large_1 = codes "99999999999999999998"

abbrev large_2 : Bytes
large_2 = codes "99999999999999999999"

overflow_both_later_example :
    (compare_sem_version (tagged 1 0 0 large_1) (tagged 1 0 0 large_2) ≡ pos 1)
    × (compare_sem_version (tagged 1 0 0 large_2) (tagged 1 0 0 large_1) ≡ pos 1)
unfolding bytes_eq is_numeric
overflow_both_later_example =
    overflow_both_later 1 0 0 large_1 large_2 refl refl (refl, omega arith) (refl, omega arith)

compare_sem_version-IsOrder_example :
    (compare_sem_version alpha_1 alpha_beta ≡ minus_one
      → compare_sem_version alpha_beta release ≡ minus_one
      → compare_sem_version alpha_1 release ≡ minus_one)
    × (compare_sem_version alpha_beta alpha_1 ≡ negate (compare_sem_version alpha_1 alpha_beta))
    × ((compare_sem_version alpha_1 alpha_beta ≡ pos 0) ↔ (alpha_1 ≡ alpha_beta))
compare_sem_version-IsOrder_example =
    compare_sem_version-IsOrder alpha_1 alpha_beta release alpha_1-IsInRange alpha_beta-IsInRange tt
