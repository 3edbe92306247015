-- ===== src/Semver/Parse.antt =====
-- `parseSemVersion` of internal/upgrade/semver.go; an error is `none`.
pub mod Laws
pub mod Print
pub mod Identifiers
use notch.Prelude.{
  ℕ, suc, ◌+◌, ◌≤◌, ◌≡◌, refl, Bool, true, false, not, ◌&&◌, ◌||◌, Option, none, some, List, [],
  ◌∷◌, ◌>>=◌, ◌>>◌, arith, ◌⊎◌, inl, inr, ltb, ◌==◌, if◌then◌else◌, length, All, Option-cases,
  Bool-cases,
}
use notch.Go.Bytes.{Bytes, codes}
use notch.Go.Space.{trim_space}
use notch.Semver.{
  SemVersion, is_numeric, starts_with_zero, valid_numeric_identifier, valid_prerelease_identifier,
  valid_prerelease, max_uint64, parse_uint,
}
use notch.Semver.Numbers.{value, parse_uint_fits}
use notch.Semver.Order.{InRange, IsInRange}

abbrev pub check : Bool → Option (Unit {0})
check true = some tt
check false = none

-- strings.Split at one byte: there is always a first part.
abbrev pub prepend : ℕ → List Bytes → List Bytes
prepend c [] = (c ∷ []) ∷ []
prepend c (p ∷ ps) = (c ∷ p) ∷ ps

pub split : ℕ → Bytes → List Bytes
split sep [] = [] ∷ []
split sep (c ∷ s) = let rest = split sep s in if c == sep then [] ∷ rest else prepend c rest

-- What stands before and behind the first `sep`, by strings.IndexByte.
pub cut : ℕ → Bytes → Option (Bytes × Bytes)
cut sep [] = none
cut sep (c ∷ s) =
    let rest = cut sep s in if c == sep then some ([], s) else rest >>= λ p. some (c ∷ p.0, p.1)

pub trim_v : Bytes → Bytes
trim_v [] = []
trim_v (c ∷ s) = if c == b'v' then s else c ∷ s

abbrev pub first_is_empty : List Bytes → Bool
first_is_empty [] = true
first_is_empty (p ∷ ps) = length p == 0

unfoldable pub all_pass : (Bytes → Bool) → List Bytes → Bool
all_pass test [] = true
all_pass test (p ∷ ps) = test p && all_pass test ps

-- The version without its build metadata.
pub drop_build : Bytes → Option Bytes
unfolding split cut
drop_build s = elim (cut b'+' s) [
  | none ↦ some s
  | some (before, metadata) ↦ do
    check (not (first_is_empty (split b'.' metadata)))
    check (all_pass valid_prerelease_identifier (split b'.' metadata))
    some before
]

-- The core, and the identifiers of the prerelease.
pub split_prerelease : Bytes → Option (Bytes × List Bytes)
unfolding split cut
split_prerelease s = elim (cut b'-' s) [
  | none ↦ some (s, [])
  | some (core, behind) ↦ do
    check (not (first_is_empty (split b'.' behind)))
    some (core, split b'.' behind)
]

pub parse_number : Bytes → Option ℕ
parse_number part =
    let (n, in_range) = parse_uint part in
    if valid_numeric_identifier part && in_range then some n else none

pub parse_core : List Bytes → List Bytes → Option SemVersion
parse_core (a ∷ b ∷ c ∷ []) prerelease = do
  major ← parse_number a
  minor ← parse_number b
  patch ← parse_number c
  check (all_pass valid_prerelease prerelease)
  some (record { major = major; minor = minor; patch = patch; prerelease = prerelease })
parse_core _ prerelease = none

unfoldable pub parse_sem_version : Bytes → Option SemVersion
unfolding drop_build split_prerelease parse_core parse_number split trim_v all_pass
parse_sem_version s = do
  version ← drop_build (trim_v (trim_space s))
  parts ← split_prerelease version
  parse_core (split b'.' parts.0) parts.1

parses :
    parse_sem_version (codes " v1.20.3-rc.1+build.5")
    ≡ some (record { major = 1; minor = 20; patch = 3; prerelease = codes "rc" ∷ codes "1" ∷ [] })
unfolding parse_sem_version trim_space valid_prerelease_identifier valid_numeric_identifier
    parse_uint valid_prerelease
parses = refl

refuses_zero : parse_sem_version (codes "1.02.3") ≡ none
unfolding parse_sem_version trim_space valid_numeric_identifier parse_uint
refuses_zero = refl
