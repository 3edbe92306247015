-- ===== src/Semver/Parse/Laws.antt =====
-- What an accepted text gives.
use notch.Prelude.{
  ℕ, ◌≤◌, ◌≡◌, refl, Bool, true, false, Option, none, some, List, [], ◌∷◌, arith, ◌⊎◌, inl, inr,
  length, All, ◌>>=◌,
}
use notch.Go.Bytes.{Bytes}
use notch.Semver.{SemVersion, is_numeric, starts_with_zero, valid_prerelease, max_uint64}
use notch.Go.Space.{trim_space}
use notch.Semver.Numbers.{value, parse_uint-le}
use notch.Semver.Order.{InRange, IsInRange}
use notch.Semver.Parse.{
  all_pass, parse_number, parse_core, parse_sem_version, drop_build, split_prerelease, split,
  trim_v,
}

-- The numbers fit into a uint64, and each identifier passed its test.
pub record IsWellFormed (v : SemVersion) : Type 0 where
  pub major : v.major ≤ max_uint64
  pub minor : v.minor ≤ max_uint64
  pub patch : v.patch ≤ max_uint64
  pub prerelease : All (λ s. valid_prerelease s ≡ true) v.prerelease

-- A predicate of what is returned, if something is.
abbrev Gives : {A : Type 0} → (A → Type 0) → Option A → Type 0
Gives {A} P o = (a : A) → o ≡ some a → P a

Gives->>= :
    {A B : Type 0} {P : B → Type 0} (m : Option A) (f : A → Option B)
    → ((a : A) → Gives P (f a))
    → Gives P (m >>= f)
Gives->>= none f h b e = cc
Gives->>= (some a) f h b e = h a b e

All-of_pass :
    (test : Bytes → Bool) (ps : List Bytes) → all_pass test ps ≡ true → All (λ s. test s ≡ true) ps
unfolding all_pass
All-of_pass test [] h = tt
All-of_pass test (p ∷ ps) h = (ground arith, All-of_pass test ps (ground arith))

parse_number-le : (part : Bytes) (n : ℕ) → parse_number part ≡ some n → n ≤ max_uint64
unfolding parse_number
parse_number-le part n e = ground (arith, parse_uint-le part)

parse_core-IsWellFormed :
    (parts ps : List Bytes) (v : SemVersion) → parse_core parts ps ≡ some v → IsWellFormed v
unfolding parse_core
parse_core-IsWellFormed (a ∷ b ∷ c ∷ []) ps v e =
    let same : v.prerelease ≡ ps = ground arith in
    record {
      major = ground (arith, parse_number-le a v.major);
      minor = ground (arith, parse_number-le b v.minor);
      patch = ground (arith, parse_number-le c v.patch);
      prerelease = rw same (All-of_pass valid_prerelease ps (ground arith));
    }
parse_core-IsWellFormed [] ps v e = cc
parse_core-IsWellFormed (a ∷ []) ps v e = cc
parse_core-IsWellFormed (a ∷ b ∷ []) ps v e = cc
parse_core-IsWellFormed (a ∷ b ∷ c ∷ d ∷ r) ps v e = cc

-- A version that `parseSemVersion` accepts has numbers below 2^64, and each of its identifiers
-- passed its test.
pub parse_sem_version-IsWellFormed :
    (s : Bytes) (v : SemVersion) → parse_sem_version s ≡ some v → IsWellFormed v
unfolding parse_sem_version
parse_sem_version-IsWellFormed s = Gives->>= (drop_build (trim_v (trim_space s))) _ λ version.
    Gives->>= (split_prerelease version) _
      λ parts. parse_core-IsWellFormed (split b'.' parts.0) parts.1

canonical :
    (s : Bytes)
    → valid_prerelease s ≡ true
    → is_numeric s ≡ true
    → (length s ≡ 1) ⊎ (starts_with_zero s ≡ false)
unfolding valid_prerelease is_numeric
canonical [] h n = cc
canonical (c ∷ []) h n = inl refl
canonical (c ∷ d ∷ s) h n = inr (ground arith)

All-InRange :
    (ps : List Bytes)
    → All (λ s. valid_prerelease s ≡ true) ps
    → All (λ s. value 0 s ≤ max_uint64) ps
    → All InRange ps
All-InRange [] h f = tt
All-InRange (p ∷ ps) (h, hs) (f, fs) = ((λ n. (canonical p h n, f)), All-InRange ps hs fs)

-- So the order is total on the accepted versions whose identifiers spell numbers below 2^64.
pub parse_sem_version-IsInRange :
    (s : Bytes) (v : SemVersion)
    → parse_sem_version s ≡ some v
    → All (λ p. value 0 p ≤ max_uint64) v.prerelease
    → IsInRange v
parse_sem_version-IsInRange s v e h =
    All-InRange v.prerelease (parse_sem_version-IsWellFormed s v e).prerelease h
