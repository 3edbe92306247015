-- ===== src/Semver/Parse/Print.antt =====
-- The text of an accepted version.
use mathlib.Core.Path.{subst}
use mathlib.Core.Option.{some-injective}
use notch.Prelude.{
  ℕ, ◌≤◌, ◌≡◌, refl, sym, ap, ap₂, ◌∙◌, ==_iff, if_split, append-nil, Bool, true, false, not,
  Option, none, some, List, [], ◌∷◌, ◌++◌, arith, ◌⊎◌, inl, inr, ◌==◌, ◌>>=◌, ◌>>◌, dec_lt,
  Bool-cases, Option-cases, length, All,
}
use notch.Go.Bytes.{Bytes}
use notch.Go.Space.{trim_space}
use notch.Semver.{
  SemVersion, valid_numeric_identifier, valid_prerelease, valid_prerelease_identifier, max_uint64,
}
use notch.Semver.Numbers.{value, parse_uint_fits, parse_uint_overflow}
use notch.Semver.Parse.{
  first_is_empty, check, split, prepend, cut, trim_v, drop_build, split_prerelease, parse_number,
  parse_core, parse_sem_version, all_pass,
}
use notch.Semver.Parse.Identifiers.{IsIdentifier, IsTag, identifiers, each-IsTag}
use notch.Semver.Parse.Laws.{parse_sem_version-IsWellFormed}

-- strings.Join with one byte between.
abbrev pub join : ℕ → List Bytes → Bytes
join sep [] = []
join sep (p ∷ []) = p
join sep (p ∷ q ∷ ps) = p ++ sep ∷ join sep (q ∷ ps)

abbrev pub tags : List Bytes → Bytes
tags [] = []
tags (p ∷ ps) = b'-' ∷ join b'.' (p ∷ ps)

-- The digits, with no zero in front, spell the number, which a uint64 holds.
abbrev pub Spells : Bytes → ℕ → Type 0
Spells s n = (valid_numeric_identifier s ≡ true) × (value 0 s ≡ n) × (n ≤ max_uint64)

abbrev pub IsBuild : Bytes → Type 0
IsBuild s =
    (s ≡ [])
    ⊎ ((ids : List Bytes) × (s ≡ b'+' ∷ join b'.' ids) × (1 ≤ length ids) × All IsIdentifier ids)

checked : {B : Type 0} (b : Bool) (o : Option B) (x : B) → (check b >> o) ≡ some x → b ≡ true
checked true o x h = refl
checked false o x h = cc

inversion :
    {A B : Type 0} (m : Option A) (f : A → Option B) (b : B)
    → (m >>= f) ≡ some b
    → (a : A) × (m ≡ some a) × (f a ≡ some b)
inversion none f b h = cc
inversion (some a) f b h = (a, refl, h)

guarded : {B : Type 0} (b : Bool) (o : Option B) (x : B) → (check b >> o) ≡ some x → o ≡ some x
guarded true o x h = h
guarded false o x h = cc

join-prepend :
    (sep c : ℕ) (ps : List Bytes) → 1 ≤ length ps → join sep (prepend c ps) ≡ c ∷ join sep ps
join-prepend sep c [] h = absurd (omega arith)
join-prepend sep c (p ∷ []) h = refl
join-prepend sep c (p ∷ q ∷ ps) h = refl

join-cons : (sep : ℕ) (ps : List Bytes) → 1 ≤ length ps → join sep ([] ∷ ps) ≡ sep ∷ join sep ps
join-cons sep [] h = absurd (omega arith)
join-cons sep (p ∷ ps) h = refl

length-prepend : (c : ℕ) (ps : List Bytes) → 1 ≤ length (prepend c ps)
length-prepend c [] = omega arith
length-prepend c (p ∷ ps) = omega arith

length-split : (sep : ℕ) (s : Bytes) → 1 ≤ length (split sep s)
unfolding split
length-split sep [] = omega arith
length-split sep (c ∷ s) =
    if_split (λ ps. 1 ≤ length ps) (c == sep) ([] ∷ split sep s) _ (λ e. omega arith)
      (λ e. length-prepend c (split sep s))

join-split : (sep : ℕ) (s : Bytes) → join sep (split sep s) ≡ s
unfolding split
join-split sep [] = refl
join-split sep (c ∷ s) =
    if_split (λ ps. join sep ps ≡ c ∷ s) (c == sep) ([] ∷ split sep s) (prepend c (split sep s))
      (λ e.
        join-cons sep (split sep s) (length-split sep s)
        ∙ ap₂ (λ d k. d ∷ k) (sym ((==_iff c sep).0 e)) (join-split sep s))
      (λ e.
        join-prepend sep c (split sep s) (length-split sep s) ∙ ap (λ k. c ∷ k) (join-split sep s))

cut_lem : (sep : ℕ) (s x y : Bytes) → cut sep s ≡ some (x, y) → s ≡ x ++ sep ∷ y
unfolding cut
cut_lem sep [] x y h = cc
cut_lem sep (c ∷ s) x y h = elim (Bool-cases (c == sep)) [
  | inl e ↦
      let q = some-injective ([], s) (x, y) (rw e at h) in
      ap (λ d. d ∷ s) ((==_iff c sep).0 e) ∙ ap (λ p. p.0 ++ sep ∷ p.1) q
  | inr e ↦
      let (p, found, q) = inversion (cut sep s) (λ p. some (c ∷ p.0, p.1)) (x, y) (rw e at h) in
      ap (λ k. c ∷ k) (cut_lem sep s p.0 p.1 found)
      ∙ ap (λ p. p.0 ++ sep ∷ p.1) (some-injective (c ∷ p.0, p.1) (x, y) q)
]

tags-join : (ps : List Bytes) → 1 ≤ length ps → tags ps ≡ b'-' ∷ join b'.' ps
tags-join [] h = absurd (omega arith)
tags-join (p ∷ ps) h = refl

tags-split : (s : Bytes) → tags (split b'.' s) ≡ b'-' ∷ s
tags-split s =
    tags-join (split b'.' s) (length-split b'.' s) ∙ ap (λ k. b'-' ∷ k) (join-split b'.' s)

drop_build_lem :
    (s t : Bytes) → drop_build s ≡ some t → (build : Bytes) × (s ≡ t ++ build) × IsBuild build
unfolding drop_build
drop_build_lem s t h = elim (Option-cases (cut b'+' s)) [
  | inl e ↦ ([], some-injective s t (rw (drop_build, e) at h) ∙ sym (append-nil t), inl refl)
  | inr ((before, metadata), e) ↦
      let parts = split b'.' metadata in
      let passed = guarded (not (first_is_empty parts)) _ t (rw (drop_build, e) at h) in
      let q = guarded (all_pass valid_prerelease_identifier parts) (some before) t passed in
      (
        b'+' ∷ metadata,
        cut_lem b'+' s before metadata e
            ∙ ap (λ k. k ++ b'+' ∷ metadata) (some-injective before t q),
        inr (
          parts,
          ap (λ k. b'+' ∷ k) (sym (join-split b'.' metadata)),
          length-split b'.' metadata,
          identifiers parts
              (checked (all_pass valid_prerelease_identifier parts) (some before) t passed),
        ),
      )
]

split_prerelease_lem :
    (t core : Bytes) (ids : List Bytes)
    → split_prerelease t ≡ some (core, ids)
    → t ≡ core ++ tags ids
unfolding split_prerelease
split_prerelease_lem t core ids h = elim (Option-cases (cut b'-' t)) [
  | inl e ↦
      sym (append-nil t)
      ∙ ap (λ p. p.0 ++ tags p.1)
          (some-injective (t, []) (core, ids) (rw (split_prerelease, e) at h))
  | inr ((before, behind), e) ↦
      let ps = split b'.' behind in
      let q =
        guarded (not (first_is_empty ps)) (some (before, ps)) (core, ids)
          (rw (split_prerelease, e) at h) in
      cut_lem b'-' t before behind e
      ∙ ap (λ k. before ++ k) (sym (tags-split behind))
      ∙ ap (λ p. p.0 ++ tags p.1) (some-injective (before, split b'.' behind) (core, ids) q)
]

parse_number-Spells : (s : Bytes) (n : ℕ) → parse_number s ≡ some n → Spells s n
unfolding parse_number
parse_number-Spells s n h = elim (dec_lt max_uint64 (value 0 s)) [
  | yes large ↦ absurd (ground (arith, parse_uint_overflow s large))
  | no small ↦ ground (arith, parse_uint_fits s (omega arith))
]

-- The core of the text, by its three numbers.
abbrev pub IsCore : Bytes → SemVersion → Type 0
IsCore core v =
    (major : Bytes) × (minor : Bytes) × (patch : Bytes) × (core
      ≡ join b'.' (major ∷ minor ∷ patch ∷ []))
    × Spells major v.major
    × Spells minor v.minor
    × Spells patch v.patch

parse_core-IsCore :
    (core : Bytes) (parts ids : List Bytes) (v : SemVersion)
    → core ≡ join b'.' parts
    → parse_core parts ids ≡ some v
    → IsCore core v × (v.prerelease ≡ ids)
unfolding parse_core
parse_core-IsCore core [] ids v same h = cc
parse_core-IsCore core (a ∷ []) ids v same h = cc
parse_core-IsCore core (a ∷ b ∷ []) ids v same h = cc
parse_core-IsCore core (a ∷ b ∷ c ∷ d ∷ r) ids v same h = cc
parse_core-IsCore core (a ∷ b ∷ c ∷ []) ids v same h =
    let (major, ha, h₁) = inversion (parse_number a) _ v h in
    let (minor, hb, h₂) = inversion (parse_number b) _ v h₁ in
    let (patch, hc, h₃) = inversion (parse_number c) _ v h₂ in
    let read : SemVersion = record {
      major = major;
      minor = minor;
      patch = patch;
      prerelease = ids;
    } in
    let whole = some-injective read v (guarded (all_pass valid_prerelease ids) (some read) v h₃) in
    (
      (
        a,
        b,
        c,
        same,
        subst (Spells a) (ap (λ w. w.major) whole) (parse_number-Spells a major ha),
        subst (Spells b) (ap (λ w. w.minor) whole) (parse_number-Spells b minor hb),
        subst (Spells c) (ap (λ w. w.patch) whole) (parse_number-Spells c patch hc),
      ),
      sym (ap (λ w. w.prerelease) whole),
    )

-- The text of a version that `parseSemVersion` accepts, without the space around it and a `v` in
-- front, is three numbers joined by dots, then, if the version has a prerelease, a hyphen and
-- its identifiers joined by dots, and then nothing, or a plus sign and one or more identifiers
-- joined by dots. Each number of the version is what its digits spell, with no zero in front,
-- and is below 2^64; each identifier has at least one byte, and only digits, letters and
-- hyphens; in the prerelease a number has no zero in front.
pub parse_sem_version_lem :
    (s : Bytes) (v : SemVersion)
    → parse_sem_version s ≡ some v
    → (core : Bytes) × (build : Bytes) × (trim_v (trim_space s)
        ≡ core ++ tags v.prerelease ++ build)
      × IsCore core v
      × IsBuild build
      × All IsTag v.prerelease
unfolding parse_sem_version
parse_sem_version_lem s v h =
    let (version, hv, h') = inversion (drop_build (trim_v (trim_space s))) _ v h in
    let (parts, hp, hc) = inversion (split_prerelease version) _ v h' in
    let (build, text, built) = drop_build_lem (trim_v (trim_space s)) version hv in
    let (core, ids) =
      parse_core-IsCore parts.0 (split b'.' parts.0) parts.1 v (sym (join-split b'.' parts.0)) hc in
    (
      parts.0,
      build,
      text
          ∙ ap (λ k. k ++ build) (split_prerelease_lem version parts.0 parts.1 hp)
          ∙ ap (λ k. parts.0 ++ tags k ++ build) (sym ids),
      core,
      built,
      each-IsTag v.prerelease (parse_sem_version-IsWellFormed s v h).prerelease,
    )
