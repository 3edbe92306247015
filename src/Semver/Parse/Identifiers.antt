-- ===== src/Semver/Parse/Identifiers.antt =====
-- The identifiers of a version that are accepted (internal/upgrade/semver.go).
use notch.Prelude.{ℕ, ◌≤◌, ◌≡◌, true, List, [], ◌∷◌, arith, ◌⊎◌, length, All}
use notch.Go.Bytes.{Bytes}
use notch.Semver.{
  is_digit, is_identifier_byte, all_identifier_bytes, is_numeric, valid_numeric_identifier,
  valid_prerelease, valid_prerelease_identifier,
}
use notch.Semver.Parse.{all_pass}

-- A digit, a letter or a hyphen.
abbrev pub IsWordByte : ℕ → Type 0
IsWordByte c =
    ((b'0' ≤ c) × (c ≤ b'9'))
    ⊎ (((b'A' ≤ c) × (c ≤ b'Z')) ⊎ (((b'a' ≤ c) × (c ≤ b'z')) ⊎ (c ≡ b'-')))

abbrev pub IsIdentifier : Bytes → Type 0
IsIdentifier p = (1 ≤ length p) × All IsWordByte p

-- No zero in front of a number.
abbrev pub IsTag : Bytes → Type 0
IsTag p = IsIdentifier p × (is_numeric p ≡ true → valid_numeric_identifier p ≡ true)

word_byte : (c : ℕ) → is_identifier_byte c ≡ true → IsWordByte c
unfolding is_identifier_byte is_digit
word_byte c h = ground arith

word_bytes : (s : Bytes) → all_identifier_bytes s ≡ true → All IsWordByte s
unfolding all_identifier_bytes
word_bytes [] h = tt
word_bytes (c ∷ s) h =
    let here : is_identifier_byte c ≡ true = ground arith in
    (word_byte c here, word_bytes s (ground arith))

identifier : (p : Bytes) → valid_prerelease_identifier p ≡ true → IsIdentifier p
unfolding valid_prerelease_identifier
identifier p h =
    let bytes : all_identifier_bytes p ≡ true = ground arith in (ground arith, word_bytes p bytes)

pub identifiers :
    (ps : List Bytes) → all_pass valid_prerelease_identifier ps ≡ true → All IsIdentifier ps
unfolding all_pass
identifiers [] h = tt
identifiers (p ∷ ps) h =
    let here : valid_prerelease_identifier p ≡ true = ground arith in
    (identifier p here, identifiers ps (ground arith))

tag : (p : Bytes) → valid_prerelease p ≡ true → IsTag p
unfolding valid_prerelease valid_numeric_identifier valid_prerelease_identifier
tag p h =
    let here : valid_prerelease_identifier p ≡ true = ground arith in
    (identifier p here, λ numeric. ground arith)

pub each-IsTag : (ps : List Bytes) → All (λ p. valid_prerelease p ≡ true) ps → All IsTag ps
each-IsTag [] h = tt
each-IsTag (p ∷ ps) (here, h) = (tag p here, each-IsTag ps h)
