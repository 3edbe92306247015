-- ===== src/Semver.antt =====
-- internal/upgrade/semver.go: the versions of releases, their parsing and their order. A byte of
-- an identifier is read as its rune: a byte above 127 is refused, as its rune is.
pub mod Numbers
pub mod Parse
pub mod Order
pub mod Overflow
mod Tests
use notch.Prelude.{
  ℕ, zero, suc, ◌+◌, ◌-◌, ◌*◌, ◌/◌, ◌%◌, ◌^◌, ◌≡◌, refl, Bool, true, false, ◌&&◌, ◌||◌, not, Option,
  none, some, List, [], ◌∷◌, ◌++◌, ltb, leb, ◌==◌, if◌then◌else◌, length,
}
use notch.Prelude.Int.{ℤ, pos, negsuc}
use notch.Go.Bytes.{Bytes, codes, bytes_eq}
use notch.Go.Space.{trim_space}
use notch.Go.Strings.{bytes_lt}

pub record SemVersion : Type 0 where
  pub major : ℕ
  pub minor : ℕ
  pub patch : ℕ
  pub prerelease : List Bytes

unfoldable pub is_digit : ℕ → Bool
is_digit c = leb b'0' c && leb c b'9'

unfoldable pub all_digits : Bytes → Bool
unfolding is_digit
all_digits [] = true
all_digits (c ∷ s) = is_digit c && all_digits s

unfoldable pub is_numeric : Bytes → Bool
unfolding all_digits
is_numeric [] = false
is_numeric (c ∷ s) = all_digits (c ∷ s)

unfoldable pub starts_with_zero : Bytes → Bool
starts_with_zero [] = false
starts_with_zero (c ∷ s) = c == b'0'

unfoldable pub valid_numeric_identifier : Bytes → Bool
unfolding is_numeric starts_with_zero
valid_numeric_identifier s =
    not (length s == 0) && is_numeric s && (length s == 1 || not (starts_with_zero s))

unfoldable pub is_identifier_byte : ℕ → Bool
unfolding is_digit
is_identifier_byte c =
    is_digit c || (leb b'A' c && leb c b'Z') || (leb b'a' c && leb c b'z') || c == b'-'

unfoldable pub all_identifier_bytes : Bytes → Bool
unfolding is_identifier_byte
all_identifier_bytes [] = true
all_identifier_bytes (c ∷ s) = is_identifier_byte c && all_identifier_bytes s

unfoldable pub valid_prerelease_identifier : Bytes → Bool
unfolding all_identifier_bytes
valid_prerelease_identifier s = not (length s == 0) && all_identifier_bytes s

-- What `parseSemVersion` asks of each identifier of a prerelease.
unfoldable pub valid_prerelease : Bytes → Bool
unfolding valid_prerelease_identifier is_numeric starts_with_zero
valid_prerelease s =
    valid_prerelease_identifier s && not (is_numeric s && ltb 1 (length s) && starts_with_zero s)

abbrev pub max_uint64 : ℕ
max_uint64 = 2 ^ 64 - 1

-- strconv.ParseUint(s, 10, 64) on digits: the value, and whether it is in range. Out of range the
-- value is the greatest uint64.
unfoldable pub parse_digits : Bytes → ℕ → ℕ × Bool
parse_digits [] n = (n, true)
parse_digits (c ∷ s) n =
    let n' = n * 10 + (c - b'0') in
    let rest = parse_digits s n' in if ltb max_uint64 n' then (max_uint64, false) else rest

unfoldable pub parse_uint : Bytes → ℕ × Bool
unfolding parse_digits
parse_uint s = parse_digits s 0

abbrev pub minus_one : ℤ
minus_one = negsuc 0

-- The body of the loop over the numbers; `pos 0` goes on.
unfoldable pub compare_number : ℕ → ℕ → ℤ
compare_number l r = if ltb l r then minus_one else if ltb r l then pos 1 else pos 0

-- The `switch` on two identifiers that differ.
unfoldable pub compare_identifier : Bytes → Bytes → ℤ
unfolding is_numeric parse_uint bytes_lt
compare_identifier l r =
    if is_numeric l && is_numeric r
    then if ltb (parse_uint l).0 (parse_uint r).0 then minus_one else pos 1
    else if is_numeric l
    then minus_one
    else if is_numeric r
    then pos 1
    else if bytes_lt l r
    then minus_one
    else pos 1

-- The loop over the identifiers, and the comparison of the lengths behind it.
unfoldable pub compare_prerelease : List Bytes → List Bytes → ℤ
compare_prerelease [] [] = pos 0
compare_prerelease [] (r ∷ rs) = minus_one
compare_prerelease (l ∷ ls) [] = pos 1
compare_prerelease (l ∷ ls) (r ∷ rs) =
    let rest = compare_prerelease ls rs in if bytes_eq l r then rest else compare_identifier l r

-- A version with no prerelease comes behind those with one.
unfoldable pub compare_tags : List Bytes → List Bytes → ℤ
unfolding compare_prerelease compare_identifier
compare_tags [] [] = pos 0
compare_tags [] (r ∷ rs) = pos 1
compare_tags (l ∷ ls) [] = minus_one
compare_tags (l ∷ ls) (r ∷ rs) = compare_prerelease (l ∷ ls) (r ∷ rs)

-- The first comparison that is not 0.
abbrev pub or_next : ℤ → ℤ → ℤ
or_next (pos zero) next = next
or_next (pos (suc n)) next = pos (suc n)
or_next (negsuc n) next = negsuc n

unfoldable pub compare_sem_version : SemVersion → SemVersion → ℤ
unfolding compare_number compare_tags
compare_sem_version l r = or_next (compare_number l.major r.major) (
    or_next (compare_number l.minor r.minor)
      (or_next (compare_number l.patch r.patch) (compare_tags l.prerelease r.prerelease)))
