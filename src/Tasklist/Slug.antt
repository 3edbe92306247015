-- ===== src/Tasklist/Slug.antt =====
-- `uniqueID`: the slug of a text, and the first suffix that makes it new.
pub mod Free
use mathlib.Core.List.{reverse}
use notch.Prelude.{
  ℕ, zero, suc, ◌+◌, Bool, true, false, ◌&&◌, ◌||◌, List, [], ◌∷◌, ◌++◌, ◌==◌, ltb, leb,
  if◌then◌else◌, length, take, any,
}
use notch.Go.Bytes.{Bytes, bytes_eq}
use notch.Go.Strconv.{itoa}

unfoldable pub is_slug : ℕ → Bool
is_slug c = (leb b'a' c && leb c b'z') || (leb b'0' c && leb c b'9')

-- nonSlug.ReplaceAllString(s, "-"): a run of other bytes becomes one dash; `inside` such a run.
unfoldable pub dash_runs : Bool → Bytes → Bytes
unfolding is_slug
dash_runs inside [] = []
dash_runs inside (c ∷ s) =
    let next = dash_runs false s in
    let run = dash_runs true s in if is_slug c then c ∷ next else if inside then run else b'-' ∷ run

-- strings.Trim and strings.TrimRight for dashes.
unfoldable pub trim_dashes_left : Bytes → Bytes
trim_dashes_left [] = []
trim_dashes_left (c ∷ s) = let rest = trim_dashes_left s in if c == b'-' then rest else c ∷ s

unfoldable pub trim_dashes_right : Bytes → Bytes
unfolding trim_dashes_left
trim_dashes_right s = reverse (trim_dashes_left (reverse s))

unfoldable pub slug : (Bytes → Bytes) → Bytes → Bytes
unfolding dash_runs trim_dashes_left trim_dashes_right
slug to_lower value =
    let id = trim_dashes_right (trim_dashes_left (dash_runs false (to_lower value))) in
    if ltb 32 (length id) then trim_dashes_right (take 32 id) else id

-- The map `used` as the list of its keys.
unfoldable pub is_used : List Bytes → Bytes → Bool
unfolding bytes_eq
is_used used id = any (bytes_eq id) used

-- What the loop tries: the base, then the base with -2, -3 and so on.
unfoldable pub candidate : Bytes → ℕ → Bytes
unfolding itoa
candidate base zero = base
candidate base (suc k) = base ++ b'-' ∷ itoa (k + 2)

-- The loop at its `k`-th candidate. Each round meets another used key, so that one more round than
-- there are keys is fuel enough.
unfoldable pub find_free : ℕ → List Bytes → Bytes → ℕ → Bytes
unfolding is_used candidate
find_free zero used base k = candidate base k
find_free (suc fuel) used base k =
    let next = find_free fuel used base (suc k) in
    if is_used used (candidate base k) then next else candidate base k

unfoldable pub unique_id : (Bytes → Bytes) → Bytes → List Bytes → Bytes → Bytes
unfolding slug find_free
unique_id to_lower value used fallback =
    let id = slug to_lower value in
    find_free (suc (length used)) used (if length id == 0 then fallback else id) 0
