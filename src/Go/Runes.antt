-- ===== src/Go/Runes.antt =====
-- The runes of a text of bytes, as their bytes: `[]rune` and back, and strings.Fields. A byte that
-- starts no valid sequence is a piece of its own.
use notch.Prelude.{
  ℕ, zero, suc, ◌-◌, ◌≡◌, refl, Bool, false, ◌&&◌, List, [], ◌∷◌, ◌++◌, leb, if◌then◌else◌, length,
  take,
}
use notch.Go.Bytes.{Bytes, codes}
use notch.Go.Utf8.{valid_string}
use notch.Go.Space.{is_ascii_space, is_space2, is_space3}

-- Whether the first `n` bytes are there and are valid.
unfoldable pub starts_valid : ℕ → Bytes → Bool
unfolding valid_string
starts_valid n s = leb n (length s) && valid_string (take n s)

unfoldable pub width : Bytes → ℕ
unfolding starts_valid
width s =
    if starts_valid 1 s
    then 1
    else if starts_valid 2 s
    then 2
    else if starts_valid 3 s
    then 3
    else if starts_valid 4 s
    then 4
    else 1

-- `skip` bytes belong to the piece in front.
unfoldable pub pieces_from : ℕ → Bytes → List Bytes
unfolding width
pieces_from skip [] = []
pieces_from (suc skip) (c ∷ s) = pieces_from skip s
pieces_from zero (c ∷ s) = let n = width (c ∷ s) in take n (c ∷ s) ∷ pieces_from (n - 1) s

unfoldable pub pieces : Bytes → List Bytes
unfolding pieces_from
pieces s = pieces_from 0 s

unfoldable pub concat : List Bytes → Bytes
concat [] = []
concat (p ∷ ps) = p ++ concat ps

-- The rune of a piece, written in UTF-8: U+FFFD for an invalid byte.
unfoldable pub rune : Bytes → Bytes
unfolding valid_string
rune p = if valid_string p then p else 0xEF ∷ 0xBF ∷ 0xBD ∷ []

unfoldable pub is_space : Bytes → Bool
is_space (a ∷ []) = is_ascii_space a
is_space (a ∷ b ∷ []) = is_space2 a b
is_space (a ∷ b ∷ c ∷ []) = is_space3 a b c
is_space _ = false

unfoldable pub closed : Bytes → List Bytes → List Bytes
closed [] fields = fields
closed (c ∷ s) fields = (c ∷ s) ∷ fields

unfoldable pub fields_from : List Bytes → Bytes → List Bytes
unfolding closed is_space
fields_from [] field = closed field []
fields_from (p ∷ ps) field =
    let inside = fields_from ps (field ++ p) in
    let outside = closed field (fields_from ps []) in if is_space p then outside else inside

unfoldable pub fields : Bytes → List Bytes
unfolding fields_from pieces
fields s = fields_from (pieces s) []

unfoldable pub join_spaces : List Bytes → Bytes
join_spaces [] = []
join_spaces (p ∷ []) = p
join_spaces (p ∷ q ∷ ps) = p ++ b' ' ∷ join_spaces (q ∷ ps)

splits : fields (codes " a  bc ") ≡ codes "a" ∷ codes "bc" ∷ []
unfolding fields is_ascii_space is_space2 is_space3
splits = refl

replaces : rune (0xFF ∷ []) ≡ 0xEF ∷ 0xBF ∷ 0xBD ∷ []
unfolding rune
replaces = refl
