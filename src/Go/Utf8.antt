-- ===== src/Go/Utf8.antt =====
-- utf8.ValidString: the bytes are whole, shortest, surrogate-free UTF-8 sequences.
use notch.Prelude.{ℕ, ◌≡◌, refl, Bool, true, false, ◌&&◌, [], ◌∷◌, ltb, leb, ◌==◌, if◌then◌else◌}
use notch.Go.Bytes.{Bytes}

-- Where a sequence stands: the bounds of its next byte, and the continuation bytes after that.
pub data Expect : Type 0 where
  start broken : Expect
  next1 next2 next3 : ℕ → ℕ → Expect

lead : ℕ → Expect
lead c =
    if ltb c 0x80
    then start
    else if leb 0xC2 c && leb c 0xDF
    then next1 0x80 0xBF
    else if c == 0xE0
    then next2 0xA0 0xBF
    else if c == 0xED
    then next2 0x80 0x9F
    else if leb 0xE1 c && leb c 0xEF
    then next2 0x80 0xBF
    else if c == 0xF0
    then next3 0x90 0xBF
    else if c == 0xF4
    then next3 0x80 0x8F
    else if leb 0xF1 c && leb c 0xF3
    then next3 0x80 0xBF
    else broken

advance : Expect → ℕ → Expect
unfolding lead
advance start c = lead c
advance broken c = broken
advance (next1 lo hi) c = if leb lo c && leb c hi then start else broken
advance (next2 lo hi) c = if leb lo c && leb c hi then next1 0x80 0xBF else broken
advance (next3 lo hi) c = if leb lo c && leb c hi then next2 0x80 0xBF else broken

is_start : Expect → Bool
is_start start = true
is_start _ = false

valid_from : Expect → Bytes → Bool
unfolding advance is_start
valid_from e [] = is_start e
valid_from e (c ∷ s) = valid_from (advance e c) s

unfoldable pub valid_string : Bytes → Bool
unfolding valid_from
valid_string s = valid_from start s

pub valid_string-nil : valid_string [] ≡ true
unfolding valid_string
valid_string-nil = refl

euro : valid_string (0xE2 ∷ 0x82 ∷ 0xAC ∷ []) ≡ true
unfolding valid_string
euro = refl

cut_euro : valid_string (0xE2 ∷ 0x82 ∷ []) ≡ false
unfolding valid_string
cut_euro = refl
