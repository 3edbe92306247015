-- ===== src/Editor/State.antt =====
-- The editor's state and the loops over its text. What unicode.IsLetter, unicode.IsNumber and
-- runewidth.RuneWidth say of a rune is a parameter, a `RuneTable`.
use notch.Prelude.{
  ℕ, zero, suc, ◌+◌, ◌-◌, Bool, not, ◌||◌, Option, none, List, [], ◌∷◌, ltb, ◌==◌, if◌then◌else◌,
  length, get_or, take, drop,
}
use notch.Prelude.Int.{ℤ, ltb_ℤ, sub_ℕ, pos_part}

pub record RuneTable : Type 0 where
  pub is_letter : ℕ → Bool
  pub is_number : ℕ → Bool
  pub rune_width : ℕ → ℕ

abbrev pub Runes : Type 0
Runes = List ℕ

pub record Editor : Type 0 where
  pub text : Runes
  pub cursor : ℕ
  pub history : List Runes
  pub history_index : Option ℕ
  pub draft : Runes
  pub preferred_col : Option ℕ

unfoldable pub new_editor : List Runes → Editor
new_editor history = record {
  text = [];
  cursor = 0;
  history = history;
  history_index = none;
  draft = [];
  preferred_col = none;
}

-- `leaveVerticalMovement`
unfoldable pub leave_vertical_movement : Editor → Editor
leave_vertical_movement e = record e { preferred_col = none }

-- The bounds are positions, and `n` is any int.
unfoldable pub clamp_editor : ℤ → ℕ → ℕ → ℕ
clamp_editor n low high =
    if ltb_ℤ n (sub_ℕ low 0) then low else if ltb_ℤ (sub_ℕ high 0) n then high else pos_part n

-- `for pos > 0 && test(text[pos-1]) { pos-- }`
unfoldable pub back_while : (ℕ → Bool) → Runes → ℕ → ℕ
back_while test text zero = 0
back_while test text (suc pos) =
    let rest = back_while test text pos in if test (get_or text pos 0) then rest else suc pos

-- The runes that `for pos < len(text) && test(text[pos]) { pos++ }` passes, from `rest` on.
unfoldable pub run_length : (ℕ → Bool) → Runes → ℕ
run_length test [] = 0
run_length test (c ∷ rest) = let n = run_length test rest in if test c then suc n else 0

unfoldable pub forward_while : (ℕ → Bool) → Runes → ℕ → ℕ
forward_while test text pos = pos + run_length test (drop pos text)

unfoldable pub not_newline : ℕ → Bool
not_newline c = not (c == 10)

unfoldable pub line_start : Runes → ℕ → ℕ
line_start text pos = back_while not_newline text (clamp_editor (sub_ℕ pos 0) 0 (length text))

unfoldable pub line_end : Runes → ℕ → ℕ
line_end text pos = forward_while not_newline text (clamp_editor (sub_ℕ pos 0) 0 (length text))

module _ (t : RuneTable) where
  unfoldable pub is_word : ℕ → Bool
  is_word r = r == b'_' || t.is_letter r || t.is_number r

  unfoldable pub editor_rune_width : ℕ → ℕ
  editor_rune_width r = if r == 9 then 1 else t.rune_width r

  unfoldable pub display_width : Runes → ℕ
  display_width [] = 0
  display_width (r ∷ rs) = editor_rune_width r + display_width rs

  -- `cursorAtColumn`: the runes of the line that fit into the columns left of `column`.
  unfoldable pub fitting : Runes → ℕ → ℕ → ℕ
  fitting [] width column = 0
  fitting (r ∷ rs) width column =
      let n = fitting rs (width + editor_rune_width r) column in
      if ltb column (width + editor_rune_width r) then 0 else suc n

  unfoldable pub cursor_at_column : Runes → ℕ → ℕ → ℕ → ℕ
  cursor_at_column text start end column =
      start + fitting (take (end - start) (drop start text)) 0 column
