-- ===== src/Editor/Moves.antt =====
-- The operations that move the cursor; the result says whether it moved.
use notch.Prelude.{
  ℕ, ◌+◌, ◌-◌, Bool, true, false, not, none, some, ◌==◌, if◌then◌else◌, length, take, drop,
}
use notch.Editor.State.{
  RuneTable, Editor, leave_vertical_movement, back_while, forward_while, line_start, line_end,
  is_word, display_width, cursor_at_column,
}

unfoldable pub move_left : Editor → Editor × Bool
unfolding leave_vertical_movement
move_left e =
    if e.cursor == 0
    then (e, false)
    else (leave_vertical_movement (record e { cursor = e.cursor - 1 }), true)

unfoldable pub move_right : Editor → Editor × Bool
unfolding leave_vertical_movement
move_right e =
    if e.cursor == length e.text
    then (e, false)
    else (leave_vertical_movement (record e { cursor = e.cursor + 1 }), true)

-- A move to `cursor`, and whether it is another place.
unfoldable pub move_to : ℕ → Editor → Editor × Bool
unfolding leave_vertical_movement
move_to cursor e =
    (leave_vertical_movement (record e { cursor = cursor }), not (cursor == e.cursor))

unfoldable pub move_home : Editor → Editor × Bool
unfolding move_to
move_home e = move_to (line_start e.text e.cursor) e

unfoldable pub move_end : Editor → Editor × Bool
unfolding move_to
move_end e = move_to (line_end e.text e.cursor) e

module _ (t : RuneTable) where
  unfoldable pub move_word_left : Editor → Editor × Bool
  unfolding move_to
  move_word_left e =
      move_to (back_while (is_word t) e.text (back_while (λ r. not (is_word t r)) e.text e.cursor))
        e

  unfoldable pub move_word_right : Editor → Editor × Bool
  unfolding move_to
  move_word_right e =
      move_to
        (forward_while (is_word t) e.text (forward_while (λ r. not (is_word t r)) e.text e.cursor))
        e

  -- The column that a run of vertical moves keeps to.
  unfoldable pub column : Editor → ℕ
  column e = elim e.preferred_col [
    | none ↦
        let start = line_start e.text e.cursor in
        display_width t (take (e.cursor - start) (drop start e.text))
    | some col ↦ col
  ]

  unfoldable pub move_up : Editor → Editor × Bool
  move_up e =
      let start = line_start e.text e.cursor in
      if start == 0 then (e, false) else (
        record e {
          preferred_col = some (column e);
          cursor = cursor_at_column t e.text (line_start e.text (start - 1)) (start - 1) (column e);
        },
        true,
      )

  unfoldable pub move_down : Editor → Editor × Bool
  move_down e =
      let end = line_end e.text e.cursor in
      if end == length e.text then (e, false) else (
        record e {
          preferred_col = some (column e);
          cursor = cursor_at_column t e.text (end + 1) (line_end e.text (end + 1)) (column e);
        },
        true,
      )
