-- ===== src/Editor/Lines.antt =====
-- The logical line that a position is on, and the moves between lines.
use notch.Prelude.{ℕ, suc, ◌+◌, ◌-◌, ◌≤◌, ◌<◌, ◌≡◌, ◌≢◌, true, false, arith, dec_lt, length, get_or}
use notch.Prelude.Int.{sub_ℕ}
use notch.Editor.State.{
  RuneTable, Runes, Editor, not_newline, forward_while, line_start, line_end, clamp_editor,
}
use notch.Editor.Loops.{
  clamp_editor_within, back_while_passed, back_while_stopped, forward_while_passed,
  forward_while_stopped, cursor_at_column_bounds,
}
use notch.Editor.Moves.{column, move_up, move_down}
use notch.Editor.Step.{IsValid, line_start-le, le-line_end, line_end-le}

abbrev pub newline : ℕ
newline = 10

-- The runes from `start` to `end` are the line that the position stands on.
pub record IsLineAt (text : Runes) (pos start end : ℕ) : Type 0 where
  pub before : start ≤ pos
  pub behind : pos ≤ end
  pub within : end ≤ length text
  pub plain : (i : ℕ) → start ≤ i → i < end → get_or text i 0 ≢ newline
  pub opened : (k : ℕ) → start ≡ suc k → get_or text k 0 ≡ newline
  pub closed : end < length text → get_or text end 0 ≡ newline

passes : (c : ℕ) → not_newline c ≡ true → c ≢ newline
unfolding not_newline
passes c h = ground arith

stops : (c : ℕ) → not_newline c ≡ false → c ≡ newline
unfolding not_newline
stops c h = ground arith

-- For a position within the text `lineStart` and `lineEnd` find the two ends of the line that
-- the position is on.
pub line_bounds :
    (text : Runes) (pos : ℕ)
    → pos ≤ length text
    → IsLineAt text pos (line_start text pos) (line_end text pos)
line_bounds text pos h = record {
  before = line_start-le text pos h;
  behind = le-line_end text pos h;
  within = line_end-le text pos;
  plain = plain;
  opened = opened;
  closed = closed;
}
  where
    at : clamp_editor (sub_ℕ pos 0) 0 (length text) ≡ pos
    at = clamp_editor_within pos (length text) h

    plain : (i : ℕ) → line_start text pos ≤ i → i < line_end text pos → get_or text i 0 ≢ newline
    plain i lo hi = elim (dec_lt i pos) [
      | yes lt ↦
          passes _ (back_while_passed not_newline text pos i (unfold line_start in rw at at lo) lt)
      | no ge ↦ passes _ (
          forward_while_passed not_newline text pos i (omega arith)
            (unfold line_end in rw at at hi))
    ]

    opened : (k : ℕ) → line_start text pos ≡ suc k → get_or text k 0 ≡ newline
    opened k e =
        stops _ (back_while_stopped not_newline text pos k (unfold line_start in rw at at e))

    closed : line_end text pos < length text → get_or text (line_end text pos) 0 ≡ newline
    closed lt =
        let e : line_end text pos ≡ forward_while not_newline text pos = unfold line_end in rw at in
        stops _ (rw e (forward_while_stopped not_newline text pos (rw e at lt)))

-- In a valid editor a move up that succeeds puts the cursor on the line above.
pub move_up_line :
    (t : RuneTable) (e : Editor)
    → IsValid e
    → (move_up t e).1 ≡ true
    → let above = line_start e.text e.cursor - 1 in
      (line_start e.text above ≤ (move_up t e).0.cursor) × ((move_up t e).0.cursor ≤ above)
unfolding move_up
move_up_line t e v h =
    let start = line_start e.text e.cursor in
    ground (
      arith,
      cursor_at_column_bounds t e.text (line_start e.text (start - 1)) (start - 1) (column t e),
      line_start-le e.text (start - 1),
      line_start-le e.text e.cursor v.cursor,
    )

-- In a valid editor a move down that succeeds puts the cursor on the line below.
pub move_down_line :
    (t : RuneTable) (e : Editor)
    → IsValid e
    → (move_down t e).1 ≡ true
    → let below = line_end e.text e.cursor + 1 in
      (below ≤ (move_down t e).0.cursor) × ((move_down t e).0.cursor ≤ line_end e.text below)
unfolding move_down
move_down_line t e v h =
    let end = line_end e.text e.cursor in
    ground (
      arith,
      cursor_at_column_bounds t e.text (end + 1) (line_end e.text (end + 1)) (column t e),
      le-line_end e.text (end + 1),
      line_end-le e.text e.cursor,
    )

-- In a valid editor a move up that succeeds puts the cursor on the line above, and a move down
-- that succeeds on the line below.
pub moves_change_line :
    (t : RuneTable) (e : Editor)
    → IsValid e
    → ((move_up t e).1 ≡ true
        → let above = line_start e.text e.cursor - 1 in
          (line_start e.text above ≤ (move_up t e).0.cursor) × ((move_up t e).0.cursor ≤ above))
      × ((move_down t e).1 ≡ true
          → let below = line_end e.text e.cursor + 1 in
            (below ≤ (move_down t e).0.cursor) × ((move_down t e).0.cursor ≤ line_end e.text below))
moves_change_line t e v = (move_up_line t e v, move_down_line t e v)
