-- ===== src/Editor/Edits.antt =====
-- The operations that change the text.
use notch.Prelude.{
  ℕ, ◌+◌, ◌-◌, Bool, true, false, not, ◌&&◌, none, [], ◌∷◌, ◌++◌, ltb, leb, ◌==◌, if◌then◌else◌,
  length, get_or, take, drop,
}
use notch.Prelude.Int.{ℤ}
use notch.Editor.State.{
  RuneTable, Runes, Editor, leave_vertical_movement, clamp_editor, back_while, line_start, line_end,
  is_word,
}

unfoldable pub set_text : Runes → Editor → Editor
unfolding leave_vertical_movement
set_text s e = leave_vertical_movement (record e { text = s; cursor = length s })

unfoldable pub set_cursor : ℤ → Editor → Editor
unfolding leave_vertical_movement clamp_editor
set_cursor n e = leave_vertical_movement (record e { cursor = clamp_editor n 0 (length e.text) })

unfoldable pub insert : Runes → Editor → Editor
unfolding leave_vertical_movement
insert [] e = e
insert (r ∷ rs) e = leave_vertical_movement (record e {
  text = take e.cursor e.text ++ ((r ∷ rs) ++ drop e.cursor e.text);
  cursor = e.cursor + length (r ∷ rs);
})

unfoldable pub backspace : Editor → Editor × Bool
unfolding leave_vertical_movement
backspace e = if e.cursor == 0 then (e, false) else (
  leave_vertical_movement (record e {
    text = take (e.cursor - 1) e.text ++ drop e.cursor e.text;
    cursor = e.cursor - 1;
  }),
  true,
)

unfoldable pub delete : Editor → Editor × Bool
unfolding leave_vertical_movement
delete e = if e.cursor == length e.text then (e, false) else (
  leave_vertical_movement (record e { text = take e.cursor e.text ++ drop (e.cursor + 1) e.text }),
  true,
)

-- `kill(start, end)`: the runes removed come with the state.
unfoldable pub kill : ℕ → ℕ → Editor → Editor × Runes
unfolding leave_vertical_movement
kill start end e = if leb end start then (e, []) else (
  leave_vertical_movement
      (record e { text = take start e.text ++ drop end e.text; cursor = start }),
  take (end - start) (drop start e.text),
)

-- At an empty line end the newline behind goes.
unfoldable pub kill_end : Editor → ℕ
kill_end e =
    let end = line_end e.text e.cursor in
    if end == e.cursor && ltb end (length e.text) && get_or e.text end 0 == 10 then end + 1 else end

unfoldable pub kill_to_end : Editor → Editor × Runes
unfolding kill kill_end
kill_to_end e = kill e.cursor (kill_end e) e

unfoldable pub kill_to_start : Editor → Editor × Runes
unfolding kill
kill_to_start e = kill (line_start e.text e.cursor) e.cursor e

unfoldable pub word_start : RuneTable → Editor → ℕ
word_start t e =
    back_while (is_word t) e.text
      (back_while (λ r. not (is_word t r) && not (r == 10)) e.text e.cursor)

unfoldable pub kill_word_backward : RuneTable → Editor → Editor × Runes
unfolding kill word_start
kill_word_backward t e = kill (word_start t e) e.cursor e

-- `Clear` leaves the saved history.
unfoldable pub clear : Editor → Editor
unfolding leave_vertical_movement
clear e =
    leave_vertical_movement (record e { text = []; cursor = 0; history_index = none; draft = [] })
