-- ===== src/Editor/Tests.antt =====
-- The editor on two short lines (internal/tui/editor.go).
use notch.Prelude.{◌≡◌, refl, ◌&&◌, leb, none, List, [], ◌∷◌, arith}
use notch.Go.Bytes.{codes}
use notch.Editor.State.{
  RuneTable, Editor, line_start, back_while, not_newline, clamp_editor, is_word, editor_rune_width,
  display_width, fitting, cursor_at_column,
}
use notch.Editor.Edits.{insert, kill_to_end, kill_to_start, kill_word_backward}
use notch.Editor.Moves.{move_up, column}
use notch.Editor.Step.{
  Op, inserts, backspaces, moves_up, previous, kills_word_backward, next, step, IsValid,
  step-IsValid,
}
use notch.Editor.Inverse.{insert-kills, backspaces-insert, edits_undone}
use notch.Editor.Inverse
use notch.Editor.Recall.{nexts, previouses, IsShowing, previouses-IsShowing, nexts-previouses}

-- Letters are the small ones, and each rune is one column wide.
abbrev small_letters : RuneTable
small_letters = record {
  is_letter = λ r. leb b'a' r && leb r b'z';
  is_number = λ r. leb b'0' r && leb r b'9';
  rune_width = λ r. 1;
}

abbrev two_lines : Editor
two_lines = record {
  text = codes "one two\nsix";
  cursor = 10;
  history = codes "ls" ∷ codes "pwd" ∷ [];
  history_index = none;
  draft = [];
  preferred_col = none;
}

two_lines-IsValid : IsValid two_lines
two_lines-IsValid = record { cursor = omega arith; selected = tt }

kills_word : (kill_word_backward small_letters two_lines).1 ≡ codes "si"
unfolding kill_word_backward back_while is_word
kills_word = refl

goes_up : (move_up small_letters two_lines).0.cursor ≡ 2
unfolding move_up column line_start back_while not_newline clamp_editor display_width
    editor_rune_width cursor_at_column fitting
goes_up = refl

step-IsValid_example : IsValid (step small_letters two_lines kills_word_backward)
step-IsValid_example = step-IsValid small_letters two_lines kills_word_backward two_lines-IsValid

abbrev session : List Op
session = previous ∷ next ∷ inserts (codes "ab\nc") ∷ moves_up ∷ backspaces ∷ []

abbrev first_line : Editor
first_line = record two_lines { cursor = 5 }

previouses-IsShowing_example : IsShowing two_lines.history two_lines.text 0 (previouses 2 two_lines)
previouses-IsShowing_example = previouses-IsShowing 1 two_lines refl (omega arith)

nexts-previouses_example :
    ((nexts 2 (previouses 2 two_lines)).text ≡ two_lines.text)
    × ((nexts 2 (previouses 2 two_lines)).history_index ≡ none)
nexts-previouses_example = nexts-previouses 1 two_lines refl (omega arith)

edits_undone_example :
    ((insert (kill_to_end two_lines).1 (kill_to_end two_lines).0).text ≡ two_lines.text)
    × ((insert (kill_to_start two_lines).1 (kill_to_start two_lines).0).text ≡ two_lines.text)
    × ((insert
          (kill_word_backward small_letters two_lines).1
          (kill_word_backward small_letters two_lines).0).text
        ≡ two_lines.text)
    × ((Inverse.backspaces 2 (insert (codes "ab") two_lines)).text ≡ two_lines.text)
    × ((Inverse.backspaces 2 (insert (codes "ab") two_lines)).cursor ≡ 10)
edits_undone_example = edits_undone small_letters (codes "ab") two_lines two_lines-IsValid
