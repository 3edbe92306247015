-- ===== src/Editor/Step.antt =====
-- The editor under any sequence of its operations.
use notch.Prelude.{
  ℕ, ◌+◌, ◌-◌, ◌≤◌, ◌<◌, ◌≡◌, not, ◌&&◌, Option, none, some, List, [], ◌∷◌, ◌++◌, arith, inl, inr,
  Bool-cases, leb, ◌==◌, length, take, drop, length-append, length-take, length-drop,
}
use notch.Prelude.Int.{ℤ, sub_ℕ}
use notch.Editor.State.{
  RuneTable, Runes, Editor, back_while, line_start, line_end, is_word, not_newline,
}
use notch.Editor.Loops.{
  clamp_editor-le, clamp_editor_within, back_while-le, forward_while-le, le-forward_while,
  cursor_at_column_bounds,
}
use notch.Editor.Edits.{
  set_text, set_cursor, insert, backspace, delete, kill, kill_to_end, kill_to_start, word_start,
  kill_word_backward, clear,
}
use notch.Editor.Moves.{
  move_left, move_right, move_to, move_home, move_end, move_word_left, move_word_right, column,
  move_up, move_down,
}
use notch.Editor.History.{set_history, add_history, select, history_previous, history_next}

pub data Op : Type 0 where
  sets_text inserts adds_history : Runes → Op
  sets_cursor : ℤ → Op
  sets_history : List Runes → Op
  backspaces deletes clears kills_to_end kills_to_start kills_word_backward : Op
  moves_left moves_right moves_home moves_end moves_word_left moves_word_right : Op
  moves_up moves_down previous next : Op

unfoldable pub step : RuneTable → Editor → Op → Editor
step t e (sets_text s) = set_text s e
step t e (inserts s) = insert s e
step t e (adds_history s) = add_history s e
step t e (sets_cursor n) = set_cursor n e
step t e (sets_history entries) = set_history entries e
step t e backspaces = (backspace e).0
step t e deletes = (delete e).0
step t e clears = clear e
step t e kills_to_end = (kill_to_end e).0
step t e kills_to_start = (kill_to_start e).0
step t e kills_word_backward = (kill_word_backward t e).0
step t e moves_left = (move_left e).0
step t e moves_right = (move_right e).0
step t e moves_home = (move_home e).0
step t e moves_end = (move_end e).0
step t e moves_word_left = (move_word_left t e).0
step t e moves_word_right = (move_word_right t e).0
step t e moves_up = (move_up t e).0
step t e moves_down = (move_down t e).0
step t e previous = (history_previous e).0
step t e next = (history_next e).0

unfoldable pub run : RuneTable → Editor → List Op → Editor
run t e [] = e
run t e (op ∷ ops) = run t (step t e op) ops

-- The history entry that is shown exists.
abbrev pub Selects : List Runes → Option ℕ → Type 0
Selects history none = Unit
Selects history (some i) = i < length history

pub record IsValid (e : Editor) : Type 0 where
  pub cursor : e.cursor ≤ length e.text
  pub selected : Selects e.history e.history_index

pub line_start-le : (text : Runes) (pos : ℕ) → pos ≤ length text → line_start text pos ≤ pos
unfolding line_start
line_start-le text pos h =
    rw (clamp_editor_within pos (length text) h) (back_while-le not_newline text pos)

pub le-line_end : (text : Runes) (pos : ℕ) → pos ≤ length text → pos ≤ line_end text pos
unfolding line_end
le-line_end text pos h =
    rw (clamp_editor_within pos (length text) h) (le-forward_while not_newline text pos)

pub line_end-le : (text : Runes) (pos : ℕ) → line_end text pos ≤ length text
unfolding line_end
line_end-le text pos = forward_while-le _ text _ (clamp_editor-le (sub_ℕ pos 0) (length text))

length-splice :
    (xs : Runes) (a b : ℕ) → a ≤ length xs → length (take a xs ++ drop b xs) ≡ a + (length xs - b)
length-splice xs a b h =
    omega (arith, length-append (take a xs) (drop b xs), length-take a xs, length-drop b xs)

kill-IsValid :
    (e : Editor) (start end : ℕ) → IsValid e → start ≤ length e.text → IsValid (kill start end e).0
unfolding kill
kill-IsValid e start end v h = elim (Bool-cases (leb end start)) [
  | inl p ↦ rw p v
  | inr p ↦
      rw p
        (record { cursor = omega (arith, length-splice e.text start end h); selected = v.selected })
]

insert-IsValid : (e : Editor) (s : Runes) → IsValid e → IsValid (insert s e)
unfolding insert
insert-IsValid e [] v = v
insert-IsValid e (r ∷ rs) v = record {
  cursor = omega (
    arith,
    length-append (take e.cursor e.text) ((r ∷ rs) ++ drop e.cursor e.text),
    length-append (r ∷ rs) (drop e.cursor e.text),
    length-take e.cursor e.text,
    length-drop e.cursor e.text,
    v.cursor,
  );
  selected = v.selected;
}

backspace-IsValid : (e : Editor) → IsValid e → IsValid (backspace e).0
unfolding backspace
backspace-IsValid e v = elim (Bool-cases (e.cursor == 0)) [
  | inl p ↦ rw p v
  | inr p ↦ rw p (record {
    cursor = omega (arith, length-splice e.text (e.cursor - 1) e.cursor (omega arith), v.cursor);
    selected = v.selected;
  })
]

delete-IsValid : (e : Editor) → IsValid e → IsValid (delete e).0
unfolding delete
delete-IsValid e v = elim (Bool-cases (e.cursor == length e.text)) [
  | inl p ↦ rw p v
  | inr p ↦ rw p (record {
    cursor = omega (arith, length-splice e.text e.cursor (e.cursor + 1) v.cursor, v.cursor);
    selected = v.selected;
  })
]

move_to-IsValid :
    (e : Editor) (cursor : ℕ) → IsValid e → cursor ≤ length e.text → IsValid (move_to cursor e).0
unfolding move_to
move_to-IsValid e cursor v h = record { cursor = h; selected = v.selected }

pub word_start-le : (t : RuneTable) (e : Editor) → word_start t e ≤ e.cursor
unfolding word_start
word_start-le t e =
    let first = back_while (λ r. not (is_word t r) && not (r == 10)) e.text e.cursor in
    omega (arith, back_while-le (is_word t) e.text first, back_while-le _ e.text e.cursor)

move_right-IsValid : (e : Editor) → IsValid e → IsValid (move_right e).0
unfolding move_right
move_right-IsValid e v = ground arith

move_left-IsValid : (e : Editor) → IsValid e → IsValid (move_left e).0
unfolding move_left
move_left-IsValid e v = ground arith

move_up-IsValid : (t : RuneTable) (e : Editor) → IsValid e → IsValid (move_up t e).0
unfolding move_up
move_up-IsValid t e v =
    let start = line_start e.text e.cursor in
    let le = line_start-le e.text e.cursor v.cursor in
    elim (Bool-cases (start == 0)) [
      | inl p ↦ rw p v
      | inr p ↦ rw p (record {
        cursor = omega (
          arith,
          cursor_at_column_bounds t e.text (line_start e.text (start - 1)) (start - 1) (column t e)
              (line_start-le e.text (start - 1) (omega (arith, v.cursor, le))),
          v.cursor,
          le,
        );
        selected = v.selected;
      })
    ]

move_down-IsValid : (t : RuneTable) (e : Editor) → IsValid e → IsValid (move_down t e).0
unfolding move_down
move_down-IsValid t e v =
    let end = line_end e.text e.cursor in
    let le = line_end-le e.text e.cursor in
    elim (Bool-cases (end == length e.text)) [
      | inl p ↦ rw p v
      | inr p ↦
          let lt : end < length e.text = ground (arith, le) in
          rw p (record {
            cursor = omega (
              arith,
              cursor_at_column_bounds t e.text (end + 1) (line_end e.text (end + 1)) (column t e)
                  (le-line_end e.text (end + 1) (omega arith)),
              line_end-le e.text (end + 1),
            );
            selected = v.selected;
          })
    ]

select-IsValid : (e : Editor) (i : ℕ) → i < length e.history → IsValid (select i e)
unfolding select
select-IsValid e i h = record { cursor = omega arith; selected = h }

history_previous-IsValid : (e : Editor) → IsValid e → IsValid (history_previous e).0
unfolding history_previous
history_previous-IsValid e v = ground arith

history_next-IsValid : (e : Editor) → IsValid e → IsValid (history_next e).0
unfolding history_next
history_next-IsValid e v = ground arith

-- Every operation keeps the cursor in the text, and the history entry that is shown in the history.
pub step-IsValid : (t : RuneTable) (e : Editor) (op : Op) → IsValid e → IsValid (step t e op)
unfolding step set_text set_cursor add_history set_history clear kill_to_end kill_to_start
    kill_word_backward move_home move_end move_word_left move_word_right
step-IsValid t e (sets_text s) v = record { cursor = omega arith; selected = v.selected }
step-IsValid t e (inserts s) v = insert-IsValid e s v
step-IsValid t e (adds_history []) v = v
step-IsValid t e (adds_history (r ∷ rs)) v = record { cursor = v.cursor; selected = tt }
step-IsValid t e (sets_cursor n) v = record {
  cursor = clamp_editor-le n (length e.text);
  selected = v.selected;
}
step-IsValid t e (sets_history entries) v = record { cursor = v.cursor; selected = tt }
step-IsValid t e backspaces v = backspace-IsValid e v
step-IsValid t e deletes v = delete-IsValid e v
step-IsValid t e clears v = record { cursor = omega arith; selected = tt }
step-IsValid t e kills_to_end v = kill-IsValid e e.cursor _ v v.cursor
step-IsValid t e kills_to_start v =
    kill-IsValid e _ e.cursor v (omega (arith, line_start-le e.text e.cursor v.cursor, v.cursor))
step-IsValid t e kills_word_backward v =
    kill-IsValid e _ e.cursor v (omega (arith, word_start-le t e, v.cursor))
step-IsValid t e moves_left v = move_left-IsValid e v
step-IsValid t e moves_right v = move_right-IsValid e v
step-IsValid t e moves_home v =
    move_to-IsValid e _ v (omega (arith, line_start-le e.text e.cursor v.cursor, v.cursor))
step-IsValid t e moves_end v = move_to-IsValid e _ v (line_end-le e.text e.cursor)
step-IsValid t e moves_word_left v =
    let first = back_while (λ r. not (is_word t r)) e.text e.cursor in
    move_to-IsValid e _ v (
      omega (
        arith,
        back_while-le (is_word t) e.text first,
        back_while-le (λ r. not (is_word t r)) e.text e.cursor,
        v.cursor,
      ))
step-IsValid t e moves_word_right v =
    move_to-IsValid e _ v
      (forward_while-le (is_word t) e.text _ (forward_while-le _ e.text e.cursor v.cursor))
step-IsValid t e moves_up v = move_up-IsValid t e v
step-IsValid t e moves_down v = move_down-IsValid t e v
step-IsValid t e previous v = history_previous-IsValid e v
step-IsValid t e next v = history_next-IsValid e v
