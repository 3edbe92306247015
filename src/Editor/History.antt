-- ===== src/Editor/History.antt =====
-- The history of entered texts. -1 is `none`.
use notch.Prelude.{
  ℕ, ◌+◌, ◌-◌, Bool, true, false, none, some, List, [], ◌∷◌, ◌++◌, ltb, ◌==◌, if◌then◌else◌, length,
  get_or,
}
use notch.Editor.State.{Runes, Editor, leave_vertical_movement}

unfoldable pub load_history : Runes → Editor → Editor
unfolding leave_vertical_movement
load_history s e = leave_vertical_movement (record e { text = s; cursor = length s })

unfoldable pub set_history : List Runes → Editor → Editor
set_history entries e = record e { history = entries; history_index = none; draft = [] }

unfoldable pub add_history : Runes → Editor → Editor
add_history [] e = e
add_history (r ∷ rs) e = record e {
  history = e.history ++ (r ∷ rs) ∷ [];
  history_index = none;
  draft = [];
}

-- Entry `i` becomes the text.
unfoldable pub select : ℕ → Editor → Editor
unfolding load_history
select i e = load_history (get_or e.history i []) (record e { history_index = some i })

unfoldable pub history_previous : Editor → Editor × Bool
unfolding select
history_previous e = if length e.history == 0 then (e, false) else elim e.history_index [
  | none ↦ (select (length e.history - 1) (record e { draft = e.text }), true)
  | some i ↦ if ltb 0 i then (select (i - 1) e, true) else (e, false)
]

unfoldable pub history_next : Editor → Editor × Bool
unfolding select load_history
history_next e = elim e.history_index [
  | none ↦ (e, false)
  | some i ↦
      if ltb (i + 1) (length e.history)
      then (select (i + 1) e, true)
      else (load_history e.draft (record e { history_index = none }), true)
]
