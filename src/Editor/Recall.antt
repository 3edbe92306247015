-- ===== src/Editor/Recall.antt =====
-- The way through the history and back.
use notch.Prelude.{ℕ, zero, suc, ◌+◌, ◌-◌, ◌<◌, ◌≡◌, none, some, List, [], arith, length, get_or}
use notch.Editor.State.{Runes, Editor}
use notch.Editor.History.{history_previous, history_next}

abbrev pub previouses : ℕ → Editor → Editor
previouses zero e = e
previouses (suc k) e = (history_previous (previouses k e)).0

abbrev pub nexts : ℕ → Editor → Editor
nexts zero e = e
nexts (suc k) e = nexts k (history_next e).0

-- Entry `i` is shown, and `draft` is kept.
pub record IsShowing (history : List Runes) (draft : Runes) (i : ℕ) (e : Editor) : Type 0 where
  pub history_kept : e.history ≡ history
  pub draft_kept : e.draft ≡ draft
  pub index : e.history_index ≡ some i
  pub text : e.text ≡ get_or history i []
  pub cursor : e.cursor ≡ length e.text

first_previous :
    (e : Editor)
    → e.history_index ≡ none
    → 0 < length e.history
    → IsShowing e.history e.text (length e.history - 1) (history_previous e).0
unfolding history_previous
first_previous e h pos = ground arith

another_previous :
    (history : List Runes) (draft : Runes) (i : ℕ) (e : Editor)
    → suc i < length history
    → IsShowing history draft (suc i) e
    → IsShowing history draft i (history_previous e).0
unfolding history_previous
another_previous history draft i e lt s = ground arith

-- After k + 1 steps back the entry shown is the (k + 1)-st from the end, and the text that was
-- there is the draft.
pub previouses-IsShowing :
    (k : ℕ) (e : Editor)
    → e.history_index ≡ none
    → k < length e.history
    → IsShowing e.history e.text (length e.history - suc k) (previouses (suc k) e)
previouses-IsShowing zero e h lt = first_previous e h lt
previouses-IsShowing (suc k) e h lt =
    another_previous e.history e.text (length e.history - suc (suc k)) _ (omega arith) (
      let at : suc (length e.history - suc (suc k)) ≡ length e.history - suc k = omega arith in
      rw at (previouses-IsShowing k e h (omega arith)))

next_entry :
    (history : List Runes) (draft : Runes) (i : ℕ) (e : Editor)
    → suc i < length history
    → IsShowing history draft i e
    → IsShowing history draft (suc i) (history_next e).0
unfolding history_next
next_entry history draft i e lt s = ground arith

last_next :
    (history : List Runes) (draft : Runes) (i : ℕ) (e : Editor)
    → suc i ≡ length history
    → IsShowing history draft i e
    → ((history_next e).0.text ≡ draft) × ((history_next e).0.history_index ≡ none)
unfolding history_next
last_next history draft i e at s = ground arith

nexts_restore :
    (k : ℕ) (history : List Runes) (draft : Runes) (i : ℕ) (e : Editor)
    → i + suc k ≡ length history
    → IsShowing history draft i e
    → ((nexts (suc k) e).text ≡ draft) × ((nexts (suc k) e).history_index ≡ none)
nexts_restore zero history draft i e at s = last_next history draft i e (omega arith) s
nexts_restore (suc k) history draft i e at s =
    nexts_restore k history draft (suc i) (history_next e).0 (omega arith)
      (next_entry history draft i e (omega arith) s)

-- Where no history entry is shown, as many steps forward as were made back, no more than there
-- are entries, bring back the text that was there before them, and no entry is shown.
pub nexts-previouses :
    (k : ℕ) (e : Editor)
    → e.history_index ≡ none
    → k < length e.history
    → ((nexts (suc k) (previouses (suc k) e)).text ≡ e.text)
      × ((nexts (suc k) (previouses (suc k) e)).history_index ≡ none)
nexts-previouses k e h lt =
    nexts_restore k e.history e.text (length e.history - suc k) _ (omega arith)
      (previouses-IsShowing k e h lt)
