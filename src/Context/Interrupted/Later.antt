-- ===== src/Context/Interrupted/Later.antt =====
-- The map `resultAfter` of `contextMessages`, and the messages that it is made from.
use notch.Prelude.{
  ℕ, suc, ◌<◌, ◌≡◌, ◌≢◌, refl, Bool, false, ◌&&◌, not, ◌||◌, String, some, List, [], ◌∷◌, arith,
  str_eq, str_eq_iff, any, All, if◌then◌else◌,
}
use notch.Model.{Block, Message, is_result}
use notch.Model.Repair.{answers}
use notch.Context.Interrupted.{ResultAfter, result_index, note_results, results_after, is_later}

-- A message behind has a result for the call `id`.
abbrev pub answered_later : List Message → String → Bool
answered_later ms id = any (λ n. answers n.content id) ms

-- Every index noted so far is below `i`.
abbrev pub Before : ℕ → ResultAfter → Type 0
Before i = All (λ e. e.1 < i)

Before-note_results :
    (i : ℕ) (bs : List Block) (after : ResultAfter)
    → Before (suc i) after
    → Before (suc i) (note_results i bs after)
unfolding note_results
Before-note_results i [] after h = h
Before-note_results i (b ∷ bs) after h = Before-note_results i bs _ (ground arith)

Before-suc : (i : ℕ) (after : ResultAfter) → Before i after → Before (suc i) after
Before-suc i [] h = tt
Before-suc i (e ∷ after) (he, hs) = (omega arith, Before-suc i after hs)

pub Before-step :
    (i : ℕ) (bs : List Block) (after : ResultAfter)
    → Before i after
    → Before (suc i) (note_results i bs after)
Before-step i bs after h = Before-note_results i bs after (Before-suc i after h)

-- What a lookup finds after a message is noted: its own index, if it answers, or what was there.
result_index-note_results :
    (i : ℕ) (bs : List Block) (after : ResultAfter) (id : String)
    → id ≢ ""
    → result_index (note_results i bs after) id
      ≡ (if answers bs id then some i else result_index after id)
unfolding note_results result_index answers
result_index-note_results i [] after id h = refl
result_index-note_results i (b ∷ bs) after id h = ground (
  arith,
  str_eq_iff b.tool_use_id id,
  str_eq_iff b.tool_use_id "",
  result_index-note_results i bs
      (if is_result b && not (str_eq b.tool_use_id "") then (b.tool_use_id, i) ∷ after else after)
      id h,
)

is_later_of_Before :
    (i : ℕ) (after : ResultAfter) (id : String)
    → Before (suc i) after
    → is_later (result_index after id) i ≡ false
unfolding result_index is_later
is_later_of_Before i [] id h = refl
is_later_of_Before i ((k, j) ∷ after) id (hj, hs) = ground (arith, is_later_of_Before i after id hs)

is_later-results_after :
    (i j : ℕ) (ms : List Message) (after : ResultAfter) (id : String)
    → id ≢ ""
    → i < j
    → is_later (result_index (results_after j ms after) id) i
      ≡ (answered_later ms id || is_later (result_index after id) i)
unfolding results_after is_later
is_later-results_after i j [] after id h lt = refl
is_later-results_after i j (m ∷ ms) after id h lt = ground (
  arith,
  is_later-results_after i (suc j) ms (note_results j m.content after) id h,
  result_index-note_results j m.content after id h,
)

-- The indices noted up to message `i` are no later than `i`, so a later one comes from behind.
pub is_later_lem :
    (i : ℕ) (ms : List Message) (after : ResultAfter) (id : String)
    → id ≢ ""
    → Before (suc i) after
    → is_later (result_index (results_after (suc i) ms after) id) i ≡ answered_later ms id
is_later_lem i ms after id h b = ground (
  arith,
  is_later-results_after i (suc i) ms after id h (omega arith),
  is_later_of_Before i after id b,
)
