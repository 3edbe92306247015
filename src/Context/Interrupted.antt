-- ===== src/Context/Interrupted.antt =====
-- `contextMessages` of internal/agent/context.go: error results for the calls that no later message
-- answers, then the trimming of tool results.
pub mod Later
pub mod Answered
pub mod Complete
use notch.Prelude.{
  ℕ, suc, ◌≡◌, refl, Bool, true, false, ◌&&◌, ◌||◌, not, String, Option, none, some, List, [], ◌∷◌,
  ◌++◌, str_eq, leb, if◌then◌else◌,
}
use notch.Go.Bytes.{Bytes, codes}
use notch.Model.{Block, Message, empty_block, is_call, is_result}
use notch.Model.Repair.{recovery}
use notch.Context.Trim.{trim_messages}

abbrev pub interrupted_tool_result : Bytes
interrupted_tool_result =
    codes
      "Tool call was interrupted before it returned a result. Do not assume it completed or retry it unless the user asks."

-- The map `resultAfter`: an entry stands in front of those that it overwrites.
abbrev pub ResultAfter : Type 0
ResultAfter = List (String × ℕ)

unfoldable pub result_index : ResultAfter → String → Option ℕ
result_index [] id = none
result_index ((k, i) ∷ after) id = if str_eq k id then some i else result_index after id

unfoldable pub note_results : ℕ → List Block → ResultAfter → ResultAfter
note_results i [] after = after
note_results i (b ∷ bs) after =
    note_results i bs
      (if is_result b && not (str_eq b.tool_use_id "") then (b.tool_use_id, i) ∷ after else after)

unfoldable pub results_after : ℕ → List Message → ResultAfter → ResultAfter
unfolding note_results
results_after i [] after = after
results_after i (m ∷ ms) after = results_after (suc i) ms (note_results i m.content after)

unfoldable pub is_later : Option ℕ → ℕ → Bool
is_later none i = false
is_later (some k) i = not (leb k i)

unfoldable pub is_unanswered : ResultAfter → ℕ → Block → Bool
unfolding result_index is_later
is_unanswered after i b =
    is_call b && not (str_eq b.id "") && not (is_later (result_index after b.id) i)

unfoldable pub interrupted_result : String → Block
interrupted_result id = record empty_block {
  type = "tool_result";
  tool_use_id = id;
  text = interrupted_tool_result;
  is_error = true;
}

-- The results that message number `i` lacks.
unfoldable pub missing : ResultAfter → ℕ → List Block → List Block
missing after i [] = []
missing after i (b ∷ bs) =
    let rest = missing after i bs in
    if is_unanswered after i b then interrupted_result b.id ∷ rest else rest

-- The loop over the messages. An insertion moves only the messages behind, so that the index `i` of
-- a message is the one that `resultAfter` was made with.
unfoldable pub insert_missing : ResultAfter → ℕ → List Message → List Message
insert_missing after i [] = []
insert_missing after i (m ∷ ms) =
    m ∷ (recovery (missing after i m.content) ++ insert_missing after (suc i) ms)

unfoldable pub add_interrupted : List Message → List Message
unfolding results_after insert_missing
add_interrupted ms = insert_missing (results_after 0 ms []) 0 ms

unfoldable pub context_messages : List Message → List Message
unfolding add_interrupted
context_messages ms = (trim_messages (add_interrupted ms)).0
