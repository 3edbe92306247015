-- ===== src/Model/Repair.antt =====
-- `repairToolCallResults` of internal/model/types.go: error results for the calls of a message
-- that holds an invalid one. The loop's index is the message at hand, `m`, with those after it.
pub mod Settled
pub mod Kept
use notch.Prelude.{
  ℕ, ◌+◌, ◌≡◌, refl, Bool, true, false, ◌&&◌, not, String, List, [], ◌∷◌, ◌++◌, str_eq,
  if◌then◌else◌, length, any,
}
use notch.Go.Bytes.{Bytes}
use notch.Model.{Block, Message, empty_block, is_call, is_result, clean_messages}

unfoldable pub has_invalid_call : List Block → Bool
has_invalid_call = any (λ b. is_call b && b.is_error)

-- A result for the call `id` among the blocks.
unfoldable pub answers : List Block → String → Bool
answers bs id = any (λ r. is_result r && str_eq r.tool_use_id id) bs

-- `found`: the message behind is the user's, and has a result for the call.
unfoldable pub found : List Message → String → Bool
found [] id = false
found (n ∷ _) id = str_eq n.role "user" && answers n.content id

unfoldable pub error_result : Bytes → String → Block
error_result error_text id = record empty_block {
  type = "tool_result";
  text = error_text;
  tool_use_id = id;
  is_error = true;
}

-- The loop that collects `missing`.
unfoldable pub missing_results : Bytes → List Message → List Block → List Block
missing_results error_text rest [] = []
missing_results error_text rest (b ∷ bs) =
    let missing = missing_results error_text rest bs in
    if is_call b && not (found rest b.id) then error_result error_text b.id ∷ missing else missing

unfoldable pub missing_for : Bytes → Message → List Message → List Block
missing_for error_text m rest =
    if has_invalid_call m.content then missing_results error_text rest m.content else []

-- The user message made of the results, if there are any.
unfoldable pub recovery : List Block → List Message
recovery [] = []
recovery (b ∷ bs) = record { role = "user"; content = b ∷ bs } ∷ []

-- Where the message `n` behind is the user's, the results go in front of its content; else they
-- stand in a message of their own between.
unfoldable pub between : List Block → Message → List Message
unfolding recovery
between missing n = if str_eq n.role "user" then [] else recovery missing

unfoldable pub extended : List Block → Message → Message
extended missing n = if str_eq n.role "user" then record n { content = missing ++ n.content } else n

unfoldable pub repair_from : Bytes → Message → List Message → List Message × ℕ
repair_from error_text m [] =
    let missing = missing_for error_text m [] in (m ∷ recovery missing, length missing)
repair_from error_text m (n ∷ rest) =
    let missing = missing_for error_text m (n ∷ rest) in
    let (out, k) = repair_from error_text (extended missing n) rest in
    (m ∷ (between missing n ++ out), length missing + k)

unfoldable pub repair_tool_call_results : List Message → Bytes → List Message × ℕ
unfolding repair_from
repair_tool_call_results [] error_text = ([], 0)
repair_tool_call_results (m ∷ ms) error_text = repair_from error_text m ms

unfoldable pub clean_and_repair_messages : List Message → Bytes → List Message × ℕ × ℕ
clean_and_repair_messages ms error_text =
    let (cleaned, invalid) = clean_messages ms in
    let (repaired, inserted) = repair_tool_call_results cleaned error_text in
    (repaired, invalid, inserted)
