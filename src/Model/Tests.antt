-- ===== src/Model/Tests.antt =====
-- A conversation in which one of two tool calls was cut off (internal/model/types.go).
use mathlib.Core.List.{Sublist}
use notch.Prelude.{◌+◌, ◌≡◌, refl, true, String, List, [], ◌∷◌, All, length}
use notch.Go.Bytes.{Bytes, codes}
use notch.Go.Space.{trim_space}
use notch.Go.Json.{valid}
use notch.Model.{
  Block, Message, empty_block, is_call, is_result, is_bad_object, empty_object, normalize_block,
  normalize_tool_call_arguments, clean_messages, text_message,
}
use notch.Model.Normalize.{IsSafe, clean_messages_lem}
use notch.Model.Repair.{
  repair_tool_call_results, error_result, missing_results, missing_for, between, has_invalid_call,
  extended, found, answers,
}
use notch.Model.Repair.Settled.{Settled, repair_tool_call_results-Settled}
use notch.Model.Repair.Kept.{blocks, repair_tool_call_results_keeps}

abbrev call : String → Bytes → Block
call id arguments = record empty_block { type = "tool_use"; id = id; arguments = arguments }

abbrev cut_off : List Message
cut_off =
    record {
      role = "assistant";
      content = call "a" (codes "{\"path\": \"x\"}") ∷ call "b" (codes "{\"pa") ∷ [];
    }
    ∷ text_message "user" (codes "go on")
    ∷ []

abbrev cleaned : List Message
cleaned =
    record {
      role = "assistant";
      content =
          call "a" (codes "{\"path\": \"x\"}")
          ∷ record (call "b" empty_object) { is_error = true }
          ∷ [];
    }
    ∷ text_message "user" (codes "go on")
    ∷ []

cleans_one : clean_messages cut_off ≡ (cleaned, 1)
unfolding clean_messages normalize_tool_call_arguments normalize_block is_call is_bad_object
    trim_space valid text_message
cleans_one = refl

abbrev message : Bytes
message = codes "retry"

repairs_both : repair_tool_call_results cleaned message ≡ (
  record {
    role = "assistant";
    content =
        call "a" (codes "{\"path\": \"x\"}")
        ∷ record (call "b" empty_object) { is_error = true }
        ∷ [];
  }
      ∷ record {
        role = "user";
        content =
            error_result message "a"
            ∷ error_result message "b"
            ∷ (text_message "user" (codes "go on")).content;
      }
      ∷ [],
  2,
)
unfolding repair_tool_call_results text_message missing_for missing_results is_call between
    has_invalid_call extended found answers is_result error_result
repairs_both = refl

repair_tool_call_results-Settled_example : Settled (repair_tool_call_results cleaned message).0
repair_tool_call_results-Settled_example = repair_tool_call_results-Settled cleaned message

repair_tool_call_results_keeps_example :
    Sublist (blocks cleaned) (blocks (repair_tool_call_results cleaned message).0)
    × (length (blocks (repair_tool_call_results cleaned message).0)
        ≡ length (blocks cleaned) + (repair_tool_call_results cleaned message).1)
repair_tool_call_results_keeps_example = repair_tool_call_results_keeps cleaned message

clean_messages_lem_example :
    All (λ m. All IsSafe m.content) (clean_messages cut_off).0
    × (clean_messages (clean_messages cut_off).0 ≡ ((clean_messages cut_off).0, 0))
clean_messages_lem_example = clean_messages_lem cut_off
