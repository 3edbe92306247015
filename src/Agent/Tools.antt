-- ===== src/Agent/Tools.antt =====
-- internal/agent/agent.go: the execution of the tool calls of a turn. What the hooks of the registry
-- and the tool itself answer for one call is a value. A ToolResult's details are what
-- delegation.FromDetails reads of them.
mod Tests
pub mod Events
pub mod Parallel
use notch.Prelude.{
  ℕ, ◌+◌, ◌-◌, ◌*◌, ◌/◌, Bool, true, false, not, ◌&&◌, ◌||◌, String, Option, none, some, List, [],
  ◌∷◌, ◌++◌, str_eq, leb, ◌==◌, if◌then◌else◌, length, take, drop,
}
use notch.Go.Bytes.{Bytes, codes}
use notch.Go.Space.{trim_space}
use notch.Go.Strconv.{itoa}
use notch.Go.Utf8.{valid_string}
use notch.Model.{Block, empty_block, is_call}
use notch.Context.Trim.{shrink_head, shrink_tail}

pub record ToolResult : Type 0 where
  pub content : Bytes
  pub is_error : Bool

pub data ToolEvent : Type 0 where
  tool_start : String → String → Bytes → ToolEvent
  tool_update : String → String → Bytes → ToolEvent
  tool_end : String → String → ToolResult → ToolEvent

-- The tool_call hooks fail, or answer with a denial, its reason, and other arguments.
pub data CallHooks : Type 0 where
  call_hooks_failed : Bytes → CallHooks
  intercepted : Bool → Bytes → Option Bytes → CallHooks

pub data ToolAnswer : Type 0 where
  tool_result : ToolResult → ToolAnswer
  tool_failed : Bytes → ToolAnswer

-- A registered tool: the updates that it sends and its answer, for the arguments.
abbrev pub Tool : Type 0
Tool = Bytes → List Bytes × ToolAnswer

pub record Registry : Type 0 where
  pub call_hooks : Block → CallHooks
  pub tool : String → Option Tool
  -- What the tool_execution_end hooks fail with.
  pub end_hooks : Block → ToolResult → Option Bytes
  -- The arguments as applyDelegationModelDefault leaves them.
  pub model_default : Block → Bytes
  -- The %q of fmt.
  pub quote : String → Bytes

unfoldable pub tool_calls : List Block → List Block
unfolding is_call
tool_calls [] = []
tool_calls (b ∷ bs) = let rest = tool_calls bs in if is_call b then b ∷ rest else rest

-- internal/extension/types.go: LimitToolResult, and the searches for the ends of whole runes.
abbrev pub max_tool_result_bytes : ℕ
max_tool_result_bytes = 50 * 1024

unfoldable pub valid_utf8_prefix : Bytes → ℕ → ℕ
unfolding shrink_head
valid_utf8_prefix value limit =
    if leb (length value) limit then length value else shrink_head value limit

unfoldable pub valid_utf8_suffix : Bytes → ℕ → ℕ
unfolding shrink_tail
valid_utf8_suffix value limit =
    if leb (length value) limit then length value else shrink_tail value limit

unfoldable pub limit_tool_result : ToolResult → ToolResult
unfolding valid_utf8_prefix valid_utf8_suffix
limit_tool_result r =
    let head = max_tool_result_bytes * 65 / 100 in
    let tail = max_tool_result_bytes - head in
    if leb (length r.content) max_tool_result_bytes then r else record r {
      content =
          take (valid_utf8_prefix r.content head) r.content
          ++ codes "\n\n[tool output truncated: "
          ++ itoa (length r.content)
          ++ codes " bytes total]\n\n"
          ++ drop (length r.content - valid_utf8_suffix r.content tail) r.content;
    }

abbrev pub invalid_tool_call_input_message : Bytes
invalid_tool_call_input_message =
    codes
      "tool call input was truncated or invalid JSON; retry with smaller input or write the content to a file first"

abbrev pub failure_result : Bytes → ToolResult
failure_result text = record { content = text; is_error = true }

abbrev pub end_event : Block → ToolResult → ToolEvent
end_event call r = tool_end call.name call.id r

-- A result that ends the call, with its event.
abbrev pub ended_with : Block → ToolResult → ToolResult × List ToolEvent
ended_with call r = (r, end_event call r ∷ [])

unfoldable pub answer_result : ToolAnswer → ToolResult
answer_result (tool_result r) = r
answer_result (tool_failed e) = failure_result e

-- The hooks that watch the end may fail; their error takes the place of the result.
unfoldable pub after_hooks : Option Bytes → ToolResult → ToolResult
after_hooks none r = r
after_hooks (some e) r = failure_result e

unfoldable pub with_failure_marker : ToolResult → ToolResult
unfolding trim_space
with_failure_marker r =
    if r.is_error && length (trim_space r.content) == 0
    then record r { content = codes "tool execution failed without an error message" }
    else r

unfoldable pub updates : Block → List Bytes → List ToolEvent
updates call [] = []
updates call (u ∷ us) = tool_update call.name call.id u ∷ updates call us

unfoldable pub run_tool : Registry → Block → Tool → ToolResult × List ToolEvent
unfolding answer_result limit_tool_result after_hooks with_failure_marker updates
run_tool g call tool =
    let (sent, answer) = tool call.arguments in
    let limited = limit_tool_result (answer_result answer) in
    let result = with_failure_marker (after_hooks (g.end_hooks call limited) limited) in
    (
      result,
      tool_start call.name call.id call.arguments
          ∷ (updates call sent ++ end_event call result ∷ []),
    )

unfoldable pub find_tool : Registry → Block → Option Tool → ToolResult × List ToolEvent
unfolding run_tool
find_tool g call none =
    ended_with call (failure_result (codes "unknown tool " ++ g.quote call.name))
find_tool g call (some tool) = run_tool g call tool

abbrev pub with_arguments : Option Bytes → Block → Block
with_arguments none call = call
with_arguments (some raw) call = record call { arguments = raw }

unfoldable pub after_call_hooks : Registry → Block → CallHooks → ToolResult × List ToolEvent
unfolding find_tool
after_call_hooks g call (call_hooks_failed e) = (failure_result e, [])
after_call_hooks g call (intercepted true reason replacement) =
    ended_with call (
      failure_result (if length reason == 0 then codes "tool call denied by extension" else reason))
after_call_hooks g call (intercepted false reason replacement) =
    find_tool g (with_arguments replacement call) (g.tool call.name)

unfoldable pub execute_tool : Registry → Block → ToolResult × List ToolEvent
unfolding after_call_hooks
execute_tool g call =
    let call' = record call { arguments = g.model_default call } in
    if call.is_error
    then ended_with call (failure_result invalid_tool_call_input_message)
    else after_call_hooks g call' (g.call_hooks call')

-- The block that records a result.
unfoldable pub result_block : Block → ToolResult → Block
result_block call r = record empty_block {
  type = "tool_result";
  tool_use_id = call.id;
  text = r.content;
  is_error = r.is_error;
}
