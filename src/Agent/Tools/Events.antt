-- ===== src/Agent/Tools/Events.antt =====
-- The events of a tool call, and the results that are errors.
use notch.Prelude.{
  ◌≡◌, refl, Bool, true, false, ◌&&◌, ◌⊎◌, inl, inr, Option, none, some, List, [], ◌∷◌, ◌++◌, ◌==◌,
  length, any, arith, if_split,
}
use notch.Go.Bytes.{Bytes}
use notch.Go.Space.{trim_space}
use notch.Model.{Block}
use notch.Agent.Tools.{
  ToolResult, ToolEvent, tool_start, tool_update, tool_end, CallHooks, call_hooks_failed,
  intercepted, Tool, Registry, failure_result, end_event, ended_with, answer_result,
  limit_tool_result, after_hooks, with_failure_marker, updates, run_tool, find_tool, with_arguments,
  after_call_hooks, execute_tool, invalid_tool_call_input_message,
}

-- The results that tool_end events carry.
abbrev pub ends : List ToolEvent → List ToolResult
ends [] = []
ends (tool_end name id r ∷ es) = r ∷ ends es
ends (tool_start name id arguments ∷ es) = ends es
ends (tool_update name id text ∷ es) = ends es

abbrev pub is_start : ToolEvent → Bool
is_start (tool_start name id arguments) = true
is_start (tool_update name id text) = false
is_start (tool_end name id r) = false

abbrev pub is_blank : Bytes → Bool
is_blank text = length (trim_space text) == 0

pub record IsExecuted (hooks : CallHooks) (out : ToolResult × List ToolEvent) : Type 0 where
  pub one_end :
      (ends out.1 ≡ out.0 ∷ []) ⊎ ((out.1 ≡ []) × (e : Bytes) × (hooks ≡ call_hooks_failed e))
  pub marked : any is_start out.1 ≡ true → (out.0.is_error && is_blank out.0.content) ≡ false

ended_with-IsExecuted :
    (hooks : CallHooks) (call : Block) (r : ToolResult) → IsExecuted hooks (ended_with call r)
ended_with-IsExecuted hooks call r = record { one_end = inl refl; marked = λ t. absurd (cc t) }

ends-updates :
    (call : Block) (us : List Bytes) (r : ToolResult)
    → ends (updates call us ++ end_event call r ∷ []) ≡ r ∷ []
unfolding updates
ends-updates call [] r = refl
ends-updates call (u ∷ us) r = ends-updates call us r

with_failure_marker_lem :
    (r : ToolResult)
    → ((with_failure_marker r).is_error && is_blank (with_failure_marker r).content) ≡ false
unfolding with_failure_marker trim_space
with_failure_marker_lem r =
    if_split (λ o. (o.is_error && is_blank o.content) ≡ false) (r.is_error && is_blank r.content) _
      r (λ t. ground arith) (λ t. t)

run_tool-IsExecuted :
    (hooks : CallHooks) (g : Registry) (call : Block) (tool : Tool)
    → IsExecuted hooks (run_tool g call tool)
unfolding run_tool
run_tool-IsExecuted hooks g call tool =
    let limited = limit_tool_result (answer_result (tool call.arguments).1) in
    let result = after_hooks (g.end_hooks call limited) limited in
    record {
      one_end = inl (ends-updates call (tool call.arguments).0 (with_failure_marker result));
      marked = λ _. with_failure_marker_lem result;
    }

find_tool-IsExecuted :
    (hooks : CallHooks) (g : Registry) (call : Block) (o : Option Tool)
    → IsExecuted hooks (find_tool g call o)
unfolding find_tool
find_tool-IsExecuted hooks g call none = ended_with-IsExecuted hooks call _
find_tool-IsExecuted hooks g call (some tool) = run_tool-IsExecuted hooks g call tool

after_call_hooks-IsExecuted :
    (g : Registry) (call : Block) (hooks : CallHooks)
    → IsExecuted hooks (after_call_hooks g call hooks)
unfolding after_call_hooks
after_call_hooks-IsExecuted g call (call_hooks_failed e) = record {
  one_end = inr (refl, e, refl);
  marked = λ t. absurd (cc t);
}
after_call_hooks-IsExecuted g call (intercepted true reason replacement) =
    ended_with-IsExecuted _ call _
after_call_hooks-IsExecuted g call (intercepted false reason replacement) =
    find_tool-IsExecuted _ g (with_arguments replacement call) (g.tool call.name)

-- A tool call has one tool_end event, which carries its result, unless the tool_call hooks fail:
-- then it may have no event at all. Where the tool was started, a result that is an error has a
-- text that is not blank.
pub execute_tool-IsExecuted :
    (g : Registry) (call : Block)
    → IsExecuted
        (g.call_hooks (record call { arguments = g.model_default call }))
        (execute_tool g call)
unfolding execute_tool
execute_tool-IsExecuted g call =
    let call' = record call { arguments = g.model_default call } in
    if_split (IsExecuted (g.call_hooks call')) call.is_error _ _
      (λ _.
        ended_with-IsExecuted (g.call_hooks call') call
          (failure_result invalid_tool_call_input_message))
      (λ _. after_call_hooks-IsExecuted g call' (g.call_hooks call'))
