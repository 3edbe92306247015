-- ===== src/Agent/Tools/Tests.antt =====
-- Two calls of one turn: one that the provider cut off, and one of a tool that is not registered.
use notch.Prelude.{
  ℕ, zero, suc, ◌≡◌, refl, ◌⊎◌, true, false, none, some, List, [], ◌∷◌, map, get_elem?, length,
}
use notch.Go.Bytes.{codes}
use notch.Model.{Block, empty_block}
use notch.Agent.Tools.{
  ToolResult, tool_end, intercepted, Registry, failure_result, tool_failed,
  invalid_tool_call_input_message, execute_tool, after_call_hooks, find_tool,
}
use notch.Agent.Tools.Events.{IsExecuted, execute_tool-IsExecuted}
use notch.Agent.Tools.Parallel.{
  Goroutine, finished, Execution, start, start_all, lock, emit, unlock, write, done, wait, Step,
  locks, emits, unlocks, writes, is_done, waits, Reach, launched, later, results, sent_by,
}
use notch.Agent.Tools.Parallel.Waits.{holding}
use notch.Agent.Tools.Parallel.Interleaving.{executed}
use notch.Agent.Tools.Parallel.Results.{all_left, results_in_order, execution_ends}

-- One tool, which fails with no text.
abbrev registry : Registry
registry = record {
  call_hooks = λ call. intercepted false [] none;
  tool = λ name. elim (length (codes name)) [
    | zero ↦ some (λ arguments. ([], tool_failed []))
    | suc n ↦ none
  ];
  end_hooks = λ call r. none;
  model_default = λ call. call.arguments;
  quote = λ name. codes name;
}

abbrev failing : Block
failing = record empty_block { type = "tool_use"; id = "a" }

execute_tool-IsExecuted_example :
    IsExecuted (intercepted false [] none) (execute_tool registry failing)
execute_tool-IsExecuted_example = execute_tool-IsExecuted registry failing

abbrev cut_off : Block
cut_off = record empty_block { type = "tool_use"; id = "b"; name = "read"; is_error = true }

abbrev unregistered : Block
unregistered = record empty_block { type = "tool_use"; id = "c"; name = "write" }

abbrev calls : List Block
calls = cut_off ∷ unregistered ∷ []

abbrev refusal : ToolResult
refusal = failure_result invalid_tool_call_input_message

abbrev unknown : ToolResult
unknown = failure_result (codes "unknown tool write")

-- The second call ends first.
abbrev over : Execution
over = record {
  goroutines =
      finished (record { call = cut_off; result = refusal })
      ∷ finished (record { call = unregistered; result = unknown })
      ∷ [];
  trace = (1, tool_end "write" "c" unknown) ∷ (0, tool_end "read" "b" refusal) ∷ [];
  holder = none;
  counter = 0;
  returned = true;
}

overtaken : Reach registry calls over
unfolding start_all start execute_tool after_call_hooks find_tool lock emit unlock write done wait
overtaken =
    let locked = later launched (locks 1 refl refl) in
    let sent = later (later locked (emits 1 refl)) (unlocks 1 refl) in
    let second = later (later sent (writes 1 refl)) (is_done 1 refl) in
    let taken = later second (locks 0 refl refl) in
    let both = later (later taken (emits 0 refl)) (unlocks 0 refl) in
    later (later (later both (writes 0 refl)) (is_done 0 refl)) (waits refl refl)

results_in_order_example :
    (results over ≡ map (λ call. some (executed registry call)) calls)
    × ((i : ℕ) (call : Block)
        → get_elem? calls i ≡ some call
        → sent_by i over.trace ≡ (execute_tool registry call).1)
results_in_order_example = results_in_order registry calls overtaken refl

execution_ends_example :
    ((over.returned ≡ true) ⊎ ((t : Execution) × Step over t))
    × ((t : Execution) → Step over t → suc (all_left t) ≡ all_left over)
    × ((i j : ℕ) (a b : Goroutine)
        → get_elem? over.goroutines i ≡ some a
        → get_elem? over.goroutines j ≡ some b
        → holding a ≡ true
        → holding b ≡ true
        → i ≡ j)
execution_ends_example = execution_ends registry calls overtaken
