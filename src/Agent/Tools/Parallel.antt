-- ===== src/Agent/Tools/Parallel.antt =====
-- internal/agent/agent.go: executeTools, which runs the calls of a turn at once. A goroutine sends its
-- events one by one, each under emitMu, writes its result at its own index, and tells the WaitGroup;
-- wg.Wait returns when the counter is 0. A run is an interleaving of such steps.
pub mod Interleaving
pub mod Waits
pub mod Results
use notch.Prelude.{
  ℕ, zero, suc, ◌-◌, ◌≡◌, Bool, true, false, Option, none, some, List, [], ◌∷◌, ◌++◌, map, ◌==◌,
  if◌then◌else◌, length, get_elem?, set,
}
use notch.Model.{Block}
use notch.Agent.Tools.{ToolResult, ToolEvent, Registry, execute_tool}

pub record ExecutedTool : Type 0 where
  pub call : Block
  pub result : ToolResult

-- Where a goroutine stands: in front of emitMu.Lock, or of the write of its result where no event is
-- left; with the lock, in front of emit; with the lock, behind emit; behind the write; behind Done.
pub data Goroutine : Type 0 where
  running : List ToolEvent → ExecutedTool → Goroutine
  emitting : ToolEvent → List ToolEvent → ExecutedTool → Goroutine
  emitted : List ToolEvent → ExecutedTool → Goroutine
  written : ExecutedTool → Goroutine
  finished : ExecutedTool → Goroutine

-- The goroutines by the index of their call, the events with the index of who sent them, who holds
-- emitMu, the counter of the WaitGroup, and whether wg.Wait has returned.
pub record Execution : Type 0 where
  pub goroutines : List Goroutine
  pub trace : List (ℕ × ToolEvent)
  pub holder : Option ℕ
  pub counter : ℕ
  pub returned : Bool

unfoldable pub start : Registry → Block → Goroutine
unfolding execute_tool
start g call = let (r, es) = execute_tool g call in running es (record { call = call; result = r })

unfoldable pub start_all : Registry → List Block → Execution
unfolding start
start_all g calls = record {
  goroutines = map (start g) calls;
  trace = [];
  holder = none;
  counter = length calls;
  returned = false;
}

-- Goroutine `i` goes on to `gr`.
abbrev pub moved : ℕ → Goroutine → Execution → Execution
moved i gr s = record s { goroutines = set s.goroutines i gr }

-- `emitMu.Lock()`
unfoldable pub lock : ℕ → ToolEvent → List ToolEvent → ExecutedTool → Execution → Execution
lock i e es x s = record (moved i (emitting e es x) s) { holder = some i }

-- `emit(event)`
unfoldable pub emit : ℕ → ToolEvent → List ToolEvent → ExecutedTool → Execution → Execution
emit i e es x s = record (moved i (emitted es x) s) { trace = s.trace ++ (i, e) ∷ [] }

-- `emitMu.Unlock()`
unfoldable pub unlock : ℕ → List ToolEvent → ExecutedTool → Execution → Execution
unlock i es x s = record (moved i (running es x) s) { holder = none }

-- `results[i] = …`
unfoldable pub write : ℕ → ExecutedTool → Execution → Execution
write i x s = moved i (written x) s

-- `wg.Done()`
unfoldable pub done : ℕ → ExecutedTool → Execution → Execution
done i x s = record (moved i (finished x) s) { counter = s.counter - 1 }

-- `wg.Wait()`
unfoldable pub wait : Execution → Execution
wait s = record s { returned = true }

pub data Step (s : Execution) : Execution → Type 0 where
  locks :
      (i : ℕ) {e : ToolEvent} {es : List ToolEvent} {x : ExecutedTool}
      → get_elem? s.goroutines i ≡ some (running (e ∷ es) x)
      → s.holder ≡ none
      → Step s (lock i e es x s)
  emits :
      (i : ℕ) {e : ToolEvent} {es : List ToolEvent} {x : ExecutedTool}
      → get_elem? s.goroutines i ≡ some (emitting e es x)
      → Step s (emit i e es x s)
  unlocks :
      (i : ℕ) {es : List ToolEvent} {x : ExecutedTool}
      → get_elem? s.goroutines i ≡ some (emitted es x)
      → Step s (unlock i es x s)
  writes :
      (i : ℕ) {x : ExecutedTool}
      → get_elem? s.goroutines i ≡ some (running [] x)
      → Step s (write i x s)
  is_done :
      (i : ℕ) {x : ExecutedTool} → get_elem? s.goroutines i ≡ some (written x) → Step s (done i x s)
  waits : s.counter ≡ 0 → s.returned ≡ false → Step s (wait s)

pub data Reach (g : Registry) (calls : List Block) : Execution → Type 0 where
  launched : Reach g calls (start_all g calls)
  later : {s t : Execution} → Reach g calls s → Step s t → Reach g calls t

-- The results slice, where a nil entry is an element that is not written.
abbrev pub result_of : Goroutine → Option ExecutedTool
result_of (written x) = some x
result_of (finished x) = some x
result_of _ = none

unfoldable pub results : Execution → List (Option ExecutedTool)
results s = map result_of s.goroutines

-- What one goroutine sent.
abbrev pub sent_by : ℕ → List (ℕ × ToolEvent) → List ToolEvent
sent_by i [] = []
sent_by i ((j, e) ∷ t) = let rest = sent_by i t in if i == j then e ∷ rest else rest

abbrev pub left : Goroutine → List ToolEvent
left (running es x) = es
left (emitting e es x) = e ∷ es
left (emitted es x) = es
left (written x) = []
left (finished x) = []

abbrev pub outcome : Goroutine → ExecutedTool
outcome (running es x) = x
outcome (emitting e es x) = x
outcome (emitted es x) = x
outcome (written x) = x
outcome (finished x) = x
