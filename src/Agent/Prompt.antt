-- ===== src/Agent/Prompt.antt =====
-- internal/agent/agent.go: promptWithStart, the turns of a prompt. What the hooks, the provider, the
-- tools and the file system answer in a turn, and the messages that arrive meanwhile, are a value.
-- A cost is a float64, with its sum and its order as parameters.
pub mod Steps
pub mod Rules
pub mod Records
pub mod Kept
pub mod Counted
pub mod Limit
mod Tests
pub mod Good
pub mod Answered
pub mod Synced
pub mod Loop
use notch.Prelude.{
  ℕ, zero, suc, ◌+◌, Bool, true, false, not, ◌&&◌, ◌||◌, Option, none, some, List, [], ◌∷◌, ◌++◌,
  map, str_eq, ltb, leb, ◌==◌, if◌then◌else◌, length,
}
use notch.Go.Bytes.{Bytes, codes, bytes_eq}
use notch.Model.{Block, Message, text_message, is_call, normalize_tool_call_arguments}
use notch.Session.{Codec, UsageEntry}
use notch.Session.Append.{Io}
use notch.Agent.{Agent, AgentError, ProviderSwitch, should_auto_compact, apply_pending_switch}
use notch.Agent.Append.{append_to_conversation, append_turn_usage}
use notch.Agent.Compact.{CompactError, nothing_to_compact, SummaryAnswer, compact_locked}
use notch.Agent.Queue.{
  Mode, QueuedMessage, Queues, Next, from_queue, from_fallback, settled, enqueue_message, steering,
  begin_processing, end_processing, take_queued, settle_or_take_queued_or,
}
use notch.Agent.Tools.{ToolResult, Registry, tool_calls, execute_tool, result_block}

pub data PromptError : Type 0 where
  context_done hooks_failed provider_failed max_turns max_cost pricing_unknown : PromptError
  not_saved : AgentError → PromptError
  not_compacted : CompactError → PromptError

-- How a prompt ends; `out_of_turns` is the end of the given turns, and not of the loop.
pub data Outcome : Type 0 where
  finished stopped out_of_turns : Outcome
  failed : PromptError → Outcome

pub data BeforeHook : Type 0 where
  before_failed halts goes_on : BeforeHook

pub record Response (Money : Type 0) : Type 0 where
  pub content : List Block
  pub stop_reason : Bytes
  pub total_input_tokens : ℕ
  pub cost : Option Money
  -- What the tools of the turn delegated, if anything, with its cost.
  pub delegated : Option (Option Money)

-- A message that arrives.
abbrev pub Arrival : Type 0
Arrival = Mode × Bytes

pub record Turn (Money : Type 0) : Type 0 where
  pub before : BeforeHook
  pub context_tokens_estimate : ℕ
  pub summary : SummaryAnswer
  pub context_hook_ok : Bool
  pub request_estimate : ℕ
  pub response : Option (Response Money)
  pub registry : Registry
  pub usage : UsageEntry
  -- The switches of QueueProviderSwitch, of those it accepts, that arrive before the results.
  pub switches : List ProviderSwitch
  pub early : List Arrival
  pub late : List Arrival
  pub agent_end : Option Bytes
  pub assistant_io : Io
  pub results_io : Io
  pub switch_io : Io
  pub usage_io : Io
  pub user_io : Io

pub record Settings (Money : Type 0) : Type 0 where
  pub codec : Codec
  pub envelope : Bytes → Option Bytes
  pub max_turns : ℕ
  pub keep_recent_tokens : ℕ
  -- `none` where a.maxCostUSD is not above 0.
  pub max_cost : Option Money
  pub add : Money → Money → Money
  pub at_least : Money → Money → Bool

pub record Run (Money : Type 0) : Type 0 where
  pub agent : Agent
  pub queues : Queues
  pub turns : ℕ
  pub total_cost : Option Money
  pub cost_known : Bool

-- The loop goes on, or returns.
pub data Flow (Money : Type 0) : Type 0 where
  next : Run Money → Flow Money
  returns : Run Money → Outcome → Flow Money

infixl 5 ◌>>=◌
abbrev pub ◌>>=◌ : {Money : Type 0} → Flow Money → (Run Money → Flow Money) → Flow Money
next r >>= f = f r
returns r o >>= f = returns r o

unfoldable pub arrive : List Arrival → Queues → Queues
unfolding enqueue_message
arrive [] q = q
arrive ((mode, text) ∷ xs) q = arrive xs ((enqueue_message mode text q).0).0

-- While a prompt is active a switch waits, in place of one that waits already.
unfoldable pub latest_switch : List ProviderSwitch → Option ProviderSwitch → Option ProviderSwitch
latest_switch [] waiting = waiting
latest_switch (sw ∷ sws) waiting = latest_switch sws (some sw)

-- With the limit of tokens reached, the calls of the response are marked as cut off.
unfoldable pub mark_calls : List Block → List Block
unfolding is_call
mark_calls [] = []
mark_calls (b ∷ bs) = (if is_call b then record b { is_error = true } else b) ∷ mark_calls bs

abbrev pub assistant_message : List Block → Message
assistant_message content = record { role = "assistant"; content = content }

abbrev pub results_message : Registry → List Block → Message
results_message g calls = record {
  role = "user";
  content = map (λ call. result_block call (execute_tool g call).0) calls;
}

module _ {Money : Type 0} where
  unfoldable pub queue_switches : List ProviderSwitch → Run Money → Run Money
  unfolding latest_switch
  queue_switches sws r = record r {
    agent = record r.agent { pending_switch = latest_switch sws r.agent.pending_switch };
  }

  -- A step on the agent that may fail to write to the session.
  abbrev pub saved : Run Money → Agent × Option AgentError → Flow Money
  saved r (a, none) = next (record r { agent = a })
  saved r (a, some e) = returns (record r { agent = a }) (failed (not_saved e))

  -- The cost of addUsage.
  unfoldable pub add_cost : (Money → Money → Money) → Option Money → Option Money → Option Money
  add_cost add total none = total
  add_cost add none (some v) = some v
  add_cost add (some t) (some v) = some (add v t)

  abbrev pub still_known : Option Money → Bool → Bool
  still_known none known = false
  still_known (some v) known = known
