-- ===== src/Agent/Prompt/Counted.antt =====
-- The parts of a turn that make no call of the provider.
use notch.Prelude.{
  ℕ, ◌≤◌, ◌≢◌, true, not, Option, none, some, List, [], ◌∷◌, ◌==◌, if_split, length, arith,
}
use notch.Go.Bytes.{Bytes}
use notch.Model.{Block}
use notch.Session.Append.{Io}
use notch.Agent.{Agent, AgentError, should_auto_compact, apply_pending_switch}
use notch.Agent.Append.{append_turn_usage}
use notch.Agent.Compact.{
  CompactError, nothing_to_compact, hook_failed, serialize_failed, summary_failed, summary_empty,
  not_persisted, compact_locked,
}
use notch.Agent.Queue.{
  QueuedMessage, Next, from_queue, from_fallback, settled, steering, take_queued,
  settle_or_take_queued_or,
}
use notch.Agent.Prompt.{
  PromptError, hooks_failed, not_saved, Outcome, out_of_turns, failed, BeforeHook, before_failed,
  halts, goes_on, Response, Arrival, Turn, Settings, Run, Flow, next, returns, saved, arrive,
}
use notch.Agent.Prompt.Steps.{
  before_start, after_compaction, auto_compact, context_hook, save_usage, or_save_usage,
  add_delegated, append_results, check_cost, is_over,
}
use notch.Agent.Prompt.Loop.{
  with_queues, go_on_with, settle, steer_or_settle, after_turn, first_steering, first_messages,
}
use notch.Agent.Prompt.Rules.{Holds, bind-Holds, saved-Holds}

-- At most `k` answered turns.
abbrev pub AtMost : {Money : Type 0} → ℕ → Run Money → Type 0
AtMost k r = r.turns ≤ k

-- The loop returned by itself, behind at most `j` calls.
abbrev pub Returned : {Money : Type 0} → ℕ → Run Money → Outcome → Type 0
Returned j r o = (r.turns ≤ j) × (o ≢ out_of_turns)

module _ {Money : Type 0} (k j : ℕ) (le : k ≤ j) where
  abbrev pub Few : Run Money → Type 0
  Few = AtMost k

  abbrev pub Back : Run Money → Outcome → Type 0
  Back = Returned j

  failing : (r : Run Money) (e : PromptError) → Few r → Back r (failed e)
  failing r e h = (omega (arith, h, le), λ p. cc p)

  pub saved-Few :
      (r : Run Money) (out : Agent × Option AgentError) → Few r → Holds Few Back (saved r out)
  saved-Few r out h =
      saved-Holds Few Back r out (λ _. h)
        (λ e. failing (record r { agent = out.0 }) (not_saved e) h)

  or_save_usage-Few :
      (s : Settings Money) (t : Turn Money) (m : Flow Money)
      → Holds Few Back m
      → Holds Few Back (or_save_usage s t m)
  unfolding or_save_usage save_usage
  or_save_usage-Few s t (next r) h = h
  or_save_usage-Few s t (returns r o) (h, ne) =
      let out = append_turn_usage s.codec t.usage_io t.usage r.agent in
      bind-Holds (AtMost j) Few Back (saved r out) (λ r'. returns r' o)
        (saved-Holds (AtMost j) Back r out (λ _. h) (λ e. (h, λ p. cc p))) (λ r' h'. (h', ne))

  delegated-Few :
      (s : Settings Money) (d : Option (Option Money)) (r : Run Money)
      → Few r
      → Few (add_delegated s d r)
  unfolding add_delegated
  delegated-Few s none r h = h
  delegated-Few s (some cost) r h = h

  pub append_results-Few :
      (s : Settings Money) (t : Turn Money) (answer : Response Money) (calls : List Block)
      (r : Run Money)
      → Few r
      → Holds Few Back (append_results s t answer calls r)
  unfolding append_results
  append_results-Few s t answer [] r h = h
  append_results-Few s t answer (call ∷ calls) r h =
      bind-Holds Few Few Back _ _
        (or_save_usage-Few s t _
          (saved-Few (add_delegated s answer.delegated r) _ (delegated-Few s answer.delegated r h)))
        (λ r' h'.
          or_save_usage-Few s t _
            (saved-Few r' (apply_pending_switch s.codec t.switch_io s.envelope r'.agent) h'))

  after_compaction-Few :
      (r : Run Money) (out : Agent × Option CompactError)
      → Few r
      → Holds Few Back (after_compaction r out)
  unfolding after_compaction
  after_compaction-Few r (a, none) h = h
  after_compaction-Few r (a, some nothing_to_compact) h = h
  after_compaction-Few r (a, some hook_failed) h = (omega (arith, h, le), λ p. cc p)
  after_compaction-Few r (a, some serialize_failed) h = (omega (arith, h, le), λ p. cc p)
  after_compaction-Few r (a, some summary_failed) h = (omega (arith, h, le), λ p. cc p)
  after_compaction-Few r (a, some summary_empty) h = (omega (arith, h, le), λ p. cc p)
  after_compaction-Few r (a, some (not_persisted e)) h = (omega (arith, h, le), λ p. cc p)

  pub auto_compact-Few :
      (s : Settings Money) (t : Turn Money) (r : Run Money)
      → Few r
      → Holds Few Back (auto_compact s t r)
  unfolding auto_compact
  auto_compact-Few s t r h =
      if_split (Holds Few Back) (should_auto_compact t.context_tokens_estimate r.agent) _ (next r)
        (λ _.
          after_compaction-Few r
            (compact_locked s.codec s.keep_recent_tokens t.summary true r.agent) h)
        (λ _. h)

  pub before_start-Few :
      (b : BeforeHook) (r : Run Money) → Few r → Holds Few Back (before_start b r)
  unfolding before_start
  before_start-Few before_failed r h = failing r hooks_failed h
  before_start-Few halts r h = (omega (arith, h, le), λ p. cc p)
  before_start-Few goes_on r h = h

  pub context_hook-Few :
      (t : Turn Money) (r : Run Money) → Few r → Holds Few Back (context_hook t r)
  unfolding context_hook
  context_hook-Few t r h =
      if_split (Holds Few Back) t.context_hook_ok (next r) (returns r (failed hooks_failed))
        (λ _. h) (λ _. failing r hooks_failed h)

  pub check_cost-Few :
      (s : Settings Money) (limit : Option Money) (r : Run Money)
      → Few r
      → Holds Few Back (check_cost s limit r)
  unfolding check_cost
  check_cost-Few s none r h = h
  check_cost-Few s (some limit) r h =
      if_split (Holds Few Back) (not r.cost_known) _ _ (λ _. failing r _ h)
        (λ _.
          if_split (Holds Few Back) (is_over s.at_least limit r.total_cost) _ _ (λ _. failing r _ h)
            (λ _. h))

  go_on_with-Few :
      (s : Settings Money) (t : Turn Money) (n : Next) (r : Run Money)
      → Few r
      → Holds Few Back (go_on_with s t n r)
  unfolding go_on_with
  go_on_with-Few s t (from_queue x) r h = saved-Few r _ h
  go_on_with-Few s t (from_fallback x) r h = saved-Few r _ h
  go_on_with-Few s t settled r h = (omega (arith, h, le), λ p. cc p)

  settle-Few :
      (s : Settings Money) (t : Turn Money) (o : Option Bytes) (r : Run Money)
      → Few r
      → Holds Few Back (settle s t o r)
  unfolding settle
  settle-Few s t none r h = failing r hooks_failed h
  settle-Few s t (some fallback) r h =
      let out = settle_or_take_queued_or fallback (arrive t.late r.queues) in
      go_on_with-Few s t out.1 (with_queues (out.0).0 r) h

  steer_or_settle-Few :
      (s : Settings Money) (t : Turn Money) (calls : List Block) (o : Option QueuedMessage)
      (r : Run Money)
      → Few r
      → Holds Few Back (steer_or_settle s t calls o r)
  unfolding steer_or_settle
  steer_or_settle-Few s t calls (some x) r h = saved-Few r _ h
  steer_or_settle-Few s t [] none r h = settle-Few s t t.agent_end r h
  steer_or_settle-Few s t (call ∷ calls) none r h = h

  pub after_turn-Few :
      (s : Settings Money) (t : Turn Money) (calls : List Block) (r : Run Money)
      → Few r
      → Holds Few Back (after_turn s t calls r)
  unfolding after_turn
  after_turn-Few s t calls r h =
      let out = take_queued steering (arrive t.early r.queues) in
      steer_or_settle-Few s t calls out.1 (with_queues (out.0).0 r) h

  first_steering-Few :
      (s : Settings Money) (io : Io) (o : Option QueuedMessage) (r : Run Money)
      → Few r
      → Holds Few Back (first_steering s io o r)
  unfolding first_steering
  first_steering-Few s io none r h = h
  first_steering-Few s io (some x) r h = saved-Few r _ h

  pub first_messages-Few :
      (s : Settings Money) (text_io steer_io : Io) (early : List Arrival) (text : Bytes)
      (r : Run Money)
      → Few r
      → Holds Few Back (first_messages s text_io steer_io early text r)
  unfolding first_messages
  first_messages-Few s text_io steer_io early text r h =
      bind-Holds Few Few Back _ _
        (if_split (Holds Few Back) (length text == 0) (next r) _ (λ _. h) (λ _. saved-Few r _ h))
        (λ r' h'.
          let out = take_queued steering (arrive early r'.queues) in
          first_steering-Few s steer_io out.1 (with_queues (out.0).0 r') h')
