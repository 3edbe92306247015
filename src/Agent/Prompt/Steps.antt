-- ===== src/Agent/Prompt/Steps.antt =====
-- internal/agent/agent.go: the parts of a turn of promptWithStart, up to the check of the cost.
use notch.Prelude.{
  ℕ, suc, Bool, true, false, not, ◌&&◌, Option, none, some, List, [], ◌∷◌, ltb, leb, if◌then◌else◌,
}
use notch.Go.Bytes.{Bytes, codes, bytes_eq}
use notch.Model.{Block, text_message, normalize_tool_call_arguments}
use notch.Agent.{Agent, should_auto_compact, apply_pending_switch}
use notch.Agent.Append.{append_to_conversation, append_turn_usage}
use notch.Agent.Compact.{CompactError, nothing_to_compact, compact_locked}
use notch.Agent.Prompt.{
  hooks_failed, max_turns, max_cost, pricing_unknown, not_compacted, stopped, failed, BeforeHook,
  before_failed, halts, goes_on, Response, Turn, Settings, Run, Flow, next, returns, ◌>>=◌, saved,
  add_cost, still_known, mark_calls, assistant_message, results_message,
}

module _ {Money : Type 0} where
  unfoldable pub check_turns : Settings Money → ℕ → Run Money → Flow Money
  check_turns s turn r =
      if ltb 0 s.max_turns && leb s.max_turns turn then returns r (failed max_turns) else next r

  unfoldable pub before_start : BeforeHook → Run Money → Flow Money
  before_start before_failed r = returns r (failed hooks_failed)
  before_start halts r = returns r stopped
  before_start goes_on r = next r

  -- A conversation with nothing to compact goes on.
  unfoldable pub after_compaction : Run Money → Agent × Option CompactError → Flow Money
  after_compaction r (a, none) = next (record r { agent = a })
  after_compaction r (a, some nothing_to_compact) = next (record r { agent = a })
  after_compaction r (a, some e) = returns (record r { agent = a }) (failed (not_compacted e))

  unfoldable pub auto_compact : Settings Money → Turn Money → Run Money → Flow Money
  unfolding should_auto_compact after_compaction compact_locked
  auto_compact s t r =
      if should_auto_compact t.context_tokens_estimate r.agent
      then after_compaction r (compact_locked s.codec s.keep_recent_tokens t.summary true r.agent)
      else next r

  unfoldable pub context_hook : Turn Money → Run Money → Flow Money
  context_hook t r = if t.context_hook_ok then next r else returns r (failed hooks_failed)

  unfoldable pub response_content : Response Money → List Block
  unfolding mark_calls normalize_tool_call_arguments
  response_content answer =
      let marked =
        if bytes_eq answer.stop_reason (codes "max_tokens")
        then mark_calls answer.content
        else answer.content in
      (normalize_tool_call_arguments marked).0

  -- What the provider reports, and the cost of the turn.
  unfoldable pub report : Settings Money → Turn Money → Response Money → Run Money → Run Money
  unfolding add_cost
  report s t answer r =
      let reported = ltb 0 answer.total_input_tokens in
      record r {
        turns = suc r.turns;
        agent = record r.agent {
          reported_input_tokens = if reported then answer.total_input_tokens else 0;
          reported_estimate = if reported then t.request_estimate else 0;
        };
        total_cost = add_cost s.add r.total_cost answer.cost;
        cost_known = still_known answer.cost r.cost_known;
      }

  unfoldable pub append_assistant :
      Settings Money → Turn Money → Response Money → Run Money → Flow Money
  unfolding report append_to_conversation response_content
  append_assistant s t answer r =
      let r' = report s t answer r in
      saved r' (
        append_to_conversation s.codec t.assistant_io (assistant_message (response_content answer))
          r'.agent)

  unfoldable pub save_usage : Settings Money → Turn Money → Run Money → Flow Money
  unfolding append_turn_usage
  save_usage s t r = saved r (append_turn_usage s.codec t.usage_io t.usage r.agent)

  -- A step that fails still records the usage of its turn.
  unfoldable pub or_save_usage : Settings Money → Turn Money → Flow Money → Flow Money
  unfolding save_usage
  or_save_usage s t (next r) = next r
  or_save_usage s t (returns r o) = save_usage s t r >>= λ r'. returns r' o

  unfoldable pub add_delegated : Settings Money → Option (Option Money) → Run Money → Run Money
  unfolding add_cost
  add_delegated s none r = r
  add_delegated s (some cost) r = record r {
    total_cost = add_cost s.add r.total_cost cost;
    cost_known = still_known cost r.cost_known;
  }

  unfoldable pub append_results :
      Settings Money → Turn Money → Response Money → List Block → Run Money → Flow Money
  unfolding add_delegated append_to_conversation or_save_usage apply_pending_switch
  append_results s t answer [] r = next r
  append_results s t answer (call ∷ calls) r =
      let r' = add_delegated s answer.delegated r in
      let message = results_message t.registry (call ∷ calls) in
      or_save_usage s t (saved r' (append_to_conversation s.codec t.results_io message r'.agent))
      >>= λ r''.
          or_save_usage s t
            (saved r'' (apply_pending_switch s.codec t.switch_io s.envelope r''.agent))

  abbrev pub is_over : (Money → Money → Bool) → Money → Option Money → Bool
  is_over at_least limit none = false
  is_over at_least limit (some total) = at_least total limit

  unfoldable pub check_cost : Settings Money → Option Money → Run Money → Flow Money
  check_cost s none r = next r
  check_cost s (some limit) r =
      if not r.cost_known
      then returns r (failed pricing_unknown)
      else if is_over (s.at_least) limit r.total_cost
      then returns r (failed max_cost)
      else next r

  abbrev pub append_text : Settings Money → Turn Money → Bytes → Run Money → Flow Money
  append_text s t text r =
      saved r (append_to_conversation s.codec t.user_io (text_message "user" text) r.agent)
