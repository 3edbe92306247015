-- ===== src/Agent/Prompt/Loop.antt =====
-- internal/agent/agent.go: what follows a turn, and the loop of promptWithStart over its turns.
use notch.Prelude.{
  ℕ, suc, Bool, true, Option, none, some, List, [], ◌∷◌, ◌==◌, if◌then◌else◌, length,
}
use notch.Go.Bytes.{Bytes}
use notch.Model.{Block, text_message}
use notch.Session.Append.{Io}
use notch.Agent.{Agent}
use notch.Agent.Append.{append_to_conversation}
use notch.Agent.Queue.{
  QueuedMessage, Queues, Next, from_queue, from_fallback, settled, steering, begin_processing,
  end_processing, take_queued, settle_or_take_queued_or,
}
use notch.Agent.Tools.{tool_calls}
use notch.Agent.Prompt.{
  context_done, hooks_failed, provider_failed, Outcome, finished, out_of_turns, failed, Response,
  Arrival, Turn, Settings, Run, Flow, next, returns, ◌>>=◌, saved, arrive, queue_switches,
}
use notch.Agent.Prompt.Steps.{
  check_turns, before_start, auto_compact, context_hook, response_content, append_assistant,
  append_results, save_usage, check_cost, append_text,
}

module _ {Money : Type 0} where
  abbrev pub with_queues : Queues → Run Money → Run Money
  with_queues q r = record r { queues = q }

  -- Where nothing steers: the calls' results go to the provider, or the run would settle.
  unfoldable pub go_on_with : Settings Money → Turn Money → Next → Run Money → Flow Money
  unfolding append_to_conversation text_message
  go_on_with s t (from_queue x) r = append_text s t x.text r
  go_on_with s t (from_fallback x) r = append_text s t x.text r
  go_on_with s t settled r = returns r finished

  unfoldable pub settle : Settings Money → Turn Money → Option Bytes → Run Money → Flow Money
  unfolding settle_or_take_queued_or go_on_with arrive
  settle s t none r = returns r (failed hooks_failed)
  settle s t (some fallback) r =
      let out = settle_or_take_queued_or fallback (arrive t.late r.queues) in
      go_on_with s t out.1 (with_queues (out.0).0 r)

  unfoldable pub steer_or_settle :
      Settings Money → Turn Money → List Block → Option QueuedMessage → Run Money → Flow Money
  unfolding settle append_to_conversation text_message
  steer_or_settle s t calls (some x) r = append_text s t x.text r
  steer_or_settle s t [] none r = settle s t t.agent_end r
  steer_or_settle s t (call ∷ calls) none r = next r

  unfoldable pub after_turn : Settings Money → Turn Money → List Block → Run Money → Flow Money
  unfolding take_queued steer_or_settle arrive
  after_turn s t calls r =
      let out = take_queued steering (arrive t.early r.queues) in
      steer_or_settle s t calls out.1 (with_queues (out.0).0 r)

  unfoldable pub after_answer :
      Settings Money → Turn Money → Option (Response Money) → Run Money → Flow Money
  unfolding append_assistant append_results save_usage check_cost after_turn response_content
      tool_calls
  after_answer s t none r = returns r (failed provider_failed)
  after_answer s t (some answer) r =
      let calls = tool_calls (response_content answer) in
      append_assistant s t answer r
      >>= append_results s t answer calls
      >>= save_usage s t
      >>= check_cost s s.max_cost
      >>= after_turn s t calls

  unfoldable pub one_turn : Settings Money → Turn Money → ℕ → Run Money → Flow Money
  unfolding queue_switches check_turns before_start auto_compact context_hook after_answer
  one_turn s t turn r =
      check_turns s turn (queue_switches t.switches r)
      >>= before_start t.before
      >>= auto_compact s t
      >>= context_hook t
      >>= after_answer s t t.response

  abbrev pub then_turns : Flow Money → (Run Money → Run Money × Outcome) → Run Money × Outcome
  then_turns (next r) f = f r
  then_turns (returns r o) f = (r, o)

  unfoldable pub run_turns :
      Settings Money → List (Turn Money) → ℕ → Run Money → Run Money × Outcome
  unfolding one_turn
  run_turns s [] turn r = (r, out_of_turns)
  run_turns s (t ∷ ts) turn r =
      then_turns (one_turn s t turn r) (λ r'. run_turns s ts (suc turn) r')

  unfoldable pub first_steering :
      Settings Money → Io → Option QueuedMessage → Run Money → Flow Money
  unfolding append_to_conversation text_message
  first_steering s steer_io none r = next r
  first_steering s steer_io (some x) r =
      saved r (append_to_conversation s.codec steer_io (text_message "user" x.text) r.agent)

  -- The prompt's own text, and a message that steers already.
  unfoldable pub first_messages :
      Settings Money → Io → Io → List Arrival → Bytes → Run Money → Flow Money
  unfolding append_to_conversation text_message take_queued arrive first_steering
  first_messages s text_io steer_io early text r =
      (if length text == 0
        then next r
        else saved r (append_to_conversation s.codec text_io (text_message "user" text) r.agent))
      >>= λ r'.
          let out = take_queued steering (arrive early r'.queues) in
          first_steering s steer_io out.1 (with_queues (out.0).0 r')

  unfoldable pub prompt_with_start :
      Settings Money
      → Bool
      → Io
      → Io
      → List Arrival
      → Bytes
      → List (Turn Money)
      → Agent
      → Queues
      → Run Money × Outcome
  unfolding first_messages run_turns begin_processing end_processing
  prompt_with_start s context_ends text_io steer_io early text ts a q =
      let r : Run Money = record {
        agent = a;
        queues = (begin_processing q).0;
        turns = 0;
        total_cost = none;
        cost_known = true;
      } in
      let (r', o) =
        if context_ends
        then (r, failed context_done)
        else then_turns (first_messages s text_io steer_io early text r)
            (λ r'. run_turns s ts 0 r') in
      (with_queues (end_processing r'.queues) r', o)
