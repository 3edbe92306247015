-- ===== src/Agent/Prompt/Kept.antt =====
-- A whole prompt: the session holds the conversation, and the calls are answered.
use notch.Prelude.{
  ℕ, suc, inr, Bool, true, not, ◌&&◌, ltb, leb, Option, none, some, List, [], ◌∷◌, ◌==◌, if_split,
  length,
}
use notch.Go.Bytes.{Bytes}
use notch.Model.{Block}
use notch.Session.Append.{Io}
use notch.Agent.{Agent, should_auto_compact}
use notch.Agent.Compact.{
  CompactError, nothing_to_compact, hook_failed, serialize_failed, summary_failed, summary_empty,
  not_persisted, compact_locked,
}
use notch.Agent.Sync.{IsSynced}
use notch.Agent.Queue.{
  Queues, QueuedMessage, Next, from_queue, from_fallback, settled, steering, take_queued,
  settle_or_take_queued_or, begin_processing,
}
use notch.Agent.Tools.{tool_calls}
use notch.Agent.Prompt.{
  queue_switches, context_done, hooks_failed, provider_failed, max_turns, Outcome, finished,
  stopped, out_of_turns, failed, BeforeHook, before_failed, halts, goes_on, Response, Arrival, Turn,
  Settings, Run, next, returns, arrive,
}
use notch.Agent.Prompt.Steps.{
  check_turns, before_start, after_compaction, auto_compact, context_hook, response_content,
  append_assistant, save_usage, append_results, check_cost, is_over,
}
use notch.Agent.Prompt.Loop.{
  with_queues, go_on_with, settle, steer_or_settle, after_turn, after_answer, one_turn, run_turns,
  first_steering, first_messages, prompt_with_start,
}
use notch.Agent.Prompt.Rules.{Holds, bind-Holds, then_turns-Holds}
use notch.Agent.Prompt.Answered.{Answered}
use notch.Agent.Prompt.Good.{IsGood, compact_locked-IsGood}
use notch.Agent.Prompt.Records.{
  Good, Ended, Open, ends, text-Holds, append_assistant-Holds, save_usage-Holds,
  append_results-Holds,
}

module _ {Money : Type 0} where
  after_compaction-Holds :
      (r : Run Money) (out : Agent × Option CompactError)
      → IsGood out.0
      → Holds Good Ended (after_compaction r out)
  unfolding after_compaction
  after_compaction-Holds r (a, none) h = h
  after_compaction-Holds r (a, some nothing_to_compact) h = h
  after_compaction-Holds r (a, some hook_failed) (x, y) = (x, inr y)
  after_compaction-Holds r (a, some serialize_failed) (x, y) = (x, inr y)
  after_compaction-Holds r (a, some summary_failed) (x, y) = (x, inr y)
  after_compaction-Holds r (a, some summary_empty) (x, y) = (x, inr y)
  after_compaction-Holds r (a, some (not_persisted e)) (x, y) = (x, inr y)

  auto_compact-Holds :
      (s : Settings Money) (t : Turn Money) (r : Run Money)
      → Good r
      → Holds Good Ended (auto_compact s t r)
  unfolding auto_compact
  auto_compact-Holds s t r h =
      if_split (Holds Good Ended) (should_auto_compact t.context_tokens_estimate r.agent) _ (next r)
        (λ _.
          after_compaction-Holds r
            (compact_locked s.codec s.keep_recent_tokens t.summary true r.agent)
            (compact_locked-IsGood s.codec s.keep_recent_tokens t.summary true r.agent h))
        (λ _. h)

  check_turns-Holds :
      (s : Settings Money) (turn : ℕ) (r : Run Money)
      → Good r
      → Holds Good Ended (check_turns s turn r)
  unfolding check_turns
  check_turns-Holds s turn r h =
      if_split (Holds Good Ended) (ltb 0 s.max_turns && leb s.max_turns turn)
        (returns r (failed max_turns)) (next r) (λ _. ends r (failed max_turns) h) (λ _. h)

  before_start-Holds :
      (b : BeforeHook) (r : Run Money) → Good r → Holds Good Ended (before_start b r)
  unfolding before_start
  before_start-Holds before_failed r h = ends r (failed hooks_failed) h
  before_start-Holds halts r h = ends r stopped h
  before_start-Holds goes_on r h = h

  context_hook-Holds :
      (t : Turn Money) (r : Run Money) → Good r → Holds Good Ended (context_hook t r)
  unfolding context_hook
  context_hook-Holds t r h =
      if_split (Holds Good Ended) t.context_hook_ok (next r) (returns r (failed hooks_failed))
        (λ _. h) (λ _. ends r (failed hooks_failed) h)

  check_cost-Holds :
      (s : Settings Money) (limit : Option Money) (r : Run Money)
      → Good r
      → Holds Good Ended (check_cost s limit r)
  unfolding check_cost
  check_cost-Holds s none r h = h
  check_cost-Holds s (some limit) r h =
      if_split (Holds Good Ended) (not r.cost_known) _ _ (λ _. ends r _ h)
        (λ _.
          if_split (Holds Good Ended) (is_over s.at_least limit r.total_cost) _ _ (λ _. ends r _ h)
            (λ _. h))

  go_on_with-Holds :
      (s : Settings Money) (t : Turn Money) (n : Next) (r : Run Money)
      → Good r
      → Holds Good Ended (go_on_with s t n r)
  unfolding go_on_with
  go_on_with-Holds s t (from_queue x) r h = text-Holds s t.user_io x.text r h
  go_on_with-Holds s t (from_fallback x) r h = text-Holds s t.user_io x.text r h
  go_on_with-Holds s t settled r h = ends r finished h

  settle-Holds :
      (s : Settings Money) (t : Turn Money) (o : Option Bytes) (r : Run Money)
      → Good r
      → Holds Good Ended (settle s t o r)
  unfolding settle
  settle-Holds s t none r h = ends r (failed hooks_failed) h
  settle-Holds s t (some fallback) r h =
      let out = settle_or_take_queued_or fallback (arrive t.late r.queues) in
      go_on_with-Holds s t out.1 (with_queues (out.0).0 r) h

  steer_or_settle-Holds :
      (s : Settings Money) (t : Turn Money) (calls : List Block) (o : Option QueuedMessage)
      (r : Run Money)
      → Good r
      → Holds Good Ended (steer_or_settle s t calls o r)
  unfolding steer_or_settle
  steer_or_settle-Holds s t calls (some x) r h = text-Holds s t.user_io x.text r h
  steer_or_settle-Holds s t [] none r h = settle-Holds s t t.agent_end r h
  steer_or_settle-Holds s t (call ∷ calls) none r h = h

  after_turn-Holds :
      (s : Settings Money) (t : Turn Money) (calls : List Block) (r : Run Money)
      → Good r
      → Holds Good Ended (after_turn s t calls r)
  unfolding after_turn
  after_turn-Holds s t calls r h =
      let out = take_queued steering (arrive t.early r.queues) in
      steer_or_settle-Holds s t calls out.1 (with_queues (out.0).0 r) h

  after_answer-Holds :
      (s : Settings Money) (t : Turn Money) (o : Option (Response Money)) (r : Run Money)
      → Good r
      → Holds Good Ended (after_answer s t o r)
  unfolding after_answer
  after_answer-Holds s t none r h = ends r (failed provider_failed) h
  after_answer-Holds s t (some answer) r h =
      let calls = tool_calls (response_content answer) in
      bind-Holds Good Good Ended _ (after_turn s t calls)
        (bind-Holds Good Good Ended _ (check_cost s s.max_cost)
          (bind-Holds Good Good Ended _ (save_usage s t)
            (bind-Holds (Open calls) Good Ended (append_assistant s t answer r)
              (append_results s t answer calls) (append_assistant-Holds s t answer r h)
              (append_results-Holds s t answer calls))
            (save_usage-Holds s t))
          (check_cost-Holds s s.max_cost))
        (after_turn-Holds s t calls)

  one_turn-Holds :
      (s : Settings Money) (t : Turn Money) (turn : ℕ) (r : Run Money)
      → Good r
      → Holds Good Ended (one_turn s t turn r)
  unfolding one_turn queue_switches
  one_turn-Holds s t turn r h =
      bind-Holds Good Good Ended _ (after_answer s t t.response)
        (bind-Holds Good Good Ended _ (context_hook t)
          (bind-Holds Good Good Ended _ (auto_compact s t)
            (bind-Holds Good Good Ended (check_turns s turn (queue_switches t.switches r))
              (before_start t.before) (check_turns-Holds s turn (queue_switches t.switches r) h)
              (before_start-Holds t.before))
            (auto_compact-Holds s t))
          (context_hook-Holds t))
        (after_answer-Holds s t t.response)

  run_turns-Ended :
      (s : Settings Money) (ts : List (Turn Money)) (turn : ℕ) (r : Run Money)
      → Good r
      → Ended (run_turns s ts turn r).0 (run_turns s ts turn r).1
  unfolding run_turns
  run_turns-Ended s [] turn r h = ends r out_of_turns h
  run_turns-Ended s (t ∷ ts) turn r h =
      then_turns-Holds Good Ended (one_turn s t turn r) (λ r'. run_turns s ts (suc turn) r')
        (one_turn-Holds s t turn r h) (λ r' h'. run_turns-Ended s ts (suc turn) r' h')

  first_steering-Holds :
      (s : Settings Money) (io : Io) (o : Option QueuedMessage) (r : Run Money)
      → Good r
      → Holds Good Ended (first_steering s io o r)
  unfolding first_steering
  first_steering-Holds s io none r h = h
  first_steering-Holds s io (some x) r h = text-Holds s io x.text r h

  first_messages-Holds :
      (s : Settings Money) (text_io steer_io : Io) (early : List Arrival) (text : Bytes)
      (r : Run Money)
      → Good r
      → Holds Good Ended (first_messages s text_io steer_io early text r)
  unfolding first_messages
  first_messages-Holds s text_io steer_io early text r h =
      bind-Holds Good Good Ended _ _
        (if_split (Holds Good Ended) (length text == 0) (next r) _ (λ _. h)
          (λ _. text-Holds s text_io text r h))
        (λ r' h'.
          let out = take_queued steering (arrive early r'.queues) in
          first_steering-Holds s steer_io out.1 (with_queues (out.0).0 r') h')

  -- For an agent whose session, if it has one, holds its messages, cleaned, and in whose
  -- conversation each assistant message with calls is followed by their results, in order:
  -- whatever the hooks, the provider, the tools and the operating system answer in the turns of
  -- a prompt, and whatever arrives, the session holds the messages of the agent at its end,
  -- cleaned; and each assistant message with calls is followed by their results, in order,
  -- unless the prompt ended because a record could not be saved.
  pub prompt_with_start-Ended :
      (s : Settings Money) (context_ends : Bool) (text_io steer_io : Io) (early : List Arrival)
      (text : Bytes) (ts : List (Turn Money)) (a : Agent) (q : Queues)
      → IsSynced a
      → Answered a.messages
      → let (r, o) = prompt_with_start s context_ends text_io steer_io early text ts a q in
        Ended r o
  unfolding prompt_with_start
  prompt_with_start-Ended s context_ends text_io steer_io early text ts a q synced answered =
      let r : Run Money = record {
        agent = a;
        queues = (begin_processing q).0;
        turns = 0;
        total_cost = none;
        cost_known = true;
      } in
      if_split {A = Run Money × Outcome} (λ out. Ended out.0 out.1) context_ends _ _
        (λ _. ends r (failed context_done) (synced, answered))
        (λ _.
          then_turns-Holds Good Ended (first_messages s text_io steer_io early text r)
            (λ r'. run_turns s ts 0 r')
            (first_messages-Holds s text_io steer_io early text r (synced, answered))
            (λ r' h'. run_turns-Ended s ts 0 r' h'))
