-- ===== src/Agent/Prompt/Limit.antt =====
-- The limit of the turns.
use mathlib.Core.Path.{subst}
use notch.Prelude.{
  ℕ, suc, ◌+◌, ◌<◌, ◌≤◌, ◌≡◌, ◌≢◌, refl, Bool, true, false, ◌&&◌, ltb, leb, Option, none, some,
  List, [], ◌∷◌, if_split, length, arith, dec_lt, sym,
}
use notch.Go.Bytes.{Bytes}
use notch.Session.Append.{Io}
use notch.Agent.{Agent}
use notch.Agent.Queue.{Queues, begin_processing, end_processing}
use notch.Agent.Tools.{tool_calls}
use notch.Agent.Prompt.{
  context_done, max_turns, Outcome, out_of_turns, failed, Response, Arrival, Turn, Settings, Run,
  next, returns, queue_switches,
}
use notch.Agent.Prompt.Steps.{
  check_turns, before_start, auto_compact, context_hook, response_content, report, append_assistant,
  save_usage, append_results, check_cost,
}
use notch.Agent.Prompt.Loop.{
  after_turn, after_answer, one_turn, then_turns, run_turns, first_messages, prompt_with_start,
}
use notch.Agent.Prompt.Rules.{Holds, bind-Holds, then_turns-Holds, weaker-Holds}
use notch.Agent.Prompt.Counted.{
  AtMost, Returned, saved-Few, append_results-Few, auto_compact-Few, before_start-Few,
  context_hook-Few, check_cost-Few, after_turn-Few, first_messages-Few,
}

module _ {Money : Type 0} where
  -- A turn adds one answered turn at most.
  after_answer-AtMost :
      (k : ℕ) (s : Settings Money) (t : Turn Money) (o : Option (Response Money)) (r : Run Money)
      → AtMost k r
      → Holds (AtMost (suc k)) (Returned (suc k)) (after_answer s t o r)
  unfolding after_answer append_assistant report
  after_answer-AtMost k s t none r h = (omega (arith, h), λ p. cc p)
  after_answer-AtMost k s t (some answer) r h =
      let same : suc k ≤ suc k = omega arith in
      let P = AtMost (suc k) in
      let Q = Returned (suc k) in
      let calls = tool_calls (response_content answer) in
      bind-Holds P P Q _ (after_turn s t calls)
        (bind-Holds P P Q _ (check_cost s s.max_cost)
          (bind-Holds P P Q _ (save_usage s t)
            (bind-Holds P P Q (append_assistant s t answer r) (append_results s t answer calls)
              (saved-Few (suc k) (suc k) same (report s t answer r) _ (omega (arith, h)))
              (append_results-Few (suc k) (suc k) same s t answer calls))
            (λ r' h'. unfold save_usage in saved-Few (suc k) (suc k) same r' _ h'))
          (check_cost-Few (suc k) (suc k) same s s.max_cost))
        (after_turn-Few (suc k) (suc k) same s t calls)

  check_turns-AtMost :
      (s : Settings Money) (turn : ℕ) (r : Run Money)
      → AtMost turn r
      → Holds (AtMost turn) (Returned (suc turn)) (check_turns s turn r)
  unfolding check_turns
  check_turns-AtMost s turn r h =
      if_split (Holds (AtMost turn) (Returned (suc turn)))
        (ltb 0 s.max_turns && leb s.max_turns turn) (returns r (failed max_turns)) (next r)
        (λ _. (omega (arith, h), λ p. cc p)) (λ _. h)

  one_turn-AtMost :
      (s : Settings Money) (t : Turn Money) (turn : ℕ) (r : Run Money)
      → AtMost turn r
      → Holds (AtMost (suc turn)) (Returned (suc turn)) (one_turn s t turn r)
  unfolding one_turn queue_switches
  one_turn-AtMost s t turn r h =
      let le : turn ≤ suc turn = omega arith in
      let P = AtMost turn in
      let Q = Returned (suc turn) in
      bind-Holds P (AtMost (suc turn)) Q _ (after_answer s t t.response)
        (bind-Holds P P Q _ (context_hook t)
          (bind-Holds P P Q _ (auto_compact s t)
            (bind-Holds P P Q (check_turns s turn (queue_switches t.switches r))
              (before_start t.before) (check_turns-AtMost s turn (queue_switches t.switches r) h)
              (before_start-Few turn (suc turn) le t.before))
            (auto_compact-Few turn (suc turn) le s t))
          (context_hook-Few turn (suc turn) le t))
        (after_answer-AtMost turn s t t.response)

  -- At the limit the turn does not start.
  one_turn-stops :
      (s : Settings Money) (t : Turn Money) (turn : ℕ) (r : Run Money)
      → 0 < s.max_turns
      → s.max_turns ≤ turn
      → one_turn s t turn r ≡ returns (queue_switches t.switches r) (failed max_turns)
  unfolding one_turn check_turns
  one_turn-stops s t turn r more h = rw (at_limit s.max_turns turn more h) refl
    where
      at_limit : (n turn : ℕ) → 0 < n → n ≤ turn → (ltb 0 n && leb n turn) ≡ true
      at_limit n turn more h = ground arith

  abbrev Limited : ℕ → Settings Money → ℕ → Run Money × Outcome → Type 0
  Limited turn s size (r, o) =
      (r.turns ≤ s.max_turns) × (s.max_turns < turn + size → o ≢ out_of_turns)

  further :
      (s : Settings Money) (ts : List (Turn Money)) (turn : ℕ) (out : Run Money × Outcome)
      → Limited (suc turn) s (length ts) out
      → Limited turn s (suc (length ts)) out
  further s ts turn (r, o) (few, back) = (few, λ long. back (omega (arith, long)))

  run_turns-Limited :
      (s : Settings Money) (ts : List (Turn Money)) (turn : ℕ) (r : Run Money)
      → 0 < s.max_turns
      → turn ≤ s.max_turns
      → AtMost turn r
      → Limited turn s (length ts) (run_turns s ts turn r)
  unfolding run_turns queue_switches
  run_turns-Limited s [] turn r more h few =
      (omega (arith, h, few), λ long. absurd (omega (arith, long, h)))
  run_turns-Limited s (t ∷ ts) turn r more h few = elim (dec_lt turn s.max_turns) [
    | yes lt ↦
        let P = AtMost (suc turn) in
        let Q : Run Money → Outcome → Type 0 = λ r o. Limited turn s (suc (length ts)) (r, o) in
        then_turns-Holds P Q (one_turn s t turn r) (λ r'. run_turns s ts (suc turn) r')
          (weaker-Holds P (Returned (suc turn)) Q (one_turn s t turn r)
            (one_turn-AtMost s t turn r few)
            (λ r' o (few', back). (omega (arith, few', lt), λ long. back)))
          (λ r' few'.
            further s ts turn (run_turns s ts (suc turn) r')
              (run_turns-Limited s ts (suc turn) r' more lt few'))
    | no ge ↦
        subst
          (λ m.
            Limited turn s (suc (length ts)) (then_turns m (λ r'. run_turns s ts (suc turn) r')))
          (sym (one_turn-stops s t turn r more (omega arith)))
          (omega (arith, few, h), λ long p. cc p)
  ]

  -- With a limit of turns above 0 and more turns given than that, a prompt ends by itself: the
  -- provider has answered no more turns than the limit, and the agent is no longer processing.
  pub prompt_with_start_ends :
      (s : Settings Money) (context_ends : Bool) (text_io steer_io : Io) (early : List Arrival)
      (text : Bytes) (ts : List (Turn Money)) (a : Agent) (q : Queues)
      → 0 < s.max_turns
      → s.max_turns < length ts
      → let (r, o) = prompt_with_start s context_ends text_io steer_io early text ts a q in
        (r.turns ≤ s.max_turns) × (o ≢ out_of_turns) × (r.queues.processing ≡ false)
  unfolding prompt_with_start end_processing
  prompt_with_start_ends s context_ends text_io steer_io early text ts a q more long =
      let r : Run Money = record {
        agent = a;
        queues = (begin_processing q).0;
        turns = 0;
        total_cost = none;
        cost_known = true;
      } in
      let (few, back) =
        if_split {A = Run Money × Outcome} (λ out. Returned s.max_turns out.0 out.1) context_ends
          (r, failed context_done)
          (then_turns (first_messages s text_io steer_io early text r) (λ r'. run_turns s ts 0 r'))
          (λ _. (omega arith, λ p. cc p))
          (λ _.
            then_turns-Holds (AtMost 0) (Returned s.max_turns)
              (first_messages s text_io steer_io early text r) (λ r'. run_turns s ts 0 r')
              (first_messages-Few 0 s.max_turns (omega arith) s text_io steer_io early text r
                (omega arith))
              (λ r' few.
                let (bounded, back) = run_turns-Limited s ts 0 r' more (omega arith) few in
                (bounded, back (omega (arith, long))))) in
      (few, back, refl)
