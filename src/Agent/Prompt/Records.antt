-- ===== src/Agent/Prompt/Records.antt =====
-- The records of a turn: the session holds the conversation, and the calls are answered.
use mathlib.Core.Path.{subst}
use notch.Prelude.{◌≡◌, refl, sym, ◌∙◌, ◌⊎◌, inl, inr, Option, none, some, List, [], ◌∷◌, ◌++◌, map}
use notch.Go.Bytes.{Bytes}
use notch.Model.{Block, Message, text_message}
use notch.Session.Append.{Io}
use notch.Agent.{AgentError, apply_pending_switch}
use notch.Agent.Append.{cleaned_message, append_to_conversation, append_turn_usage}
use notch.Agent.Sync.{IsSynced}
use notch.Agent.Tools.{tool_calls}
use notch.Agent.Prompt.{
  not_saved, Outcome, failed, Response, Turn, Settings, Run, Flow, next, returns, ◌>>=◌, saved,
  assistant_message, results_message,
}
use notch.Agent.Prompt.Steps.{
  response_content, report, append_assistant, save_usage, or_save_usage, add_delegated,
  append_results,
}
use notch.Agent.Prompt.Rules.{Holds, bind-Holds, saved-Holds}
use notch.Agent.Prompt.Answered.{
  Answered, IsOpen, owed, call_ids, Answered-plain, Answered-opens, IsOpen-nothing, IsOpen-Answered,
  owed-cleaned_message, answered_ids-cleaned_message, role-cleaned_message, answered_ids-results,
}
use notch.Agent.Prompt.Synced.{append-IsSynced, usage-IsSynced}
use notch.Agent.Prompt.Good.{IsGood, append-messages, usage-IsGood, switch-IsGood}

module _ {Money : Type 0} where
  abbrev pub Good : Run Money → Type 0
  Good r = IsGood r.agent

  -- A prompt that could not save a record may leave calls without results.
  abbrev pub Ended : Run Money → Outcome → Type 0
  Ended r o =
      IsSynced r.agent
      × (((e : AgentError) × (o ≡ failed (not_saved e))) ⊎ Answered r.agent.messages)

  abbrev pub Open : List Block → Run Money → Type 0
  Open calls r = IsSynced r.agent × IsOpen (map (λ b. b.id) calls) r.agent.messages

  pub ends : (r : Run Money) (o : Outcome) → Good r → Ended r o
  ends r o (synced, answered) = (synced, inr answered)

  -- A message with no calls is appended.
  pub append-Holds :
      (s : Settings Money) (io : Io) (m : Message) (r : Run Money)
      → owed m ≡ []
      → Good r
      → Holds Good Ended (saved r (append_to_conversation s.codec io m r.agent))
  append-Holds s io m r plain (synced, answered) =
      let out = append_to_conversation s.codec io m r.agent in
      let synced' = append-IsSynced s.codec io m r.agent synced in
      saved-Holds Good Ended r out
        (λ done. (
          synced',
          subst Answered (sym (append-messages s.codec io m r.agent done)) (
              Answered-plain r.agent.messages (cleaned_message m) answered
                (owed-cleaned_message m ∙ plain)),
        ))
        (λ e. (synced', inl (e, refl)))

  pub text-Holds :
      (s : Settings Money) (io : Io) (text : Bytes) (r : Run Money)
      → Good r
      → Holds Good Ended
          (saved r (append_to_conversation s.codec io (text_message "user" text) r.agent))
  unfolding text_message
  text-Holds s io text r h = append-Holds s io (text_message "user" text) r refl h

  pub append_assistant-Holds :
      (s : Settings Money) (t : Turn Money) (answer : Response Money) (r : Run Money)
      → Good r
      → Holds (Open (tool_calls (response_content answer))) Ended (append_assistant s t answer r)
  unfolding append_assistant report
  append_assistant-Holds s t answer r (synced, answered) =
      let m = assistant_message (response_content answer) in
      let r' = report s t answer r in
      let synced' = append-IsSynced s.codec t.assistant_io m r'.agent synced in
      saved-Holds (Open (tool_calls (response_content answer))) Ended r'
        (append_to_conversation s.codec t.assistant_io m r'.agent)
        (λ done. (
          synced',
          subst (IsOpen (call_ids (response_content answer)))
              (sym (append-messages s.codec t.assistant_io m r'.agent done))
              (subst (λ ids. IsOpen ids (r'.agent.messages ++ cleaned_message m ∷ []))
                (owed-cleaned_message m)
                (Answered-opens r'.agent.messages (cleaned_message m) answered)),
        ))
        (λ e. (synced', inl (e, refl)))

  pub save_usage-Holds :
      (s : Settings Money) (t : Turn Money) (r : Run Money)
      → Good r
      → Holds Good Ended (save_usage s t r)
  unfolding save_usage
  save_usage-Holds s t r h =
      let h' = usage-IsGood s.codec t.usage_io t.usage r.agent h in
      saved-Holds Good Ended r (append_turn_usage s.codec t.usage_io t.usage r.agent) (λ _. h')
        (λ e. (h'.0, inr h'.1))

  or_save_usage-Holds :
      (s : Settings Money) (t : Turn Money) (m : Flow Money)
      → Holds Good Ended m
      → Holds Good Ended (or_save_usage s t m)
  unfolding or_save_usage save_usage
  or_save_usage-Holds s t (next r) h = h
  or_save_usage-Holds s t (returns r o) (synced, why) =
      let out = append_turn_usage s.codec t.usage_io t.usage r.agent in
      let synced' = usage-IsSynced s.codec t.usage_io t.usage r.agent synced in
      bind-Holds (λ r'. Ended r' o) Good Ended (saved r out) (λ r'. returns r' o)
        (saved-Holds (λ r'. Ended r' o) Ended r out
          (λ _. (
            synced',
            elim why [
              | inl failing ↦ inl failing
              | inr answered ↦
                  inr (usage-IsGood s.codec t.usage_io t.usage r.agent (synced, answered)).1
            ],
          ))
          (λ e. (synced', inl (e, refl))))
        (λ r' h. h)

  -- The results are saved, and then a switch that waits is applied.
  results-Holds :
      (s : Settings Money) (t : Turn Money) (call : Block) (calls : List Block) (r : Run Money)
      → Open (call ∷ calls) r
      → Holds Good Ended (
          or_save_usage s t (
            saved r (
              append_to_conversation s.codec t.results_io
                (results_message t.registry (call ∷ calls))
                r.agent))
          >>= λ r'.
              or_save_usage s t
                (saved r' (apply_pending_switch s.codec t.switch_io s.envelope r'.agent)))
  results-Holds s t call calls r (synced, open_calls) =
      let m = results_message t.registry (call ∷ calls) in
      let out = append_to_conversation s.codec t.results_io m r.agent in
      let synced' = append-IsSynced s.codec t.results_io m r.agent synced in
      bind-Holds Good Good Ended (or_save_usage s t (saved r out)) _
        (or_save_usage-Holds s t (saved r out) (
          saved-Holds Good Ended r out
            (λ done. (
              synced',
              subst Answered (sym (append-messages s.codec t.results_io m r.agent done)) (
                  IsOpen-Answered (map (λ b. b.id) (call ∷ calls)) r.agent.messages
                    (cleaned_message m) open_calls (role-cleaned_message m)
                    (answered_ids-cleaned_message m
                      ∙ answered_ids-results t.registry (call ∷ calls))),
            ))
            (λ e. (synced', inl (e, refl)))))
        (λ r' good.
          let switched = switch-IsGood s.codec t.switch_io s.envelope r'.agent good in
          or_save_usage-Holds s t
            (saved r' (apply_pending_switch s.codec t.switch_io s.envelope r'.agent))
            (saved-Holds Good Ended r'
              (apply_pending_switch s.codec t.switch_io s.envelope r'.agent) (λ _. switched)
              (λ e. (switched.0, inr switched.1))))

  delegated-Open :
      (s : Settings Money) (d : Option (Option Money)) (calls : List Block) (r : Run Money)
      → Open calls r
      → Open calls (add_delegated s d r)
  unfolding add_delegated
  delegated-Open s none calls r h = h
  delegated-Open s (some cost) calls r h = h

  pub append_results-Holds :
      (s : Settings Money) (t : Turn Money) (answer : Response Money) (calls : List Block)
      (r : Run Money)
      → Open calls r
      → Holds Good Ended (append_results s t answer calls r)
  unfolding append_results
  append_results-Holds s t answer [] r (synced, open_calls) =
      (synced, IsOpen-nothing r.agent.messages open_calls)
  append_results-Holds s t answer (call ∷ calls) r h =
      results-Holds s t call calls (add_delegated s answer.delegated r)
        (delegated-Open s answer.delegated (call ∷ calls) r h)
