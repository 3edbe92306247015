-- ===== src/Agent/Steps.antt =====
-- Any sequence of the operations on the agent's conversation and its session.
use mathlib.Core.Path.{subst}
use notch.Prelude.{
  ℕ, ◌≡◌, refl, sym, Bool, true, false, Option, none, some, List, [], ◌∷◌, ◌==◌, if◌then◌else◌,
  length, All, get_or, ◌++◌,
}
use notch.Go.Bytes.{Bytes, codes}
use notch.Go.Space.{trim_space}
use notch.Model.{Message, clean_messages}
use notch.Context.Split.{compacted_messages}
use notch.Session.{Codec, compaction_entry, reset_entry, commit, UsageEntry, message_entry}
use notch.Session.Append.{Io, append_record, append_compaction, append_reset, append_message}
use notch.Agent.{
  ProviderSwitch, Handle, Agent, AgentError, forget_report, replace_messages, apply_compaction,
  compact_in, use_switch, record_switch, switch_in, check_switch, switch_provider, queue_or_switch,
  queue_provider_switch, apply_pending_switch, apply_switch, use_session, is_current,
  resume_session, reset_current, reset_in, reset_conversation,
}
use notch.Agent.Sync.{
  Synced, IsSynced, append_record-Commits, append_kind-Keeps, after_append-replace,
  after_append-switch, after_append-add, after_append-stay, append_usage-Keeps,
}
use notch.Agent.Append.{
  append_cleaned, append_to_conversation, usage_in, append_turn_usage, cleaned_message,
}

pub data AgentOp : Type 0 where
  compacts : Bytes → List Message → Bool → AgentOp
  switches queues : Bytes → Option ℕ → Bytes → ℕ → AgentOp
  applies_pending : AgentOp
  resumes resets : Option Handle → AgentOp
  appends : Message → AgentOp
  records_usage : UsageEntry → AgentOp

either {ℓ} : {A : Type ℓ} (P : A → Type 0) (b : Bool) (x y : A) → P x → P y → P (if b then x else y)
either P true x y px py = px
either P false x y px py = py

-- A session that is handed over: a resumed one is clean, as a loaded one is, and a new one is empty.
abbrev pub IsGiven : AgentOp → Type 0
IsGiven (resumes (some (h, s))) = (clean_messages s.loaded.messages).0 ≡ s.loaded.messages
IsGiven (resets (some (h, s))) = s.loaded.messages ≡ []
IsGiven _ = Unit

module _ (c : Codec) (io : Io) (envelope : Bytes → Option Bytes) where
  unfoldable pub step_agent : AgentOp → Agent → Agent
  step_agent (compacts summary recent auto) a = (apply_compaction c io summary recent auto a).0
  step_agent (switches name next model window) a =
      (switch_provider c io envelope name next model window a).0
  step_agent (queues name next model window) a =
      (queue_provider_switch c io envelope name next model window a).0
  step_agent applies_pending a = (apply_pending_switch c io envelope a).0
  step_agent (resumes next) a = (resume_session next a).0
  step_agent (resets next) a = (reset_conversation c io next a).0
  step_agent (appends m) a = (append_to_conversation c io m a).0
  step_agent (records_usage u) a = (append_turn_usage c io u a).0

  compact-IsSynced :
      (summary : Bytes) (recent : List Message) (auto : Bool) (a : Agent) (o : Option Handle)
      → a.session ≡ o
      → Synced a.messages o
      → IsSynced (compact_in c io summary recent auto o a).0
  unfolding compact_in replace_messages forget_report append_compaction commit
  compact-IsSynced summary recent auto a none e h =
      subst (Synced (compacted_messages summary recent)) (sym e) tt
  compact-IsSynced summary recent auto a (some (k, s)) e h =
      let compacted = compacted_messages summary recent in
      let entry =
        compaction_entry
          (record { summary = summary; messages = (clean_messages compacted).0; auto = auto }) in
      after_append-replace k compacted (commit entry) a s (append_record c io entry s) refl h
        (append_record-Commits c io entry s)

  switch-IsSynced :
      (sw : ProviderSwitch) (a : Agent) (o : Option Handle)
      → a.session ≡ o
      → Synced a.messages o
      → IsSynced (switch_in c io envelope sw o a).0
  unfolding switch_in use_switch forget_report
  switch-IsSynced sw a none e h = subst (Synced a.messages) (sym e) tt
  switch-IsSynced sw a (some (k, s)) e h =
      after_append-switch k sw a s _ h
        (append_kind-Keeps c io (codes "model_change") false envelope s)

  reset-IsSynced :
      (a : Agent) (o : Option Handle)
      → a.session ≡ o
      → Synced a.messages o
      → IsSynced (reset_in c io o a).0
  unfolding reset_in replace_messages forget_report append_reset commit clean_messages
  reset-IsSynced a none e h = subst (Synced []) (sym e) tt
  reset-IsSynced a (some (k, s)) e h =
      after_append-replace k [] (commit reset_entry) a s (append_record c io reset_entry s) refl h
        (append_record-Commits c io reset_entry s)

  check-IsSynced :
      (name : Bytes) (next : Option ℕ) (model : Bytes) (window : ℕ)
      (go : ProviderSwitch → Agent → Agent × Option AgentError) (a : Agent)
      → IsSynced a
      → ((sw : ProviderSwitch) → IsSynced (go sw a).0)
      → IsSynced (check_switch name next model window go a).0
  unfolding check_switch
  check-IsSynced name none model window go a h hgo = h
  check-IsSynced name (some p) model window go a h hgo =
      either {A = Agent × Option AgentError} (λ out. IsSynced (out.0))
        (length (trim_space model) == 0) _ _ h (hgo _)

  pending-IsSynced :
      (o : Option ProviderSwitch) (a : Agent)
      → IsSynced a
      → IsSynced (apply_switch c io envelope o a).0
  unfolding apply_switch record_switch
  pending-IsSynced none a h = h
  pending-IsSynced (some sw) a h =
      switch-IsSynced sw (record a { pending_switch = none }) a.session refl h

  append-IsSynced :
      (m : Message) (a : Agent) (o : Option Handle)
      → a.session ≡ o
      → Synced a.messages o
      → IsSynced (append_cleaned c io m o a).0
  unfolding append_cleaned append_message commit clean_messages
  append-IsSynced m a none e h = subst (Synced (a.messages ++ m ∷ [])) (sym e) tt
  append-IsSynced m a (some (k, s)) e h =
      let entry = message_entry (get_or (clean_messages (m ∷ [])).0 0 m) in
      after_append-add k m (commit entry) a s _ refl h (append_record-Commits c io entry s)

  usage-IsSynced :
      (u : UsageEntry) (a : Agent) (o : Option Handle)
      → a.session ≡ o
      → Synced a.messages o
      → IsSynced (usage_in c io u o a).0
  unfolding usage_in
  usage-IsSynced u a none e h = subst (Synced a.messages) (sym e) tt
  usage-IsSynced u a (some (k, s)) e h = after_append-stay k a s _ h (append_usage-Keeps c io u s)

  pub step_agent-IsSynced :
      (op : AgentOp) (a : Agent) → IsGiven op → IsSynced a → IsSynced (step_agent op a)
  unfolding step_agent apply_compaction switch_provider record_switch queue_provider_switch
      queue_or_switch apply_pending_switch resume_session reset_conversation reset_current
      use_session replace_messages forget_report clean_messages append_to_conversation
      append_turn_usage
  step_agent-IsSynced (compacts summary recent auto) a g h =
      compact-IsSynced summary recent auto a a.session refl h
  step_agent-IsSynced (switches name next model window) a g h =
      check-IsSynced name next model window (record_switch c io envelope) a h
        (λ sw. switch-IsSynced sw a a.session refl h)
  step_agent-IsSynced (queues name next model window) a g h =
      check-IsSynced name next model window (queue_or_switch c io envelope) a h (λ sw.
        either {A = Agent × Option AgentError} (λ out. IsSynced (out.0)) a.processing _ _ h
          (switch-IsSynced sw a a.session refl h))
  step_agent-IsSynced applies_pending a g h = pending-IsSynced a.pending_switch a h
  step_agent-IsSynced (resumes none) a g h = h
  step_agent-IsSynced (resumes (some (k, s))) a g h =
      either {A = Agent × (Option Handle) × Option AgentError} (λ out. IsSynced (out.0))
        (is_current (k, s) a) _ _ h (sym g)
  step_agent-IsSynced (resets none) a g h = reset-IsSynced a a.session refl h
  step_agent-IsSynced (resets (some (k, s))) a g h =
      either {A = Agent × (Option Handle) × Option AgentError} (λ out. IsSynced (out.0))
        (is_current (k, s) a) _ _ (reset-IsSynced a a.session refl h) g
  step_agent-IsSynced (appends m) a g h = append-IsSynced (cleaned_message m) a a.session refl h
  step_agent-IsSynced (records_usage u) a g h = usage-IsSynced u a a.session refl h

-- The operations in their order, with what the operating system answers to each.
unfoldable pub run_agent : Codec → (Bytes → Option Bytes) → List (Io × AgentOp) → Agent → Agent
unfolding step_agent
run_agent c envelope [] a = a
run_agent c envelope ((io, op) ∷ ops) a = run_agent c envelope ops (step_agent c io envelope op a)

-- For an agent whose session, if it has one, holds its messages, cleaned: after any messages and
-- usage that are appended, compactions, switches of the provider, resumed and reset sessions,
-- whatever the operating system answers to each append, the session holds the messages of the
-- agent, cleaned. The condition is that a resumed session has clean messages and a new one none.
pub run_agent-IsSynced :
    (c : Codec) (envelope : Bytes → Option Bytes) (ops : List (Io × AgentOp)) (a : Agent)
    → All (λ o. IsGiven (o.1)) ops
    → IsSynced a
    → IsSynced (run_agent c envelope ops a)
unfolding run_agent
run_agent-IsSynced c envelope [] a g h = h
run_agent-IsSynced c envelope ((io, op) ∷ ops) a (g, gs) h =
    run_agent-IsSynced c envelope ops (step_agent c io envelope op a) gs
      (step_agent-IsSynced c io envelope op a g h)
