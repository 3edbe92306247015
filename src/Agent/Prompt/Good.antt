-- ===== src/Agent/Prompt/Good.antt =====
-- The agent's own operations on a conversation in which the calls are answered, in step with its
-- session.
use mathlib.Core.Path.{subst}
use notch.Prelude.{
  ℕ, ◌≡◌, refl, sym, Bool, not, ◌||◌, Option, none, some, List, [], ◌∷◌, ◌++◌, leb, ◌==◌, if_split,
  length, drop,
}
use notch.Go.Bytes.{Bytes}
use notch.Go.Space.{trim_space}
use notch.Model.{Message}
use notch.Context.Split.{compaction_split, compacted_messages}
use notch.Session.{Codec, UsageEntry}
use notch.Session.Append.{Session, Io, AppendError, append_message, append_usage}
use notch.Agent.{
  ProviderSwitch, Handle, Agent, AgentError, forget_report, after_append, replace_messages,
  compact_in, apply_compaction, use_switch, switch_in, record_switch, apply_switch,
  apply_pending_switch,
}
use notch.Agent.Append.{
  add_message, cleaned_message, append_cleaned, append_to_conversation, usage_in, append_turn_usage,
}
use notch.Agent.Compact.{
  CompactError, SummaryAnswer, persisted, compact_with, after_usage, ask_summary, summarize,
  compact_recent, compact_at, compact_locked,
}
use notch.Agent.Sync.{IsSynced}
use notch.Agent.Prompt.Answered.{Answered, Answered-drop, Answered-compacted}
use notch.Agent.Prompt.Synced.{usage-IsSynced, switch-IsSynced, compaction-IsSynced}

abbrev pub IsGood : Agent → Type 0
IsGood a = IsSynced a × Answered a.messages

add-messages :
    (h : ℕ) (m : Message) (a : Agent) (out : Session × Option AppendError)
    → (after_append h (add_message m) a out).1 ≡ none
    → ((after_append h (add_message m) a out).0).messages ≡ a.messages ++ m ∷ []
unfolding after_append
add-messages h m a (s, none) e = refl
add-messages h m a (s, some x) e = absurd (cc e)

append_cleaned-messages :
    (c : Codec) (io : Io) (m : Message) (o : Option Handle) (a : Agent)
    → (append_cleaned c io m o a).1 ≡ none
    → ((append_cleaned c io m o a).0).messages ≡ a.messages ++ m ∷ []
unfolding append_cleaned
append_cleaned-messages c io m none a e = refl
append_cleaned-messages c io m (some (h, s)) a e = add-messages h m a (append_message c io m s) e

pub append-messages :
    (c : Codec) (io : Io) (m : Message) (a : Agent)
    → (append_to_conversation c io m a).1 ≡ none
    → ((append_to_conversation c io m a).0).messages ≡ a.messages ++ cleaned_message m ∷ []
unfolding append_to_conversation
append-messages c io m a e = append_cleaned-messages c io (cleaned_message m) a.session a e

-- A change that leaves the messages leaves them whatever the append answers.
stays :
    (h : ℕ) (change : Agent → Agent) (a : Agent) (out : Session × Option AppendError)
    → ((b : Agent) → (change b).messages ≡ b.messages)
    → ((after_append h change a out).0).messages ≡ a.messages
unfolding after_append
stays h change a (s, none) same = same (record a { session = some (h, s) })
stays h change a (s, some e) same = refl

usage_in-messages :
    (c : Codec) (io : Io) (u : UsageEntry) (o : Option Handle) (a : Agent)
    → ((usage_in c io u o a).0).messages ≡ a.messages
unfolding usage_in
usage_in-messages c io u none a = refl
usage_in-messages c io u (some (h, s)) a = stays h (λ b. b) a (append_usage c io u s) (λ b. refl)

pub usage-IsGood :
    (c : Codec) (io : Io) (u : UsageEntry) (a : Agent)
    → IsGood a
    → IsGood (append_turn_usage c io u a).0
unfolding append_turn_usage
usage-IsGood c io u a (synced, answered) = (
  usage-IsSynced c io u a synced,
  subst Answered (sym (usage_in-messages c io u a.session a)) answered,
)

switch_in-messages :
    (c : Codec) (io : Io) (envelope : Bytes → Option Bytes) (sw : ProviderSwitch)
    (o : Option Handle) (a : Agent)
    → ((switch_in c io envelope sw o a).0).messages ≡ a.messages
unfolding switch_in use_switch forget_report
switch_in-messages c io envelope sw none a = refl
switch_in-messages c io envelope sw (some (h, s)) a = stays h (use_switch sw) a _ (λ b. refl)

apply_switch-messages :
    (c : Codec) (io : Io) (envelope : Bytes → Option Bytes) (o : Option ProviderSwitch) (a : Agent)
    → ((apply_switch c io envelope o a).0).messages ≡ a.messages
unfolding apply_switch record_switch
apply_switch-messages c io envelope none a = refl
apply_switch-messages c io envelope (some sw) a =
    switch_in-messages c io envelope sw a.session (record a { pending_switch = none })

pub switch-IsGood :
    (c : Codec) (io : Io) (envelope : Bytes → Option Bytes) (a : Agent)
    → IsGood a
    → IsGood (apply_pending_switch c io envelope a).0
unfolding apply_pending_switch
switch-IsGood c io envelope a (synced, answered) = (
  switch-IsSynced c io envelope a synced,
  subst Answered (sym (apply_switch-messages c io envelope a.pending_switch a)) answered,
)

compacted-Answered :
    (h : ℕ) (ms : List Message) (a : Agent) (out : Session × Option AppendError)
    → Answered ms
    → Answered a.messages
    → Answered (persisted (after_append h (replace_messages ms) a out)).0.messages
unfolding after_append replace_messages forget_report
compacted-Answered h ms a (s, none) new old = new
compacted-Answered h ms a (s, some e) new old = old

compact_in-Answered :
    (c : Codec) (io : Io) (summary : Bytes) (recent : List Message) (auto : Bool)
    (o : Option Handle) (a : Agent)
    → Answered recent
    → Answered a.messages
    → Answered (persisted (compact_in c io summary recent auto o a)).0.messages
unfolding compact_in replace_messages forget_report
compact_in-Answered c io summary recent auto none a new old = Answered-compacted summary recent new
compact_in-Answered c io summary recent auto (some (h, s)) a new old =
    compacted-Answered h (compacted_messages summary recent) a _
      (Answered-compacted summary recent new) old

module _ (c : Codec) (s : SummaryAnswer) (recent : List Message) (auto : Bool)
    (new : Answered recent) where
  compact_with-IsGood :
      (summary : Bytes) (a : Agent)
      → IsGood a
      → IsGood (compact_with c s.compaction_io summary recent auto a).0
  unfolding compact_with apply_compaction
  compact_with-IsGood summary a (synced, answered) = (
    compaction-IsSynced c s.compaction_io summary recent auto a synced,
    compact_in-Answered c s.compaction_io summary recent auto a.session a new answered,
  )

  after_usage-IsGood :
      (summary : Bytes) (out : Agent × Option AgentError)
      → IsGood out.0
      → IsGood (after_usage c s summary recent auto out).0
  unfolding after_usage
  after_usage-IsGood summary (a, some e) h = h
  after_usage-IsGood summary (a, none) h =
      if_split {A = Agent × Option CompactError} (λ out. IsGood out.0) (length summary == 0) _ _
        (λ _. h) (λ _. compact_with-IsGood summary a h)

  ask_summary-IsGood :
      (o : Option (Bytes × UsageEntry)) (a : Agent)
      → IsGood a
      → IsGood (ask_summary c s recent auto o a).0
  unfolding ask_summary
  ask_summary-IsGood none a h = h
  ask_summary-IsGood (some (summary, usage)) a h =
      after_usage-IsGood summary (append_turn_usage c s.usage_io usage a)
        (usage-IsGood c s.usage_io usage a h)

  summarize-IsGood : (a : Agent) → IsGood a → IsGood (summarize c s recent auto a).0
  unfolding summarize
  summarize-IsGood a h =
      if_split {A = Agent × Option CompactError} (λ out. IsGood out.0) (not s.serializes) _ _
        (λ _. h) (λ _. ask_summary-IsGood s.response a h)

  compact_recent-IsGood :
      (hook : Option (Option Bytes)) (a : Agent)
      → IsGood a
      → IsGood (compact_recent c s recent auto hook a).0
  unfolding compact_recent
  compact_recent-IsGood none a h = h
  compact_recent-IsGood (some none) a h = summarize-IsGood a h
  compact_recent-IsGood (some (some summary)) a h =
      if_split {A = Agent × Option CompactError} (λ out. IsGood out.0)
        (length (trim_space summary) == 0) _ _ (λ _. summarize-IsGood a h)
        (λ _. compact_with-IsGood summary a h)

compact_at-IsGood :
    (c : Codec) (s : SummaryAnswer) (auto : Bool) (o : Option ℕ) (a : Agent)
    → IsGood a
    → IsGood (compact_at c s auto o a).0
unfolding compact_at
compact_at-IsGood c s auto none a h = h
compact_at-IsGood c s auto (some split) a h =
    if_split {A = Agent × Option CompactError} (λ out. IsGood out.0)
      (split == 0 || leb (length a.messages) split) _ _ (λ _. h)
      (λ _.
        compact_recent-IsGood c s (drop split a.messages) auto (Answered-drop split a.messages h.1)
          s.hook a h)

pub compact_locked-IsGood :
    (c : Codec) (keep : ℕ) (s : SummaryAnswer) (auto : Bool) (a : Agent)
    → IsGood a
    → IsGood (compact_locked c keep s auto a).0
unfolding compact_locked
compact_locked-IsGood c keep s auto a h =
    compact_at-IsGood c s auto (compaction_split keep a.messages) a h
