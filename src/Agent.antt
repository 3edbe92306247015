-- ===== src/Agent.antt =====
-- internal/agent/context.go: the agent's conversation and its session. A provider and a session are
-- known by the number of the object, which is what Go's == compares; counts of tokens are natural.
pub mod Sync
pub mod Append
pub mod Compact
pub mod Prompt
pub mod Steps
pub mod Queue
pub mod Tools
pub mod Retry
mod Tests
use notch.Prelude.{
  ℕ, ◌+◌, ◌-◌, Bool, false, not, ◌&&◌, Option, none, some, List, [], ◌++◌, ltb, leb, ◌==◌,
  if◌then◌else◌, length,
}
use notch.Go.Bytes.{Bytes, codes}
use notch.Go.Space.{trim_space}
use notch.Model.{Message}
use notch.Context.Split.{compacted_messages}
use notch.Session.{Codec}
use notch.Session.Append.{Session, Io, AppendError, append_compaction, append_reset, append_kind}

pub record ProviderSwitch : Type 0 where
  pub provider_name : Bytes
  pub provider : ℕ
  pub model : Bytes
  pub context_window : ℕ

-- The session with the number of its object.
abbrev pub Handle : Type 0
Handle = ℕ × Session

pub record Agent : Type 0 where
  pub messages : List Message
  pub session : Option Handle
  pub cache_key : Bytes
  pub provider_name : Bytes
  pub provider : ℕ
  pub model : Bytes
  pub enabled : Bool
  pub context_window : ℕ
  pub reserve_tokens : ℕ
  pub reported_input_tokens : ℕ
  pub reported_estimate : ℕ
  pub processing : Bool
  pub pending_switch : Option ProviderSwitch

pub data AgentError : Type 0 where
  provider_nil model_empty session_nil : AgentError
  persist : AppendError → AgentError

-- `contextUsageLocked().Tokens`, where `estimate` is what estimatedContextTokensLocked gives.
unfoldable pub context_tokens : ℕ → Agent → ℕ
context_tokens estimate a =
    let tokens = a.reported_input_tokens + estimate - a.reported_estimate in
    if not (ltb 0 a.reported_input_tokens)
    then estimate
    else if ltb tokens a.reported_input_tokens
    then a.reported_input_tokens
    else tokens

unfoldable pub should_auto_compact : ℕ → Agent → Bool
unfolding context_tokens
should_auto_compact estimate a =
    let threshold = a.context_window - a.reserve_tokens in
    a.enabled && leb (if ltb threshold 1 then 1 else threshold) (context_tokens estimate a)

unfoldable pub forget_report : Agent → Agent
forget_report a = record a { reported_input_tokens = 0; reported_estimate = 0 }

-- What follows an append: the session as it is left, and with no error the change of the agent.
unfoldable pub after_append :
    ℕ → (Agent → Agent) → Agent → Session × Option AppendError → Agent × Option AgentError
after_append h change a (s, none) = (change (record a { session = some (h, s) }), none)
after_append h change a (s, some e) = (record a { session = some (h, s) }, some (persist e))

unfoldable pub replace_messages : List Message → Agent → Agent
unfolding forget_report
replace_messages ms a = forget_report (record a { messages = ms })

-- The compaction where the session is the one given.
unfoldable pub compact_in :
    Codec → Io → Bytes → List Message → Bool → Option Handle → Agent → Agent × Option AgentError
unfolding compacted_messages append_compaction after_append replace_messages
compact_in c io summary recent auto none a =
    (replace_messages (compacted_messages summary recent) a, none)
compact_in c io summary recent auto (some (h, s)) a =
    let compacted = compacted_messages summary recent in
    after_append h (replace_messages compacted) a (append_compaction c io summary compacted auto s)

unfoldable pub apply_compaction :
    Codec → Io → Bytes → List Message → Bool → Agent → Agent × Option AgentError
unfolding compact_in
apply_compaction c io summary recent auto a = compact_in c io summary recent auto a.session a

unfoldable pub use_switch : ProviderSwitch → Agent → Agent
unfolding forget_report
use_switch sw a = forget_report (record a {
  provider = sw.provider;
  provider_name = sw.provider_name;
  model = sw.model;
  context_window = if ltb 0 sw.context_window then sw.context_window else a.context_window;
})

-- The marker and the switch; `envelope` is what json.Marshal makes of the marker.
unfoldable pub switch_in :
    Codec
    → Io
    → (Bytes → Option Bytes)
    → ProviderSwitch
    → Option Handle
    → Agent
    → Agent × Option AgentError
unfolding append_kind after_append use_switch
switch_in c io envelope sw none a = (use_switch sw a, none)
switch_in c io envelope sw (some (h, s)) a =
    after_append h (use_switch sw) a (append_kind c io (codes "model_change") false envelope s)

unfoldable pub record_switch :
    Codec → Io → (Bytes → Option Bytes) → ProviderSwitch → Agent → Agent × Option AgentError
unfolding switch_in
record_switch c io envelope sw a = switch_in c io envelope sw a.session a

-- The tests on the arguments; a provider that is nil is `none`.
unfoldable pub check_switch :
    Bytes
    → Option ℕ
    → Bytes
    → ℕ
    → (ProviderSwitch → Agent → Agent × Option AgentError)
    → Agent
    → Agent × Option AgentError
unfolding trim_space
check_switch name none model window go a = (a, some provider_nil)
check_switch name (some p) model window go a =
    if length (trim_space model) == 0
    then (a, some model_empty)
    else go (record { provider_name = name; provider = p; model = model; context_window = window })
        a

unfoldable pub switch_provider :
    Codec
    → Io
    → (Bytes → Option Bytes)
    → Bytes
    → Option ℕ
    → Bytes
    → ℕ
    → Agent
    → Agent × Option AgentError
unfolding check_switch record_switch
switch_provider c io envelope name next model window a =
    check_switch name next model window (record_switch c io envelope) a

-- While a prompt is active the switch waits.
unfoldable pub queue_or_switch :
    Codec → Io → (Bytes → Option Bytes) → ProviderSwitch → Agent → Agent × Option AgentError
unfolding record_switch
queue_or_switch c io envelope sw a =
    if a.processing
    then (record a { pending_switch = some sw }, none)
    else record_switch c io envelope sw a

unfoldable pub queue_provider_switch :
    Codec
    → Io
    → (Bytes → Option Bytes)
    → Bytes
    → Option ℕ
    → Bytes
    → ℕ
    → Agent
    → Agent × Option AgentError
unfolding check_switch queue_or_switch
queue_provider_switch c io envelope name next model window a =
    check_switch name next model window (queue_or_switch c io envelope) a

unfoldable pub apply_switch :
    Codec → Io → (Bytes → Option Bytes) → Option ProviderSwitch → Agent → Agent × Option AgentError
unfolding record_switch
apply_switch c io envelope none a = (a, none)
apply_switch c io envelope (some sw) a =
    record_switch c io envelope sw (record a { pending_switch = none })

unfoldable pub apply_pending_switch :
    Codec → Io → (Bytes → Option Bytes) → Agent → Agent × Option AgentError
unfolding apply_switch
apply_pending_switch c io envelope a = apply_switch c io envelope a.pending_switch a

-- The ID in the header of a session, which is empty before a header is read.
unfoldable pub header_id : Session → Bytes
header_id s = elim s.loaded.header [ none ↦ [] | some h ↦ h.id ]

unfoldable pub use_session : Handle → List Message → Agent → Agent
unfolding replace_messages header_id
use_session (h, s) ms a =
    replace_messages ms
      (record a { session = some (h, s); cache_key = codes "notch-" ++ header_id s })

unfoldable pub is_current : Handle → Agent → Bool
is_current (h, s) a = elim a.session [ none ↦ false | some (h', s') ↦ h == h' ]

-- The session that the caller has to close comes with the agent.
unfoldable pub resume_session : Option Handle → Agent → Agent × (Option Handle) × Option AgentError
unfolding use_session is_current
resume_session none a = (a, none, some session_nil)
resume_session (some next) a =
    if is_current next a
    then (a, none, none)
    else (use_session next next.1.loaded.messages a, a.session, none)

unfoldable pub reset_in : Codec → Io → Option Handle → Agent → Agent × Option AgentError
unfolding append_reset after_append replace_messages
reset_in c io none a = (replace_messages [] a, none)
reset_in c io (some (h, s)) a = after_append h (replace_messages []) a (append_reset c io s)

unfoldable pub reset_current : Codec → Io → Agent → Agent × Option AgentError
unfolding reset_in
reset_current c io a = reset_in c io a.session a

unfoldable pub reset_conversation :
    Codec → Io → Option Handle → Agent → Agent × (Option Handle) × Option AgentError
unfolding reset_current use_session is_current
reset_conversation c io none a = let (a', e) = reset_current c io a in (a', none, e)
reset_conversation c io (some next) a =
    let (a', e) = reset_current c io a in
    if is_current next a then (a', none, e) else (use_session next [] a, a.session, none)
