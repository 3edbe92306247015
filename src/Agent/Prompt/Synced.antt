-- ===== src/Agent/Prompt/Synced.antt =====
-- The session and the conversation over a whole prompt.
use notch.Prelude.{Bool, Option, none, some, List}
use notch.Go.Bytes.{Bytes}
use notch.Model.{Message}
use notch.Session.{Codec, UsageEntry}
use notch.Session.Append.{Io}
use notch.Agent.{Agent, AgentError, apply_compaction, apply_pending_switch}
use notch.Agent.Append.{append_to_conversation, append_turn_usage}
use notch.Agent.Compact.{persisted, compact_with}
use notch.Agent.Sync.{IsSynced}
use notch.Agent.Steps.{
  compacts, appends, records_usage, applies_pending, step_agent, step_agent-IsSynced,
}

-- Each step of the agent is one of its operations.
module _ (c : Codec) (io : Io) where
  pub append-IsSynced :
      (m : Message) (a : Agent) → IsSynced a → IsSynced (append_to_conversation c io m a).0
  unfolding step_agent
  append-IsSynced m a h = step_agent-IsSynced c io (λ b. none) (appends m) a tt h

  pub usage-IsSynced :
      (u : UsageEntry) (a : Agent) → IsSynced a → IsSynced (append_turn_usage c io u a).0
  unfolding step_agent
  usage-IsSynced u a h = step_agent-IsSynced c io (λ b. none) (records_usage u) a tt h

  pub switch-IsSynced :
      (envelope : Bytes → Option Bytes) (a : Agent)
      → IsSynced a
      → IsSynced (apply_pending_switch c io envelope a).0
  unfolding step_agent
  switch-IsSynced envelope a h = step_agent-IsSynced c io envelope applies_pending a tt h

  pub compaction-IsSynced :
      (summary : Bytes) (recent : List Message) (auto : Bool) (a : Agent)
      → IsSynced a
      → IsSynced (compact_with c io summary recent auto a).0
  unfolding step_agent compact_with
  compaction-IsSynced summary recent auto a h =
      persisted-IsSynced (apply_compaction c io summary recent auto a)
        (step_agent-IsSynced c io (λ b. none) (compacts summary recent auto) a tt h)
    where
      persisted-IsSynced :
          (out : Agent × Option AgentError) → IsSynced out.0 → IsSynced (persisted out).0
      persisted-IsSynced (a, none) h = h
      persisted-IsSynced (a, some e) h = h
