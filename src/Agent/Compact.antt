-- ===== src/Agent/Compact.antt =====
-- internal/agent/context.go: compactLocked. What the hook and the provider answer is a value; the
-- request of the summary and the events are left out.
use notch.Prelude.{
  ℕ, Bool, not, ◌||◌, Option, none, some, List, leb, ◌==◌, if◌then◌else◌, length, drop,
}
use notch.Go.Bytes.{Bytes}
use notch.Go.Space.{trim_space}
use notch.Model.{Message}
use notch.Context.Split.{compaction_split}
use notch.Session.{Codec, UsageEntry}
use notch.Session.Append.{Io}
use notch.Agent.{Agent, AgentError, apply_compaction}
use notch.Agent.Append.{append_turn_usage}

pub data CompactError : Type 0 where
  nothing_to_compact hook_failed serialize_failed summary_failed summary_empty : CompactError
  not_persisted : AgentError → CompactError

-- `hook` is `none` where the hooks fail, and else the summary that they give, if any; `response` is
-- the text of the provider's summary and the usage that is recorded.
pub record SummaryAnswer : Type 0 where
  pub hook : Option (Option Bytes)
  pub serializes : Bool
  pub response : Option (Bytes × UsageEntry)
  pub usage_io : Io
  pub compaction_io : Io

abbrev pub persisted : Agent × Option AgentError → Agent × Option CompactError
persisted (a, none) = (a, none)
persisted (a, some e) = (a, some (not_persisted e))

unfoldable pub compact_with :
    Codec → Io → Bytes → List Message → Bool → Agent → Agent × Option CompactError
unfolding apply_compaction
compact_with c io summary recent auto a = persisted (apply_compaction c io summary recent auto a)

-- Behind the record of the usage.
unfoldable pub after_usage :
    Codec
    → SummaryAnswer
    → Bytes
    → List Message
    → Bool
    → Agent × Option AgentError
    → Agent × Option CompactError
unfolding compact_with
after_usage c s summary recent auto (a, some e) = (a, some (not_persisted e))
after_usage c s summary recent auto (a, none) =
    if length summary == 0
    then (a, some summary_empty)
    else compact_with c s.compaction_io summary recent auto a

unfoldable pub ask_summary :
    Codec
    → SummaryAnswer
    → List Message
    → Bool
    → Option (Bytes × UsageEntry)
    → Agent
    → Agent × Option CompactError
unfolding after_usage append_turn_usage
ask_summary c s recent auto none a = (a, some summary_failed)
ask_summary c s recent auto (some (summary, usage)) a =
    after_usage c s summary recent auto (append_turn_usage c s.usage_io usage a)

unfoldable pub summarize :
    Codec → SummaryAnswer → List Message → Bool → Agent → Agent × Option CompactError
unfolding ask_summary
summarize c s recent auto a =
    if not s.serializes
    then (a, some serialize_failed)
    else ask_summary c s recent auto s.response a

unfoldable pub compact_recent :
    Codec
    → SummaryAnswer
    → List Message
    → Bool
    → Option (Option Bytes)
    → Agent
    → Agent × Option CompactError
unfolding summarize compact_with trim_space
compact_recent c s recent auto none a = (a, some hook_failed)
compact_recent c s recent auto (some none) a = summarize c s recent auto a
compact_recent c s recent auto (some (some summary)) a =
    if length (trim_space summary) == 0
    then summarize c s recent auto a
    else compact_with c s.compaction_io summary recent auto a

unfoldable pub compact_at :
    Codec → SummaryAnswer → Bool → Option ℕ → Agent → Agent × Option CompactError
unfolding compact_recent
compact_at c s auto none a = (a, some nothing_to_compact)
compact_at c s auto (some split) a =
    if split == 0 || leb (length a.messages) split
    then (a, some nothing_to_compact)
    else compact_recent c s (drop split a.messages) auto s.hook a

-- `keep` is a.compaction.KeepRecentTokens.
unfoldable pub compact_locked :
    Codec → ℕ → SummaryAnswer → Bool → Agent → Agent × Option CompactError
unfolding compact_at compaction_split
compact_locked c keep s auto a = compact_at c s auto (compaction_split keep a.messages) a
