-- ===== src/Session.antt =====
-- internal/session/session.go: the session file of JSON lines and the conversation that it replays.
-- encoding/json's decoding of structs is the `Codec`. Left out are the timestamps, the routing
-- snapshot and the texts of a usage's cost, on which nothing depends here. A string is its bytes.
pub mod Decode
pub mod Append
pub mod Load
pub mod Preview
pub mod Light
pub mod Listing
pub mod Crash
pub mod Attempt
pub mod Durable
pub mod Run
pub mod Custom
mod Tests
use notch.Prelude.{
  ℕ, ◌+◌, ◌-◌, Bool, true, false, not, ◌&&◌, ◌||◌, Option, none, some, List, [], ◌∷◌, ◌++◌, leb,
  ◌==◌, if◌then◌else◌,
}
use notch.Prelude.Int.{ℤ, pos, negsuc}
use notch.Go.Bytes.{Bytes, codes, bytes_eq}
use notch.Model.{Message}

pub data Result {ℓ} (E : Type 0) (A : Type ℓ) : Type ℓ where
  err : E → Result E A
  ok : A → Result E A

pub record Header : Type 0 where
  pub type : Bytes
  pub version : ℤ
  pub id : Bytes
  pub cwd : Bytes
  pub provider : Bytes
  pub model : Bytes
  pub profile : Bytes

-- float64: a mantissa with an exponent of 2, or no finite number.
pub data Float : Type 0 where
  nan : Float
  inf : Bool → Float
  finite : ℤ → ℤ → Float

pub record TokenUsage : Type 0 where
  pub input_tokens : ℤ
  pub output_tokens : ℤ
  pub cache_read_tokens : ℤ
  pub cache_write_tokens : ℤ
  pub reasoning_tokens : ℤ
  pub cost_usd : Option Float
  pub provider_cost_usd : Option Float
  pub estimated_cost_usd : Option Float

pub record DelegatedUsage : Type 0 where
  pub turns : ℤ
  pub input_tokens : ℤ
  pub output_tokens : ℤ
  pub cache_read_tokens : ℤ
  pub cache_write_tokens : ℤ
  pub reasoning_tokens : ℤ
  pub cost_usd : Option Float
  pub wall_ms : ℤ
  pub calls : ℤ

pub record UsageEntry : Type 0 where
  pub provider : Bytes
  pub model : Bytes
  pub usage : TokenUsage
  pub delegated : Option DelegatedUsage
  pub stop_reason : Bytes

pub record CompactionEntry : Type 0 where
  pub summary : Bytes
  pub messages : List Message
  pub auto : Bool

-- The records that are written by a method of their own; a custom one is its JSON text.
pub data Entry : Type 0 where
  message_entry : Message → Entry
  compaction_entry : CompactionEntry → Entry
  reset_entry : Entry
  usage_entry : UsageEntry → Entry

-- What encoding/json makes of a text: `decodeStrict` into each record, `validateOneJSON`, and the
-- `type` that json.Unmarshal leaves in a discriminator, with whether it reports no error.
pub record Codec : Type 0 where
  pub decode_header : Bytes → Option Header
  pub decode_message : Bytes → Option (Option Message)
  pub decode_compaction : Bytes → Option CompactionEntry
  pub decode_reset : Bytes → Bool
  pub decode_usage : Bytes → Option UsageEntry
  pub is_one_json : Bytes → Bool
  pub discriminate : Bytes → Bytes × Bool
  pub marshal : Entry → Option Bytes

-- The fields that `decode` fills.
pub record Loaded : Type 0 where
  pub header : Option Header
  pub entries : List Bytes
  pub messages : List Message
  pub usage_entries : List UsageEntry

unfoldable pub is_negative : ℤ → Bool
is_negative (pos n) = false
is_negative (negsuc n) = true

unfoldable pub valid_cost : Option Float → Bool
unfolding is_negative
valid_cost none = true
valid_cost (some nan) = false
valid_cost (some (inf s)) = false
valid_cost (some (finite m e)) = not (is_negative m)

-- `formatVersion` is 1.
unfoldable pub is_version : ℤ → Bool
is_version (pos n) = n == 1
is_version (negsuc n) = false

abbrev pub tool_call_input_error_message : Bytes
tool_call_input_error_message =
    codes
      "tool call input was truncated or invalid JSON; retry with smaller input or write the content to a file first"

-- What each record does to the conversation in memory.
unfoldable pub commit : Entry → Loaded → Loaded
commit (message_entry m) st = record st { messages = st.messages ++ m ∷ [] }
commit (compaction_entry c) st = record st { messages = c.messages }
commit reset_entry st = record st { messages = []; entries = [] }
commit (usage_entry u) st = record st { usage_entries = st.usage_entries ++ u ∷ [] }

unfoldable pub commit_custom : Bytes → Loaded → Loaded
commit_custom line st = record st { entries = st.entries ++ line ∷ [] }
