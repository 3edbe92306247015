-- ===== src/Session/Decode.antt =====
-- `decode`: the lines of a session file, read into the conversation.
pub mod Lines
pub mod Records
use notch.Prelude.{
  ℕ, suc, Bool, not, ◌&&◌, ◌||◌, Option, none, some, List, [], ◌∷◌, ◌++◌, ◌==◌, if◌then◌else◌,
  length,
}
use notch.Go.Bytes.{Bytes, codes, bytes_eq}
use notch.Go.Space.{trim_space}
use notch.Model.{clean_messages}
use notch.Model.Repair.{repair_tool_call_results}
use notch.Session.{
  Result, err, ok, TokenUsage, DelegatedUsage, UsageEntry, reset_entry, usage_entry, Codec, Loaded,
  is_negative, valid_cost, commit, commit_custom, is_version, tool_call_input_error_message,
}

-- The errors, with the number of the line.
pub data DecodeError : Type 0 where
  empty_record invalid_entry late_header : ℕ → DecodeError
  invalid_header not_metadata unsupported_version missing_header : DecodeError
  invalid_message no_message invalid_compaction invalid_reset : ℕ → DecodeError
  invalid_usage usage_values usage_cost delegated_values delegated_cost : ℕ → DecodeError

abbrev pub Decoded : Type 0
Decoded = Result DecodeError Loaded

-- The lines that reader.ReadBytes('\n') returns, each with its newline.
unfoldable pub on_first : ℕ → List Bytes → List Bytes
on_first c [] = (c ∷ []) ∷ []
on_first c (l ∷ ls) = (c ∷ l) ∷ ls

unfoldable pub lines : Bytes → List Bytes
unfolding on_first
lines [] = []
lines (c ∷ s) = let rest = lines s in if c == 10 then (c ∷ []) ∷ rest else on_first c rest

unfoldable pub decode_header_line : Codec → Bytes → Loaded → Decoded
decode_header_line c line st = elim (c.decode_header line) [
  | none ↦ err invalid_header
  | some h ↦
      if not (bytes_eq h.type (codes "metadata")) && not (bytes_eq h.type (codes "session"))
      then err not_metadata
      else if not (is_version h.version)
      then err unsupported_version
      else ok (record st { header = some h })
]

unfoldable pub negative_tokens : TokenUsage → Bool
unfolding is_negative
negative_tokens u =
    is_negative u.input_tokens
    || is_negative u.output_tokens
    || is_negative u.cache_read_tokens
    || is_negative u.cache_write_tokens
    || is_negative u.reasoning_tokens

unfoldable pub valid_costs : TokenUsage → Bool
unfolding valid_cost
valid_costs u =
    valid_cost u.cost_usd && valid_cost u.provider_cost_usd && valid_cost u.estimated_cost_usd

unfoldable pub negative_delegated : DelegatedUsage → Bool
unfolding is_negative
negative_delegated d =
    is_negative d.turns
    || is_negative d.input_tokens
    || is_negative d.output_tokens
    || is_negative d.cache_read_tokens
    || is_negative d.cache_write_tokens
    || is_negative d.reasoning_tokens
    || is_negative d.wall_ms
    || is_negative d.calls

unfoldable pub check_delegated : ℕ → Option DelegatedUsage → Option DecodeError
unfolding negative_delegated valid_cost
check_delegated n none = none
check_delegated n (some d) =
    if negative_delegated d
    then some (delegated_values n)
    else if not (valid_cost d.cost_usd)
    then some (delegated_cost n)
    else none

-- The tests on a usage record that was decoded.
unfoldable pub check_usage : ℕ → UsageEntry → Option DecodeError
unfolding negative_tokens valid_costs check_delegated
check_usage n u =
    if length u.model == 0 || negative_tokens u.usage
    then some (usage_values n)
    else if not (valid_costs u.usage)
    then some (usage_cost n)
    else check_delegated n u.delegated

unfoldable pub decode_message_line : Codec → ℕ → Bytes → Loaded → Decoded
unfolding clean_messages commit
decode_message_line c n line st = elim (c.decode_message line) [
  | none ↦ err (invalid_message n)
  | some none ↦ err (no_message n)
  | some (some m) ↦ ok (record st { messages = st.messages ++ (clean_messages (m ∷ [])).0 })
]

unfoldable pub decode_compaction_line : Codec → ℕ → Bytes → Loaded → Decoded
unfolding clean_messages
decode_compaction_line c n line st = elim (c.decode_compaction line) [
  | none ↦ err (invalid_compaction n)
  | some e ↦ ok (record st { messages = (clean_messages e.messages).0 })
]

unfoldable pub decode_usage_line : Codec → ℕ → Bytes → Loaded → Decoded
unfolding check_usage commit
decode_usage_line c n line st = elim (c.decode_usage line) [
  | none ↦ err (invalid_usage n)
  | some u ↦ elim (check_usage n u) [ some e ↦ err e | none ↦ ok (commit (usage_entry u) st) ]
]

unfoldable pub decode_entry_line : Codec → ℕ → Bytes → Loaded → Decoded
unfolding decode_message_line decode_compaction_line decode_usage_line commit commit_custom
decode_entry_line c n line st =
    let type = (c.discriminate line).0 in
    if not (c.is_one_json line)
    then err (invalid_entry n)
    else if bytes_eq type (codes "metadata") || bytes_eq type (codes "session")
    then err (late_header n)
    else if bytes_eq type (codes "message")
    then decode_message_line c n line st
    else if bytes_eq type (codes "compaction")
    then decode_compaction_line c n line st
    else if bytes_eq type (codes "reset")
    then if c.decode_reset line then ok (commit reset_entry st) else err (invalid_reset n)
    else if bytes_eq type (codes "usage")
    then decode_usage_line c n line st
    else ok (commit_custom line st)

-- Line number `n`.
unfoldable pub decode_line : Codec → ℕ → Bytes → Loaded → Decoded
unfolding decode_header_line decode_entry_line trim_space
decode_line c n line st =
    let trimmed = trim_space line in
    if length trimmed == 0
    then err (empty_record n)
    else if n == 1
    then decode_header_line c trimmed st
    else decode_entry_line c n trimmed st

unfoldable pub and_then : Decoded → (Loaded → Decoded) → Decoded
and_then (err e) f = err e
and_then (ok st) f = f st

-- The loop, from line number `n` on.
unfoldable pub decode_lines : Codec → ℕ → List Bytes → Loaded → Decoded
unfolding decode_line and_then
decode_lines c n [] st = ok st
decode_lines c n (l ∷ ls) st = and_then (decode_line c n l st) (decode_lines c (suc n) ls)

abbrev pub empty_loaded : Loaded
empty_loaded = record { header = none; entries = []; messages = []; usage_entries = [] }

-- `decode` up to the repair behind the loop.
unfoldable pub replay : Codec → Bytes → Decoded
unfolding decode_lines lines
replay c s =
    if length (lines s) == 0 then err missing_header else decode_lines c 1 (lines s) empty_loaded

unfoldable pub repaired : Loaded → Loaded
unfolding repair_tool_call_results
repaired st = record st {
  messages = (repair_tool_call_results st.messages tool_call_input_error_message).0;
}

unfoldable pub decode : Codec → Bytes → Decoded
unfolding replay repaired and_then
decode c s = and_then (replay c s) (λ st. ok (repaired st))
