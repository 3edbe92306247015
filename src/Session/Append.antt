-- ===== src/Session/Append.antt =====
-- The methods that append a record to the session file, and `rollbackAppend`. What the operating
-- system answers to one append is an `Io`.
use notch.Prelude.{
  ℕ, Bool, true, false, not, ◌&&◌, ◌||◌, Option, none, some, List, [], ◌∷◌, ◌++◌, ◌==◌,
  if◌then◌else◌, length, take, drop, any, get_or,
}
use notch.Go.Bytes.{Bytes, codes, bytes_eq}
use notch.Go.Space.{trim_space}
use notch.Model.{Message, clean_messages}
use notch.Session.{
  DelegatedUsage, UsageEntry, Entry, message_entry, compaction_entry, reset_entry, usage_entry,
  Codec, Loaded, valid_cost, commit, commit_custom,
}
use notch.Session.Decode.{negative_tokens, valid_costs, negative_delegated}

pub data AppendError : Type 0 where
  session_closed stat_failed write_failed sync_failed encode_failed : AppendError
  empty_model negative_usage invalid_cost negative_delegated_usage invalid_delegated_cost :
      AppendError
  null_entry reserved_type type_required nil_data : AppendError
  rollback_failed : AppendError → AppendError

-- The session, with the bytes that its file has.
pub record Session : Type 0 where
  pub loaded : Loaded
  pub disk : Bytes
  pub has_file : Bool
  pub closed : Bool

-- Each Write takes some bytes, and reports an error or none; behind the list all is taken.
pub record Io : Type 0 where
  pub stat_ok : Bool
  pub writes : List (ℕ × Bool)
  pub sync_ok : Bool
  pub truncate_ok : Bool
  pub rollback_sync_ok : Bool

-- `writeAll`: the bytes written, and whether all were.
unfoldable pub write_all : List (ℕ × Bool) → Bytes → Bytes × Bool
write_all ws [] = ([], true)
write_all [] (x ∷ xs) = (x ∷ xs, true)
write_all ((n, fine) ∷ ws) (x ∷ xs) =
    let (rest, done) = write_all ws (drop n (x ∷ xs)) in
    if not fine
    then (take n (x ∷ xs), false)
    else if n == 0
    then ([], false)
    else (take n (x ∷ xs) ++ rest, done)

unfoldable pub disable : Session → Session
disable s = record s { closed = true; has_file = false }

unfoldable pub rollback_append : Io → ℕ → AppendError → Session → Session × Option AppendError
unfolding disable
rollback_append io size e s =
    let cut = record s { disk = take size s.disk } in
    if not io.truncate_ok
    then (disable s, some (rollback_failed e))
    else if not io.rollback_sync_ok
    then (disable cut, some (rollback_failed e))
    else (cut, some e)

unfoldable pub append_line : Io → Bytes → (Loaded → Loaded) → Session → Session × Option AppendError
unfolding write_all rollback_append
append_line io line committed s =
    let (written, all) = write_all io.writes line in
    let wrote = record s { disk = s.disk ++ written } in
    if s.closed || not s.has_file
    then (s, some session_closed)
    else if not io.stat_ok
    then (s, some stat_failed)
    else if not all
    then rollback_append io (length s.disk) write_failed wrote
    else if not io.sync_ok
    then rollback_append io (length s.disk) sync_failed wrote
    else (record wrote { loaded = committed s.loaded }, none)

-- `marshalLine` and then `appendLine`.
unfoldable pub append_record : Codec → Io → Entry → Session → Session × Option AppendError
unfolding append_line commit
append_record c io e s = elim (c.marshal e) [
  | none ↦ (s, some encode_failed)
  | some body ↦ append_line io (body ++ 10 ∷ []) (commit e) s
]

unfoldable pub append_message : Codec → Io → Message → Session → Session × Option AppendError
unfolding append_record clean_messages
append_message c io m s =
    append_record c io (message_entry (get_or (clean_messages (m ∷ [])).0 0 m)) s

unfoldable pub append_compaction :
    Codec → Io → Bytes → List Message → Bool → Session → Session × Option AppendError
unfolding append_record clean_messages
append_compaction c io summary ms auto s =
    let snapshot = (clean_messages ms).0 in
    append_record c io
      (compaction_entry (record { summary = summary; messages = snapshot; auto = auto })) s

unfoldable pub append_reset : Codec → Io → Session → Session × Option AppendError
unfolding append_record
append_reset c io s = append_record c io reset_entry s

unfoldable pub refuse_delegated : Option DelegatedUsage → Option AppendError
unfolding negative_delegated valid_cost
refuse_delegated none = none
refuse_delegated (some d) =
    if negative_delegated d
    then some negative_delegated_usage
    else if not (valid_cost d.cost_usd)
    then some invalid_delegated_cost
    else none

-- The tests of `AppendUsage`.
unfoldable pub refuse_usage : UsageEntry → Option AppendError
unfolding negative_tokens valid_costs refuse_delegated trim_space
refuse_usage u =
    if length (trim_space u.model) == 0
    then some empty_model
    else if negative_tokens u.usage
    then some negative_usage
    else if not (valid_costs u.usage)
    then some invalid_cost
    else refuse_delegated u.delegated

unfoldable pub append_usage : Codec → Io → UsageEntry → Session → Session × Option AppendError
unfolding refuse_usage append_record
append_usage c io u s = elim (refuse_usage u) [
  | some e ↦ (s, some e)
  | none ↦ append_record c io (usage_entry u) s
]

abbrev pub reserved_custom_entry_types : List Bytes
reserved_custom_entry_types =
    codes "metadata"
    ∷ codes "session"
    ∷ codes "message"
    ∷ codes "compaction"
    ∷ codes "reset"
    ∷ codes "usage"
    ∷ []

unfoldable pub is_reserved : Bytes → Bool
is_reserved type = any (λ r. bytes_eq type r) reserved_custom_entry_types

-- `AppendEntry` with one value, of which json.Marshal made `encoded`.
unfoldable pub append_entry : Codec → Io → Option Bytes → Session → Session × Option AppendError
unfolding append_line is_reserved trim_space commit_custom
append_entry c io encoded s = elim encoded [
  | none ↦ (s, some encode_failed)
  | some body ↦
      let line = body ++ 10 ∷ [] in
      let (type, decoded) = c.discriminate line in
      if bytes_eq (trim_space line) (codes "null")
      then (s, some null_entry)
      else if decoded && is_reserved (trim_space type)
      then (s, some reserved_type)
      else append_line io line (commit_custom body) s
]

-- `AppendEntry` with a kind and a value: `envelope` is what json.Marshal makes of the envelope.
unfoldable pub append_kind :
    Codec → Io → Bytes → Bool → (Bytes → Option Bytes) → Session → Session × Option AppendError
unfolding append_entry is_reserved trim_space
append_kind c io kind is_nil envelope s =
    let trimmed = trim_space kind in
    if length trimmed == 0
    then (s, some type_required)
    else if is_reserved trimmed
    then (s, some reserved_type)
    else if is_nil
    then (s, some nil_data)
    else append_entry c io (envelope trimmed) s

unfoldable pub append_custom_entry :
    Codec → Io → Bytes → Bool → (Bytes → Option Bytes) → Session → Session × Option AppendError
unfolding append_kind is_reserved trim_space
append_custom_entry c io kind is_nil envelope s =
    let trimmed = trim_space kind in
    if length trimmed == 0
    then (s, some type_required)
    else if is_nil
    then (s, some nil_data)
    else if is_reserved trimmed
    then (s, some reserved_type)
    else append_kind c io trimmed is_nil envelope s
