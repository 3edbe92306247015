-- ===== src/Session/Tests.antt =====
-- The session file on concrete records.
use mathlib.Core.Path.{subst}
use mathlib.Core.Option.{some-injective}
use notch.Prelude.{
  ◌≡◌, refl, any, arith, Bool, true, false, Option, none, some, List, [], ◌∷◌, ◌++◌, ◌==◌, take,
  if◌then◌else◌,
}
use notch.Prelude.Int.{pos}
use notch.Go.Bytes.{Bytes, codes, bytes_eq}
use notch.Go.Space.{trim_space}
use notch.Go.Json.{valid}
use notch.Model.{
  Message, text_message, is_call, clean_messages, normalize_tool_call_arguments, normalize_block,
}
use notch.Session.{
  ok, Header, Codec, Entry, message_entry, compaction_entry, reset_entry, usage_entry, commit,
  commit_custom, is_version,
}
use notch.Session.Decode.{replay, repaired, empty_loaded}
use notch.Session.Decode.Lines.{Terminated, NoNewline}
use notch.Session.Decode.Records.{IsObjectLine, Encodes}
use notch.Session.Append.{Session, Io, append_line, append_entry, append_reset, append_message}
use notch.Session.Load.{load, final_record_start}
use notch.Session.Load.Start.{final_record_start_lem}
use notch.Session.Load.Torn.{load_torn}
use notch.Session.Crash.{Loads}
use notch.Session.Attempt.{Attempt, append_line-Attempt}
use notch.Session.Durable.{ReadsBack, IsSound, Reloads}
use notch.Session.Run.{
  Request, appends_message, appends_reset, entry_of, append_all, append_all-Reloads,
  append_all-IsSound,
}
use notch.Session.Custom.{append_entry-Loads}

abbrev header : Header
header = record {
  type = codes "metadata";
  version = pos 1;
  id = codes "1";
  cwd = codes "/";
  provider = codes "p";
  model = codes "m";
  profile = [];
}

abbrev reset_body : Bytes
reset_body = codes "{\"type\":\"reset\"}"

abbrev marshal_reset : Entry → Option Bytes
marshal_reset (message_entry m) = none
marshal_reset (compaction_entry e) = none
marshal_reset reset_entry = some reset_body
marshal_reset (usage_entry u) = none

-- It reads every line as a reset or, for `type` of a custom entry, the type "plan".
abbrev codec : Bytes → Codec
codec type = record {
  decode_header = λ _. some header;
  decode_message = λ _. none;
  decode_compaction = λ _. none;
  decode_reset = λ _. true;
  decode_usage = λ _. none;
  is_one_json = λ _. true;
  discriminate = λ _. (type, true);
  marshal = marshal_reset;
}

abbrev first_line : Bytes
first_line = codes "{\"type\":\"metadata\"}"

abbrev started : Session
started = record {
  loaded = record empty_loaded { header = some header };
  disk = first_line ++ 10 ∷ [];
  has_file = true;
  closed = false;
}

-- One write takes three bytes and fails; the rollback fails or not.
abbrev failing : Bool → Io
failing truncates = record {
  stat_ok = true;
  writes = (3, false) ∷ [];
  sync_ok = true;
  truncate_ok = truncates;
  rollback_sync_ok = true;
}

abbrev working : Io
working = record {
  stat_ok = true;
  writes = (4, true) ∷ [];
  sync_ok = true;
  truncate_ok = true;
  rollback_sync_ok = true;
}

no_newline : (s : Bytes) → any (λ c. c == 10) s ≡ false → NoNewline s
no_newline [] h = tt
no_newline (x ∷ s) h = (ground arith, no_newline s (ground arith))

reset_body-IsObjectLine : IsObjectLine reset_body
unfolding valid
reset_body-IsObjectLine = ((codes "\"type\":\"reset\"", refl), no_newline reset_body refl, refl)

started-Terminated : Terminated started.disk
started-Terminated = (first_line, refl)

started-replay : (type : Bytes) → replay (codec type) started.disk ≡ ok started.loaded
unfolding replay bytes_eq trim_space is_version
started-replay type = refl

abbrev greeting : Message
greeting = text_message "user" (codes "hi")

abbrev greeting_body : Bytes
greeting_body = codes "{\"type\":\"message\",\"message\":{\"role\":\"user\"}}"

abbrev marshal_two : Entry → Option Bytes
marshal_two (message_entry m) = some greeting_body
marshal_two (compaction_entry e) = none
marshal_two reset_entry = some reset_body
marshal_two (usage_entry u) = none

-- It reads one message, and every other line as a reset.
abbrev two_kinds : Codec
two_kinds = record (codec (codes "reset")) {
  decode_message = λ _. some (some greeting);
  discriminate =
      λ line. (if bytes_eq line greeting_body then codes "message" else codes "reset", true);
  marshal = marshal_two;
}

greeting_body-IsObjectLine : IsObjectLine greeting_body
unfolding valid
greeting_body-IsObjectLine = (
  (codes "\"type\":\"message\",\"message\":{\"role\":\"user\"}", refl),
  no_newline greeting_body refl,
  refl,
)

greeting-ReadsBack : ReadsBack two_kinds (entry_of (appends_message greeting))
unfolding entry_of clean_messages normalize_tool_call_arguments normalize_block is_call text_message
    bytes_eq
greeting-ReadsBack body h =
    subst (λ b. Encodes two_kinds b (message_entry greeting)) (some-injective greeting_body body h)
      (greeting_body-IsObjectLine, refl, (refl, refl))

reset-ReadsBack : ReadsBack two_kinds (entry_of appends_reset)
unfolding entry_of bytes_eq
reset-ReadsBack body h =
    subst (λ b. Encodes two_kinds b reset_entry) (some-injective reset_body body h)
      (reset_body-IsObjectLine, refl, (refl, refl))

started_two : replay two_kinds started.disk ≡ ok started.loaded
unfolding replay bytes_eq trim_space is_version
started_two = refl

abbrev requests : List (Io × Request)
requests =
    (working, appends_reset)
    ∷ (working, appends_message greeting)
    ∷ (failing true, appends_message greeting)
    ∷ (failing false, appends_reset)
    ∷ []

append_all-Reloads_example : Reloads two_kinds (append_all two_kinds requests started)
append_all-Reloads_example =
    append_all-Reloads two_kinds requests started
      (reset-ReadsBack, (greeting-ReadsBack, (greeting-ReadsBack, (reset-ReadsBack, tt))))
      (started-Terminated, started_two)

usable : (append_all two_kinds (take 3 requests) started).closed ≡ false
unfolding append_all append_reset append_message
usable = refl

append_all-IsSound_example : IsSound two_kinds (append_all two_kinds (take 3 requests) started)
append_all-IsSound_example =
    append_all-IsSound two_kinds (take 3 requests) started
      (reset-ReadsBack, (greeting-ReadsBack, (greeting-ReadsBack, tt)))
      (started-Terminated, started_two) usable

append_line-Attempt_example :
    Attempt
      (failing false)
      (reset_body ++ 10 ∷ [])
      (commit reset_entry)
      started
      (append_line (failing false) (reset_body ++ 10 ∷ []) (commit reset_entry) started)
append_line-Attempt_example =
    append_line-Attempt (failing false) (reset_body ++ 10 ∷ []) (commit reset_entry) started

-- Three bytes of the record stay behind, and are cut off.
load_torn_example :
    load (codec (codes "reset")) (started.disk ++ codes "{\"t")
    ≡ ok (repaired started.loaded, started.disk)
load_torn_example =
    load_torn (codec (codes "reset")) started.disk (codes "\"t") (codes "pe\":\"reset\"}")
      reset_body b'{' b'y' started.loaded started-Terminated (started-replay (codes "reset"))
      reset_body-IsObjectLine refl

final_record_start_lem_example :
    (final_record_start (started.disk ++ codes "{\"t") ≡ 20)
    × (final_record_start (codes "{\"t") ≡ 0)
final_record_start_lem_example =
    final_record_start_lem first_line (codes "{\"t") (no_newline (codes "{\"t") refl)

abbrev plan_body : Bytes
plan_body = codes "{\"type\":\"plan\"}"

plan_body-IsObjectLine : IsObjectLine plan_body
unfolding valid
plan_body-IsObjectLine = ((codes "\"type\":\"plan\"", refl), no_newline plan_body refl, refl)

append_entry-Loads_example :
    Loads
      (codec (codes "plan"))
      started.disk
      (plan_body ++ 10 ∷ [])
      (commit_custom plan_body)
      started.loaded
      (append_entry (codec (codes "plan")) working (some plan_body) started).0.disk
append_entry-Loads_example =
    append_entry-Loads (codec (codes "plan")) working plan_body started started.loaded
      started-Terminated (started-replay (codes "plan")) plan_body-IsObjectLine refl refl refl
