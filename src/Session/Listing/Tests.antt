-- ===== src/Session/Listing/Tests.antt =====
-- Concrete directories of sessions.
use mathlib.Core.List.{Perm}
use notch.Prelude.{◌≡◌, refl, true, false, none, some, List, [], ◌∷◌, ◌++◌}
use notch.Prelude.Int.{pos}
use notch.Go.Bytes.{Bytes, codes, bytes_eq}
use notch.Go.Space.{trim_space, is_ascii_space}
use notch.Go.Strings.{has_prefix}
use notch.Model.{
  text_message, is_call, clean_messages, normalize_block, normalize_tool_call_arguments,
}
use notch.Session.{Codec, err, ok, is_version}
use notch.Session.Preview.{first_preview, session_preview}
use notch.Session.Decode.{replay}
use notch.Session.Light.{light_decode}
use notch.Session.Light.Agrees.{view, light_decode_lem}
use notch.Session.Listing.{File, Info, list_sessions, resolve_in, ambiguous, is_session_name}
use notch.Session.Listing.Sorted.{NewestFirst, readable, list_sessions_lem}

-- Each line is a message of the user, and the first is a header.
abbrev toy : Codec
toy = record {
  decode_header = λ line. some (record {
    type = codes "metadata";
    version = pos 1;
    id = line;
    cwd = [];
    provider = [];
    model = [];
    profile = [];
  });
  decode_message = λ line. some (some (text_message "user" line));
  decode_compaction = λ _. none;
  decode_reset = λ _. true;
  decode_usage = λ _. none;
  is_one_json = λ _. true;
  discriminate = λ _. (codes "message", true);
  marshal = λ _. none;
}

abbrev two_messages : Bytes
two_messages = codes "ab\nfix  it\nnow\n"

counts_messages :
    light_decode toy two_messages
    ≡ ok (record {
      header = toy.decode_header (codes "ab");
      message_count = 2;
      preview = codes "fix it";
    })
unfolding light_decode bytes_eq is_version session_preview text_message is_ascii_space
counts_messages = refl

light_decode_lem_example : light_decode toy two_messages ≡ view (replay toy two_messages)
unfolding replay bytes_eq is_version first_preview text_message is_ascii_space clean_messages
    normalize_tool_call_arguments normalize_block trim_space is_call
light_decode_lem_example = light_decode_lem toy two_messages refl

abbrev old_file : File
old_file = record {
  name = codes "a.jsonl";
  is_dir = false;
  opens = true;
  stats = true;
  closes = true;
  contents = two_messages;
  modified_at = 5;
}

-- A newer session, a damaged one, and a file that is none.
abbrev files : List File
files =
    old_file
    ∷ record old_file { name = codes "b.jsonl"; contents = codes "ac\n"; modified_at = 9 }
    ∷ record old_file { name = codes "c.jsonl"; contents = [] }
    ∷ record old_file { name = codes "notes"; opens = false }
    ∷ []

list_sessions_lem_example :
    (infos : List Info) × (list_sessions toy (some files) ≡ ok infos)
    × Perm infos (readable toy files)
    × NewestFirst infos
unfolding is_session_name bytes_eq
list_sessions_lem_example =
    list_sessions_lem toy files ((λ e. refl), ((λ e. refl), ((λ e. refl), ((λ e. e), tt))))

abbrev session : Bytes → Info
session id = record {
  path = id ++ codes ".jsonl";
  id = id;
  cwd = [];
  modified_at = 0;
  message_count = 0;
  preview = [];
}

prefers_exact :
    resolve_in (codes "ab") (session (codes "abc") ∷ session (codes "ab") ∷ []) []
    ≡ ok (codes "ab.jsonl")
unfolding resolve_in bytes_eq is_session_name
prefers_exact = refl

two_match :
    resolve_in (codes "a") (session (codes "abc") ∷ session (codes "ab") ∷ []) []
    ≡ err (ambiguous 2)
unfolding resolve_in has_prefix bytes_eq is_session_name
two_match = refl
