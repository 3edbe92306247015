-- ===== src/Session/Light.antt =====
-- `decode` with `lightweight`, as `List` reads a file: the number of messages and a preview in
-- place of the conversation.
pub mod Agrees
use notch.Prelude.{
  ℕ, suc, ◌+◌, not, ◌&&◌, ◌||◌, Option, none, some, List, [], ◌∷◌, ◌==◌, if◌then◌else◌, length,
}
use notch.Go.Bytes.{Bytes, codes, bytes_eq}
use notch.Go.Space.{trim_space}
use notch.Model.{Message}
use notch.Session.{Result, err, ok, Header, Codec, is_version}
use notch.Session.Preview.{empty_session, session_preview}
use notch.Session.Decode.{
  DecodeError, lines, check_usage, empty_record, invalid_entry, late_header, invalid_header,
  not_metadata, unsupported_version, missing_header, invalid_message, no_message,
  invalid_compaction, invalid_reset, invalid_usage,
}

pub record Light : Type 0 where
  pub header : Option Header
  pub message_count : ℕ
  pub preview : Bytes

abbrev pub Lit : Type 0
Lit = Result DecodeError Light

unfoldable pub light_header_line : Codec → Bytes → Light → Lit
light_header_line c line st = elim (c.decode_header line) [
  | none ↦ err invalid_header
  | some h ↦
      if not (bytes_eq h.type (codes "metadata")) && not (bytes_eq h.type (codes "session"))
      then err not_metadata
      else if not (is_version h.version)
      then err unsupported_version
      else ok (record st { header = some h })
]

-- A preview that reads as that of an empty session is none.
unfoldable pub unless_empty : Bytes → Bytes
unless_empty p = if bytes_eq p empty_session then [] else p

unfoldable pub count_message : Message → Light → Light
unfolding unless_empty session_preview
count_message m st = record st {
  message_count = st.message_count + 1;
  preview = if length st.preview == 0 then unless_empty (session_preview (m ∷ [])) else st.preview;
}

unfoldable pub light_message_line : Codec → ℕ → Bytes → Light → Lit
unfolding count_message
light_message_line c n line st = elim (c.decode_message line) [
  | none ↦ err (invalid_message n)
  | some none ↦ err (no_message n)
  | some (some m) ↦ ok (count_message m st)
]

unfoldable pub light_compaction_line : Codec → ℕ → Bytes → Light → Lit
unfolding unless_empty session_preview
light_compaction_line c n line st = elim (c.decode_compaction line) [
  | none ↦ err (invalid_compaction n)
  | some e ↦ ok (record st {
    message_count = length e.messages;
    preview = unless_empty (session_preview e.messages);
  })
]

unfoldable pub light_usage_line : Codec → ℕ → Bytes → Light → Lit
unfolding check_usage
light_usage_line c n line st = elim (c.decode_usage line) [
  | none ↦ err (invalid_usage n)
  | some u ↦ elim (check_usage n u) [ some e ↦ err e | none ↦ ok st ]
]

unfoldable pub light_entry_line : Codec → ℕ → Bytes → Light → Lit
unfolding light_message_line light_compaction_line light_usage_line
light_entry_line c n line st =
    let type = (c.discriminate line).0 in
    if not (c.is_one_json line)
    then err (invalid_entry n)
    else if bytes_eq type (codes "metadata") || bytes_eq type (codes "session")
    then err (late_header n)
    else if bytes_eq type (codes "message")
    then light_message_line c n line st
    else if bytes_eq type (codes "compaction")
    then light_compaction_line c n line st
    else if bytes_eq type (codes "reset")
    then if c.decode_reset line
      then ok (record st { message_count = 0; preview = [] })
      else err (invalid_reset n)
    else if bytes_eq type (codes "usage")
    then light_usage_line c n line st
    else ok st

unfoldable pub light_line : Codec → ℕ → Bytes → Light → Lit
unfolding light_header_line light_entry_line trim_space
light_line c n line st =
    let trimmed = trim_space line in
    if length trimmed == 0
    then err (empty_record n)
    else if n == 1
    then light_header_line c trimmed st
    else light_entry_line c n trimmed st

unfoldable pub light_then : Lit → (Light → Lit) → Lit
light_then (err e) f = err e
light_then (ok st) f = f st

unfoldable pub light_lines : Codec → ℕ → List Bytes → Light → Lit
unfolding light_line light_then
light_lines c n [] st = ok st
light_lines c n (l ∷ ls) st = light_then (light_line c n l st) (light_lines c (suc n) ls)

unfoldable pub light_decode : Codec → Bytes → Lit
unfolding light_lines lines
light_decode c s =
    if length (lines s) == 0
    then err missing_header
    else light_lines c 1 (lines s) (record { header = none; message_count = 0; preview = [] })
