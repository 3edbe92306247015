-- ===== src/Session/Decode/Records.antt =====
-- Records behind a replayed file: what is asked of the text of a record, and how `decode` reads it.
use notch.Prelude.{
  ℕ, suc, ◌+◌, ◌≡◌, refl, sym, ap, ◌∙◌, append_assoc, true, false, none, some, [], ◌∷◌, ◌++◌, arith,
  ◌==◌, length, length-append, if◌then◌else◌,
}
use notch.Go.Bytes.{Bytes, codes, bytes_eq}
use notch.Go.Space.{trim_space}
use notch.Go.Space.Braces.{trim_space-line, trim_space-braces}
use notch.Go.Json.{valid}
use notch.Model.{Message, clean_messages}
use notch.Session.{
  err, ok, Codec, Loaded, Entry, message_entry, compaction_entry, reset_entry, usage_entry, commit,
  UsageEntry, CompactionEntry,
}
use notch.Session.Decode.{
  lines, decode_line, decode_lines, decode_entry_line, decode_message_line, decode_compaction_line,
  decode_usage_line, and_then, replay, empty_loaded, check_usage, missing_header,
}
use notch.Session.Decode.Lines.{
  NoNewline, Terminated, lines-Terminated, lines-line, lines-tail, decode_lines-append,
}

-- A JSON object on one line.
abbrev pub IsObjectLine : Bytes → Type 0
IsObjectLine body =
    ((inner : Bytes) × (body ≡ b'{' ∷ (inner ++ b'}' ∷ []))) × NoNewline body × (valid body ≡ true)

-- The text reads as the record.
abbrev pub Reads : Codec → Bytes → Entry → Type 0
Reads c body (message_entry m) =
    ((c.discriminate body).0 ≡ codes "message") × (c.decode_message body ≡ some (some m))
Reads c body (compaction_entry e) =
    ((c.discriminate body).0 ≡ codes "compaction") × (c.decode_compaction body ≡ some e)
Reads c body reset_entry = ((c.discriminate body).0 ≡ codes "reset") × (c.decode_reset body ≡ true)
Reads c body (usage_entry u) =
    ((c.discriminate body).0 ≡ codes "usage") × (c.decode_usage body ≡ some u)

abbrev pub Encodes : Codec → Bytes → Entry → Type 0
Encodes c body e = IsObjectLine body × (c.is_one_json body ≡ true) × Reads c body e

-- What the methods see to before they write: arguments are objects, and usage is in range.
abbrev pub IsAdmissible : Entry → Type 0
IsAdmissible (message_entry m) = (clean_messages (m ∷ [])).0 ≡ m ∷ []
IsAdmissible (compaction_entry e) = (clean_messages e.messages).0 ≡ e.messages
IsAdmissible reset_entry = Unit
IsAdmissible (usage_entry u) = (n : ℕ) → check_usage n u ≡ none

-- On any line but the first the text is read as the change `f` of the conversation.
abbrev pub Decodes : Codec → Bytes → (Loaded → Loaded) → Type 0
Decodes c body f = (n : ℕ) (st : Loaded) → decode_entry_line c n body st ≡ ok (f st)

message-reads :
    (c : Codec) (n : ℕ) (body : Bytes) (m : Message) (st : Loaded)
    → IsAdmissible (message_entry m)
    → c.decode_message body ≡ some (some m)
    → decode_message_line c n body st ≡ ok (commit (message_entry m) st)
unfolding decode_message_line commit
message-reads c n body m st clean reads = rw (decode_message_line, reads, clean) refl

compaction-reads :
    (c : Codec) (n : ℕ) (body : Bytes) (e : CompactionEntry) (st : Loaded)
    → IsAdmissible (compaction_entry e)
    → c.decode_compaction body ≡ some e
    → decode_compaction_line c n body st ≡ ok (commit (compaction_entry e) st)
unfolding decode_compaction_line commit
compaction-reads c n body e st clean reads = rw (decode_compaction_line, reads, clean) refl

usage-reads :
    (c : Codec) (n : ℕ) (body : Bytes) (u : UsageEntry) (st : Loaded)
    → IsAdmissible (usage_entry u)
    → c.decode_usage body ≡ some u
    → decode_usage_line c n body st ≡ ok (commit (usage_entry u) st)
unfolding decode_usage_line
usage-reads c n body u st fits reads = rw (decode_usage_line, reads, fits n) refl

pub Encodes-Decodes :
    (c : Codec) (body : Bytes) (e : Entry)
    → IsAdmissible e
    → Encodes c body e
    → Decodes c body (commit e)
unfolding decode_entry_line bytes_eq
Encodes-Decodes c body (message_entry m) clean (_, one, (type, reads)) n st =
    rw (one, type) (message-reads c n body m st clean reads)
Encodes-Decodes c body (compaction_entry e) clean (_, one, (type, reads)) n st =
    rw (one, type) (compaction-reads c n body e st clean reads)
Encodes-Decodes c body reset_entry _ (_, one, (type, reads)) n st = rw (one, type, reads) refl
Encodes-Decodes c body (usage_entry u) fits (_, one, (type, reads)) n st =
    rw (one, type) (usage-reads c n body u st fits reads)

pub trim_space-body : (body : Bytes) → IsObjectLine body → trim_space body ≡ body
trim_space-body body ((inner, e), _, _) = rw e (trim_space-braces inner)

trim_space-newline : (body : Bytes) → IsObjectLine body → trim_space (body ++ 10 ∷ []) ≡ body
trim_space-newline body ((inner, e), _, _) =
    ap (λ t. trim_space (t ++ 10 ∷ [])) e
    ∙ ap (λ t. trim_space (b'{' ∷ t)) (append_assoc inner (b'}' ∷ []) (10 ∷ []))
    ∙ trim_space-line inner
    ∙ sym e

not_first : (k : ℕ) → (suc (suc k) == 1) ≡ false
not_first k = ground arith

not_zero : (k : ℕ) → (suc k == 0) ≡ false
not_zero k = ground arith

filled : (body : Bytes) → IsObjectLine body → (length body == 0) ≡ false
filled body ((inner, e), _, _) = ap (λ t. length t == 0) e ∙ not_zero (length (inner ++ b'}' ∷ []))

decode_line-trimmed :
    (c : Codec) (k : ℕ) (line body : Bytes) (f : Loaded → Loaded) (st : Loaded)
    → IsObjectLine body
    → trim_space line ≡ body
    → Decodes c body f
    → decode_line c (suc (suc k)) line st ≡ ok (f st)
unfolding decode_line
decode_line-trimmed c k line body f st object trims reads =
    rw (trims, filled body object, not_first k) (reads (suc (suc k)) st)

-- A replayed file that ends with a newline, and the lines of it.
replay-lines :
    (c : Codec) (s : Bytes) (st : Loaded)
    → replay c s ≡ ok st
    → (k : ℕ) × (length (lines s) ≡ suc k) × (decode_lines c 1 (lines s) empty_loaded ≡ ok st)
unfolding replay
replay-lines c s st h =
    elim (lines s)
        as (λ ls.
          (if length ls == 0 then err missing_header else decode_lines c 1 ls empty_loaded) ≡ ok st
          → (k : ℕ) × (length ls ≡ suc k) × (decode_lines c 1 ls empty_loaded ≡ ok st)) [
            | [] ↦ λ bad. absurd (cc bad)
            | l ∷ ls ↦ λ e. (
              length ls,
              refl,
              sym (
                    ap
                      (λ b.
                        if b then err missing_header else decode_lines c 1 (l ∷ ls) empty_loaded)
                      (not_zero (length ls)))
                  ∙ e,
            )
          ]
      h

last_record :
    (c : Codec) (k : ℕ) (line body : Bytes) (f : Loaded → Loaded) (st : Loaded)
    → IsObjectLine body
    → trim_space line ≡ body
    → Decodes c body f
    → decode_lines c (suc (suc k)) (line ∷ []) st ≡ ok (f st)
unfolding decode_lines and_then
last_record c k line body f st object trims reads =
    ap (λ r. and_then r (λ x. ok x)) (decode_line-trimmed c k line body f st object trims reads)

-- A record behind the file, with its newline or without, is read last.
pub replay-record :
    (c : Codec) (s line body : Bytes) (f : Loaded → Loaded) (st : Loaded)
    → Terminated s
    → replay c s ≡ ok st
    → IsObjectLine body
    → lines line ≡ line ∷ []
    → trim_space line ≡ body
    → Decodes c body f
    → replay c (s ++ line) ≡ ok (f st)
unfolding replay and_then
replay-record c s line body f st ended h object one trims reads =
    let (k, n, before) = replay-lines c s st h in
    let parts : lines (s ++ line) ≡ lines s ++ line ∷ [] =
      lines-Terminated s line ended ∙ ap (λ l. lines s ++ l) one in
    let size : (length (lines s ++ line ∷ []) == 0) ≡ false =
      let total : length (lines s ++ line ∷ []) ≡ suc (suc k) =
        omega (arith, length-append (lines s) (line ∷ []), n) in
      ap (λ m. m == 0) total ∙ not_zero (suc k) in
    rw (parts, size)
      (decode_lines-append c 1 (lines s) (line ∷ []) empty_loaded
        ∙ ap (λ r. and_then r (decode_lines c (1 + length (lines s)) (line ∷ []))) before
        ∙ ap (λ m. decode_lines c m (line ∷ []) st) (omega (arith, n))
        ∙ last_record c k line body f st object trims reads)

lines-body : (body : Bytes) → IsObjectLine body → lines body ≡ body ∷ []
lines-body [] ((inner, e), _, _) = absurd (cc e)
lines-body (x ∷ body) (_, h, _) = lines-tail x body h

pub replay-line :
    (c : Codec) (s body : Bytes) (f : Loaded → Loaded) (st : Loaded)
    → Terminated s
    → replay c s ≡ ok st
    → IsObjectLine body
    → Decodes c body f
    → replay c (s ++ (body ++ 10 ∷ [])) ≡ ok (f st)
replay-line c s body f st ended h object reads =
    replay-record c s (body ++ 10 ∷ []) body f st ended h object (lines-line body (object.1))
      (trim_space-newline body object) reads

pub replay-body :
    (c : Codec) (s body : Bytes) (f : Loaded → Loaded) (st : Loaded)
    → Terminated s
    → replay c s ≡ ok st
    → IsObjectLine body
    → Decodes c body f
    → replay c (s ++ body) ≡ ok (f st)
replay-body c s body f st ended h object reads =
    replay-record c s body body f st ended h object (lines-body body object)
      (trim_space-body body object) reads
