-- ===== src/Session/Light/Agrees.antt =====
-- What the lightweight reading shows of a file is a view of the conversation that it replays to.
use notch.Prelude.{
  ℕ, suc, ◌≡◌, refl, ap, ◌∙◌, Bool, true, false, not, ◌&&◌, ◌||◌, Option, none, some, List, [], ◌∷◌,
  ◌++◌, arith, ◌==◌, if◌then◌else◌, length, length-append,
}
use notch.Go.Bytes.{Bytes, codes, bytes_eq}
use notch.Go.Space.{trim_space}
use notch.Model.{Message, clean_messages}
use notch.Session.{
  err, ok, Codec, Loaded, commit, commit_custom, UsageEntry, usage_entry, reset_entry, is_version,
}
use notch.Session.Preview.{empty_session, or_preview, first_preview, session_preview}
use notch.Session.Preview.Laws.{
  IsShown, first_preview-IsShown, first_preview-append, first_preview-clean, length-clean_messages,
}
use notch.Session.Decode.{
  Decoded, lines, decode_header_line, decode_message_line, decode_compaction_line,
  decode_usage_line, decode_entry_line, decode_line, decode_lines, and_then, replay,
  invalid_message, no_message, empty_record, invalid_entry, late_header, invalid_header,
  not_metadata, unsupported_version, missing_header, invalid_reset, check_usage, DecodeError,
  empty_loaded,
}
use notch.Session.Light.{
  Light, Lit, light_header_line, unless_empty, count_message, light_message_line,
  light_compaction_line, light_usage_line, light_entry_line, light_line, light_then, light_lines,
  light_decode,
}

-- The preview does not read like that of an empty session.
abbrev pub is_plain : Option Bytes → Bool
is_plain none = true
is_plain (some p) = not (bytes_eq p empty_session)

abbrev pub shown : Option Bytes → Bytes
shown none = []
shown (some p) = p

unless_empty-shown :
    (o : Option Bytes)
    → is_plain o ≡ true
    → unless_empty (elim o [ some p ↦ p | none ↦ empty_session ]) ≡ shown o
unfolding unless_empty bytes_eq
unless_empty-shown none h = refl
unless_empty-shown (some p) h = ground (arith, h)

unless_empty-preview :
    (ms : List Message)
    → is_plain (first_preview ms) ≡ true
    → unless_empty (session_preview ms) ≡ shown (first_preview ms)
unfolding session_preview
unless_empty-preview ms h = unless_empty-shown (first_preview ms) h

-- A message behind others.
next-shown :
    (p : Bytes) (a b : Option Bytes)
    → IsShown a
    → (is_plain a ≡ true → p ≡ shown a)
    → is_plain (or_preview a b) ≡ true
    → (if length p == 0 then unless_empty (elim b [ some q ↦ q | none ↦ empty_session ]) else p)
      ≡ shown (or_preview a b)
next-shown p none b h k plain = rw (k refl) (unless_empty-shown b plain)
next-shown p (some q) b h k plain = rw (k plain) (ground arith)

abbrev pub IsView : Loaded → Light → Type 0
IsView st v =
    (v.header ≡ st.header)
    × (v.message_count ≡ length st.messages)
    × (is_plain (first_preview st.messages) ≡ true → v.preview ≡ shown (first_preview st.messages))

pub data Agrees : Decoded → Lit → Type 0 where
  both_err : {e : DecodeError} → Agrees (err e) (err e)
  both_ok : {st : Loaded} {v : Light} → IsView st v → Agrees (ok st) (ok v)

both_if :
    (b : Bool) (x y : Decoded) (x' y' : Lit)
    → Agrees x x'
    → Agrees y y'
    → Agrees (if b then x else y) (if b then x' else y')
both_if true x y x' y' h k = h
both_if false x y x' y' h k = k

both_option :
    {A : Type 0} (o : Option A) (e : DecodeError) (f : A → Decoded) (g : A → Lit)
    → ((a : A) → Agrees (f a) (g a))
    → Agrees (elim o [ none ↦ err e | some a ↦ f a ]) (elim o [ none ↦ err e | some a ↦ g a ])
both_option none e f g h = both_err
both_option (some a) e f g h = h a

both_then :
    {x : Decoded} {l : Lit} {f : Loaded → Decoded} {g : Light → Lit}
    → Agrees x l
    → ((st : Loaded) (v : Light) → IsView st v → Agrees (f st) (g v))
    → Agrees (and_then x f) (light_then l g)
unfolding and_then light_then
both_then both_err k = both_err
both_then (both_ok {st} {v} w) k = k st v w

module _ (c : Codec) (n : ℕ) (line : Bytes) (st : Loaded) (v : Light) (w : IsView st v) where
  header-Agrees : Agrees (decode_header_line c line st) (light_header_line c line v)
  unfolding decode_header_line light_header_line
  header-Agrees = both_option (c.decode_header line) invalid_header _ _ (λ h.
      both_if (not (bytes_eq h.type (codes "metadata")) && not (bytes_eq h.type (codes "session")))
        (err not_metadata) _ (err not_metadata) _ both_err
        (both_if (not (is_version h.version)) (err unsupported_version)
          (ok (record st { header = some h })) (err unsupported_version)
          (ok (record v { header = some h })) both_err (both_ok (refl, w.1, w.2))))

  message-IsView :
      (m : Message)
      → IsView
          (record st { messages = st.messages ++ (clean_messages (m ∷ [])).0 })
          (count_message m v)
  unfolding count_message session_preview
  message-IsView m =
      let ms = (clean_messages (m ∷ [])).0 in
      let same : first_preview (st.messages ++ ms)
          ≡ or_preview (first_preview st.messages) (first_preview (m ∷ [])) =
        first_preview-append st.messages ms
        ∙ ap (or_preview (first_preview st.messages)) (first_preview-clean (m ∷ [])) in
      (
        w.0,
        omega (arith, length-append st.messages ms, length-clean_messages (m ∷ []), w.1),
        λ plain. rw same (
            next-shown v.preview (first_preview st.messages) (first_preview (m ∷ []))
              (first_preview-IsShown st.messages) w.2 (rw same at plain)),
      )

  compaction-IsView :
      (ms : List Message)
      → IsView
          (record st { messages = (clean_messages ms).0 })
          (record v { message_count = length ms; preview = unless_empty (session_preview ms) })
  compaction-IsView ms = (
    w.0,
    omega (arith, length-clean_messages ms),
    λ plain.
        rw (first_preview-clean ms)
          (unless_empty-preview ms (rw (first_preview-clean ms) at plain)),
  )

  message-Agrees : Agrees (decode_message_line c n line st) (light_message_line c n line v)
  unfolding decode_message_line light_message_line
  message-Agrees =
      elim (c.decode_message line)
        as (λ o.
          Agrees
            (elim o [
              | none ↦ err (invalid_message n)
              | some none ↦ err (no_message n)
              | some (some m) ↦
                  ok (record st { messages = st.messages ++ (clean_messages (m ∷ [])).0 })
            ])
            (elim o [
              | none ↦ err (invalid_message n)
              | some none ↦ err (no_message n)
              | some (some m) ↦ ok (count_message m v)
            ])) [
              | none ↦ both_err
              | some none ↦ both_err
              | some (some m) ↦ both_ok (message-IsView m)
            ]

  compaction-Agrees : Agrees (decode_compaction_line c n line st) (light_compaction_line c n line v)
  unfolding decode_compaction_line light_compaction_line
  compaction-Agrees =
      both_option (c.decode_compaction line) _ _ _ (λ e. both_ok (compaction-IsView e.messages))

  checked-Agrees :
      (u : UsageEntry) (o : Option DecodeError)
      → Agrees
          (elim o [ some e ↦ err e | none ↦ ok (commit (usage_entry u) st) ])
          (elim o [ some e ↦ err e | none ↦ ok v ])
  unfolding commit
  checked-Agrees u none = both_ok w
  checked-Agrees u (some e) = both_err

  usage-Agrees : Agrees (decode_usage_line c n line st) (light_usage_line c n line v)
  unfolding decode_usage_line light_usage_line
  usage-Agrees = both_option (c.decode_usage line) _ _ _ (λ u. checked-Agrees u (check_usage n u))

  entry-Agrees : Agrees (decode_entry_line c n line st) (light_entry_line c n line v)
  unfolding decode_entry_line light_entry_line commit commit_custom first_preview
  entry-Agrees =
      let type = (c.discriminate line).0 in
      both_if (not (c.is_one_json line)) (err (invalid_entry n)) _ (err (invalid_entry n)) _
        both_err
        (both_if (bytes_eq type (codes "metadata") || bytes_eq type (codes "session"))
          (err (late_header n)) _ (err (late_header n)) _ both_err
          (both_if (bytes_eq type (codes "message")) _ _ _ _ message-Agrees (
            both_if (bytes_eq type (codes "compaction")) _ _ _ _ compaction-Agrees (
              both_if (bytes_eq type (codes "reset")) _ _ _ _
                (both_if (c.decode_reset line) (ok (commit reset_entry st)) (err (invalid_reset n))
                  (ok (record v { message_count = 0; preview = [] })) (err (invalid_reset n))
                  (both_ok (w.0, refl, λ plain. refl)) both_err)
                (both_if (bytes_eq type (codes "usage")) _ (ok (commit_custom line st)) _ (ok v)
                  usage-Agrees (both_ok w))))))

line-Agrees :
    (c : Codec) (n : ℕ) (line : Bytes) (st : Loaded) (v : Light)
    → IsView st v
    → Agrees (decode_line c n line st) (light_line c n line v)
unfolding decode_line light_line
line-Agrees c n line st v w =
    both_if (length (trim_space line) == 0) (err (empty_record n)) _ (err (empty_record n)) _
      both_err
      (both_if (n == 1) _ _ _ _ (header-Agrees c n (trim_space line) st v w)
        (entry-Agrees c n (trim_space line) st v w))

lines-Agrees :
    (c : Codec) (n : ℕ) (ls : List Bytes) (st : Loaded) (v : Light)
    → IsView st v
    → Agrees (decode_lines c n ls st) (light_lines c n ls v)
unfolding decode_lines light_lines
lines-Agrees c n [] st v w = both_ok w
lines-Agrees c n (l ∷ ls) st v w = both_then (line-Agrees c n l st v w) (lines-Agrees c (suc n) ls)

decode-Agrees : (c : Codec) (s : Bytes) → Agrees (replay c s) (light_decode c s)
unfolding replay light_decode first_preview
decode-Agrees c s =
    both_if (length (lines s) == 0) (err missing_header) _ (err missing_header) _ both_err
      (lines-Agrees c 1 (lines s) empty_loaded _ (refl, refl, λ plain. refl))

-- No error, or a conversation whose preview does not read like that of an empty one.
abbrev pub IsPlain : Decoded → Type 0
IsPlain (err e) = Unit
IsPlain (ok st) = is_plain (first_preview st.messages) ≡ true

abbrev pub view : Decoded → Lit
view (err e) = err e
view (ok st) = ok (record {
  header = st.header;
  message_count = length st.messages;
  preview = shown (first_preview st.messages);
})

Agrees-view : {x : Decoded} {l : Lit} → Agrees x l → IsPlain x → l ≡ view x
Agrees-view both_err h = refl
Agrees-view (both_ok (a, b, p)) h = rw (a, b, p h) refl

-- Where the conversation that a file replays to has no first preview that reads `(empty
-- session)`: the lightweight reading fails with the same error, or gives the header, the number
-- of messages and that preview, where there is one.
pub light_decode_lem :
    (c : Codec) (s : Bytes) → IsPlain (replay c s) → light_decode c s ≡ view (replay c s)
light_decode_lem c s h = Agrees-view (decode-Agrees c s) h
