-- ===== src/Session/Custom.antt =====
-- Records of extensions: `AppendEntry`, and `Load` behind it.
use notch.Prelude.{◌≡◌, refl, ap, true, false, Option, some, [], ◌∷◌, ◌++◌, Bool-cases, inl, inr}
use notch.Go.Bytes.{Bytes, codes, bytes_eq, bytes_eq_iff}
use notch.Go.Space.{trim_space}
use notch.Session.{ok, Codec, Loaded, commit_custom}
use notch.Session.Decode.{replay, decode_entry_line}
use notch.Session.Decode.Lines.{Terminated}
use notch.Session.Decode.Records.{IsObjectLine, Decodes}
use notch.Session.Append.{Session, Io, AppendError, append_line, append_entry, is_reserved}
use notch.Session.Load.Torn.{load_complete}
use notch.Session.Crash.{append_line-Appended, Appended-Loads, Loads}

other_than :
    (type r : Bytes)
    → is_reserved (trim_space r) ≡ true
    → is_reserved (trim_space type) ≡ false
    → bytes_eq type r ≡ false
other_than type r reserved h = elim (Bool-cases (bytes_eq type r)) [
  | inr other ↦ other
  | inl same ↦
      let e : type ≡ r = (bytes_eq_iff type r).0 same in
      absurd (cc (ap (λ t. is_reserved (trim_space t)) e, reserved, h))
]

custom-Decodes :
    (c : Codec) (body : Bytes)
    → c.is_one_json body ≡ true
    → is_reserved (trim_space (c.discriminate body).0) ≡ false
    → Decodes c body (commit_custom body)
unfolding is_reserved trim_space bytes_eq decode_entry_line commit_custom
custom-Decodes c body one h n st =
    let type = (c.discriminate body).0 in
    rw
      (
        decode_entry_line,
        one,
        other_than type (codes "metadata") refl h,
        other_than type (codes "session") refl h,
        other_than type (codes "message") refl h,
        other_than type (codes "compaction") refl h,
        other_than type (codes "reset") refl h,
        other_than type (codes "usage") refl h,
      )
      refl

-- For a file of whole lines that replays to a conversation, and a value whose JSON is an object
-- on one line with a `type` that reads without an error, and alike with the newline behind:
-- whatever the operating system answers to `AppendEntry`, `Load` reads the file to the
-- conversation, or to that with the entry added, repaired.
pub append_entry-Loads :
    (c : Codec) (io : Io) (body : Bytes) (s : Session) (st : Loaded)
    → Terminated s.disk
    → replay c s.disk ≡ ok st
    → IsObjectLine body
    → c.is_one_json body ≡ true
    → (c.discriminate body).1 ≡ true
    → c.discriminate (body ++ 10 ∷ []) ≡ c.discriminate body
    → Loads c s.disk
        (body ++ 10 ∷ [])
        (commit_custom body)
        st
        (append_entry c io (some body) s).0.disk
unfolding append_entry
append_entry-Loads c io body s st ended h object one decoded same =
    let line = body ++ 10 ∷ [] in
    let type = (c.discriminate body).0 in
    let P : Session × Option AppendError → Type 0 =
      λ out. Loads c s.disk line (commit_custom body) st (out.0).disk in
    let unchanged : (e : AppendError) → P (s, some e) =
      λ e. inl (load_complete c s.disk st ended h) in
    elim (Bool-cases (bytes_eq (trim_space line) (codes "null"))) [
      | inl null ↦ rw (append_entry, null) (unchanged AppendError.null_entry)
      | inr value ↦ elim (Bool-cases (is_reserved (trim_space type))) [
        | inl reserved ↦
            rw (append_entry, value, same, decoded, reserved) (unchanged AppendError.reserved_type)
        | inr free ↦
            rw (append_entry, value, same, decoded, free)
              (Appended-Loads c body (commit_custom body) s st
                (append_line io line (commit_custom body) s) ended h object
                (custom-Decodes c body one free)
                (append_line-Appended io line (commit_custom body) s))
      ]
    ]
