-- ===== src/Session/Durable.antt =====
-- Sessions that are appended to, and loaded again after any failure.
use mathlib.Core.Path.{subst}
use notch.Prelude.{
  ◌≡◌, refl, sym, ap, ◌∙◌, append_assoc, true, Option, none, some, [], ◌∷◌, ◌++◌, Option-cases, ◌⊎◌,
  inl, inr,
}
use notch.Go.Bytes.{Bytes}
use notch.Session.{ok, Codec, Loaded, Entry, commit}
use notch.Session.Decode.{replay, repaired}
use notch.Session.Decode.Lines.{Terminated, Terminated-append}
use notch.Session.Decode.Records.{Encodes, IsAdmissible, Encodes-Decodes, replay-line}
use notch.Session.Append.{Session, Io, AppendError, append_line, append_record}
use notch.Session.Load.{load}
use notch.Session.Load.Torn.{load_complete}
use notch.Session.Crash.{Appended, append_line-Appended, load_part}

-- Where the record is marshalled, what is written reads back as it is.
abbrev pub ReadsBack : Codec → Entry → Type 0
ReadsBack c e = (body : Bytes) → c.marshal e ≡ some body → Encodes c body e

-- The file holds whole lines, which replay to the conversation in memory.
abbrev pub IsSound : Codec → Session → Type 0
IsSound c s = Terminated s.disk × (replay c s.disk ≡ ok s.loaded)

-- A load finds the conversation in memory, or that with one record more.
abbrev pub Reloads : Codec → Session → Type 0
Reloads c s =
    (left : Bytes) × ((load c s.disk ≡ ok (repaired s.loaded, left))
      ⊎ ((e : Entry) × (load c s.disk ≡ ok (repaired (commit e s.loaded), left))))

abbrev pub IsDurable : Codec → Session → Type 0
IsDurable c s = IsSound c s ⊎ ((s.closed ≡ true) × Reloads c s)

pub IsDurable-Reloads : (c : Codec) (s : Session) → IsDurable c s → Reloads c s
IsDurable-Reloads c s (inl (ended, h)) = (s.disk, inl (load_complete c s.disk s.loaded ended h))
IsDurable-Reloads c s (inr (_, h)) = h

append_line-IsDurable :
    (c : Codec) (body : Bytes) (e : Entry) (s : Session) (out : Session × Option AppendError)
    → IsAdmissible e
    → Encodes c body e
    → IsSound c s
    → Appended (body ++ 10 ∷ []) (commit e) s out
    → IsDurable c (out.0)
append_line-IsDurable c body e s (s', r) fits enc (ended, h) (inl (_, disk, loaded, _)) =
    let reads = Encodes-Decodes c body e fits enc in
    let line = body ++ 10 ∷ [] in
    let closed : Terminated (s.disk ++ line) =
      subst Terminated (append_assoc s.disk body (10 ∷ [])) (Terminated-append s.disk body) in
    inl (
      subst Terminated (sym disk) closed,
      ap (replay c) disk
          ∙ replay-line c s.disk body (commit e) s.loaded ended h (enc.0) reads
          ∙ ap ok (sym loaded),
    )
append_line-IsDurable c body e s (s', r) fits enc (ended, h) (inr (_, loaded, inl disk)) =
    inl (subst Terminated (sym disk) ended, ap (replay c) disk ∙ h ∙ ap ok (sym loaded))
append_line-IsDurable c body e s (s', r) fits enc (ended, h)
      (inr (_, loaded, inr (shut, p, q, split, disk))) =
    let reads = Encodes-Decodes c body e fits enc in
    let found = load_part c s.disk body p q (commit e) s.loaded ended h (enc.0) reads split in
    inr (
      shut,
      elim found [
        | inl before ↦ (
          s.disk,
          inl (ap (load c) disk ∙ before ∙ ap (λ st. ok (repaired st, s.disk)) (sym loaded)),
        )
        | inr with_record ↦ (
          s.disk ++ (body ++ 10 ∷ []),
          inr (
            e,
            ap (load c) disk
                ∙ with_record
                ∙ ap (λ st. ok (repaired (commit e st), s.disk ++ (body ++ 10 ∷ []))) (sym loaded),
          ),
        )
      ],
    )

pub append_record-refused :
    (c : Codec) (io : Io) (e : Entry) (s : Session)
    → c.marshal e ≡ none
    → append_record c io e s ≡ (s, some AppendError.encode_failed)
unfolding append_record
append_record-refused c io e s h = rw (append_record, h) refl

pub append_record-written :
    (c : Codec) (io : Io) (e : Entry) (body : Bytes) (s : Session)
    → c.marshal e ≡ some body
    → append_record c io e s ≡ append_line io (body ++ 10 ∷ []) (commit e) s
unfolding append_record append_line
append_record-written c io e body s h = rw (append_record, h) refl

closed_append :
    (io : Io) (line : Bytes) (f : Loaded → Loaded) (s : Session)
    → s.closed ≡ true
    → (append_line io line f s).0 ≡ s
unfolding append_line
closed_append io line f s shut = rw (append_line, shut) refl

pub append_record-IsDurable :
    (c : Codec) (io : Io) (e : Entry) (s : Session)
    → ReadsBack c e
    → IsAdmissible e
    → IsDurable c s
    → IsDurable c (append_record c io e s).0
append_record-IsDurable c io e s faithful fits h = elim (Option-cases (c.marshal e)) [
  | inl refused ↦
      subst (λ out. IsDurable c (out.0)) (sym (append_record-refused c io e s refused)) h
  | inr (body, written) ↦
      let line = body ++ 10 ∷ [] in
      let out = append_line io line (commit e) s in
      subst (λ o. IsDurable c (o.0)) (sym (append_record-written c io e body s written))
        (elim h [
          | inl sound ↦
              append_line-IsDurable c body e s out fits (faithful body written) sound
                (append_line-Appended io line (commit e) s)
          | inr (shut, found) ↦
              subst (IsDurable c) (sym (closed_append io line (commit e) s shut))
                (inr (shut, found))
        ])
]
