-- ===== src/Session/Crash.antt =====
-- `appendLine` with the failures of the operating system, and `Load` of the file that it leaves.
use mathlib.Core.Path.{subst}
use notch.Prelude.{
  ℕ, ◌≡◌, refl, sym, ap, ◌∙◌, append_assoc, append-nil, Bool, true, false, not, ◌||◌, Option, none,
  some, List, [], ◌∷◌, ◌++◌, arith, ◌==◌, length, take, drop, Bool-cases, take-append_exact,
  take-append-drop, ◌⊎◌, inl, inr,
}
use notch.Go.Bytes.{Bytes}
use notch.Session.{ok, Codec, Loaded}
use notch.Session.Decode.{replay, repaired}
use notch.Session.Decode.Lines.{Terminated, Terminated-append}
use notch.Session.Decode.Records.{IsObjectLine, Decodes, replay-line}
use notch.Session.Append.{
  Session, Io, AppendError, write_all, disable, rollback_append, append_line,
}
use notch.Session.Load.{load}
use notch.Session.Load.Torn.{load_complete, load_torn, load_no_newline, last_split}

pub write_all-prefix :
    (ws : List (ℕ × Bool)) (xs : Bytes) → (q : Bytes) × ((write_all ws xs).0 ++ q ≡ xs)
unfolding write_all
write_all-prefix [] [] = ([], refl)
write_all-prefix (w ∷ ws) [] = ([], refl)
write_all-prefix [] (x ∷ xs) = ([], append-nil (x ∷ xs))
write_all-prefix ((n, true) ∷ ws) (x ∷ xs) = elim (Bool-cases (n == 0)) [
  | inl none_taken ↦ (x ∷ xs, rw none_taken refl)
  | inr some_taken ↦
      let (q, e) = write_all-prefix ws (drop n (x ∷ xs)) in
      let rest = (write_all ws (drop n (x ∷ xs))).0 in
      (
        q,
        rw some_taken (
            append_assoc (take n (x ∷ xs)) rest q
            ∙ ap (λ k. take n (x ∷ xs) ++ k) e
            ∙ take-append-drop n (x ∷ xs)),
      )
]
write_all-prefix ((n, false) ∷ ws) (x ∷ xs) = (drop n (x ∷ xs), take-append-drop n (x ∷ xs))

pub write_all-all :
    (ws : List (ℕ × Bool)) (xs : Bytes) → (write_all ws xs).1 ≡ true → (write_all ws xs).0 ≡ xs
unfolding write_all
write_all-all [] [] h = refl
write_all-all (w ∷ ws) [] h = refl
write_all-all [] (x ∷ xs) h = refl
write_all-all ((n, true) ∷ ws) (x ∷ xs) h = elim (Bool-cases (n == 0)) [
  | inl none_taken ↦ absurd (ground (arith, h))
  | inr some_taken ↦
      let rest = drop n (x ∷ xs) in
      let done : (write_all ws rest).1 ≡ true = ground (arith, h) in
      rw some_taken
        (ap (λ k. take n (x ∷ xs) ++ k) (write_all-all ws rest done) ∙ take-append-drop n (x ∷ xs))
]
write_all-all ((n, false) ∷ ws) (x ∷ xs) h = absurd (ground arith)

-- What one append comes to: the line is written and committed; it failed and left no trace; or the
-- rollback failed too, and the closed session leaves some first part of the line behind.
abbrev pub Appended : Bytes → (Loaded → Loaded) → Session → Session × Option AppendError → Type 0
Appended line f s (s', r) =
    ((r ≡ none) × (s'.disk ≡ s.disk ++ line) × (s'.loaded ≡ f s.loaded) × (s'.closed ≡ s.closed))
    ⊎ (((e : AppendError) × (r ≡ some e))
        × (s'.loaded ≡ s.loaded)
        × ((s'.disk ≡ s.disk)
            ⊎ ((s'.closed ≡ true)
                × (p : Bytes) × (q : Bytes) × (p ++ q ≡ line)
                × (s'.disk ≡ s.disk ++ p))))

rollback_append_lem :
    (io : Io) (e : AppendError) (line p q : Bytes) (f : Loaded → Loaded) (s : Session)
    → p ++ q ≡ line
    → Appended line f s (rollback_append io (length s.disk) e (record s { disk = s.disk ++ p }))
unfolding rollback_append disable
rollback_append_lem io e line p q f s split = elim (Bool-cases io.truncate_ok) [
  | inl cut ↦ elim (Bool-cases io.rollback_sync_ok) [
    | inl synced ↦ rw (cut, synced) (inr ((e, refl), refl, inl (take-append_exact s.disk p)))
    | inr lost ↦
        rw (cut, lost)
          (inr ((AppendError.rollback_failed e, refl), refl, inl (take-append_exact s.disk p)))
  ]
  | inr kept ↦
      rw kept (inr ((AppendError.rollback_failed e, refl), refl, inr (refl, p, q, split, refl)))
]

pub append_line-Appended :
    (io : Io) (line : Bytes) (f : Loaded → Loaded) (s : Session)
    → Appended line f s (append_line io line f s)
unfolding append_line
append_line-Appended io line f s =
    let (q, split) = write_all-prefix io.writes line in
    let part = (write_all io.writes line).0 in
    elim (Bool-cases (s.closed || not s.has_file)) [
      | inl shut ↦ rw shut (inr ((AppendError.session_closed, refl), refl, inl refl))
      | inr usable ↦ elim (Bool-cases io.stat_ok) [
        | inr bad ↦ rw (usable, bad) (inr ((AppendError.stat_failed, refl), refl, inl refl))
        | inl sized ↦ elim (Bool-cases (write_all io.writes line).1) [
          | inr short ↦
              rw (usable, sized, short)
                (rollback_append_lem io AppendError.write_failed line part q f s split)
          | inl all ↦ elim (Bool-cases io.sync_ok) [
            | inr unsynced ↦
                rw (usable, sized, all, unsynced)
                  (rollback_append_lem io AppendError.sync_failed line part q f s split)
            | inl synced ↦
                rw (usable, sized, all, synced)
                  (inl (refl, ap (λ k. s.disk ++ k) (write_all-all io.writes line all), refl, refl))
          ]
        ]
      ]
    ]

-- What `Load` returns for a file that replays to `st` and the file with the line behind it.
abbrev pub Loads : Codec → Bytes → Bytes → (Loaded → Loaded) → Loaded → Bytes → Type 0
Loads c disk line f st left =
    (load c left ≡ ok (repaired st, disk)) ⊎ (load c left ≡ ok (repaired (f st), disk ++ line))

load_cut :
    (c : Codec) (disk body : Bytes) (x : ℕ) (p q : Bytes) (f : Loaded → Loaded) (st : Loaded)
    → Terminated disk
    → replay c disk ≡ ok st
    → IsObjectLine body
    → Decodes c body f
    → body ≡ (x ∷ p) ++ q
    → Loads c disk (body ++ 10 ∷ []) f st (disk ++ x ∷ p)
load_cut c disk body x p [] f st ended h object reads whole = inr (
    ap (λ k. load c (disk ++ k)) (sym (whole ∙ append-nil (x ∷ p)))
    ∙ load_no_newline c disk body f st ended h object reads
    ∙ ap (λ k. ok (repaired (f st), k)) (append_assoc disk body (10 ∷ [])))
load_cut c disk body x p (y ∷ q) f st ended h object reads whole =
    inl (load_torn c disk p q body x y st ended h object whole)

pub load_part :
    (c : Codec) (disk body p q : Bytes) (f : Loaded → Loaded) (st : Loaded)
    → Terminated disk
    → replay c disk ≡ ok st
    → IsObjectLine body
    → Decodes c body f
    → p ++ q ≡ body ++ 10 ∷ []
    → Loads c disk (body ++ 10 ∷ []) f st (disk ++ p)
load_part c disk body [] q f st ended h object reads split =
    inl (ap (load c) (append-nil disk) ∙ load_complete c disk st ended h)
load_part c disk body (x ∷ p) [] f st ended h object reads split =
    let line : x ∷ p ≡ body ++ 10 ∷ [] = sym (append-nil (x ∷ p)) ∙ split in
    let all = body ++ 10 ∷ [] in
    let closed : Terminated (disk ++ all) =
      subst Terminated (append_assoc disk body (10 ∷ [])) (Terminated-append disk body) in
    inr (
      ap (λ k. load c (disk ++ k)) line
      ∙ load_complete c (disk ++ all) (f st) closed
          (replay-line c disk body f st ended h object reads))
load_part c disk body (x ∷ p) (y ∷ q) f st ended h object reads split =
    let (q', last, whole) = last_split body (x ∷ p) q 10 y (sym split) in
    load_cut c disk body x p q' f st ended h object reads whole

pub Appended-Loads :
    (c : Codec) (body : Bytes) (f : Loaded → Loaded) (s : Session) (st : Loaded)
    (out : Session × Option AppendError)
    → Terminated s.disk
    → replay c s.disk ≡ ok st
    → IsObjectLine body
    → Decodes c body f
    → Appended (body ++ 10 ∷ []) f s out
    → Loads c s.disk (body ++ 10 ∷ []) f st (out.0).disk
Appended-Loads c body f s st out ended h object reads appended =
    let line = body ++ 10 ∷ [] in
    let part : (p q : Bytes)
        → p ++ q ≡ line
        → (out.0).disk ≡ s.disk ++ p
        → Loads c s.disk line f st (out.0).disk =
      λ p q split disk.
        subst (Loads c s.disk line f st) (sym disk)
          (load_part c s.disk body p q f st ended h object reads split) in
    elim appended [
      | inl (_, disk, _, _) ↦ part line [] (append-nil line) disk
      | inr (_, _, kept) ↦ elim kept [
        | inl disk ↦ part [] line refl (disk ∙ sym (append-nil s.disk))
        | inr (_, p, q, split, disk) ↦ part p q split disk
      ]
    ]
