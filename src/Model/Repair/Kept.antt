-- ===== src/Model/Repair/Kept.antt =====
-- The blocks of the messages behind `repairToolCallResults`.
use mathlib.Core.List.{Sublist, sublist-append_right, nil-sublist}
use mathlib.Core.List.Sublist
use notch.Prelude.{
  ℕ, ◌+◌, ◌≡◌, refl, ap, sym, append-nil, List, [], ◌∷◌, ◌++◌, append_assoc, arith, length,
  length-append, str_eq, Bool-cases, inl, inr, All,
}
use notch.Go.Bytes.{Bytes}
use notch.Model.{Block, Message}
use notch.Model.Repair.{
  has_invalid_call, missing_results, missing_for, recovery, between, extended, repair_from,
  repair_tool_call_results,
}
use notch.Model.Repair.Settled.{Settled, IsAnswered, repair_tool_call_results-Settled}

abbrev pub blocks : List Message → List Block
blocks [] = []
blocks (m ∷ ms) = m.content ++ blocks ms

blocks-recovery : (missing : List Block) → blocks (recovery missing) ≡ missing
unfolding recovery
blocks-recovery [] = refl
blocks-recovery (b ∷ bs) = append-nil (b ∷ bs)

blocks-append : (ms ns : List Message) → blocks (ms ++ ns) ≡ blocks ms ++ blocks ns
blocks-append [] ns = refl
blocks-append (m ∷ ms) ns =
    rw (blocks-append ms ns) (sym (append_assoc m.content (blocks ms) (blocks ns)))

-- The results come in front of the blocks behind, wherever they were put.
blocks-between :
    (missing : List Block) (n : Message) (rest : List Message)
    → blocks (between missing n) ++ blocks (extended missing n ∷ rest)
      ≡ missing ++ blocks (n ∷ rest)
unfolding between extended
blocks-between missing n rest = elim (Bool-cases (str_eq n.role "user")) [
  | inl user ↦ rw (user, between, extended) (append_assoc missing n.content (blocks rest))
  | inr other ↦
      rw (other, between, extended) (ap (λ b. b ++ blocks (n ∷ rest)) (blocks-recovery missing))
]

record Kept (ms : List Message) (out : List Message) (k : ℕ) : Type 0 where
  kept : Sublist (blocks ms) (blocks out)
  counted : length (blocks out) ≡ length (blocks ms) + k

Kept-between :
    (missing : List Block) (n : Message) (rest out : List Message) (k : ℕ)
    → Kept (extended missing n ∷ rest) out k
    → Kept (n ∷ rest) (between missing n ++ out) (length missing + k)
Kept-between missing n rest out k h = record {
  kept = rw (blocks-append (between missing n) out) (
      Sublist.trans (sublist-append_right missing (blocks (n ∷ rest))) (
        rw (blocks-between missing n rest) at
          (Sublist.append (Sublist.refl (blocks (between missing n))) h.kept)));
  counted = omega (
    arith,
    ap length (blocks-append (between missing n) out),
    length-append (blocks (between missing n)) (blocks out),
    h.counted,
    ap length (blocks-between missing n rest),
    length-append (blocks (between missing n)) (blocks (extended missing n ∷ rest)),
    length-append missing (blocks (n ∷ rest)),
  );
}

Kept-cons :
    (m : Message) (ms out : List Message) (k : ℕ) → Kept ms out k → Kept (m ∷ ms) (m ∷ out) k
Kept-cons m ms out k h = record {
  kept = Sublist.append (Sublist.refl m.content) h.kept;
  counted =
      omega (
        arith,
        h.counted,
        length-append m.content (blocks out),
        length-append m.content (blocks ms),
      );
}

repair_from-Kept :
    (error_text : Bytes) (m : Message) (rest : List Message)
    → let r = repair_from error_text m rest in Kept (m ∷ rest) r.0 r.1
unfolding repair_from
repair_from-Kept error_text m [] =
    let missing = missing_for error_text m [] in
    Kept-cons m [] (recovery missing) (length missing) (record {
      kept = nil-sublist _;
      counted = omega (arith, ap length (blocks-recovery missing));
    })
repair_from-Kept error_text m (n ∷ rest) =
    let missing = missing_for error_text m (n ∷ rest) in
    let (out, k) = repair_from error_text (extended missing n) rest in
    Kept-cons m (n ∷ rest) _ _
      (Kept-between missing n rest out k (repair_from-Kept error_text (extended missing n) rest))

-- The repair keeps every block of the messages, in order, and the number that it returns is the
-- number of blocks added.
pub repair_tool_call_results_keeps :
    (ms : List Message) (error_text : Bytes)
    → let r = repair_tool_call_results ms error_text in
      Sublist (blocks ms) (blocks r.0) × (length (blocks r.0) ≡ length (blocks ms) + r.1)
unfolding repair_tool_call_results
repair_tool_call_results_keeps [] error_text = (Sublist.refl [], refl)
repair_tool_call_results_keeps (m ∷ ms) error_text =
    let h = repair_from-Kept error_text m ms in (h.kept, h.counted)

missing_results-nil :
    (error_text : Bytes) (rest : List Message) (bs : List Block)
    → All (IsAnswered rest) bs
    → missing_results error_text rest bs ≡ []
unfolding missing_results
missing_results-nil error_text rest [] h = refl
missing_results-nil error_text rest (b ∷ bs) (hb, hs) =
    ground (arith, hb, missing_results-nil error_text rest bs hs)

missing_for-nil :
    (error_text : Bytes) (m : Message) (rest : List Message)
    → Settled (m ∷ rest)
    → missing_for error_text m rest ≡ []
unfolding missing_for
missing_for-nil error_text m rest (h, hs) = elim (Bool-cases (has_invalid_call m.content)) [
  | inl e ↦ rw (e, missing_for) (missing_results-nil error_text rest m.content (h e))
  | inr e ↦ rw (e, missing_for)
]

extended-nil : (n : Message) → extended [] n ≡ n
unfolding extended
extended-nil n = ground arith

between-nil : (n : Message) → between [] n ≡ []
unfolding between
between-nil n = ground arith

repair_from-of_Settled :
    (error_text : Bytes) (m : Message) (rest : List Message)
    → Settled (m ∷ rest)
    → repair_from error_text m rest ≡ (m ∷ rest, 0)
unfolding repair_from recovery
repair_from-of_Settled error_text m [] h = rw (missing_for-nil error_text m [] h)
repair_from-of_Settled error_text m (n ∷ rest) h =
    rw (missing_for-nil error_text m (n ∷ rest) h)
      (rw (extended-nil n, between-nil n) (rw (repair_from-of_Settled error_text n rest h.1)))

Settled-unchanged :
    (out : List Message) (error_text : Bytes)
    → Settled out
    → repair_tool_call_results out error_text ≡ (out, 0)
unfolding repair_tool_call_results
Settled-unchanged [] error_text h = refl
Settled-unchanged (m ∷ rest) error_text h = repair_from-of_Settled error_text m rest h

-- A second repair, with any error text, leaves the repaired messages as they are and adds
-- nothing.
pub repair_tool_call_results_twice :
    (ms : List Message) (error_text again : Bytes)
    → let out = (repair_tool_call_results ms error_text).0 in
      repair_tool_call_results out again ≡ (out, 0)
repair_tool_call_results_twice ms error_text again =
    Settled-unchanged _ again (repair_tool_call_results-Settled ms error_text)
