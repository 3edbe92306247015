-- ===== src/Model/Repair/Settled.antt =====
-- The calls of a message with an invalid call, and their results behind `repairToolCallResults`.
use notch.Prelude.{
  ◌≡◌, refl, Bool, true, false, not, ◌&&◌, ◌||◌, String, List, [], ◌∷◌, ◌++◌, arith, str_eq,
  str_eq_refl, append-nil, if◌then◌else◌, Bool-cases, inl, inr, All, any-append,
}
use notch.Go.Bytes.{Bytes}
use notch.Model.{Block, Message, is_call, is_result}
use notch.Model.Repair.{
  has_invalid_call, answers, found, error_result, missing_results, missing_for, recovery, between,
  extended, repair_from, repair_tool_call_results,
}

abbrev pub IsAnswered : List Message → Block → Type 0
IsAnswered rest b = is_call b ≡ true → found rest b.id ≡ true

-- A message with an invalid call is followed by a user message with a result for each of its calls.
abbrev pub Settled : List Message → Type 0
Settled [] = Unit
Settled (m ∷ ms) = (has_invalid_call m.content ≡ true → All (IsAnswered ms) m.content) × Settled ms

-- A call is answered by what is collected, or was before.
abbrev Collected : List Block → List Message → Block → Type 0
Collected missing rest b = is_call b ≡ true → (answers missing b.id || found rest b.id) ≡ true

Collected-cons :
    (x : Block) (missing : List Block) (rest : List Message) (bs : List Block)
    → All (Collected missing rest) bs
    → All (Collected (x ∷ missing) rest) bs
unfolding answers
Collected-cons x missing rest [] h = tt
Collected-cons x missing rest (b ∷ bs) (hb, hs) =
    (λ c. ground (arith, hb c), Collected-cons x missing rest bs hs)

answers-error_result :
    (error_text : Bytes) (id : String) (bs : List Block)
    → answers (error_result error_text id ∷ bs) id ≡ true
unfolding answers is_result error_result
answers-error_result error_text id bs = ground (arith, str_eq_refl id)

-- One step of the loop, for the value `t` of its test.
Collected-step :
    (t : Bool) (error_text : Bytes) (rest : List Message) (b : Block) (bs missing : List Block)
    → t ≡ (is_call b && not (found rest b.id))
    → All (Collected missing rest) bs
    → All (Collected (if t then error_result error_text b.id ∷ missing else missing) rest) (b ∷ bs)
Collected-step true error_text rest b bs missing e h = (
  (λ c. rw (answers-error_result error_text b.id missing) refl),
  Collected-cons _ missing rest bs h,
)
Collected-step false error_text rest b bs missing e h = ((λ c. ground arith), h)

missing_results-Collected :
    (error_text : Bytes) (rest : List Message) (bs : List Block)
    → All (Collected (missing_results error_text rest bs) rest) bs
unfolding missing_results
missing_results-Collected error_text rest [] = tt
missing_results-Collected error_text rest (b ∷ bs) =
    Collected-step _ error_text rest b bs _ refl (missing_results-Collected error_text rest bs)

no_call :
    (error_text : Bytes) (rest : List Message) (bs : List Block)
    → has_invalid_call (missing_results error_text rest bs) ≡ false
unfolding missing_results has_invalid_call is_call error_result
no_call error_text rest [] = refl
no_call error_text rest (b ∷ bs) = ground (arith, no_call error_text rest bs)

missing_for-no_call :
    (error_text : Bytes) (m : Message) (rest : List Message)
    → has_invalid_call (missing_for error_text m rest) ≡ false
unfolding missing_for has_invalid_call
missing_for-no_call error_text m rest = ground (arith, no_call error_text rest m.content)

-- Only the first message behind matters.
found-repair_from :
    (error_text : Bytes) (m : Message) (rest : List Message) (id : String)
    → found (repair_from error_text m rest).0 id ≡ found (m ∷ []) id
unfolding found repair_from
found-repair_from error_text m [] id = refl
found-repair_from error_text m (n ∷ rest) id = refl

found-recovery :
    (missing : List Block) (out : List Message) (id : String)
    → answers missing id ≡ true
    → found (recovery missing ++ out) id ≡ true
unfolding answers found recovery
found-recovery [] out id h = ground arith
found-recovery (b ∷ bs) out id h = ground (arith, str_eq_refl "user")

answers-append :
    (xs ys : List Block) (id : String) → answers (xs ++ ys) id ≡ (answers xs id || answers ys id)
unfolding answers
answers-append xs ys id = any-append _ xs ys

found-between :
    (missing : List Block) (n : Message) (rest out : List Message) (id : String)
    → found out id ≡ found (extended missing n ∷ []) id
    → (answers missing id || found (n ∷ rest) id) ≡ true
    → found (between missing n ++ out) id ≡ true
unfolding found between extended
found-between missing n rest out id e h =
    ground (arith, answers-append missing n.content id, found-recovery missing out id)

-- From what is collected for a call to its result behind the message.
IsAnswered-of_Collected :
    (missing : List Block) (before after : List Message)
    → ((id : String) → (answers missing id || found before id) ≡ true → found after id ≡ true)
    → (bs : List Block) → All (Collected missing before) bs
    → All (IsAnswered after) bs
IsAnswered-of_Collected missing before after h [] c = tt
IsAnswered-of_Collected missing before after h (b ∷ bs) (cb, cs) =
    (λ call. h b.id (cb call), IsAnswered-of_Collected missing before after h bs cs)

missing_for-Collected :
    (error_text : Bytes) (m : Message) (rest : List Message)
    → has_invalid_call m.content ≡ true
    → All (Collected (missing_for error_text m rest) rest) m.content
unfolding missing_for
missing_for-Collected error_text m rest h =
    rw (h, missing_for) (missing_results-Collected error_text rest m.content)

Settled-recovery :
    (missing : List Block) (out : List Message)
    → has_invalid_call missing ≡ false
    → Settled out
    → Settled (recovery missing ++ out)
unfolding recovery
Settled-recovery [] out h s = s
Settled-recovery (b ∷ bs) out h s = (λ invalid. cc, s)

Settled-between :
    (missing : List Block) (n : Message) (out : List Message)
    → has_invalid_call missing ≡ false
    → Settled out
    → Settled (between missing n ++ out)
unfolding between
Settled-between missing n out h s = elim (Bool-cases (str_eq n.role "user")) [
  | inl user ↦ rw (user, between) s
  | inr other ↦ rw (other, between) (Settled-recovery missing out h s)
]

repair_from-Settled :
    (error_text : Bytes) (m : Message) (rest : List Message)
    → Settled (repair_from error_text m rest).0
unfolding repair_from found
repair_from-Settled error_text m [] =
    let missing = missing_for error_text m [] in
    (
      (λ invalid.
          IsAnswered-of_Collected missing [] (recovery missing)
            (λ id h. rw append-nil at (found-recovery missing [] id (ground arith))) m.content
            (missing_for-Collected error_text m [] invalid)),
      rw append-nil at (Settled-recovery missing [] (missing_for-no_call error_text m []) tt),
    )
repair_from-Settled error_text m (n ∷ rest) =
    let missing = missing_for error_text m (n ∷ rest) in
    let out = (repair_from error_text (extended missing n) rest).0 in
    (
      (λ invalid.
          IsAnswered-of_Collected missing (n ∷ rest) (between missing n ++ out)
            (λ id. found-between missing n rest out id (found-repair_from error_text _ rest id))
            m.content (missing_for-Collected error_text m (n ∷ rest) invalid)),
      Settled-between missing n out (missing_for-no_call error_text m (n ∷ rest))
          (repair_from-Settled error_text (extended missing n) rest),
    )

-- After the repair, every call of a message that holds an invalid call has a result in the user
-- message that follows.
pub repair_tool_call_results-Settled :
    (ms : List Message) (error_text : Bytes) → Settled (repair_tool_call_results ms error_text).0
unfolding repair_tool_call_results
repair_tool_call_results-Settled [] error_text = tt
repair_tool_call_results-Settled (m ∷ ms) error_text = repair_from-Settled error_text m ms
