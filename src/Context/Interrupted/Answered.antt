-- ===== src/Context/Interrupted/Answered.antt =====
-- The calls of the context that `contextMessages` rebuilds, and their results.
use notch.Prelude.{
  ℕ, suc, ◌≡◌, ◌≢◌, refl, ◌∙◌, Bool, true, false, ◌&&◌, not, String, List, [], ◌∷◌, ◌++◌, arith,
  inl, inr, str_eq_iff, str_eq_refl, any-append_right, All, Bool-cases, if◌then◌else◌,
}
use notch.Model.{Block, Message, is_call, is_result}
use notch.Model.Repair.{answers, recovery}
use notch.Context.Interrupted.{
  ResultAfter, note_results, results_after, is_unanswered, interrupted_result, missing,
  insert_missing, add_interrupted,
}
use notch.Context.Interrupted.Later.{answered_later, Before, Before-step, is_later_lem}

abbrev pub IsAnsweredLater : List Message → Block → Type 0
IsAnsweredLater ms b = is_call b ≡ true → b.id ≢ "" → answered_later ms b.id ≡ true

-- Every call with an ID has a result in a message behind its own.
abbrev pub Complete : List Message → Type 0
Complete [] = Unit
Complete (m ∷ ms) = All (IsAnsweredLater ms) m.content × Complete ms

-- Whether a call is unanswered, by what stands behind message `i`.
pub is_unanswered_lem :
    (i : ℕ) (ms : List Message) (after : ResultAfter) (b : Block)
    → Before (suc i) after
    → b.id ≢ ""
    → is_unanswered (results_after (suc i) ms after) i b
      ≡ (is_call b && not (answered_later ms b.id))
unfolding is_unanswered
is_unanswered_lem i ms after b h id =
    ground (arith, is_later_lem i ms after b.id id h, str_eq_iff b.id "")

abbrev Collected : ResultAfter → ℕ → List Block → Block → Type 0
Collected after i bs b = is_unanswered after i b ≡ true → answers bs b.id ≡ true

Collected-cons :
    (after : ResultAfter) (i : ℕ) (x : Block) (found bs : List Block)
    → All (Collected after i found) bs
    → All (Collected after i (x ∷ found)) bs
unfolding answers
Collected-cons after i x found [] h = tt
Collected-cons after i x found (b ∷ bs) (hb, hs) =
    (λ c. ground (arith, hb c), Collected-cons after i x found bs hs)

answers-interrupted_result :
    (id : String) (bs : List Block) → answers (interrupted_result id ∷ bs) id ≡ true
unfolding answers is_result interrupted_result
answers-interrupted_result id bs = ground (arith, str_eq_refl id)

Collected-step :
    (t : Bool) (after : ResultAfter) (i : ℕ) (b : Block) (bs found : List Block)
    → t ≡ is_unanswered after i b
    → All (Collected after i found) bs
    → All (Collected after i (if t then interrupted_result b.id ∷ found else found)) (b ∷ bs)
Collected-step true after i b bs found e h =
    (λ c. answers-interrupted_result b.id found, Collected-cons after i _ found bs h)
Collected-step false after i b bs found e h = ((λ c. cc), h)

missing-Collected :
    (after : ResultAfter) (i : ℕ) (bs : List Block)
    → All (Collected after i (missing after i bs)) bs
unfolding missing
missing-Collected after i [] = tt
missing-Collected after i (b ∷ bs) =
    Collected-step _ after i b bs _ refl (missing-Collected after i bs)

answered_later-recovery :
    (found : List Block) (out : List Message) (id : String)
    → answers found id ≡ true
    → answered_later (recovery found ++ out) id ≡ true
unfolding answers recovery
answered_later-recovery [] out id h = cc
answered_later-recovery (b ∷ bs) out id h = ground arith

answered_later-insert_missing :
    (after : ResultAfter) (i : ℕ) (ms : List Message) (id : String)
    → answered_later ms id ≡ true
    → answered_later (insert_missing after i ms) id ≡ true
unfolding insert_missing
answered_later-insert_missing after i [] id h = h
answered_later-insert_missing after i (m ∷ ms) id h = elim (Bool-cases (answers m.content id)) [
  | inl e ↦ rw e
  | inr e ↦
      let out = insert_missing after (suc i) ms in
      rw e (
        any-append_right _ (recovery (missing after i m.content)) out
          (answered_later-insert_missing after (suc i) ms id (rw e at h)))
]

content-IsAnsweredLater :
    (full : ResultAfter) (i : ℕ) (ms : List Message) (found : List Block) (out : List Message)
    (bs : List Block)
    → ((b : Block)
        → b.id ≢ ""
        → is_unanswered full i b ≡ (is_call b && not (answered_later ms b.id)))
    → ((id : String) → answered_later ms id ≡ true → answered_later out id ≡ true)
    → All (Collected full i found) bs
    → All (IsAnsweredLater (recovery found ++ out)) bs
content-IsAnsweredLater full i ms found out [] u k h = tt
content-IsAnsweredLater full i ms found out (b ∷ bs) u k (hb, hs) =
    (here, content-IsAnsweredLater full i ms found out bs u k hs)
  where
    here : IsAnsweredLater (recovery found ++ out) b
    here call id = elim (Bool-cases (answered_later ms b.id)) [
      | inl e ↦ any-append_right _ (recovery found) out (k b.id e)
      | inr e ↦ answered_later-recovery found out b.id (hb (u b id ∙ rw (call, e)))
    ]

interrupted_not_call : (id : String) → is_call (interrupted_result id) ≡ false
unfolding is_call interrupted_result
interrupted_not_call id = refl

not_calls :
    (after : ResultAfter) (i : ℕ) (bs : List Block) (out : List Message)
    → All (IsAnsweredLater out) (missing after i bs)
unfolding missing
not_calls after i [] out = tt
not_calls after i (b ∷ bs) out = step (is_unanswered after i b) (not_calls after i bs out)
  where
    step :
        (t : Bool)
        → All (IsAnsweredLater out) (missing after i bs)
        → All
            (IsAnsweredLater out)
            (if t then interrupted_result b.id ∷ missing after i bs else missing after i bs)
    step true h = ((λ call id. cc (interrupted_not_call b.id)), h)
    step false h = h

Complete-recovery :
    (found : List Block) (out : List Message)
    → All (IsAnsweredLater out) found
    → Complete out
    → Complete (recovery found ++ out)
unfolding recovery
Complete-recovery [] out h c = c
Complete-recovery (b ∷ bs) out h c = (h, c)

insert_missing-Complete :
    (full : ResultAfter) (i : ℕ) (ms : List Message) (after : ResultAfter)
    → full ≡ results_after i ms after
    → Before i after
    → Complete (insert_missing full i ms)
unfolding insert_missing results_after
insert_missing-Complete full i [] after e h = tt
insert_missing-Complete full i (m ∷ ms) after e h =
    let found = missing full i m.content in
    let out = insert_missing full (suc i) ms in
    let after' = note_results i m.content after in
    let before : Before (suc i) after' = Before-step i m.content after h in
    (
      content-IsAnsweredLater full i ms found out m.content
          (λ b id. rw e (is_unanswered_lem i ms after' b before id))
          (answered_later-insert_missing full (suc i) ms) (missing-Collected full i m.content),
      Complete-recovery found out (not_calls full i m.content out)
          (insert_missing-Complete full (suc i) ms after' e before),
    )

pub add_interrupted-Complete : (ms : List Message) → Complete (add_interrupted ms)
unfolding add_interrupted
add_interrupted-Complete ms = insert_missing-Complete _ 0 ms [] refl tt
