-- ===== src/Agent/Queue/Settled.antt =====
-- What holds when a run settles, and the IDs of the accepted messages.
use notch.Prelude.{
  ℕ, zero, suc, ◌%◌, ◌^◌, ◌<◌, ◌≡◌, ◌≢◌, refl, sym, ap, ◌∙◌, false, not, List, [], ◌∷◌, ◌++◌,
  append-nil, ◌==◌, length, length-append, get_or, drop, dec_lt, arith, if_split,
}
use notch.Go.Bytes.{Bytes}
use notch.Go.Space.{trim_space}
use notch.Go.Strconv.{itoa-injective}
use notch.Agent.Queue.{
  Mode, steering, follow_up, automatic, QueuedMessage, settled, Queues, QueueEvent, Enqueued,
  queue_id, enqueue_message, end_processing, settle_in, settle_or_take_queued_or,
}
use notch.Agent.Queue.Runs.{History, accepts, Runs, of_mode, first_ids, ids_of, IsKept}
use notch.Agent.Queue.Invariant.{Runs-IsKept}

settle_in-settled :
    (xs fs : List QueuedMessage) (fallback : Bytes) (q : Queues)
    → (settle_in xs fs fallback q).1 ≡ settled
    → (xs ≡ [])
      × (fs ≡ [])
      × (fallback ≡ [])
      × ((((settle_in xs fs fallback q).0).0).processing ≡ false)
unfolding settle_in
settle_in-settled [] [] [] q e = (refl, refl, refl, refl)
settle_in-settled [] [] (c ∷ cs) q e = absurd (cc e)
settle_in-settled [] (x ∷ fs) fallback q e = absurd (cc e)
settle_in-settled (x ∷ xs) fs fallback q e = absurd (cc e)

refuses :
    (mode : Mode) (text : Bytes) (q : Queues)
    → q.processing ≡ false
    → (accepts (enqueue_message mode text q).1 ≡ []) × (((enqueue_message mode text q).0).0 ≡ q)
unfolding enqueue_message
refuses mode text q off =
    let P : (Queues × List QueueEvent) × Enqueued → Type 0 =
      λ out. (accepts out.1 ≡ []) × ((out.0).0 ≡ q) in
    if_split P (length (trim_space text) == 0) _ _ (λ _. (refl, refl))
      (λ _. if_split P (not q.processing) _ _ (λ _. (refl, refl)) (λ on. absurd (ground arith)))

-- What can happen while no prompt runs and none begins.
pub data Idle : Type 0 where
  offers : Mode → Bytes → Idle
  ends_processing : Idle

-- The messages that are accepted meanwhile.
abbrev pub accepted_while : List Idle → Queues → List QueuedMessage
accepted_while [] q = []
accepted_while (offers mode text ∷ xs) q =
    let (out, r) = enqueue_message mode text q in accepts r ++ accepted_while xs out.0
accepted_while (ends_processing ∷ xs) q = accepted_while xs (end_processing q)

refuses_all : (xs : List Idle) (q : Queues) → q.processing ≡ false → accepted_while xs q ≡ []
unfolding end_processing
refuses_all [] q off = refl
refuses_all (offers mode text ∷ xs) q off =
    let (none_accepted, same) = refuses mode text q off in
    rw (none_accepted, same) (refuses_all xs q off)
refuses_all (ends_processing ∷ xs) q off = refuses_all xs (end_processing q) refl

delivered_all :
    (q : Queues) (h : History)
    → IsKept q h
    → q.steering ≡ []
    → q.follow_ups ≡ []
    → (m : Mode) → of_mode m h.accepted ≡ of_mode m h.delivered
delivered_all q h k e f steering =
    k.in_order steering ∙ rw e (append-nil (of_mode steering h.delivered))
delivered_all q h k e f follow_up =
    k.in_order follow_up ∙ rw f (append-nil (of_mode follow_up h.delivered))
delivered_all q h k e f automatic =
    k.in_order automatic ∙ append-nil (of_mode automatic h.delivered)

-- In every history, where `settleOrTakeQueuedOr` ends the run: every message that was accepted
-- has been delivered, in the order of its mode; there was no fallback; and of any messages that
-- are offered behind it, with any calls of `endProcessing` between them and no prompt that
-- begins, none is accepted.
pub settled_lem :
    {q : Queues} {h : History}
    → Runs q h
    → (fallback : Bytes) → (settle_or_take_queued_or fallback q).1 ≡ settled
    → ((m : Mode) → of_mode m h.accepted ≡ of_mode m h.delivered)
      × (fallback ≡ [])
      × ((xs : List Idle) → accepted_while xs ((settle_or_take_queued_or fallback q).0).0 ≡ [])
unfolding settle_or_take_queued_or
settled_lem {q} {h} r fallback e =
    let k = Runs-IsKept r in
    let (no_steering, no_follow_up, no_fallback, off) =
      settle_in-settled q.steering q.follow_ups fallback q e in
    (delivered_all q h k no_steering no_follow_up, no_fallback, λ xs. refuses_all xs _ off)

length-first_ids : (n : ℕ) → length (first_ids n) ≡ n
length-first_ids zero = refl
length-first_ids (suc n) =
    omega (arith, length-append (first_ids n) (queue_id (suc n % 2 ^ 64) ∷ []), length-first_ids n)

get_or-append_left :
    (xs : List Bytes) (y : Bytes) (i : ℕ)
    → i < length xs
    → get_or (xs ++ y ∷ []) i [] ≡ get_or xs i []
get_or-append_left [] y i h = absurd (omega arith)
get_or-append_left (x ∷ xs) y zero h = refl
get_or-append_left (x ∷ xs) y (suc i) h = get_or-append_left xs y i (omega arith)

get_or-append_last : (xs : List Bytes) (y : Bytes) → get_or (xs ++ y ∷ []) (length xs) [] ≡ y
get_or-append_last [] y = refl
get_or-append_last (x ∷ xs) y = get_or-append_last xs y

get_or-first_ids : (n i : ℕ) → i < n → get_or (first_ids n) i [] ≡ queue_id (suc i % 2 ^ 64)
get_or-first_ids zero i h = absurd (omega arith)
get_or-first_ids (suc n) i h =
    let last = queue_id (suc n % 2 ^ 64) in
    elim (dec_lt i n) [
      | yes lt ↦
          get_or-append_left (first_ids n) last i (omega (arith, length-first_ids n))
          ∙ get_or-first_ids n i lt
      | no ge ↦
          let same : i ≡ n = omega arith in
          ap (λ k. get_or (first_ids (suc n)) k []) (same ∙ sym (length-first_ids n))
          ∙ get_or-append_last (first_ids n) last
          ∙ ap (λ k. queue_id (suc k % 2 ^ 64)) (sym same)
    ]

queue_id-injective : (m n : ℕ) → queue_id m ≡ queue_id n → m ≡ n
unfolding queue_id
queue_id-injective m n e = itoa-injective m n (ap (drop 2) e)

-- In every history with fewer than 2^64 accepted messages, no two of them have the same ID.
pub Runs-ids_differ :
    {q : Queues} {h : History}
    → Runs q h
    → length h.accepted < 2 ^ 64
    → (i j : ℕ) → i < j
    → j < length h.accepted
    → get_or (ids_of h.accepted) i [] ≢ get_or (ids_of h.accepted) j []
Runs-ids_differ {h} r small i j lt top e =
    let k = Runs-IsKept r in
    let n = length h.accepted in
    let id : (i : ℕ) → i < n → get_or (ids_of h.accepted) i [] ≡ queue_id (suc i % 2 ^ 64) =
      λ i below. ap (λ xs. get_or xs i []) k.numbered ∙ get_or-first_ids n i below in
    let same =
      queue_id-injective (suc i % 2 ^ 64) (suc j % 2 ^ 64)
        (sym (id i (omega arith)) ∙ e ∙ id j top) in
    omega (arith, same)
