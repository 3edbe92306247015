-- ===== src/Agent/Queue/Invariant.antt =====
-- A delivered message leaves the front of its queue, and every history keeps the invariant.
use mathlib.Core.Path.{subst}
use notch.Prelude.{
  ◌≡◌, ◌≢◌, refl, ap, ◌∙◌, Bool, true, false, not, List, [], ◌∷◌, ◌++◌, append-nil, ◌==◌,
  if◌then◌else◌, length, arith, All, if_split,
}
use notch.Go.Bytes.{Bytes}
use notch.Go.Space.{trim_space}
use notch.Agent.Queue.{
  Mode, steering, follow_up, automatic, QueuedMessage, message_empty, not_processing, Queues,
  QueueEvent, Enqueued, no_queues, queue_snapshot, admit, enqueue_message, steer, follow,
  begin_processing, end_processing, take_steering, take_follow_up, take_queued, settle_in,
  settle_or_take_queued_or,
}
use notch.Agent.Queue.Runs.{
  History, noted, after_enqueue, after_take, after_settle, Runs, idle, begun, ended, steered,
  followed, took, went_on, same_mode, of_mode, pending, IsOf, IsKept,
}
use notch.Agent.Queue.Kept.{goes, admit-IsKept}

pending-steering :
    (m : Mode) (x : QueuedMessage) (xs : List QueuedMessage) (q : Queues)
    → q.steering ≡ x ∷ xs
    → x.mode ≡ steering
    → pending m q ≡ (
        if same_mode m x.mode
        then x ∷ pending m (record q { steering = xs })
        else pending m (record q { steering = xs }))
pending-steering steering x xs q e f = rw (e, f) refl
pending-steering follow_up x xs q e f = rw f refl
pending-steering automatic x xs q e f = rw f refl

pending-follow_up :
    (m : Mode) (x : QueuedMessage) (xs : List QueuedMessage) (q : Queues)
    → q.follow_ups ≡ x ∷ xs
    → x.mode ≡ follow_up
    → pending m q ≡ (
        if same_mode m x.mode
        then x ∷ pending m (record q { follow_ups = xs })
        else pending m (record q { follow_ups = xs }))
pending-follow_up steering x xs q e f = rw f refl
pending-follow_up follow_up x xs q e f = rw (e, f) refl
pending-follow_up automatic x xs q e f = rw f refl

module _ (x : QueuedMessage) (xs : List QueuedMessage) (q : Queues) (h : History) where
  steering-IsKept :
      q.steering ≡ x ∷ xs
      → q.processing ≡ true
      → IsKept q h
      → IsKept (record q { steering = xs }) (noted [] (x ∷ []) h)
  steering-IsKept e on k =
      let q' = record q { steering = xs } in
      let (first, others) = subst (All (IsOf steering)) e k.steers in
      record {
        in_order = λ m. goes m h.accepted h.delivered (pending m q') x (
            k.in_order m
            ∙ ap (λ ps. of_mode m h.delivered ++ ps) (pending-steering m x xs q e first));
        numbered = rw (append-nil h.accepted) k.numbered;
        counted = rw (append-nil h.accepted) k.counted;
        listened = k.listened;
        steers = others;
        follows = k.follows;
      }

  follow_up-IsKept :
      q.follow_ups ≡ x ∷ xs
      → q.processing ≡ true
      → IsKept q h
      → IsKept (record q { follow_ups = xs }) (noted [] (x ∷ []) h)
  follow_up-IsKept e on k =
      let q' = record q { follow_ups = xs } in
      let (first, others) = subst (All (IsOf follow_up)) e k.follows in
      record {
        in_order = λ m. goes m h.accepted h.delivered (pending m q') x (
            k.in_order m
            ∙ ap (λ ps. of_mode m h.delivered ++ ps) (pending-follow_up m x xs q e first));
        numbered = rw (append-nil h.accepted) k.numbered;
        counted = rw (append-nil h.accepted) k.counted;
        listened = k.listened;
        steers = k.steers;
        follows = others;
      }

-- Nothing is accepted or delivered.
nothing-IsKept : (q : Queues) (h : History) → IsKept q h → IsKept q (noted [] [] h)
nothing-IsKept q h k = rw (append-nil h.accepted, append-nil h.delivered) k

enqueue_message-IsKept :
    (mode : Mode) (text : Bytes) (q : Queues) (h : History)
    → mode ≢ automatic
    → IsKept q h
    → IsKept ((enqueue_message mode text q).0).0 (after_enqueue (enqueue_message mode text q) h)
unfolding enqueue_message
enqueue_message-IsKept mode text q h user k =
    let trimmed = trim_space text in
    let P : (Queues × List QueueEvent) × Enqueued → Type 0 =
      λ out. IsKept (out.0).0 (after_enqueue out h) in
    if_split P (length trimmed == 0) ((q, []), message_empty) _ (λ _. nothing-IsKept q h k)
      (λ _.
        if_split P (not q.processing) ((q, []), not_processing) (admit mode trimmed q)
          (λ _. nothing-IsKept q h k) (λ on. admit-IsKept mode trimmed q h (ground arith) user k))

-- A prompt begins or ends.
pending-flags :
    (m : Mode) (b : Bool) (q : Queues)
    → pending m q ≡ pending m (record q { processing = b; emits = b })
pending-flags steering b q = refl
pending-flags follow_up b q = refl
pending-flags automatic b q = refl

flags-IsKept :
    (b : Bool) (q : Queues) (h : History)
    → IsKept q h
    → IsKept (record q { processing = b; emits = b }) h
unfolding queue_snapshot
flags-IsKept b q h k = record {
  in_order = λ m. k.in_order m ∙ ap (λ ps. of_mode m h.delivered ++ ps) (pending-flags m b q);
  numbered = k.numbered;
  counted = k.counted;
  listened = refl;
  steers = k.steers;
  follows = k.follows;
}

begin_processing-IsKept :
    (q : Queues) (h : History) → IsKept q h → IsKept (begin_processing q).0 (noted [] [] h)
unfolding begin_processing queue_snapshot
begin_processing-IsKept q h k =
    let kept = nothing-IsKept _ h (flags-IsKept true q h k) in
    record {
      in_order = kept.in_order;
      numbered = kept.numbered;
      counted = kept.counted;
      listened = refl;
      steers = k.steers;
      follows = k.follows;
    }

take_steering-IsKept :
    (xs : List QueuedMessage) (q : Queues) (h : History)
    → q.steering ≡ xs
    → q.processing ≡ true
    → IsKept q h
    → IsKept ((take_steering xs q).0).0 (after_take (take_steering xs q) h)
unfolding take_steering
take_steering-IsKept [] q h e on k = nothing-IsKept q h k
take_steering-IsKept (x ∷ xs) q h e on k = steering-IsKept x xs q h e on k

take_follow_up-IsKept :
    (xs : List QueuedMessage) (q : Queues) (h : History)
    → q.follow_ups ≡ xs
    → q.processing ≡ true
    → IsKept q h
    → IsKept ((take_follow_up xs q).0).0 (after_take (take_follow_up xs q) h)
unfolding take_follow_up
take_follow_up-IsKept [] q h e on k = nothing-IsKept q h k
take_follow_up-IsKept (x ∷ xs) q h e on k = follow_up-IsKept x xs q h e on k

settle_in-IsKept :
    (xs fs : List QueuedMessage) (fallback : Bytes) (q : Queues) (h : History)
    → q.steering ≡ xs
    → q.follow_ups ≡ fs
    → q.processing ≡ true
    → IsKept q h
    → IsKept ((settle_in xs fs fallback q).0).0 (after_settle (settle_in xs fs fallback q) h)
unfolding settle_in
settle_in-IsKept (x ∷ xs) fs fallback q h e f on k = steering-IsKept x xs q h e on k
settle_in-IsKept [] (x ∷ fs) fallback q h e f on k = follow_up-IsKept x fs q h f on k
settle_in-IsKept [] [] [] q h e f on k = nothing-IsKept _ h (flags-IsKept false q h k)
settle_in-IsKept [] [] (c ∷ cs) q h e f on k = nothing-IsKept q h k

-- In every history of prompts that begin and end, messages that arrive and messages that are
-- taken: of each mode, the messages accepted are those delivered and behind them those that
-- wait, in order; the IDs are q-1, q-2 and so on, modulo 2^64; and each queue holds the messages
-- of its mode.
pub Runs-IsKept : {q : Queues} {h : History} → Runs q h → IsKept q h
unfolding queue_snapshot end_processing steer follow take_queued settle_or_take_queued_or
Runs-IsKept idle = record {
  in_order = λ m. elim m as (λ m. of_mode m [] ≡ of_mode m [] ++ pending m no_queues) [
    | steering ↦ refl
    | follow_up ↦ refl
    | automatic ↦ refl
  ];
  numbered = refl;
  counted = refl;
  listened = refl;
  steers = tt;
  follows = tt;
}
Runs-IsKept (begun {q} {h} r) = begin_processing-IsKept q h (Runs-IsKept r)
Runs-IsKept (ended {q} {h} r) = flags-IsKept false q h (Runs-IsKept r)
Runs-IsKept (steered {q} {h} text r) =
    enqueue_message-IsKept steering text q h (λ e. cc e) (Runs-IsKept r)
Runs-IsKept (followed {q} {h} text r) =
    enqueue_message-IsKept follow_up text q h (λ e. cc e) (Runs-IsKept r)
Runs-IsKept (took {q} {h} steering on r) =
    take_steering-IsKept q.steering q h refl on (Runs-IsKept r)
Runs-IsKept (took {q} {h} follow_up on r) =
    take_follow_up-IsKept q.follow_ups q h refl on (Runs-IsKept r)
Runs-IsKept (took {q} {h} automatic on r) = nothing-IsKept q h (Runs-IsKept r)
Runs-IsKept (went_on {q} {h} fallback on r) =
    settle_in-IsKept q.steering q.follow_ups fallback q h refl refl on (Runs-IsKept r)
