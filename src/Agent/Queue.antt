-- ===== src/Agent/Queue.antt =====
-- internal/agent/agent.go: the queues of messages that arrive while a prompt runs, which queueMu
-- guards: each operation holds the lock from its first read to its last write, and is one step. It
-- returns the events that it sends behind the unlock.
pub mod Runs
pub mod Kept
mod Tests
pub mod Drain
pub mod Settled
pub mod Waiting
pub mod Invariant
use notch.Prelude.{
  ℕ, ◌+◌, ◌%◌, ◌^◌, ◌≡◌, Bool, true, false, not, Option, none, some, List, [], ◌∷◌, ◌++◌, ◌==◌,
  if◌then◌else◌, length,
}
use notch.Go.Bytes.{Bytes, codes}
use notch.Go.Space.{trim_space}
use notch.Go.Strconv.{itoa}

pub data Mode : Type 0 where
  steering follow_up automatic : Mode

pub record QueuedMessage : Type 0 where
  pub id : Bytes
  pub mode : Mode
  pub text : Bytes

-- `emits` says that queueEmit is not nil.
pub record Queues : Type 0 where
  pub processing : Bool
  pub emits : Bool
  pub queue_sequence : ℕ
  pub steering : List QueuedMessage
  pub follow_ups : List QueuedMessage

pub data QueueEvent : Type 0 where
  queue_update : List QueuedMessage → QueueEvent
  queue_delivered : QueuedMessage → QueueEvent

pub data Enqueued : Type 0 where
  queued : QueuedMessage → Enqueued
  message_empty not_processing : Enqueued

abbrev pub no_queues : Queues
no_queues = record {
  processing = false;
  emits = false;
  queue_sequence = 0;
  steering = [];
  follow_ups = [];
}

unfoldable pub queue_snapshot : Queues → List QueuedMessage
queue_snapshot q = q.steering ++ q.follow_ups

-- The sequence is a uint64.
unfoldable pub next_sequence : ℕ → ℕ
next_sequence n = (n + 1) % 2 ^ 64

unfoldable pub queue_id : ℕ → Bytes
queue_id n = codes "q-" ++ itoa n

abbrev pub update_event : Queues → List QueueEvent
update_event q = if q.emits then queue_update (queue_snapshot q) ∷ [] else []

unfoldable pub put_queued : Mode → QueuedMessage → Queues → Queues
put_queued follow_up x q = record q { follow_ups = q.follow_ups ++ x ∷ [] }
put_queued _ x q = record q { steering = q.steering ++ x ∷ [] }

-- The message is numbered by the sequence as it is after the step.
unfoldable pub admit : Mode → Bytes → Queues → (Queues × List QueueEvent) × Enqueued
unfolding next_sequence put_queued
admit mode text q =
    let n = next_sequence q.queue_sequence in
    let x : QueuedMessage = record { id = queue_id n; mode = mode; text = text } in
    let q' = put_queued mode x (record q { queue_sequence = n }) in
    ((q', update_event q'), queued x)

unfoldable pub enqueue_message : Mode → Bytes → Queues → (Queues × List QueueEvent) × Enqueued
unfolding admit trim_space
enqueue_message mode text q =
    let trimmed = trim_space text in
    if length trimmed == 0
    then ((q, []), message_empty)
    else if not q.processing
    then ((q, []), not_processing)
    else admit mode trimmed q

unfoldable pub steer : Bytes → Queues → (Queues × List QueueEvent) × Enqueued
unfolding enqueue_message
steer = enqueue_message steering

unfoldable pub follow : Bytes → Queues → (Queues × List QueueEvent) × Enqueued
unfolding enqueue_message
follow = enqueue_message follow_up

-- The first snapshot is sent only when it is not empty.
unfoldable pub begin_processing : Queues → Queues × List QueueEvent
begin_processing q =
    let q' = record q { processing = true; emits = true } in
    let queue = queue_snapshot q' in (q', if length queue == 0 then [] else queue_update queue ∷ [])

unfoldable pub end_processing : Queues → Queues
end_processing q = record q { processing = false; emits = false }

-- The events of a message that left its queue.
abbrev pub announce : QueuedMessage → Queues → List QueueEvent
announce x q = if q.emits then queue_delivered x ∷ queue_update (queue_snapshot q) ∷ [] else []

abbrev pub deliver : QueuedMessage → Queues → (Queues × List QueueEvent) × Option QueuedMessage
deliver x q = ((q, announce x q), some x)

unfoldable pub take_steering :
    List QueuedMessage → Queues → (Queues × List QueueEvent) × Option QueuedMessage
take_steering [] q = ((q, []), none)
take_steering (x ∷ xs) q = deliver x (record q { steering = xs })

unfoldable pub take_follow_up :
    List QueuedMessage → Queues → (Queues × List QueueEvent) × Option QueuedMessage
take_follow_up [] q = ((q, []), none)
take_follow_up (x ∷ xs) q = deliver x (record q { follow_ups = xs })

unfoldable pub take_queued : Mode → Queues → (Queues × List QueueEvent) × Option QueuedMessage
unfolding take_steering take_follow_up
take_queued steering q = take_steering q.steering q
take_queued follow_up q = take_follow_up q.follow_ups q
take_queued automatic q = ((q, []), none)

-- What the run goes on with: a message of a queue, or the fallback.
pub data Next : Type 0 where
  from_queue : QueuedMessage → Next
  from_fallback : QueuedMessage → Next
  settled : Next

unfoldable pub settle_in :
    List QueuedMessage → List QueuedMessage → Bytes → Queues → (Queues × List QueueEvent) × Next
settle_in (x ∷ xs) fs fallback q =
    let q' = record q { steering = xs } in ((q', announce x q'), from_queue x)
settle_in [] (x ∷ fs) fallback q =
    let q' = record q { follow_ups = fs } in ((q', announce x q'), from_queue x)
settle_in [] [] [] q = ((record q { processing = false; emits = false }, []), settled)
settle_in [] [] (c ∷ cs) q =
    ((q, []), from_fallback (record { id = []; mode = automatic; text = c ∷ cs }))

unfoldable pub settle_or_take_queued_or : Bytes → Queues → (Queues × List QueueEvent) × Next
unfolding settle_in
settle_or_take_queued_or fallback q = settle_in q.steering q.follow_ups fallback q

unfoldable pub settle_or_take_queued : Queues → (Queues × List QueueEvent) × Next
unfolding settle_or_take_queued_or
settle_or_take_queued = settle_or_take_queued_or []
