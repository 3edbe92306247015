-- ===== src/Agent/Queue/Runs.antt =====
-- Every history of the queues: prompts that begin and end, messages that arrive at any moment, and
-- the steps of the running prompt that take them.
use notch.Prelude.{
  ℕ, zero, suc, ◌%◌, ◌^◌, ◌≡◌, Bool, true, false, Option, none, some, List, [], ◌∷◌, ◌++◌, map,
  if◌then◌else◌, length, All,
}
use notch.Go.Bytes.{Bytes}
use notch.Agent.Queue.{
  Mode, steering, follow_up, automatic, QueuedMessage, queued, message_empty, not_processing,
  from_queue, from_fallback, settled, Queues, QueueEvent, Enqueued, Next, no_queues, queue_id,
  steer, follow, begin_processing, end_processing, take_queued, settle_or_take_queued_or,
}

-- What was accepted and delivered so far. The events of a step are sent once the lock is free, and
-- those of other steps may come between.
pub record History : Type 0 where
  pub accepted : List QueuedMessage
  pub delivered : List QueuedMessage

abbrev pub accepts : Enqueued → List QueuedMessage
accepts (queued x) = x ∷ []
accepts message_empty = []
accepts not_processing = []

abbrev pub takes : Option QueuedMessage → List QueuedMessage
takes (some x) = x ∷ []
takes none = []

abbrev pub leaves : Next → List QueuedMessage
leaves (from_queue x) = x ∷ []
leaves (from_fallback x) = []
leaves settled = []

abbrev pub noted : List QueuedMessage → List QueuedMessage → History → History
noted a d h = record { accepted = h.accepted ++ a; delivered = h.delivered ++ d }

abbrev pub after_enqueue : (Queues × List QueueEvent) × Enqueued → History → History
after_enqueue ((q, es), r) = noted (accepts r) []

abbrev pub after_take : (Queues × List QueueEvent) × Option QueuedMessage → History → History
after_take ((q, es), r) = noted [] (takes r)

abbrev pub after_settle : (Queues × List QueueEvent) × Next → History → History
after_settle ((q, es), r) = noted [] (leaves r)

-- Messages arrive at any moment; only a running prompt takes them.
pub data Runs : Queues → History → Type 0 where
  idle : Runs no_queues (record { accepted = []; delivered = [] })
  begun : {q : Queues} {h : History} → Runs q h → Runs (begin_processing q).0 (noted [] [] h)
  ended : {q : Queues} {h : History} → Runs q h → Runs (end_processing q) h
  steered :
      {q : Queues} {h : History} (text : Bytes)
      → Runs q h
      → Runs ((steer text q).0).0 (after_enqueue (steer text q) h)
  followed :
      {q : Queues} {h : History} (text : Bytes)
      → Runs q h
      → Runs ((follow text q).0).0 (after_enqueue (follow text q) h)
  took :
      {q : Queues} {h : History} (mode : Mode)
      → q.processing ≡ true
      → Runs q h
      → Runs ((take_queued mode q).0).0 (after_take (take_queued mode q) h)
  went_on :
      {q : Queues} {h : History} (fallback : Bytes)
      → q.processing ≡ true
      → Runs q h
      → Runs
          ((settle_or_take_queued_or fallback q).0).0
          (after_settle (settle_or_take_queued_or fallback q) h)

abbrev pub same_mode : Mode → Mode → Bool
same_mode steering steering = true
same_mode follow_up follow_up = true
same_mode automatic automatic = true
same_mode _ _ = false

-- The messages of one mode, in their order.
abbrev pub of_mode : Mode → List QueuedMessage → List QueuedMessage
of_mode m [] = []
of_mode m (x ∷ xs) = let rest = of_mode m xs in if same_mode m x.mode then x ∷ rest else rest

abbrev pub pending : Mode → Queues → List QueuedMessage
pending steering q = q.steering
pending follow_up q = q.follow_ups
pending automatic q = []

-- The IDs of the first `n` messages.
abbrev pub first_ids : ℕ → List Bytes
first_ids zero = []
first_ids (suc n) = first_ids n ++ queue_id (suc n % 2 ^ 64) ∷ []

abbrev pub ids_of : List QueuedMessage → List Bytes
ids_of = map (λ x. x.id)

abbrev pub IsOf : Mode → QueuedMessage → Type 0
IsOf m x = x.mode ≡ m

pub record IsKept (q : Queues) (h : History) : Type 0 where
  pub in_order : (m : Mode) → of_mode m h.accepted ≡ of_mode m h.delivered ++ pending m q
  pub numbered : ids_of h.accepted ≡ first_ids (length h.accepted)
  pub counted : q.queue_sequence ≡ length h.accepted % 2 ^ 64
  pub listened : q.emits ≡ q.processing
  pub steers : All (IsOf steering) q.steering
  pub follows : All (IsOf follow_up) q.follow_ups
