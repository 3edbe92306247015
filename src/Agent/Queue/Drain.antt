-- ===== src/Agent/Queue/Drain.antt =====
-- The steps of a run that take its queued messages, alone and with messages that keep arriving.
use notch.Prelude.{ℕ, zero, suc, ◌≡◌, refl, ap, false, List, [], ◌∷◌, ◌++◌, length}
use notch.Go.Bytes.{Bytes}
use notch.Agent.Queue.{
  Mode, follow_up, QueuedMessage, settled, Queues, queue_snapshot, enqueue_message, settle_in,
  settle_or_take_queued_or, settle_or_take_queued,
}
use notch.Agent.Queue.Runs.{leaves}

-- What `n` steps of a run that would settle deliver, and the queues they leave.
abbrev pub drain : ℕ → Queues → List QueuedMessage × Queues
drain zero q = ([], q)
drain (suc n) q =
    let out = settle_or_take_queued q in
    let (xs, q') = drain n (out.0).0 in (leaves out.1 ++ xs, q')

-- A message that arrives, or a step of the run.
pub data Moment : Type 0 where
  arrives : Mode → Bytes → Moment
  goes_on : Bytes → Moment

-- What is delivered, in order.
abbrev pub serve : List Moment → Queues → List QueuedMessage
serve [] q = []
serve (arrives mode text ∷ ms) q = serve ms ((enqueue_message mode text q).0).0
serve (goes_on fallback ∷ ms) q =
    let out = settle_or_take_queued_or fallback q in
    let rest = serve ms (out.0).0 in leaves out.1 ++ rest

abbrev pub turns : List Moment → ℕ
turns [] = 0
turns (arrives mode text ∷ ms) = turns ms
turns (goes_on fallback ∷ ms) = suc (turns ms)

-- The arrivals that may go before a follow-up.
abbrev pub steers_in : List Moment → ℕ
steers_in [] = 0
steers_in (arrives follow_up text ∷ ms) = steers_in ms
steers_in (arrives _ text ∷ ms) = suc (steers_in ms)
steers_in (goes_on fallback ∷ ms) = steers_in ms

drain_from :
    (xs fs : List QueuedMessage) (q : Queues)
    → drain (length (xs ++ fs)) (record q { steering = xs; follow_ups = fs })
      ≡ (xs ++ fs, record q { steering = []; follow_ups = [] })
unfolding settle_or_take_queued settle_or_take_queued_or settle_in
drain_from [] [] q = refl
drain_from [] (x ∷ fs) q = ap (λ (ys, q'). (x ∷ ys, q')) (drain_from [] fs q)
drain_from (x ∷ xs) fs q = ap (λ (ys, q'). (x ∷ ys, q')) (drain_from xs fs q)

-- A run that takes a queued message at each step delivers all that wait, those that steer first,
-- in as many steps as there are messages; the next step settles and ends the processing.
pub drain_lem :
    (q : Queues)
    → (drain (length (queue_snapshot q)) q
        ≡ (queue_snapshot q, record q { steering = []; follow_ups = [] }))
      × ((settle_or_take_queued (drain (length (queue_snapshot q)) q).1).1 ≡ settled)
      × ((((settle_or_take_queued (drain (length (queue_snapshot q)) q).1).0).0).processing ≡ false)
unfolding queue_snapshot settle_or_take_queued settle_or_take_queued_or settle_in
drain_lem q = let e = drain_from q.steering q.follow_ups q in (e, rw e refl, rw e refl)
