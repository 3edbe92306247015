-- ===== src/Agent/Queue/Tests.antt =====
-- The queues on a concrete prompt: two messages to follow up, one that steers, one that is refused.
use notch.Prelude.{◌≡◌, ◌≢◌, refl, true, false, List, [], ◌∷◌, get_or, arith}
use notch.Go.Bytes.{codes}
use notch.Go.Space.{trim_space}
use notch.Go.Strconv.{itoa}
use notch.Agent.Queue.{
  Mode, steering, follow_up, QueuedMessage, Queues, settled, queue_snapshot, next_sequence,
  queue_id, put_queued, admit, enqueue_message, steer, follow, begin_processing, take_steering,
  take_queued, settle_in, settle_or_take_queued_or, settle_or_take_queued,
}
use notch.Agent.Queue.Runs.{
  History, Runs, idle, begun, steered, followed, took, went_on, of_mode, ids_of, IsKept,
}
use notch.Agent.Queue.Invariant.{Runs-IsKept}
use notch.Agent.Queue.Settled.{Idle, accepted_while, settled_lem, Runs-ids_differ}
use notch.Agent.Queue.Drain.{drain, drain_lem, Moment, arrives, goes_on}

-- The messages as they are numbered.
abbrev then_message : QueuedMessage
then_message = record { id = codes "q-1"; mode = follow_up; text = codes "then" }

abbrev now_message : QueuedMessage
now_message = record { id = codes "q-2"; mode = steering; text = codes "now" }

abbrev last_message : QueuedMessage
last_message = record { id = codes "q-3"; mode = follow_up; text = codes "last" }

abbrev three_queued : Queues
three_queued = record {
  processing = true;
  emits = true;
  queue_sequence = 3;
  steering = now_message ∷ [];
  follow_ups = then_message ∷ last_message ∷ [];
}

abbrev three_accepted : History
three_accepted = record {
  accepted = then_message ∷ now_message ∷ last_message ∷ [];
  delivered = [];
}

-- A blank message is refused.
waiting : Runs three_queued three_accepted
unfolding steer follow enqueue_message admit put_queued next_sequence queue_id queue_snapshot
    begin_processing trim_space itoa
waiting =
    followed (codes "last")
      (steered (codes " now ") (followed (codes "then") (steered (codes "  ") (begun idle))))

abbrev all_delivered : History
all_delivered = record {
  accepted = then_message ∷ now_message ∷ last_message ∷ [];
  delivered = now_message ∷ then_message ∷ last_message ∷ [];
}

abbrev empty_queues : Queues
empty_queues = record three_queued { steering = []; follow_ups = [] }

over : Runs empty_queues all_delivered
unfolding settle_or_take_queued_or settle_in take_queued take_steering queue_snapshot
over = went_on (codes "check") refl (went_on [] refl (went_on [] refl (took steering refl waiting)))

abbrev arrivals : List Moment
arrivals =
    goes_on []
    ∷ arrives steering (codes "wait")
    ∷ goes_on []
    ∷ arrives follow_up (codes "done")
    ∷ goes_on (codes "check")
    ∷ goes_on []
    ∷ []

Runs-IsKept_example : IsKept three_queued three_accepted
Runs-IsKept_example = Runs-IsKept waiting

settles : (settle_or_take_queued_or [] empty_queues).1 ≡ settled
unfolding settle_or_take_queued_or settle_in
settles = refl

settled_lem_example :
    ((m : Mode) → of_mode m all_delivered.accepted ≡ of_mode m all_delivered.delivered)
    × (codes "" ≡ [])
    × ((xs : List Idle) → accepted_while xs ((settle_or_take_queued_or [] empty_queues).0).0 ≡ [])
settled_lem_example = settled_lem over [] settles

Runs-ids_differ_example :
    get_or (ids_of three_accepted.accepted) 0 [] ≢ get_or (ids_of three_accepted.accepted) 2 []
Runs-ids_differ_example = Runs-ids_differ waiting (omega arith) 0 2 (omega arith) (omega arith)

drain_lem_example :
    (drain 3 three_queued ≡ (queue_snapshot three_queued, empty_queues))
    × ((settle_or_take_queued (drain 3 three_queued).1).1 ≡ settled)
    × ((((settle_or_take_queued (drain 3 three_queued).1).0).0).processing ≡ false)
unfolding queue_snapshot
drain_lem_example = drain_lem three_queued
