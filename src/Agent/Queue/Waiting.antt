-- ===== src/Agent/Queue/Waiting.antt =====
-- How long a queued message waits while others keep arriving.
use notch.Prelude.{ℕ, ◌≤◌, ◌≡◌, false, List, ◌++◌, length, All}
use notch.Go.Bytes.{Bytes}
use notch.Agent.Queue.{steering, follow_up, QueuedMessage, Queues}
use notch.Agent.Queue.Runs.{Runs, same_mode, IsOf}

abbrev IsNoFollowUp : QueuedMessage → Type 0
IsNoFollowUp x = same_mode follow_up x.mode ≡ false

-- A message that arrives goes to the end of one queue, or of none.
record Grows (bound : ℕ) (q q' : Queues) : Type 0 where
  more : List QueuedMessage
  later : List QueuedMessage
  in_steering : q'.steering ≡ q.steering ++ more
  in_follow_ups : q'.follow_ups ≡ q.follow_ups ++ later
  few : length more ≤ bound
  no_follow_up : All IsNoFollowUp more
  all_follow_up : All (IsOf follow_up) later

-- The queues hold what the modes say.
abbrev IsSorted : Queues → Type 0
IsSorted q = All IsNoFollowUp q.steering × All (IsOf follow_up) q.follow_ups
