-- ===== src/Tasklist.antt =====
-- internal/officialext/tasklist/tasklist.go: the tool that keeps the task list. A string is its
-- bytes; strings.ToLower is a parameter, as the tables of Unicode are.
pub mod Slug
pub mod Tasks
pub mod Panel
mod Tests
use notch.Prelude.{
  ℕ, ◌+◌, Bool, true, false, not, ◌&&◌, ◌||◌, List, [], ◌∷◌, ◌++◌, ◌==◌, if◌then◌else◌, length,
}
use notch.Go.Bytes.{Bytes, codes, bytes_eq}

pub record Task : Type 0 where
  pub id : Bytes
  pub content : Bytes
  pub status : Bytes
  pub priority : Bytes

pub record Summary : Type 0 where
  pub total : ℕ
  pub pending : ℕ
  pub in_progress : ℕ
  pub completed : ℕ
  pub cancelled : ℕ

unfoldable pub valid_status : Bytes → Bool
unfolding bytes_eq
valid_status s =
    bytes_eq s (codes "pending")
    || bytes_eq s (codes "in_progress")
    || bytes_eq s (codes "completed")
    || bytes_eq s (codes "cancelled")

unfoldable pub valid_priority : Bytes → Bool
unfolding bytes_eq
valid_priority s =
    bytes_eq s (codes "high") || bytes_eq s (codes "medium") || bytes_eq s (codes "low")

-- The body of the loop in `count`.
unfoldable pub count_one : Bytes → Summary → Summary
unfolding bytes_eq
count_one status s =
    if bytes_eq status (codes "pending")
    then record s { pending = s.pending + 1 }
    else if bytes_eq status (codes "in_progress")
    then record s { in_progress = s.in_progress + 1 }
    else if bytes_eq status (codes "completed")
    then record s { completed = s.completed + 1 }
    else if bytes_eq status (codes "cancelled")
    then record s { cancelled = s.cancelled + 1 }
    else s

unfoldable pub count_from : List Task → Summary → Summary
unfolding count_one
count_from [] s = s
count_from (t ∷ ts) s = count_from ts (count_one t.status s)

unfoldable pub count : List Task → Summary
unfolding count_from
count ts =
    count_from ts
      (record { total = length ts; pending = 0; in_progress = 0; completed = 0; cancelled = 0 })
