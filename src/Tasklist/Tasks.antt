-- ===== src/Tasklist/Tasks.antt =====
-- `normalize`: the tasks that the tool was given, checked and with IDs.
pub mod Unique
use notch.Prelude.{
  ℕ, ◌+◌, not, ◌&&◌, List, [], ◌∷◌, ◌++◌, ◌==◌, ltb, if◌then◌else◌, length, Option, none, some,
}
use notch.Go.Bytes.{Bytes, codes}
use notch.Go.Space.{trim_space}
use notch.Go.Strconv.{itoa}
use notch.Tasklist.{Task, valid_status, valid_priority}
use notch.Tasklist.Slug.{unique_id}

-- The errors, with the number of the task.
pub data TaskError : Type 0 where
  todos_required too_many : TaskError
  empty_content invalid_status invalid_priority : ℕ → TaskError

pub data Normalized : Type 0 where
  refused : TaskError → Normalized
  tasks : List Task → Normalized

unfoldable pub with_task : Task → Normalized → Normalized
with_task t (refused e) = refused e
with_task t (tasks ts) = tasks (t ∷ ts)

-- The ID of an input whose trimmed content is `content`.
unfoldable pub task_id : (Bytes → Bytes) → ℕ → Bytes → Bytes → List Bytes → Bytes
unfolding unique_id trim_space
task_id to_lower i id content used =
    let base = trim_space id in
    unique_id to_lower (if length base == 0 then content else base) used
      (codes "task-" ++ itoa (i + 1))

-- The loop at index `i`; an input is a task whose ID may be empty.
unfoldable pub normalize_from : (Bytes → Bytes) → ℕ → List Bytes → List Task → Normalized
unfolding task_id trim_space valid_status valid_priority with_task
normalize_from to_lower i used [] = tasks []
normalize_from to_lower i used (item ∷ items) =
    let content = trim_space item.content in
    let id = task_id to_lower i item.id content used in
    let rest = normalize_from to_lower (i + 1) (id ∷ used) items in
    if length content == 0
    then refused (empty_content (i + 1))
    else if not (valid_status item.status)
    then refused (invalid_status (i + 1))
    else if not (length item.priority == 0) && not (valid_priority item.priority)
    then refused (invalid_priority (i + 1))
    else with_task
        (record { id = id; content = content; status = item.status; priority = item.priority }) rest

unfoldable pub normalize : (Bytes → Bytes) → List Task → Normalized
unfolding normalize_from
normalize to_lower items = normalize_from to_lower 0 [] items

-- The tests of `decode` behind json.Decode, for which nil is `none`.
unfoldable pub accept : (Bytes → Bytes) → Option (List Task) → Normalized
unfolding normalize
accept to_lower none = refused todos_required
accept to_lower (some items) =
    if ltb 100 (length items) then refused too_many else normalize to_lower items
