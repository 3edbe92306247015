-- ===== src/Tasklist/Tasks/Unique.antt =====
-- The tasks that `normalize` returns, and their numbers.
use mathlib.Core.Path.{subst}
use notch.Prelude.{
  ℕ, suc, ◌+◌, ◌≡◌, refl, ap, ◌∙◌, Bool, true, false, not, ◌&&◌, ◌||◌, List, [], ◌∷◌, ◌++◌, map,
  ◌==◌, arith, if◌then◌else◌, length, All,
}
use notch.Go.Bytes.{Bytes, codes, bytes_eq_iff}
use notch.Go.Space.{trim_space}
use notch.Go.Strconv.{itoa}
use notch.Tasklist.{Task, Summary, valid_status, valid_priority, count, count_from, count_one}
use notch.Tasklist.Slug.{is_used}
use notch.Tasklist.Slug.Free.{unique_id-IsFirstFree}
use notch.Tasklist.Tasks.{
  TaskError, Normalized, refused, tasks, with_task, task_id, normalize_from, normalize,
}

abbrev pub ids : List Task → List Bytes
ids = map (λ t. t.id)

abbrev pub IsDistinct : List Bytes → Type 0
IsDistinct [] = Unit
IsDistinct (x ∷ xs) = (is_used xs x ≡ false) × IsDistinct xs

abbrev pub IsTask : Task → Type 0
IsTask t =
    ((length t.content == 0) ≡ false)
    × (valid_status t.status ≡ true)
    × (((length t.priority == 0) || valid_priority t.priority) ≡ true)

abbrev AreFresh : List Bytes → List Task → Type 0
AreFresh used = All (λ t. is_used used t.id ≡ false)

-- What the tests of the loop's body say of a result.
passed :
    (a b c d : Bool) (e₁ e₂ e₃ : TaskError) (t : Task) (rest : Normalized) (ts : List Task)
    → (if a
        then refused e₁
        else if not b
        then refused e₂
        else if not c && not d
        then refused e₃
        else with_task t rest)
      ≡ tasks ts
    → (a ≡ false)
      × (b ≡ true)
      × ((c || d) ≡ true)
      × (ts' : List Task) × (rest ≡ tasks ts')
      × (t ∷ ts' ≡ ts)
unfolding with_task
passed true b c d e₁ e₂ e₃ t rest ts h = absurd (cc h)
passed false false c d e₁ e₂ e₃ t rest ts h = absurd (cc h)
passed false true false false e₁ e₂ e₃ t rest ts h = absurd (cc h)
passed false true true d e₁ e₂ e₃ t (refused e) ts h = absurd (cc h)
passed false true false true e₁ e₂ e₃ t (refused e) ts h = absurd (cc h)
passed false true true d e₁ e₂ e₃ t (tasks ts') ts h = (refl, refl, refl, ts', refl, cc h)
passed false true false true e₁ e₂ e₃ t (tasks ts') ts h = (refl, refl, refl, ts', refl, cc h)

not_among :
    (id : Bytes) (used : List Bytes) (ts : List Task)
    → AreFresh (id ∷ used) ts
    → is_used (ids ts) id ≡ false
unfolding is_used
not_among id used [] h = refl
not_among id used (t ∷ ts) (f, h) =
    ground (arith, not_among id used ts h, bytes_eq_iff id t.id, bytes_eq_iff t.id id)

still_fresh :
    (id : Bytes) (used : List Bytes) (ts : List Task) → AreFresh (id ∷ used) ts → AreFresh used ts
unfolding is_used
still_fresh id used [] h = tt
still_fresh id used (t ∷ ts) (f, h) = (ground (arith, f), still_fresh id used ts h)

task_id_unused :
    (to_lower : Bytes → Bytes) (i : ℕ) (id content : Bytes) (used : List Bytes)
    → is_used used (task_id to_lower i id content used) ≡ false
unfolding task_id
task_id_unused to_lower i id content used =
    let base = trim_space id in
    let (_, _, _, free, _) =
      unique_id-IsFirstFree to_lower (if length base == 0 then content else base) used
        (codes "task-" ++ itoa (i + 1)) in
    free

normalize_from-IsTask :
    (to_lower : Bytes → Bytes) (i : ℕ) (used : List Bytes) (items ts : List Task)
    → normalize_from to_lower i used items ≡ tasks ts
    → IsDistinct (ids ts) × AreFresh used ts × All IsTask ts × (length ts ≡ length items)
unfolding normalize_from
normalize_from-IsTask to_lower i used [] [] h = (tt, tt, tt, refl)
normalize_from-IsTask to_lower i used [] (t ∷ ts) h = absurd (cc h)
normalize_from-IsTask to_lower i used (item ∷ items) ts h =
    let content = trim_space item.content in
    let id = task_id to_lower i item.id content used in
    let t : Task = record {
      id = id;
      content = content;
      status = item.status;
      priority = item.priority;
    } in
    let rest = normalize_from to_lower (i + 1) (id ∷ used) items in
    let (filled, status, priority, ts', e, whole) =
      passed (length content == 0) (valid_status item.status) (length item.priority == 0)
        (valid_priority item.priority) _ _ _ t rest ts h in
    let (distinct, fresh, all, size) =
      normalize_from-IsTask to_lower (i + 1) (id ∷ used) items ts' e in
    let new : is_used used id ≡ false = task_id_unused to_lower i item.id content used in
    subst
      (λ out.
        IsDistinct (ids out)
        × AreFresh used out
        × All IsTask out
        × (length out ≡ suc (length items)))
      whole
      (
        (not_among id used ts' fresh, distinct),
        (new, still_fresh id used ts' fresh),
        ((filled, status, priority), all),
        ap suc size,
      )

-- The tasks that `normalize` returns are as many as the inputs and have different IDs; each has
-- a content, one of the four statuses and, if it has one, one of the three priorities.
pub normalize-IsDistinct :
    (to_lower : Bytes → Bytes) (items ts : List Task)
    → normalize to_lower items ≡ tasks ts
    → IsDistinct (ids ts) × All IsTask ts × (length ts ≡ length items)
unfolding normalize
normalize-IsDistinct to_lower items ts h =
    let (distinct, _, all, size) = normalize_from-IsTask to_lower 0 [] items ts h in
    (distinct, all, size)

abbrev sum : Summary → ℕ
sum s = s.pending + s.in_progress + s.completed + s.cancelled

count_one-sum :
    (status : Bytes) (s : Summary)
    → valid_status status ≡ true
    → sum (count_one status s) ≡ suc (sum s)
unfolding count_one valid_status
count_one-sum status s h = ground arith

count_from-sum :
    (ts : List Task) (s : Summary) → All IsTask ts → sum (count_from ts s) ≡ sum s + length ts
unfolding count_from
count_from-sum [] s h = omega arith
count_from-sum (t ∷ ts) s ((_, status, _), h) =
    omega (arith, count_from-sum ts (count_one t.status s) h, count_one-sum t.status s status)

count_from-total : (ts : List Task) (s : Summary) → (count_from ts s).total ≡ s.total
unfolding count_from
count_from-total [] s = refl
count_from-total (t ∷ ts) s =
    count_from-total ts (count_one t.status s) ∙ (unfold count_one in ground arith)

-- For the tasks that `normalize` returns the four counts of `count` make up the total, which is
-- the number of the inputs.
pub count-normalize :
    (to_lower : Bytes → Bytes) (items ts : List Task)
    → normalize to_lower items ≡ tasks ts
    → let s = count ts in
      (s.pending + s.in_progress + s.completed + s.cancelled ≡ s.total) × (s.total ≡ length items)
unfolding count
count-normalize to_lower items ts h =
    let (_, all, size) = normalize-IsDistinct to_lower items ts h in
    let empty : Summary = record {
      total = length ts;
      pending = 0;
      in_progress = 0;
      completed = 0;
      cancelled = 0;
    } in
    let total = count_from-total ts empty in
    (omega (arith, count_from-sum ts empty all, total), omega (arith, total, size))

-- The tasks that `normalize` returns have different IDs; each has a content, one of the four
-- statuses and, if it has one, one of the three priorities. Their four counts of `count` make up
-- the total, which is the number of the inputs.
pub normalize_lem :
    (to_lower : Bytes → Bytes) (items ts : List Task)
    → normalize to_lower items ≡ tasks ts
    → let s = count ts in
      IsDistinct (ids ts)
      × All IsTask ts
      × (s.pending + s.in_progress + s.completed + s.cancelled ≡ s.total)
      × (s.total ≡ length items)
normalize_lem to_lower items ts h =
    let (distinct, all, size) = normalize-IsDistinct to_lower items ts h in
    let (sum, total) = count-normalize to_lower items ts h in (distinct, all, sum, total)
