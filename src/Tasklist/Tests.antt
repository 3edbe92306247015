-- ===== src/Tasklist/Tests.antt =====
-- The task list on concrete tasks.
use notch.Prelude.{String, ◌+◌, ◌≡◌, refl, ◌&&◌, List, [], ◌∷◌, map, leb, if◌then◌else◌, All}
use notch.Go.Bytes.{Bytes, codes, bytes_eq}
use notch.Tasklist.{Task, count}
use notch.Tasklist.Slug.{unique_id}
use notch.Tasklist.Slug.Free.{IsFirstFree, id_base, unique_id-IsFirstFree}
use notch.Tasklist.Tasks.{tasks, normalize}
use notch.Tasklist.Tasks.Unique.{IsDistinct, IsTask, ids, normalize_lem}

-- strings.ToLower on ASCII.
abbrev to_lower : Bytes → Bytes
to_lower = map (λ c. if leb b'A' c && leb c b'Z' then c + 32 else c)

abbrev task : String → String → String → Task
task id content status = record {
  id = codes id;
  content = codes content;
  status = codes status;
  priority = [];
}

-- Two inputs have the same slug.
abbrev items : List Task
items = task "" " Fix it! " "pending" ∷ task "fix--IT" "Again" "completed" ∷ []

abbrev done : List Task
done = task "fix-it" "Fix it!" "pending" ∷ task "fix-it-2" "Again" "completed" ∷ []

normalizes : normalize to_lower items ≡ tasks done
unfolding normalize bytes_eq
normalizes = refl

second :
    unique_id to_lower (codes "fix it") (codes "fix-it" ∷ []) (codes "task-2") ≡ codes "fix-it-2"
unfolding unique_id bytes_eq
second = refl

unique_id-IsFirstFree_example :
    IsFirstFree
      (codes "fix-it" ∷ [])
      (id_base to_lower (codes "fix it") (codes "task-2"))
      0
      (unique_id to_lower (codes "fix it") (codes "fix-it" ∷ []) (codes "task-2"))
unique_id-IsFirstFree_example =
    unique_id-IsFirstFree to_lower (codes "fix it") (codes "fix-it" ∷ []) (codes "task-2")

normalize_lem_example :
    let s = count done in
    IsDistinct (ids done)
    × All IsTask done
    × (s.pending + s.in_progress + s.completed + s.cancelled ≡ s.total)
    × (s.total ≡ 2)
normalize_lem_example = normalize_lem to_lower items done normalizes
