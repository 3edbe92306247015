-- ===== src/Agent/Tools/Parallel/Results.antt =====
-- The end of the goroutines: what the results slice holds, and that it is reached.
use notch.Prelude.{
  ℕ, zero, suc, ◌+◌, ◌*◌, true, Bool-cases, Option-cases, if◌then◌else◌, ◌≡◌, ◌⊎◌, inl, inr, refl,
  sym, ap, ap₂, ◌∙◌, some, List, [], ◌∷◌, ◌++◌, map, append-nil, length, get_elem?, arith,
}
use notch.Model.{Block}
use notch.Agent.Tools.{Registry, execute_tool}
use notch.Agent.Tools.Parallel.{
  ExecutedTool, Goroutine, running, emitting, emitted, written, finished, Execution, lock, emit,
  unlock, write, done, wait, Step, locks, emits, unlocks, writes, is_done, waits, Reach, result_of,
  results, sent_by, left, outcome,
}
use notch.Agent.Tools.Parallel.Waits.{
  holding, unfinished, total, total-set, IsGuarded, Reach-IsGuarded,
}
use mathlib.Core.Option.{some-injective}
use notch.Agent.Tools.Parallel.Interleaving.{executed, Reach-Kept, Reach-length}

none_left :
    (f : Block → ExecutedTool) (grs : List Goroutine) (calls : List Block)
    → length grs ≡ length calls
    → total unfinished grs ≡ 0
    → ((i : ℕ) (call : Block)
        → get_elem? calls i ≡ some call
        → (gr : Goroutine) × (get_elem? grs i ≡ some gr) × (outcome gr ≡ f call))
    → map result_of grs ≡ map (λ call. some (f call)) calls
none_left f [] [] size done k = refl
none_left f [] (x ∷ xs) size done k = absurd (omega arith)
none_left f (gr ∷ grs) [] size done k = absurd (omega arith)
none_left f (running es y ∷ grs) (x ∷ xs) size done k = absurd (omega arith)
none_left f (emitting e es y ∷ grs) (x ∷ xs) size done k = absurd (omega arith)
none_left f (emitted es y ∷ grs) (x ∷ xs) size done k = absurd (omega arith)
none_left f (written y ∷ grs) (x ∷ xs) size done k = absurd (omega arith)
none_left f (finished y ∷ grs) (x ∷ xs) size done k =
    let (gr, at, out) = k zero x refl in
    let same : finished y ≡ gr = some-injective (finished y) gr at in
    ap₂ (λ a b. some a ∷ b) (ap outcome same ∙ out)
      (none_left f grs xs (omega arith) (omega arith) (λ i x h. k (suc i) x h))

all_sent :
    (grs : List Goroutine) (i : ℕ) (gr : Goroutine)
    → get_elem? grs i ≡ some gr
    → total unfinished grs ≡ 0
    → left gr ≡ []
all_sent [] i gr at done = absurd (cc at)
all_sent (g ∷ grs) (suc i) gr at done = all_sent grs i gr at (omega arith)
all_sent (running es x ∷ grs) zero gr at done = absurd (omega arith)
all_sent (emitting e es x ∷ grs) zero gr at done = absurd (omega arith)
all_sent (emitted es x ∷ grs) zero gr at done = absurd (omega arith)
all_sent (written x ∷ grs) zero gr at done = absurd (omega arith)
all_sent (finished x ∷ grs) zero gr at done = ap left (sym (some-injective (finished x) gr at))

-- However the goroutines of the calls of a turn take their steps: once `wg.Wait` has returned,
-- the slice holds for each call, in the order of the calls, its own result, and the events that
-- each goroutine sent are those of its call, in order.
pub results_in_order :
    (g : Registry) (calls : List Block) {s : Execution}
    → Reach g calls s
    → s.returned ≡ true
    → (results s ≡ map (λ call. some (executed g call)) calls)
      × ((i : ℕ) (call : Block)
          → get_elem? calls i ≡ some call
          → sent_by i s.trace ≡ (execute_tool g call).1)
unfolding results
results_in_order g calls {s} r back =
    let k = Reach-Kept g calls r in
    let guarded = Reach-IsGuarded g calls r in
    let done : total unfinished s.goroutines ≡ 0 = sym guarded.counted ∙ guarded.waited back in
    (
      none_left (executed g) s.goroutines calls (Reach-length g calls r) done
          (λ i call h. let (gr, at, on) = k i call h in (gr, at, on.out)),
      λ i call h.
          let (gr, at, on) = k i call h in
          sym (append-nil (sent_by i s.trace))
          ∙ ap (λ es. sent_by i s.trace ++ es) (sym (all_sent s.goroutines i gr at done))
          ∙ on.events,
    )

-- The steps that a goroutine has left.
abbrev pub steps_left : Goroutine → ℕ
steps_left (running es x) = 3 * length es + 2
steps_left (emitting e es x) = 3 * length es + 4
steps_left (emitted es x) = 3 * length es + 3
steps_left (written x) = 1
steps_left (finished x) = 0

abbrev pub all_left : Execution → ℕ
all_left s = total steps_left s.goroutines + (if s.returned then 0 else 1)

Step-all_left : {s t : Execution} → Step s t → suc (all_left t) ≡ all_left s
unfolding lock emit unlock write done wait
Step-all_left {s} (locks i {e} {es} {x} at free) =
    omega (arith, total-set steps_left s.goroutines i _ (emitting e es x) at)
Step-all_left {s} (emits i {e} {es} {x} at) =
    omega (arith, total-set steps_left s.goroutines i _ (emitted es x) at)
Step-all_left {s} (unlocks i {es} {x} at) =
    omega (arith, total-set steps_left s.goroutines i _ (running es x) at)
Step-all_left {s} (writes i {x} at) =
    omega (arith, total-set steps_left s.goroutines i _ (written x) at)
Step-all_left {s} (is_done i {x} at) =
    omega (arith, total-set steps_left s.goroutines i _ (finished x) at)
Step-all_left {s} (waits empty pending) = rw pending (omega arith)

some-unfinished :
    (grs : List Goroutine)
    → (total unfinished grs ≡ 0)
      ⊎ ((i : ℕ) × (gr : Goroutine) × (get_elem? grs i ≡ some gr) × (unfinished gr ≡ 1))
some-unfinished [] = inl refl
some-unfinished (running es x ∷ grs) = inr (0, running es x, refl, refl)
some-unfinished (emitting e es x ∷ grs) = inr (0, emitting e es x, refl, refl)
some-unfinished (emitted es x ∷ grs) = inr (0, emitted es x, refl, refl)
some-unfinished (written x ∷ grs) = inr (0, written x, refl, refl)
some-unfinished (finished x ∷ grs) = elim (some-unfinished grs) [
  | inl h ↦ inl (omega (arith, h))
  | inr (i, gr, at, h) ↦ inr (suc i, gr, at, h)
]

-- Whoever has the lock goes on.
owner_goes_on :
    (s : Execution) (i : ℕ) (gr : Goroutine)
    → get_elem? s.goroutines i ≡ some gr
    → holding gr ≡ true
    → (t : Execution) × Step s t
owner_goes_on s i (running es x) at h = absurd (cc h)
owner_goes_on s i (emitting e es x) at h = (emit i e es x s, emits i at)
owner_goes_on s i (emitted es x) at h = (unlock i es x s, unlocks i at)
owner_goes_on s i (written x) at h = absurd (cc h)
owner_goes_on s i (finished x) at h = absurd (cc h)

goes_on :
    (s : Execution) (i : ℕ) (gr : Goroutine)
    → IsGuarded s
    → get_elem? s.goroutines i ≡ some gr
    → unfinished gr ≡ 1
    → (t : Execution) × Step s t
goes_on s i (running [] x) k at h = (write i x s, writes i at)
goes_on s i (running (e ∷ es) x) k at h = elim (Option-cases s.holder) [
  | inl free ↦ (lock i e es x s, locks i at free)
  | inr (j, owner) ↦
      let (gr, there, inside) = k.locked.held j owner in owner_goes_on s j gr there inside
]
goes_on s i (emitting e es x) k at h = (emit i e es x s, emits i at)
goes_on s i (emitted es x) k at h = (unlock i es x s, unlocks i at)
goes_on s i (written x) k at h = (done i x s, is_done i at)
goes_on s i (finished x) k at h = absurd (omega arith)

-- In every state that the goroutines of a turn reach: `wg.Wait` has returned, or a step can be
-- taken, so that no goroutine waits for the mutex forever; each step leaves one step less to
-- take; and no two goroutines are between `Lock` and `Unlock` of the mutex.
pub execution_ends :
    (g : Registry) (calls : List Block) {s : Execution}
    → Reach g calls s
    → ((s.returned ≡ true) ⊎ ((t : Execution) × Step s t))
      × ((t : Execution) → Step s t → suc (all_left t) ≡ all_left s)
      × ((i j : ℕ) (a b : Goroutine)
          → get_elem? s.goroutines i ≡ some a
          → get_elem? s.goroutines j ≡ some b
          → holding a ≡ true
          → holding b ≡ true
          → i ≡ j)
execution_ends g calls {s} r =
    let k = Reach-IsGuarded g calls r in
    (
      elim (Bool-cases s.returned) [
        | inl back ↦ inl back
        | inr pending ↦ elim (some-unfinished s.goroutines) [
          | inl h ↦ inr (wait s, waits (k.counted ∙ h) pending)
          | inr (i, gr, at, h) ↦ inr (goes_on s i gr k at h)
        ]
      ],
      λ t step. Step-all_left step,
      λ i j a b at bt ha hb.
          some-injective i j (sym (k.locked.alone i a at ha) ∙ k.locked.alone j b bt hb),
    )
