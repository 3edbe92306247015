-- ===== src/Agent/Tools/Parallel/Interleaving.antt =====
-- In whatever order the goroutines take their steps.
use mathlib.Core.Path.{subst}
use notch.Prelude.{
  ℕ, zero, suc, ◌<◌, ◌≡◌, ◌≢◌, inl, inr, refl, sym, ap, ◌∙◌, true, false, some, List, [], ◌∷◌, ◌++◌,
  map, append-nil, append_assoc, ◌==◌, if◌then◌else◌, length, get_elem?, set, get_elem?-set_self,
  get_elem?-set_ne, length-set, length-map, arith, ℕ_discrete, Bool-cases,
}
use notch.Model.{Block}
use notch.Agent.Tools.{ToolEvent, Registry, execute_tool}
use notch.Agent.Tools.Parallel.{
  ExecutedTool, Goroutine, running, emitting, emitted, written, finished, Execution, start,
  start_all, lock, emit, unlock, write, done, wait, Step, locks, emits, unlocks, writes, is_done,
  waits, Reach, launched, later, sent_by, left, outcome,
}
use mathlib.Core.Option.{some-injective}

abbrev pub executed : Registry → Block → ExecutedTool
executed g call = record { call = call; result = (execute_tool g call).0 }

-- A goroutine has its call's events, sent or left, and its call's result.
pub record IsOn (g : Registry) (call : Block) (sent : List ToolEvent) (gr : Goroutine)
    : Type 0 where
  pub out : outcome gr ≡ executed g call
  pub events : sent ++ left gr ≡ (execute_tool g call).1

abbrev pub Kept : Registry → List Block → Execution → Type 0
Kept g calls s =
    (i : ℕ) (call : Block)
    → get_elem? calls i ≡ some call
    → (gr : Goroutine) × (get_elem? s.goroutines i ≡ some gr) × IsOn g call (sent_by i s.trace) gr

pub get_elem?-lt :
    {A : Type 0} (xs : List A) (i : ℕ) (x : A) → get_elem? xs i ≡ some x → i < length xs
get_elem?-lt [] i x h = absurd (cc h)
get_elem?-lt (y ∷ xs) zero x h = omega arith
get_elem?-lt (y ∷ xs) (suc i) x h = omega (arith, get_elem?-lt xs i x h)

get_elem?-map :
    {A B : Type 0} (f : A → B) (xs : List A) (i : ℕ) (x : A)
    → get_elem? xs i ≡ some x
    → get_elem? (map f xs) i ≡ some (f x)
get_elem?-map f [] i x h = absurd (cc h)
get_elem?-map f (y ∷ xs) zero x h = ap some (ap f (some-injective y x h))
get_elem?-map f (y ∷ xs) (suc i) x h = get_elem?-map f xs i x h

same_index : (i : ℕ) → (i == i) ≡ true
same_index i = ground arith

other_index : (i j : ℕ) → j ≢ i → (i == j) ≡ false
other_index i j h = ground arith

sent_by-append :
    (i : ℕ) (t u : List (ℕ × ToolEvent)) → sent_by i (t ++ u) ≡ sent_by i t ++ sent_by i u
sent_by-append i [] u = refl
sent_by-append i ((j, e) ∷ t) u = elim (Bool-cases (i == j)) [
  | inl h ↦ rw (h, sent_by-append i t u) refl
  | inr h ↦ rw (h, sent_by-append i t u) refl
]

start_all-Kept : (g : Registry) (calls : List Block) → Kept g calls (start_all g calls)
unfolding start_all start
start_all-Kept g calls i call h =
    (start g call, get_elem?-map (start g) calls i call h, record { out = refl; events = refl })

sent_by_self :
    (i : ℕ) (t : List (ℕ × ToolEvent)) (e : ToolEvent)
    → sent_by i (t ++ (i, e) ∷ []) ≡ sent_by i t ++ e ∷ []
sent_by_self i t e =
    sent_by-append i t ((i, e) ∷ [])
    ∙ ap (λ b. sent_by i t ++ (if b then e ∷ [] else [])) (same_index i)

sent_by_other :
    (i j : ℕ) (t : List (ℕ × ToolEvent)) (e : ToolEvent)
    → j ≢ i
    → sent_by i (t ++ (j, e) ∷ []) ≡ sent_by i t
sent_by_other i j t e h =
    sent_by-append i t ((j, e) ∷ [])
    ∙ ap (λ b. sent_by i t ++ (if b then e ∷ [] else [])) (other_index i j h)
    ∙ append-nil (sent_by i t)

emits-IsOn :
    (g : Registry) (call : Block) (i : ℕ) (t : List (ℕ × ToolEvent)) (e : ToolEvent)
    (es : List ToolEvent) (x : ExecutedTool)
    → IsOn g call (sent_by i t) (emitting e es x)
    → IsOn g call (sent_by i (t ++ (i, e) ∷ [])) (emitted es x)
emits-IsOn g call i t e es x k = record {
  out = k.out;
  events =
      ap (λ sent. sent ++ es) (sent_by_self i t e)
      ∙ append_assoc (sent_by i t) (e ∷ []) es
      ∙ k.events;
}

-- The goroutine at `j` takes a step to `gr`, and the trace grows by what `j` sends.
step-Kept :
    (g : Registry) (calls : List Block) (s : Execution) (j : ℕ) (old gr : Goroutine)
    (t : List (ℕ × ToolEvent))
    → get_elem? s.goroutines j ≡ some old
    → ((call : Block) → IsOn g call (sent_by j s.trace) old → IsOn g call (sent_by j t) gr)
    → ((i : ℕ) → j ≢ i → sent_by i t ≡ sent_by i s.trace)
    → Kept g calls s
    → Kept g calls (record {
      goroutines = set s.goroutines j gr;
      trace = t;
      holder = s.holder;
      counter = s.counter;
      returned = s.returned;
    })
step-Kept g calls s j old gr t at moves others k i call h =
    let (was, found, on) = k i call h in
    elim (ℕ_discrete j i) [
      | yes e ↦
          let same : was ≡ old =
            some-injective was old (sym found ∙ ap (get_elem? s.goroutines) (sym e) ∙ at) in
          (
            gr,
            ap (get_elem? (set s.goroutines j gr)) (sym e)
                ∙ get_elem?-set_self s.goroutines j gr (get_elem?-lt s.goroutines j old at),
            subst (λ n. IsOn g call (sent_by n t) gr) e
                (moves call (
                  subst (λ n. IsOn g call (sent_by n s.trace) old) (sym e)
                    (subst (IsOn g call (sent_by i s.trace)) same on))),
          )
      | no ne ↦ (
        was,
        get_elem?-set_ne s.goroutines gr ne ∙ found,
        subst (λ sent. IsOn g call sent was) (sym (others i ne)) on,
      )
    ]

Step-Kept :
    (g : Registry) (calls : List Block) {s t : Execution}
    → Step s t
    → Kept g calls s
    → Kept g calls t
unfolding lock emit unlock write done wait
Step-Kept g calls {s} (locks i {e} {es} {x} at free) k =
    step-Kept g calls s i (running (e ∷ es) x) (emitting e es x) s.trace at
      (λ call on. record { out = on.out; events = on.events }) (λ j ne. refl) k
Step-Kept g calls {s} (emits i {e} {es} {x} at) k =
    step-Kept g calls s i (emitting e es x) (emitted es x) (s.trace ++ (i, e) ∷ []) at
      (λ call on. emits-IsOn g call i s.trace e es x on) (λ j ne. sent_by_other j i s.trace e ne) k
Step-Kept g calls {s} (unlocks i {es} {x} at) k =
    step-Kept g calls s i (emitted es x) (running es x) s.trace at
      (λ call on. record { out = on.out; events = on.events }) (λ j ne. refl) k
Step-Kept g calls {s} (writes i {x} at) k =
    step-Kept g calls s i (running [] x) (written x) s.trace at
      (λ call on. record { out = on.out; events = on.events }) (λ j ne. refl) k
Step-Kept g calls {s} (is_done i {x} at) k =
    step-Kept g calls s i (written x) (finished x) s.trace at
      (λ call on. record { out = on.out; events = on.events }) (λ j ne. refl) k
Step-Kept g calls {s} (waits empty pending) k = k

pub Reach-Kept :
    (g : Registry) (calls : List Block) {s : Execution} → Reach g calls s → Kept g calls s
Reach-Kept g calls launched = start_all-Kept g calls
Reach-Kept g calls (later r step) = Step-Kept g calls step (Reach-Kept g calls r)

pub Reach-length :
    (g : Registry) (calls : List Block) {s : Execution}
    → Reach g calls s
    → length s.goroutines ≡ length calls
unfolding start_all lock emit unlock write done wait
Reach-length g calls launched = length-map calls (start g)
Reach-length g calls (later {s} r (locks i at free)) =
    length-set s.goroutines i _ ∙ Reach-length g calls r
Reach-length g calls (later {s} r (emits i at)) =
    length-set s.goroutines i _ ∙ Reach-length g calls r
Reach-length g calls (later {s} r (unlocks i at)) =
    length-set s.goroutines i _ ∙ Reach-length g calls r
Reach-length g calls (later {s} r (writes i at)) =
    length-set s.goroutines i _ ∙ Reach-length g calls r
Reach-length g calls (later {s} r (is_done i at)) =
    length-set s.goroutines i _ ∙ Reach-length g calls r
Reach-length g calls (later r (waits empty pending)) = Reach-length g calls r
