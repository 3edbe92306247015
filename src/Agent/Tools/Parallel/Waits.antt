-- ===== src/Agent/Tools/Parallel/Waits.antt =====
-- emitMu and the WaitGroup: one goroutine at a time has the lock, and the counter is the number of
-- those that are not done.
use mathlib.Core.Option.{some-injective}
use notch.Prelude.{
  ℕ, zero, suc, ◌+◌, ◌≡◌, refl, sym, ap, ◌∙◌, Bool, true, false, Option, none, some, List, [], ◌∷◌,
  get_elem?, set, get_elem?-set_self, get_elem?-set_ne, arith, ℕ_discrete, length, map,
}
use notch.Model.{Block}
use notch.Agent.Tools.{Registry}
use notch.Agent.Tools.Parallel.{
  Goroutine, running, emitting, emitted, written, finished, Execution, start, start_all, lock, emit,
  unlock, write, done, wait, Step, locks, emits, unlocks, writes, is_done, waits, Reach, launched,
  later,
}
use notch.Agent.Tools.Parallel.Interleaving.{get_elem?-lt}

abbrev pub holding : Goroutine → Bool
holding (emitting e es x) = true
holding (emitted es x) = true
holding _ = false

abbrev pub unfinished : Goroutine → ℕ
unfinished (finished x) = 0
unfinished _ = 1

abbrev pub total : (Goroutine → ℕ) → List Goroutine → ℕ
total f [] = 0
total f (gr ∷ grs) = f gr + total f grs

pub total-set :
    (f : Goroutine → ℕ) (grs : List Goroutine) (i : ℕ) (old gr : Goroutine)
    → get_elem? grs i ≡ some old
    → total f (set grs i gr) + f old ≡ total f grs + f gr
total-set f [] i old gr at = absurd (cc at)
total-set f (g ∷ grs) zero old gr at =
    let same = ap f (some-injective g old at) in omega (arith, same)
total-set f (g ∷ grs) (suc i) old gr at = omega (arith, total-set f grs i old gr at)

-- Who has the lock stands inside it, and who stands inside it has the lock.
pub record IsLocked (holder : Option ℕ) (grs : List Goroutine) : Type 0 where
  pub held :
      (i : ℕ)
      → holder ≡ some i
      → (gr : Goroutine) × (get_elem? grs i ≡ some gr) × (holding gr ≡ true)
  pub alone :
      (i : ℕ) (gr : Goroutine) → get_elem? grs i ≡ some gr → holding gr ≡ true → holder ≡ some i

pub record IsGuarded (s : Execution) : Type 0 where
  pub locked : IsLocked s.holder s.goroutines
  pub counted : s.counter ≡ total unfinished s.goroutines
  pub waited : s.returned ≡ true → s.counter ≡ 0

module _ (grs : List Goroutine) (i : ℕ) (old gr : Goroutine) (at : get_elem? grs i ≡ some old) where
  witnessed : (j : ℕ) → i ≡ j → get_elem? (set grs i gr) j ≡ some gr
  witnessed j e =
      ap (get_elem? (set grs i gr)) (sym e)
      ∙ get_elem?-set_self grs i gr (get_elem?-lt grs i old at)

  was : (j : ℕ) (new : Goroutine) → i ≡ j → get_elem? (set grs i gr) j ≡ some new → gr ≡ new
  was j new e h = some-injective gr new (sym (witnessed j e) ∙ h)

  -- The lock stays where it is.
  stays-IsLocked :
      (holder : Option ℕ)
      → holding gr ≡ holding old
      → IsLocked holder grs
      → IsLocked holder (set grs i gr)
  stays-IsLocked holder same k = record {
    held = λ j h.
        let (g, there, inside) = k.held j h in
        elim (ℕ_discrete i j) [
          | yes e ↦
              let q = some-injective old g (sym at ∙ ap (get_elem? grs) e ∙ there) in
              (gr, witnessed j e, same ∙ ap holding q ∙ inside)
          | no ne ↦ (g, get_elem?-set_ne grs gr ne ∙ there, inside)
        ];
    alone = λ j new h inside. elim (ℕ_discrete i j) [
      | yes e ↦ k.alone i old at (sym same ∙ ap holding (was j new e h) ∙ inside) ∙ ap some e
      | no ne ↦ k.alone j new (sym (get_elem?-set_ne grs gr ne) ∙ h) inside
    ];
  }

  takes-IsLocked :
      (holder : Option ℕ)
      → holder ≡ none
      → holding gr ≡ true
      → IsLocked holder grs
      → IsLocked (some i) (set grs i gr)
  takes-IsLocked holder free inside k = record {
    held = λ j h. (gr, witnessed j (some-injective i j h), inside);
    alone = λ j new h within. elim (ℕ_discrete i j) [
      | yes e ↦ ap some e
      | no ne ↦
          let other = k.alone j new (sym (get_elem?-set_ne grs gr ne) ∙ h) within in
          absurd (cc (free, other))
    ];
  }

  frees-IsLocked :
      (holder : Option ℕ)
      → holding old ≡ true
      → holding gr ≡ false
      → IsLocked holder grs
      → IsLocked none (set grs i gr)
  frees-IsLocked holder inside outside k = record {
    held = λ j h. absurd (cc h);
    alone = λ j new h within. elim (ℕ_discrete i j) [
      | yes e ↦ let q = sym outside ∙ ap holding (was j new e h) ∙ within in absurd (cc q)
      | no ne ↦
          let other = k.alone j new (sym (get_elem?-set_ne grs gr ne) ∙ h) within in
          absurd (ne (some-injective i j (sym (k.alone i old at inside) ∙ other)))
    ];
  }

Step-IsGuarded : {s t : Execution} → Step s t → IsGuarded s → IsGuarded t
unfolding lock emit unlock write done wait
Step-IsGuarded {s} (locks i {e} {es} {x} at free) k = record {
  locked = takes-IsLocked s.goroutines i _ (emitting e es x) at s.holder free refl k.locked;
  counted = omega (arith, total-set unfinished s.goroutines i _ (emitting e es x) at, k.counted);
  waited = k.waited;
}
Step-IsGuarded {s} (emits i {e} {es} {x} at) k = record {
  locked = stays-IsLocked s.goroutines i _ (emitted es x) at s.holder refl k.locked;
  counted = omega (arith, total-set unfinished s.goroutines i _ (emitted es x) at, k.counted);
  waited = k.waited;
}
Step-IsGuarded {s} (unlocks i {es} {x} at) k = record {
  locked = frees-IsLocked s.goroutines i _ (running es x) at s.holder refl refl k.locked;
  counted = omega (arith, total-set unfinished s.goroutines i _ (running es x) at, k.counted);
  waited = k.waited;
}
Step-IsGuarded {s} (writes i {x} at) k = record {
  locked = stays-IsLocked s.goroutines i _ (written x) at s.holder refl k.locked;
  counted = omega (arith, total-set unfinished s.goroutines i _ (written x) at, k.counted);
  waited = k.waited;
}
Step-IsGuarded {s} (is_done i {x} at) k = record {
  locked = stays-IsLocked s.goroutines i _ (finished x) at s.holder refl k.locked;
  counted = omega (arith, total-set unfinished s.goroutines i _ (finished x) at, k.counted);
  waited = λ h. omega (arith, k.waited h);
}
Step-IsGuarded (waits empty pending) k = record {
  locked = k.locked;
  counted = k.counted;
  waited = λ h. empty;
}

start-total :
    (g : Registry) (calls : List Block) → total unfinished (map (start g) calls) ≡ length calls
unfolding start
start-total g [] = refl
start-total g (call ∷ calls) = omega (arith, start-total g calls)

start-alone :
    (g : Registry) (calls : List Block) (i : ℕ) (gr : Goroutine)
    → get_elem? (map (start g) calls) i ≡ some gr
    → holding gr ≡ false
unfolding start
start-alone g [] i gr h = absurd (cc h)
start-alone g (call ∷ calls) zero gr h = sym (ap holding (some-injective (start g call) gr h))
start-alone g (call ∷ calls) (suc i) gr h = start-alone g calls i gr h

pub Reach-IsGuarded :
    (g : Registry) (calls : List Block) {s : Execution} → Reach g calls s → IsGuarded s
unfolding start_all
Reach-IsGuarded g calls launched = record {
  locked = record {
    held = λ i h. absurd (cc h);
    alone = λ i gr h inside. let q = sym (start-alone g calls i gr h) ∙ inside in absurd (cc q);
  };
  counted = sym (start-total g calls);
  waited = λ h. absurd (cc h);
}
Reach-IsGuarded g calls (later r step) = Step-IsGuarded step (Reach-IsGuarded g calls r)
