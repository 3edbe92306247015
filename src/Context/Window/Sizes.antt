-- ===== src/Context/Window/Sizes.antt =====
-- The sizes of the messages, and of the array that they make.
use notch.Prelude.{
  ℕ, zero, suc, ◌+◌, ◌≤◌, ◌<◌, ◌≡◌, refl, some, Option-cases, inl, inr, List, [], ◌∷◌, ◌++◌, arith,
  length, take, drop, get_or, length-append,
}
use notch.Go.Bytes.{Bytes, codes}
use notch.Model.{Message}
use notch.Context.Window.{Marshal, elements, marshal_messages, sizes}

-- Each element is counted with its comma.
abbrev pub total : List ℕ → ℕ
total [] = 0
total (z ∷ zs) = z + 1 + total zs

pub total-append : (xs ys : List ℕ) → total (xs ++ ys) ≡ total xs + total ys
total-append [] ys = omega arith
total-append (x ∷ xs) ys = omega (arith, total-append xs ys)

pub total-drop :
    (zs : List ℕ) (i : ℕ)
    → i < length zs
    → total (drop i zs) ≡ get_or zs i 0 + 1 + total (drop (suc i) zs)
total-drop [] i h = omega arith
total-drop (z ∷ zs) zero h = refl
total-drop (z ∷ zs) (suc i) h = total-drop zs i (omega arith)

pub length-drop_all : (zs : List ℕ) → total (drop (length zs) zs) ≡ 0
length-drop_all [] = refl
length-drop_all (z ∷ zs) = length-drop_all zs

module _ (j : Marshal) where
  -- Each message encodes, with the size at its place.
  pub data Sized : List Message → List ℕ → Type 0 where
    none_left : Sized [] []
    one_more :
        {m : Message} {ms : List Message} {zs : List ℕ} (x : Bytes)
        → j.encode m ≡ some x
        → Sized ms zs
        → Sized (m ∷ ms) (length x ∷ zs)

  sizes-cons :
      (m : Message) (ms : List Message) (zs : List ℕ)
      → sizes j (m ∷ ms) ≡ some zs
      → (x : Bytes) × (rest : List ℕ) × (j.encode m ≡ some x)
        × (sizes j ms ≡ some rest)
        × (zs ≡ length x ∷ rest)
  unfolding sizes
  sizes-cons m ms zs h = elim (Option-cases (j.encode m)) [
    | inl e ↦ ground (arith, e)
    | inr (x, e) ↦ elim (Option-cases (sizes j ms)) [
      | inl e' ↦ ground (arith, e, e')
      | inr (rest, e') ↦ (x, rest, e, e', ground (arith, e, e'))
    ]
  ]

  pub sizes-Sized : (ms : List Message) (zs : List ℕ) → sizes j ms ≡ some zs → Sized ms zs
  unfolding sizes
  sizes-Sized [] [] h = none_left
  sizes-Sized [] (z ∷ zs) h = ground arith
  sizes-Sized (m ∷ ms) zs h =
      let (x, rest, e, e', q) = sizes-cons m ms zs h in rw q (one_more x e (sizes-Sized ms rest e'))

  pub Sized-append :
      {xs ys : List Message} {us vs : List ℕ}
      → Sized xs us
      → Sized ys vs
      → Sized (xs ++ ys) (us ++ vs)
  Sized-append none_left k = k
  Sized-append (one_more x e h) k = one_more x e (Sized-append h k)

  pub Sized-take :
      (n : ℕ) {ms : List Message} {zs : List ℕ} → Sized ms zs → Sized (take n ms) (take n zs)
  Sized-take zero h = none_left
  Sized-take (suc n) none_left = none_left
  Sized-take (suc n) (one_more x e h) = one_more x e (Sized-take n h)

  pub Sized-drop :
      (n : ℕ) {ms : List Message} {zs : List ℕ} → Sized ms zs → Sized (drop n ms) (drop n zs)
  Sized-drop zero h = h
  Sized-drop (suc n) none_left = none_left
  Sized-drop (suc n) (one_more x e h) = Sized-drop n h

  pub length-Sized : {ms : List Message} {zs : List ℕ} → Sized ms zs → length ms ≡ length zs
  length-Sized none_left = refl
  length-Sized (one_more x e h) = omega (arith, length-Sized h)

  elements-Sized :
      {ms : List Message} {zs : List ℕ}
      → Sized ms zs
      → (s : Bytes) × (elements j ms ≡ some s) × (length s ≡ total zs + 1)
  unfolding elements
  elements-Sized none_left = (codes "]", refl, refl)
  elements-Sized (one_more x e h) =
      let (s, es, el) = elements-Sized h in
      (codes "," ++ (x ++ s), rw (e, es) refl, omega (arith, length-append x s))

  -- The array is as long as its elements with their commas, and one bracket.
  pub marshal_messages-Sized :
      {ms : List Message} {zs : List ℕ}
      → Sized ms zs
      → 1 ≤ length ms
      → (s : Bytes) × (marshal_messages j ms ≡ some s) × (length s ≡ total zs + 1)
  unfolding marshal_messages
  marshal_messages-Sized none_left k = ground arith
  marshal_messages-Sized (one_more x e h) k =
      let (s, es, el) = elements-Sized h in
      (codes "[" ++ (x ++ s), rw (e, es) refl, omega (arith, length-append x s))

  pub marshal_messages_encodes :
      {ms : List Message} {zs : List ℕ}
      → Sized ms zs
      → (s : Bytes) × (marshal_messages j ms ≡ some s)
  unfolding marshal_messages
  marshal_messages_encodes none_left = (codes "[]", refl)
  marshal_messages_encodes (one_more x e h) =
      let (s, es, el) = elements-Sized h in (codes "[" ++ (x ++ s), rw (e, es) refl)
