-- ===== src/Editor/Loops.antt =====
-- Where the loops over the text stop.
use notch.Prelude.{
  ℕ, zero, suc, ◌+◌, ◌-◌, ◌≤◌, ◌<◌, ◌≡◌, refl, ap, Bool, true, false, [], ◌∷◌, arith, dec_lt, inl,
  inr, Bool-cases, length, get_or, take, drop, length-drop, length-take,
}
use notch.Prelude.Int.{ℤ, sub_ℕ}
use notch.Editor.State.{
  RuneTable, Runes, clamp_editor, back_while, run_length, forward_while, editor_rune_width, fitting,
  cursor_at_column,
}

pub clamp_editor-le : (n : ℤ) (high : ℕ) → clamp_editor n 0 high ≤ high
unfolding clamp_editor
clamp_editor-le n high = ground arith

pub clamp_editor_within : (n high : ℕ) → n ≤ high → clamp_editor (sub_ℕ n 0) 0 high ≡ n
unfolding clamp_editor
clamp_editor_within n high h = ground arith

pub back_while-le : (test : ℕ → Bool) (text : Runes) (pos : ℕ) → back_while test text pos ≤ pos
unfolding back_while
back_while-le test text zero = omega arith
back_while-le test text (suc pos) = ground (arith, back_while-le test text pos)

-- The runes passed pass the test, and the one before them, if there is one, does not.
pub back_while_passed :
    (test : ℕ → Bool) (text : Runes) (pos i : ℕ)
    → back_while test text pos ≤ i
    → i < pos
    → test (get_or text i 0) ≡ true
unfolding back_while
back_while_passed test text zero i lo hi = absurd (omega arith)
back_while_passed test text (suc pos) i lo hi = elim (Bool-cases (test (get_or text pos 0))) [
  | inl p ↦ elim (dec_lt i pos) [
    | yes lt ↦ back_while_passed test text pos i (rw p at lo) lt
    | no ge ↦ (let same : i ≡ pos = omega arith in rw same p)
  ]
  | inr p ↦ absurd (let lo' = rw p at lo in omega arith)
]

pub back_while_stopped :
    (test : ℕ → Bool) (text : Runes) (pos k : ℕ)
    → back_while test text pos ≡ suc k
    → test (get_or text k 0) ≡ false
unfolding back_while
back_while_stopped test text zero k e = cc
back_while_stopped test text (suc pos) k e = elim (Bool-cases (test (get_or text pos 0))) [
  | inl p ↦ back_while_stopped test text pos k (rw p at e)
  | inr p ↦ (let same : k ≡ pos = ground arith in rw same p)
]

pub run_length-le : (test : ℕ → Bool) (rest : Runes) → run_length test rest ≤ length rest
unfolding run_length
run_length-le test [] = omega arith
run_length-le test (c ∷ rest) = ground (arith, run_length-le test rest)

pub forward_while-le :
    (test : ℕ → Bool) (text : Runes) (pos : ℕ)
    → pos ≤ length text
    → forward_while test text pos ≤ length text
unfolding forward_while
forward_while-le test text pos h =
    omega (arith, run_length-le test (drop pos text), length-drop pos text)

pub le-forward_while :
    (test : ℕ → Bool) (text : Runes) (pos : ℕ) → pos ≤ forward_while test text pos
unfolding forward_while
le-forward_while test text pos = omega arith

run_length_passed :
    (test : ℕ → Bool) (rest : Runes) (i : ℕ)
    → i < run_length test rest
    → test (get_or rest i 0) ≡ true
unfolding run_length
run_length_passed test [] i h = absurd (omega arith)
run_length_passed test (c ∷ rest) zero h = ground arith
run_length_passed test (c ∷ rest) (suc i) h = run_length_passed test rest i (ground arith)

run_length_stopped :
    (test : ℕ → Bool) (rest : Runes)
    → run_length test rest < length rest
    → test (get_or rest (run_length test rest) 0) ≡ false
unfolding run_length
run_length_stopped test [] h = absurd (omega arith)
run_length_stopped test (c ∷ rest) h = elim (Bool-cases (test c)) [
  | inl p ↦ rw (p, run_length) (run_length_stopped test rest (let q = rw p at h in omega arith))
  | inr p ↦ rw (p, run_length) p
]

get_or-drop : (n i : ℕ) (text : Runes) → get_or (drop n text) i 0 ≡ get_or text (n + i) 0
get_or-drop zero i text = ap (λ k. get_or text k 0) (omega arith)
get_or-drop (suc n) i [] = refl
get_or-drop (suc n) i (c ∷ text) =
    let e : suc n + i ≡ suc (n + i) = omega arith in rw e (get_or-drop n i text)

pub forward_while_passed :
    (test : ℕ → Bool) (text : Runes) (pos i : ℕ)
    → pos ≤ i
    → i < forward_while test text pos
    → test (get_or text i 0) ≡ true
unfolding forward_while
forward_while_passed test text pos i lo hi =
    let e : pos + (i - pos) ≡ i = omega arith in
    rw (get_or-drop pos (i - pos) text, e) at
      (run_length_passed test (drop pos text) (i - pos) (omega arith))

pub forward_while_stopped :
    (test : ℕ → Bool) (text : Runes) (pos : ℕ)
    → forward_while test text pos < length text
    → test (get_or text (forward_while test text pos) 0) ≡ false
unfolding forward_while
forward_while_stopped test text pos h =
    rw (get_or-drop pos (run_length test (drop pos text)) text) at
      (run_length_stopped test (drop pos text) (omega (arith, length-drop pos text)))

pub fitting-le :
    (t : RuneTable) (rs : Runes) (width column : ℕ) → fitting t rs width column ≤ length rs
unfolding fitting
fitting-le t [] width column = omega arith
fitting-le t (r ∷ rs) width column =
    ground (arith, fitting-le t rs (width + editor_rune_width t r) column)

-- The cursor lands on the line.
pub cursor_at_column_bounds :
    (t : RuneTable) (text : Runes) (start end column : ℕ)
    → start ≤ end
    → (start ≤ cursor_at_column t text start end column)
      × (cursor_at_column t text start end column ≤ end)
unfolding cursor_at_column
cursor_at_column_bounds t text start end column h = (
  omega arith,
  omega (
    arith,
    fitting-le t (take (end - start) (drop start text)) 0 column,
    length-take (end - start) (drop start text),
  ),
)
