-- ===== src/Editor/Inverse.antt =====
-- Edits that undo one another.
use notch.Prelude.{
  ℕ, zero, suc, ◌+◌, ◌-◌, ◌≤◌, ◌≡◌, refl, ap, ap₂, sym, ◌∙◌, false, [], ◌∷◌, ◌++◌, append_assoc,
  arith, inl, inr, Bool-cases, leb, ◌==◌, length, take, drop, take-append-drop, length-take,
  length-append,
}
use notch.Editor.State.{RuneTable, Runes, Editor}
use notch.Editor.Edits.{insert, backspace, kill, kill_to_end, kill_to_start, kill_word_backward}
use notch.Editor.Step.{IsValid, line_start-le, word_start-le}

take-nil : (n : ℕ) → take {A = ℕ} n [] ≡ []
take-nil zero = refl
take-nil (suc n) = refl

take-take-drop : (xs : Runes) (a b : ℕ) → a ≤ b → take (b - a) (drop a xs) ++ drop b xs ≡ drop a xs
take-take-drop xs zero b h = let e : b - 0 ≡ b = omega arith in rw e (take-append-drop b xs)
take-take-drop xs (suc a) zero h = absurd (omega arith)
take-take-drop [] (suc a) (suc b) h = rw take-nil
take-take-drop (x ∷ xs) (suc a) (suc b) h =
    let e : suc b - suc a ≡ b - a = omega arith in rw e (take-take-drop xs a b (omega arith))

take-append_exact : (xs ys : Runes) (n : ℕ) → n ≡ length xs → take n (xs ++ ys) ≡ xs
take-append_exact [] ys zero h = refl
take-append_exact [] ys (suc n) h = absurd (omega arith)
take-append_exact (x ∷ xs) ys zero h = absurd (omega arith)
take-append_exact (x ∷ xs) ys (suc n) h =
    ap (λ zs. x ∷ zs) (take-append_exact xs ys n (omega arith))

drop-append_exact : (xs ys : Runes) (n : ℕ) → n ≡ length xs → drop n (xs ++ ys) ≡ ys
drop-append_exact [] ys zero h = refl
drop-append_exact [] ys (suc n) h = absurd (omega arith)
drop-append_exact (x ∷ xs) ys zero h = absurd (omega arith)
drop-append_exact (x ∷ xs) ys (suc n) h = drop-append_exact xs ys n (omega arith)

insert-text :
    (s : Runes) (e : Editor)
    → (insert s e).text ≡ take e.cursor e.text ++ (s ++ drop e.cursor e.text)
unfolding insert
insert-text [] e = sym (take-append-drop e.cursor e.text)
insert-text (r ∷ rs) e = refl

insert-cursor : (s : Runes) (e : Editor) → (insert s e).cursor ≡ e.cursor + length s
unfolding insert
insert-cursor [] e = omega arith
insert-cursor (r ∷ rs) e = refl

-- What was killed, inserted again, restores the text.
insert-kill :
    (start end : ℕ) (e : Editor)
    → start ≤ length e.text
    → (insert (kill start end e).1 (kill start end e).0).text ≡ e.text
unfolding kill
insert-kill start end e h = elim (Bool-cases (leb end start)) [
  | inl p ↦ rw p (insert-text [] e ∙ take-append-drop e.cursor e.text)
  | inr p ↦
      let at : start ≡ length (take start e.text) = omega (arith, length-take start e.text) in
      rw p (
        insert-text (take (end - start) (drop start e.text)) _
        ∙ rw
            (
              take-append_exact (take start e.text) (drop end e.text) start at,
              drop-append_exact (take start e.text) (drop end e.text) start at,
              take-take-drop e.text start end (ground arith),
            )
            (take-append-drop start e.text))
]

-- In a valid editor, for each of the three kills: what it returns, inserted at the cursor that
-- it leaves, restores the text.
pub insert-kills :
    (t : RuneTable) (e : Editor)
    → IsValid e
    → ((insert (kill_to_end e).1 (kill_to_end e).0).text ≡ e.text)
      × ((insert (kill_to_start e).1 (kill_to_start e).0).text ≡ e.text)
      × ((insert (kill_word_backward t e).1 (kill_word_backward t e).0).text ≡ e.text)
insert-kills t e v = (
  unfold kill_to_end in insert-kill e.cursor _ e v.cursor,
  unfold kill_to_start in
      insert-kill _ e.cursor e (omega (arith, line_start-le e.text e.cursor v.cursor, v.cursor)),
  unfold kill_word_backward in
      insert-kill _ e.cursor e (omega (arith, word_start-le t e, v.cursor)),
)

-- `n` presses of Backspace.
abbrev pub backspaces : ℕ → Editor → Editor
backspaces zero e = e
backspaces (suc n) e = (backspace (backspaces n e)).0

backspace_one :
    (before behind : Runes) (r : ℕ) (e : Editor)
    → e.text ≡ before ++ (r ∷ behind)
    → e.cursor ≡ suc (length before)
    → ((backspace e).0.text ≡ before ++ behind) × ((backspace e).0.cursor ≡ length before)
unfolding backspace
backspace_one before behind r e h c =
    let some_left : (e.cursor == 0) ≡ false = ground arith in
    let front : take (e.cursor - 1) e.text ≡ before =
      ap (take (e.cursor - 1)) h
      ∙ take-append_exact before (r ∷ behind) (e.cursor - 1) (omega arith) in
    let rest : drop e.cursor e.text ≡ behind =
      ap (drop e.cursor) (h ∙ sym (append_assoc before (r ∷ []) behind))
      ∙ drop-append_exact (before ++ r ∷ []) behind e.cursor
          (omega (arith, length-append before (r ∷ []))) in
    rw some_left (ap₂ (λ xs ys. xs ++ ys) front rest, omega arith)

backspaces_lem :
    (before s behind : Runes) (e : Editor)
    → e.text ≡ before ++ (s ++ behind)
    → e.cursor ≡ length before + length s
    → ((backspaces (length s) e).text ≡ before ++ behind)
      × ((backspaces (length s) e).cursor ≡ length before)
backspaces_lem before [] behind e h c = (h, omega arith)
backspaces_lem before (r ∷ s) behind e h c =
    let (h', c') =
      backspaces_lem (before ++ r ∷ []) s behind e
        (h ∙ sym (append_assoc before (r ∷ []) (s ++ behind)))
        (omega (arith, length-append before (r ∷ []))) in
    backspace_one before behind r _ (h' ∙ append_assoc before (r ∷ []) behind)
      (omega (arith, length-append before (r ∷ [])))

-- In a valid editor, as many presses of Backspace as runes were inserted restore the text and
-- the cursor.
pub backspaces-insert :
    (s : Runes) (e : Editor)
    → IsValid e
    → ((backspaces (length s) (insert s e)).text ≡ e.text)
      × ((backspaces (length s) (insert s e)).cursor ≡ e.cursor)
backspaces-insert s e v =
    let at : e.cursor ≡ length (take e.cursor e.text) =
      omega (arith, length-take e.cursor e.text, v.cursor) in
    let (text, cursor) =
      backspaces_lem (take e.cursor e.text) s (drop e.cursor e.text) (insert s e) (insert-text s e)
        (omega (arith, insert-cursor s e)) in
    (text ∙ take-append-drop e.cursor e.text, cursor ∙ sym at)

-- In a valid editor, for each of the three kills: what it returns, inserted at the cursor that
-- it leaves, restores the text. As many presses of Backspace as runes were inserted restore the
-- text and the cursor.
pub edits_undone :
    (t : RuneTable) (s : Runes) (e : Editor)
    → IsValid e
    → ((insert (kill_to_end e).1 (kill_to_end e).0).text ≡ e.text)
      × ((insert (kill_to_start e).1 (kill_to_start e).0).text ≡ e.text)
      × ((insert (kill_word_backward t e).1 (kill_word_backward t e).0).text ≡ e.text)
      × ((backspaces (length s) (insert s e)).text ≡ e.text)
      × ((backspaces (length s) (insert s e)).cursor ≡ e.cursor)
edits_undone t s e v =
    let (a, b, c) = insert-kills t e v in let (d, k) = backspaces-insert s e v in (a, b, c, d, k)
