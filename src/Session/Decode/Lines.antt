-- ===== src/Session/Decode/Lines.antt =====
-- The lines of a file that ends with a newline, and of what is appended to it.
use notch.Prelude.{
  ℕ, suc, ◌+◌, ◌≡◌, refl, sym, ap, ◌∙◌, false, List, [], ◌∷◌, ◌++◌, arith, ◌==◌, length, All, inl,
  inr, Bool-cases,
}
use notch.Go.Bytes.{Bytes}
use notch.Session.{err, ok, Codec, Loaded}
use notch.Session.Decode.{lines, on_first, decode_line, decode_lines, and_then}

abbrev pub NoNewline : Bytes → Type 0
NoNewline = All (λ c. (c == 10) ≡ false)

abbrev pub Terminated : Bytes → Type 0
Terminated f = (t : Bytes) × (f ≡ t ++ 10 ∷ [])

pub Terminated-append : (f s : Bytes) → Terminated (f ++ s ++ 10 ∷ [])
Terminated-append f s = (f ++ s, refl)

lines-newline : (t : Bytes) → (l : Bytes) × (ls : List Bytes) × (lines (t ++ 10 ∷ []) ≡ l ∷ ls)
unfolding lines on_first
lines-newline [] = (10 ∷ [], [], refl)
lines-newline (c ∷ t) =
    let (l, ls, e) = lines-newline t in
    elim (Bool-cases (c == 10)) [
      | inl y ↦ (c ∷ [], lines (t ++ 10 ∷ []), ground arith)
      | inr n ↦ (c ∷ l, ls, ground (arith, e))
    ]

lines-append : (t s : Bytes) → lines ((t ++ 10 ∷ []) ++ s) ≡ lines (t ++ 10 ∷ []) ++ lines s
unfolding lines on_first
lines-append [] s = refl
lines-append (c ∷ t) s = let (l, ls, e) = lines-newline t in ground (arith, lines-append t s, e)

pub lines-Terminated : (f s : Bytes) → Terminated f → lines (f ++ s) ≡ lines f ++ lines s
lines-Terminated f s (t, e) =
    ap (λ g. lines (g ++ s)) e ∙ lines-append t s ∙ ap (λ g. lines g ++ lines s) (sym e)

-- A text of one line, with its newline and without.
pub lines-line : (s : Bytes) → NoNewline s → lines (s ++ 10 ∷ []) ≡ (s ++ 10 ∷ []) ∷ []
unfolding lines on_first
lines-line [] h = refl
lines-line (c ∷ s) (n, h) = ground (arith, lines-line s h)

pub lines-tail : (c : ℕ) (s : Bytes) → NoNewline (c ∷ s) → lines (c ∷ s) ≡ (c ∷ s) ∷ []
unfolding lines on_first
lines-tail c [] (n, h) = ground arith
lines-tail c (d ∷ s) (n, h) = ground (arith, lines-tail d s h)

pub decode_lines-append :
    (c : Codec) (n : ℕ) (ls ms : List Bytes) (st : Loaded)
    → decode_lines c n (ls ++ ms) st
      ≡ and_then (decode_lines c n ls st) (decode_lines c (n + length ls) ms)
unfolding decode_lines and_then
decode_lines-append c n [] ms st = ap (λ k. decode_lines c k ms st) (omega arith)
decode_lines-append c n (l ∷ ls) ms st =
    elim (decode_line c n l st)
      as (λ r.
        and_then r (decode_lines c (suc n) (ls ++ ms))
        ≡ and_then (and_then r (decode_lines c (suc n) ls))
            (decode_lines c (n + suc (length ls)) ms)) [
              | err e ↦ refl
              | ok st' ↦
                  decode_lines-append c (suc n) ls ms st'
                  ∙ ap (λ k. and_then (decode_lines c (suc n) ls st') (decode_lines c k ms))
                      (omega arith)
            ]
