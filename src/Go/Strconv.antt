-- ===== src/Go/Strconv.antt =====
-- strconv.Itoa and the %d of fmt for a non-negative int.
use mathlib.Core.Logic.{dite}
use mathlib.Core.WellFounded.{Acc}
use notch.Prelude.{
  ℕ, zero, suc, ◌+◌, ◌/◌, ◌%◌, ◌-◌, ◌*◌, ◌<◌, ◌≡◌, refl, sym, ap, ◌∙◌, [], ◌∷◌, arith, dec_lt,
}
use notch.Go.Bytes.{Bytes, codes}

-- The number behind `n` and the digits, with no bound.
abbrev pub value : ℕ → Bytes → ℕ
value n [] = n
value n (c ∷ s) = value (n * 10 + (c - b'0')) s

below : (k n : ℕ) → n < k → Acc ◌<◌ n
below zero n h = absurd (omega arith)
below (suc k) n h = Acc.intro n (λ m hm. below k m (omega arith))

-- Each round puts the last digit in front of those that are out.
write : (n : ℕ) → Acc ◌<◌ n → Bytes → Bytes
write n (Acc.intro _ smaller) out =
    dite (dec_lt 9 n) (λ h. write (n / 10) (smaller (n / 10) (omega arith)) ((b'0' + n % 10) ∷ out))
      (λ _. (b'0' + n) ∷ out)

unfoldable pub itoa : ℕ → Bytes
unfolding write below dec_lt
itoa n = write n (below (suc n) n (omega arith)) []

dite_both :
    {P : Type 0} (Q : Bytes → Type 0) (d : Dec P) (f : P → Bytes) (g : ¬ P → Bytes)
    → ((h : P) → Q (f h))
    → ((h : ¬ P) → Q (g h))
    → Q (dite d f g)
dite_both Q (yes h) f g hf hg = hf h
dite_both Q (no h) f g hf hg = hg h

write-value :
    (n : ℕ) (smaller : Acc ◌<◌ n) (out : Bytes) → value 0 (write n smaller out) ≡ value n out
unfolding write dec_lt
write-value n (Acc.intro h smaller) out =
    dite_both (λ b. value 0 b ≡ value n out) (dec_lt 9 n) _ _
      (λ more.
        write-value (n / 10) (smaller (n / 10) (omega arith)) ((b'0' + n % 10) ∷ out)
        ∙ ap (λ m. value m out) (omega arith))
      (λ one. ap (λ m. value m out) (omega arith))

-- The digits that are written spell the number.
pub value-itoa : (n : ℕ) → value 0 (itoa n) ≡ n
unfolding itoa
value-itoa n = write-value n (below (suc n) n (omega arith)) []

pub itoa-injective : (m n : ℕ) → itoa m ≡ itoa n → m ≡ n
itoa-injective m n e = sym (value-itoa m) ∙ ap (value 0) e ∙ value-itoa n

prints : itoa 12050 ≡ codes "12050"
unfolding itoa
prints = refl
