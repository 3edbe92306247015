-- ===== src/Go/Space/Braces.antt =====
-- strings.TrimSpace on a text that starts with a brace, and on one that ends with one as well.
use mathlib.Core.List.{
  reverse, reverse-append, reverse-reverse, IsSuffix, suffix_refl, suffix-cons, IsSuffix-trans,
}
use notch.Prelude.{
  ℕ, ◌≡◌, refl, sym, ap, ◌∙◌, Bool, true, false, [], ◌∷◌, ◌++◌, arith, append-nil, if◌then◌else◌,
}
use notch.Go.Bytes.{Bytes}
use notch.Go.Space.{
  trim_with, is_ascii_space, is_space2, is_space3, trim_left, trim_right, trim_space,
}

if_both {ℓ κ} :
    {A : Type ℓ} (P : A → Type κ) (c : Bool) (x y : A) → P x → P y → P (if c then x else y)
if_both P true x y px py = px
if_both P false x y px py = py

module _ (two : ℕ → ℕ → Bool) (three : ℕ → ℕ → ℕ → Bool) where
  trim_with-IsSuffix : (s : Bytes) → IsSuffix (trim_with two three s) s
  unfolding trim_with
  trim_with-IsSuffix [] = suffix_refl []
  trim_with-IsSuffix (a ∷ []) =
      if_both (λ t. IsSuffix t (a ∷ [])) (is_ascii_space a) [] (a ∷ []) (suffix-cons a [])
        (suffix_refl (a ∷ []))
  trim_with-IsSuffix (a ∷ b ∷ []) =
      let s = a ∷ b ∷ [] in
      let P : Bytes → Type 0 = λ t. IsSuffix t s in
      let one = trim_with two three (b ∷ []) in
      if_both P (is_ascii_space a) one (if two a b then [] else s)
        (IsSuffix-trans (trim_with-IsSuffix (b ∷ [])) (suffix-cons a (b ∷ [])))
        (if_both P (two a b) [] s (s, append-nil s) (suffix_refl s))
  trim_with-IsSuffix (a ∷ b ∷ c ∷ s) =
      let all = a ∷ b ∷ c ∷ s in
      let P : Bytes → Type 0 = λ t. IsSuffix t all in
      let one = IsSuffix-trans (trim_with-IsSuffix (b ∷ c ∷ s)) (suffix-cons a (b ∷ c ∷ s)) in
      let bc : IsSuffix (c ∷ s) all = (a ∷ b ∷ [], refl) in
      let abc : IsSuffix s all = (a ∷ b ∷ c ∷ [], refl) in
      let double = IsSuffix-trans (trim_with-IsSuffix (c ∷ s)) bc in
      let triple = IsSuffix-trans (trim_with-IsSuffix s) abc in
      if_both P (is_ascii_space a) _ _ one
        (if_both P (two a b) _ _ double (if_both P (three a b c) _ _ triple (suffix_refl all)))

-- A brace starts no space.
trim_left-brace : (s : Bytes) → trim_left (b'{' ∷ s) ≡ b'{' ∷ s
unfolding trim_left trim_with is_ascii_space is_space2 is_space3
trim_left-brace [] = refl
trim_left-brace (b ∷ []) = refl
trim_left-brace (b ∷ c ∷ s) = refl

-- What is trimmed off a text that starts with a brace stands at its end.
pub trim_space-brace : (s : Bytes) → (t : Bytes) × (trim_space (b'{' ∷ s) ++ t ≡ b'{' ∷ s)
unfolding trim_space trim_right
trim_space-brace s =
    let left = trim_left (b'{' ∷ s) in
    let right = trim_with (λ b a. is_space2 a b) (λ c b a. is_space3 a b c) (reverse left) in
    let (t, e) =
      trim_with-IsSuffix (λ b a. is_space2 a b) (λ c b a. is_space3 a b c) (reverse left) in
    (
      reverse t,
      sym (reverse-append t right) ∙ ap reverse e ∙ reverse-reverse left ∙ trim_left-brace s,
    )

trim_newline-brace :
    (r : Bytes)
    → trim_with (λ b a. is_space2 a b) (λ c b a. is_space3 a b c) (10 ∷ b'}' ∷ r) ≡ b'}' ∷ r
unfolding trim_with is_ascii_space is_space2 is_space3
trim_newline-brace [] = refl
trim_newline-brace (x ∷ []) = ground arith
trim_newline-brace (x ∷ y ∷ r) = ground arith

-- The newline that ends a line goes, and nothing else of a text in braces.
pub trim_space-line :
    (s : Bytes) → trim_space (b'{' ∷ (s ++ b'}' ∷ 10 ∷ [])) ≡ b'{' ∷ (s ++ b'}' ∷ [])
unfolding trim_space trim_right
trim_space-line s =
    let left = b'{' ∷ s in
    let trim = trim_with (λ b a. is_space2 a b) (λ c b a. is_space3 a b c) in
    ap (λ t. reverse (trim (reverse t))) (trim_left-brace (s ++ b'}' ∷ 10 ∷ []))
    ∙ ap (λ t. reverse (trim t)) (reverse-append left (b'}' ∷ 10 ∷ []))
    ∙ ap reverse (trim_newline-brace (reverse left))
    ∙ ap reverse (sym (reverse-append left (b'}' ∷ [])))
    ∙ reverse-reverse (left ++ b'}' ∷ [])

trim_only-brace :
    (r : Bytes) → trim_with (λ b a. is_space2 a b) (λ c b a. is_space3 a b c) (b'}' ∷ r) ≡ b'}' ∷ r
unfolding trim_with is_ascii_space is_space2 is_space3
trim_only-brace [] = refl
trim_only-brace (x ∷ []) = ground arith
trim_only-brace (x ∷ y ∷ r) = ground arith

pub trim_space-braces : (s : Bytes) → trim_space (b'{' ∷ (s ++ b'}' ∷ [])) ≡ b'{' ∷ (s ++ b'}' ∷ [])
unfolding trim_space trim_right
trim_space-braces s =
    let left = b'{' ∷ s in
    let trim = trim_with (λ b a. is_space2 a b) (λ c b a. is_space3 a b c) in
    ap (λ t. reverse (trim (reverse t))) (trim_left-brace (s ++ b'}' ∷ []))
    ∙ ap (λ t. reverse (trim t)) (reverse-append left (b'}' ∷ []))
    ∙ ap reverse (trim_only-brace (reverse left))
    ∙ ap reverse (sym (reverse-append left (b'}' ∷ [])))
    ∙ reverse-reverse (left ++ b'}' ∷ [])
