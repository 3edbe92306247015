-- ===== src/Go/Json/Prefix.antt =====
-- json.Valid on the first part of a JSON object.
use mathlib.Core.Path.{subst}
use notch.Prelude.{
  ℕ, zero, suc, ◌≡◌, refl, sym, Bool-cases, true, false, none, some, List, [], ◌∷◌, ◌++◌, arith,
  inl, inr,
}
use notch.Go.Bytes.{Bytes}
use notch.Go.Json.{
  Frame, object_key, object_value, array_value, Scan, begin_value, begin_string_or_empty, end_value,
  literal, in_string_esc_u, begin_value_or_empty, begin_string, in_string, in_string_esc, neg,
  int_zero, int_digits, dot, fraction, exponent, exp_sign, exp_digits, Scanner, is_json_space, push,
  after_value, value_start, string_start, number_end, digit_then, step, is_done, run, valid,
}

-- Either something is open, or the value has ended.
abbrev Open : Scanner → Type 0
Open none = Unit
Open (some (s, [])) = s ≡ end_value
Open (some (s, f ∷ fs)) = Unit

after_value-Open : (fs : List Frame) (c : ℕ) → Open (after_value fs c)
unfolding after_value
after_value-Open [] c = ground arith
after_value-Open (object_key ∷ fs) c = ground arith
after_value-Open (object_value ∷ []) c = ground arith
after_value-Open (object_value ∷ f ∷ fs) c = ground arith
after_value-Open (array_value ∷ []) c = ground arith
after_value-Open (array_value ∷ f ∷ fs) c = ground arith

value_start-Open : (f : Frame) (fs : List Frame) (c : ℕ) → Open (value_start (f ∷ fs) c)
unfolding value_start push
value_start-Open f fs c = ground arith

string_start-Open : (f : Frame) (fs : List Frame) (c : ℕ) → Open (string_start (f ∷ fs) c)
unfolding string_start
string_start-Open f fs c = ground arith

number_end-Open : (f : Frame) (fs : List Frame) (c : ℕ) → Open (number_end (f ∷ fs) c)
unfolding number_end
number_end-Open f fs c = ground (arith, after_value-Open (f ∷ fs) c)

step-Open : (s : Scan) (fs : List Frame) (c : ℕ) → Open (some (s, fs)) → Open (step s fs c)
unfolding step
step-Open s [] c h =
    let same : step s [] c ≡ step end_value [] c = rw h refl in
    subst Open (sym same) (after_value-Open [] c)
step-Open begin_value (f ∷ fs) c h = value_start-Open f fs c
step-Open begin_value_or_empty (f ∷ fs) c h =
    ground (arith, value_start-Open f fs c, after_value-Open (f ∷ fs) c)
step-Open begin_string (f ∷ fs) c h = string_start-Open f fs c
step-Open begin_string_or_empty (f ∷ fs) c h =
    ground (arith, string_start-Open f fs c, after_value-Open (object_value ∷ fs) c)
step-Open end_value (f ∷ fs) c h = after_value-Open (f ∷ fs) c
step-Open in_string (f ∷ fs) c h = ground arith
step-Open in_string_esc (f ∷ fs) c h = ground arith
step-Open (in_string_esc_u zero) (f ∷ fs) c h = ground arith
step-Open (in_string_esc_u (suc k)) (f ∷ fs) c h = ground arith
step-Open neg (f ∷ fs) c h = unfold digit_then in ground arith
step-Open int_zero (f ∷ fs) c h = number_end-Open f fs c
step-Open int_digits (f ∷ fs) c h = ground (arith, number_end-Open f fs c)
step-Open dot (f ∷ fs) c h = unfold digit_then in ground arith
step-Open fraction (f ∷ fs) c h = ground (arith, after_value-Open (f ∷ fs) c)
step-Open exponent (f ∷ fs) c h = unfold digit_then in ground arith
step-Open exp_sign (f ∷ fs) c h = unfold digit_then in ground arith
step-Open exp_digits (f ∷ fs) c h = ground (arith, after_value-Open (f ∷ fs) c)
step-Open (literal []) (f ∷ fs) c h = after_value-Open (f ∷ fs) c
step-Open (literal (d ∷ [])) (f ∷ fs) c h = ground arith
step-Open (literal (d ∷ e ∷ ds)) (f ∷ fs) c h = ground arith

space_done : (s : Scan) (f : Frame) (fs : List Frame) → is_done (step s (f ∷ fs) 0x20) ≡ false
unfolding step is_done after_value value_start string_start number_end digit_then
space_done begin_value f fs = refl
space_done begin_value_or_empty f fs = refl
space_done begin_string f fs = refl
space_done begin_string_or_empty f fs = refl
space_done end_value object_key fs = refl
space_done end_value object_value fs = refl
space_done end_value array_value fs = refl
space_done in_string f fs = refl
space_done in_string_esc f fs = refl
space_done (in_string_esc_u zero) f fs = refl
space_done (in_string_esc_u (suc k)) f fs = refl
space_done neg f fs = refl
space_done int_zero object_key fs = refl
space_done int_zero object_value fs = refl
space_done int_zero array_value fs = refl
space_done int_digits object_key fs = refl
space_done int_digits object_value fs = refl
space_done int_digits array_value fs = refl
space_done dot f fs = refl
space_done fraction object_key fs = refl
space_done fraction object_value fs = refl
space_done fraction array_value fs = refl
space_done exponent f fs = refl
space_done exp_sign f fs = refl
space_done exp_digits object_key fs = refl
space_done exp_digits object_value fs = refl
space_done exp_digits array_value fs = refl
space_done (literal []) object_key fs = refl
space_done (literal []) object_value fs = refl
space_done (literal []) array_value fs = refl
space_done (literal (d ∷ [])) f fs = ground arith
space_done (literal (d ∷ e ∷ ds)) f fs = ground arith

ended :
    (q : Bytes) (x : ℕ) → run (some (end_value, [])) (q ++ x ∷ []) ≡ true → is_json_space x ≡ true
unfolding run step after_value is_done
ended [] x h = ground arith
ended (c ∷ q) x h = ground (arith, ended q x)

cut :
    (sc : Scanner) (a q : Bytes) (x : ℕ)
    → Open sc
    → run sc a ≡ true
    → run sc (a ++ q ++ x ∷ []) ≡ true
    → is_json_space x ≡ true
unfolding run
cut none a q x o ha h = absurd (ground arith)
cut (some (s, [])) [] q x o ha h =
    ended q x (subst (λ t. run (some (t, [])) (q ++ x ∷ []) ≡ true) o h)
cut (some (s, f ∷ fs)) [] q x o ha h = absurd (ground (arith, space_done s f fs))
cut (some (s, fs)) (c ∷ a) q x o ha h = cut (step s fs c) a q x (step-Open s fs c o) ha h

-- An object that ends with the byte `x`, which is no space, is not valid when `x` is cut off.
pub valid-cut :
    (a q : Bytes) (x : ℕ)
    → is_json_space x ≡ false
    → valid (b'{' ∷ (a ++ q ++ x ∷ [])) ≡ true
    → valid (b'{' ∷ a) ≡ false
unfolding valid run step value_start push
valid-cut a q x nx h = elim (Bool-cases (valid (b'{' ∷ a))) [
  | inl t ↦
      absurd (ground (arith, cut (some (begin_string_or_empty, object_key ∷ [])) a q x tt t h))
  | inr f ↦ f
]
