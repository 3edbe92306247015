-- ===== src/Go/Json.antt =====
-- json.Valid, as encoding/json runs it: a scanner that reads byte by byte with a stack of the
-- open objects and arrays, at most 10000 deep.
pub mod Prefix
use notch.Prelude.{
  ℕ, zero, suc, ◌≡◌, refl, Bool, true, false, ◌&&◌, ◌||◌, Option, none, some, List, [], ◌∷◌, ltb,
  leb, ◌==◌, if◌then◌else◌, length,
}
use notch.Go.Bytes.{Bytes, codes}

pub data Frame : Type 0 where
  object_key object_value array_value : Frame

pub data Scan : Type 0 where
  begin_value begin_value_or_empty begin_string begin_string_or_empty end_value : Scan
  in_string in_string_esc neg int_zero int_digits dot fraction exponent exp_sign exp_digits : Scan
  in_string_esc_u : ℕ → Scan
  literal : Bytes → Scan

abbrev Scanner : Type 0
Scanner = Option (Scan × List Frame)

unfoldable pub is_json_space : ℕ → Bool
is_json_space c = c == 0x20 || c == 9 || c == 10 || c == 13

is_digit : ℕ → Bool
is_digit c = leb b'0' c && leb c b'9'

is_hex : ℕ → Bool
unfolding is_digit
is_hex c = is_digit c || (leb b'a' c && leb c b'f') || (leb b'A' c && leb c b'F')

abbrev max_nesting_depth : ℕ
max_nesting_depth = 10000

unfoldable pub push : Scan → Frame → List Frame → Scanner
push s f fs = if leb (length (f ∷ fs)) max_nesting_depth then some (s, f ∷ fs) else none

unfoldable pub after_value : List Frame → ℕ → Scanner
unfolding is_json_space
after_value [] c = if is_json_space c then some (end_value, []) else none
after_value (object_key ∷ fs) c =
    if is_json_space c
    then some (end_value, object_key ∷ fs)
    else if c == b':'
    then some (begin_value, object_value ∷ fs)
    else none
after_value (object_value ∷ fs) c =
    if is_json_space c
    then some (end_value, object_value ∷ fs)
    else if c == b','
    then some (begin_string, object_key ∷ fs)
    else if c == b'}'
    then some (end_value, fs)
    else none
after_value (array_value ∷ fs) c =
    if is_json_space c
    then some (end_value, array_value ∷ fs)
    else if c == b','
    then some (begin_value, array_value ∷ fs)
    else if c == b']'
    then some (end_value, fs)
    else none

unfoldable pub value_start : List Frame → ℕ → Scanner
unfolding is_json_space is_digit push
value_start fs c =
    if is_json_space c
    then some (begin_value, fs)
    else if c == b'{'
    then push begin_string_or_empty object_key fs
    else if c == b'['
    then push begin_value_or_empty array_value fs
    else if c == 0x22
    then some (in_string, fs)
    else if c == b'-'
    then some (neg, fs)
    else if c == b'0'
    then some (int_zero, fs)
    else if is_digit c
    then some (int_digits, fs)
    else if c == b't'
    then some (literal (codes "rue"), fs)
    else if c == b'f'
    then some (literal (codes "alse"), fs)
    else if c == b'n'
    then some (literal (codes "ull"), fs)
    else none

unfoldable pub string_start : List Frame → ℕ → Scanner
unfolding is_json_space
string_start fs c =
    if is_json_space c
    then some (begin_string, fs)
    else if c == 0x22
    then some (in_string, fs)
    else none

unfoldable pub number_end : List Frame → ℕ → Scanner
unfolding after_value
number_end fs c =
    if c == b'.'
    then some (dot, fs)
    else if c == b'e' || c == b'E'
    then some (exponent, fs)
    else after_value fs c

unfoldable pub digit_then : Scan → List Frame → ℕ → Scanner
unfolding is_digit
digit_then s fs c = if is_digit c then some (s, fs) else none

unfoldable pub step : Scan → List Frame → ℕ → Scanner
unfolding value_start string_start number_end digit_then is_hex
step begin_value fs c = value_start fs c
step begin_value_or_empty fs c =
    if is_json_space c
    then some (begin_value_or_empty, fs)
    else if c == b']'
    then after_value fs c
    else value_start fs c
step begin_string fs c = string_start fs c
step begin_string_or_empty [] c = none
step begin_string_or_empty (f ∷ fs) c =
    if is_json_space c
    then some (begin_string_or_empty, f ∷ fs)
    else if c == b'}'
    then after_value (object_value ∷ fs) c
    else string_start (f ∷ fs) c
step end_value fs c = after_value fs c
step in_string fs c =
    if c == 0x22
    then some (end_value, fs)
    else if c == 0x5C
    then some (in_string_esc, fs)
    else if ltb c 0x20
    then none
    else some (in_string, fs)
step in_string_esc fs c =
    if c == b'b'
      || c == b'f'
      || c == b'n'
      || c == b'r'
      || c == b't'
      || c == 0x5C
      || c == b'/'
      || c == 0x22
    then some (in_string, fs)
    else if c == b'u'
    then some (in_string_esc_u 3, fs)
    else none
step (in_string_esc_u zero) fs c = if is_hex c then some (in_string, fs) else none
step (in_string_esc_u (suc k)) fs c = if is_hex c then some (in_string_esc_u k, fs) else none
step neg fs c = if c == b'0' then some (int_zero, fs) else digit_then int_digits fs c
step int_zero fs c = number_end fs c
step int_digits fs c = if is_digit c then some (int_digits, fs) else number_end fs c
step dot fs c = digit_then fraction fs c
step fraction fs c =
    if is_digit c
    then some (fraction, fs)
    else if c == b'e' || c == b'E'
    then some (exponent, fs)
    else after_value fs c
step exponent fs c =
    if c == b'+' || c == b'-' then some (exp_sign, fs) else digit_then exp_digits fs c
step exp_sign fs c = digit_then exp_digits fs c
step exp_digits fs c = if is_digit c then some (exp_digits, fs) else after_value fs c
step (literal []) fs c = after_value fs c
step (literal (d ∷ [])) fs c = if c == d then some (end_value, fs) else none
step (literal (d ∷ e ∷ ds)) fs c = if c == d then some (literal (e ∷ ds), fs) else none

-- At the end a space is fed, which closes a number; then nothing may be open.
unfoldable pub is_done : Scanner → Bool
is_done (some (end_value, [])) = true
is_done _ = false

unfoldable pub run : Scanner → Bytes → Bool
unfolding step is_done
run none s = false
run (some (st, fs)) [] = is_done (step st fs 0x20)
run (some (st, fs)) (c ∷ s) = run (step st fs c) s

unfoldable pub valid : Bytes → Bool
unfolding run
valid s = run (some (begin_value, [])) s

accepts : valid (codes "{\"a\": [1.5e-3, null, \"x\\n\"]} ") ≡ true
unfolding valid
accepts = refl

rejects_comma : valid (codes "[1,]") ≡ false
unfolding valid
rejects_comma = refl

rejects_cut : valid (codes "{\"a\":") ≡ false
unfolding valid
rejects_cut = refl
