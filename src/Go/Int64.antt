-- ===== src/Go/Int64.antt =====
-- Go's int64, as a time.Duration is one: signed numbers with their wrap-around, and strconv.Atoi.
use notch.Prelude.{
  ℕ, ◌+◌, ◌-◌, ◌%◌, ◌^◌, ◌<◌, ◌≤◌, ◌≡◌, Bool, true, false, not, ◌&&◌, Option, none, some, [], ◌∷◌,
  ltb, leb, ◌==◌, if◌then◌else◌, arith,
}
use notch.Prelude.Int.{ℤ, pos, negsuc, pos_part, neg_part, ◌+ℤ◌, ◌-ℤ◌}
use notch.Go.Bytes.{Bytes}
use notch.Go.Strconv.{value}

-- The number with these 64 bits.
abbrev pub signed : ℕ → ℤ
signed n = let m = n % 2 ^ 64 in if ltb m (2 ^ 63) then pos m else negsuc (2 ^ 64 - 1 - m)

-- A sum or a difference of two int64 as it is stored.
abbrev pub wrapped : ℤ → ℤ
wrapped z =
    if ltb (2 ^ 63 - 1) (pos_part z)
    then negsuc (2 ^ 64 - 1 - pos_part z)
    else if ltb (2 ^ 63) (neg_part z)
    then pos (2 ^ 64 - neg_part z)
    else z

unfoldable pub add_int64 : ℤ → ℤ → ℤ
unfolding ◌+ℤ◌
add_int64 a b = wrapped (a +ℤ b)

unfoldable pub sub_int64 : ℤ → ℤ → ℤ
unfolding ◌-ℤ◌
sub_int64 a b = wrapped (a -ℤ b)

abbrev pub is_decimal : Bytes → Bool
is_decimal [] = true
is_decimal (c ∷ s) = leb b'0' c && leb c b'9' && is_decimal s

-- `none` is an error, of the syntax or the range.
unfoldable pub atoi_digits : Bool → Bytes → Option ℤ
atoi_digits negative [] = none
atoi_digits negative (c ∷ s) =
    let n = value 0 (c ∷ s) in
    if not (is_decimal (c ∷ s))
    then none
    else if negative
    then (if ltb (2 ^ 63) n then none else some (if n == 0 then pos 0 else negsuc (n - 1)))
    else if ltb (2 ^ 63 - 1) n
    then none
    else some (pos n)

unfoldable pub atoi : Bytes → Option ℤ
unfolding atoi_digits
atoi [] = none
atoi (c ∷ s) =
    if c == b'-'
    then atoi_digits true s
    else if c == b'+'
    then atoi_digits false s
    else atoi_digits false (c ∷ s)

-- Within the range there is no wrap.
pub add_int64_fits : (a b : ℕ) → a + b < 2 ^ 63 → add_int64 (pos a) (pos b) ≡ pos (a + b)
unfolding add_int64 ◌+ℤ◌
add_int64_fits a b h = ground arith

pub sub_int64_fits : (a b : ℕ) → b ≤ a → a < 2 ^ 63 → sub_int64 (pos a) (pos b) ≡ pos (a - b)
unfolding sub_int64 ◌-ℤ◌
sub_int64_fits a b h k = ground arith
