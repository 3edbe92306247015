-- ===== src/Context/Trim/Laws.antt =====
-- The trimmed text: its length as it is computed without it, its bound, and its whole runes.
use notch.Prelude.{
  ℕ, zero, suc, ◌+◌, ◌-◌, ◌*◌, ◌/◌, ◌≤◌, ◌<◌, ◌≡◌, refl, true, false, [], ◌∷◌, ◌++◌, arith, leb,
  Bool-cases, inl, inr, length, take, drop, length-take, length-drop, length-append,
}
use notch.Go.Bytes.{Bytes}
use notch.Go.Utf8.{valid_string, valid_string-nil}
use notch.Go.Strconv.{itoa}
use notch.Context.Trim.{
  shrink_head, shrink_tail, head_of, tail_of, marker_open, marker_close, marker,
  compact_tool_result_text, compact_tool_result_length,
}

pub shrink_head-le : (value : Bytes) (head : ℕ) → shrink_head value head ≤ head
unfolding shrink_head
shrink_head-le value zero = omega arith
shrink_head-le value (suc head) = ground (arith, shrink_head-le value head)

pub shrink_tail-le : (value : Bytes) (tail : ℕ) → shrink_tail value tail ≤ tail
unfolding shrink_tail
shrink_tail-le value zero = omega arith
shrink_tail-le value (suc tail) = ground (arith, shrink_tail-le value tail)

head_tail-le : (value : Bytes) (limit : ℕ) → head_of value limit + tail_of value limit ≤ limit
unfolding head_of tail_of
head_tail-le value limit = omega (
  arith,
  shrink_head-le value (limit * 65 / 100),
  shrink_tail-le value (limit - limit * 65 / 100),
)

length-marker :
    (total : ℕ)
    → length (marker total) ≡ length marker_open + length (itoa total) + length marker_close
unfolding marker
length-marker total = omega (
  arith,
  length-append marker_open (itoa total ++ marker_close),
  length-append (itoa total) marker_close,
)

-- The length of a trimmed tool result that is computed without the text is the length of the
-- text.
pub length-compact_tool_result_text :
    (value : Bytes) (limit : ℕ)
    → length (compact_tool_result_text value limit) ≡ compact_tool_result_length value limit
unfolding compact_tool_result_text compact_tool_result_length
length-compact_tool_result_text value limit = elim (Bool-cases (leb (length value) limit)) [
  | inl e ↦ rw e
  | inr e ↦ rw e (
      let h = head_of value limit in
      let t = length value - tail_of value limit in
      omega (
        arith,
        head_tail-le value limit,
        over e,
        length-append (take h value) (marker (length value) ++ drop t value),
        length-append (marker (length value)) (drop t value),
        length-marker (length value),
        length-take h value,
        length-drop t value,
      ))
]
  where
    over : leb (length value) limit ≡ false → limit < length value
    over e = ground arith

-- A trimmed text is at most `limit` bytes and its marker long.
pub compact_tool_result_text_bound :
    (value : Bytes) (limit : ℕ)
    → length (compact_tool_result_text value limit) ≤ limit + length (marker (length value))
unfolding compact_tool_result_length
compact_tool_result_text_bound value limit = ground (
  arith,
  length-compact_tool_result_text value limit,
  head_tail-le value limit,
  length-marker (length value),
)

shrink_head_whole :
    (value : Bytes) (head : ℕ) → valid_string (take (shrink_head value head) value) ≡ true
unfolding shrink_head
shrink_head_whole value zero = valid_string-nil
shrink_head_whole value (suc head) = elim (Bool-cases (valid_string (take (suc head) value))) [
  | inl e ↦ rw (e, shrink_head) e
  | inr e ↦ rw (e, shrink_head) (shrink_head_whole value head)
]

drop-length : (value : Bytes) → drop (length value) value ≡ []
drop-length [] = refl
drop-length (c ∷ s) = drop-length s

shrink_tail_whole :
    (value : Bytes) (tail : ℕ)
    → valid_string (drop (length value - shrink_tail value tail) value) ≡ true
unfolding shrink_tail
shrink_tail_whole value zero =
    let e : length value - 0 ≡ length value = omega arith in
    rw (e, drop-length value) valid_string-nil
shrink_tail_whole value (suc tail) =
    elim (Bool-cases (valid_string (drop (length value - suc tail) value))) [
      | inl e ↦ rw (e, shrink_tail) e
      | inr e ↦ rw (e, shrink_tail) (shrink_tail_whole value tail)
    ]

-- A text over the limit becomes a start of it, the marker, and an end of it; both parts are
-- valid UTF-8, and together they are no longer than the limit.
pub compact_tool_result_text_parts :
    (value : Bytes) (limit : ℕ)
    → limit < length value
    → (head : ℕ) × (tail : ℕ) × (compact_tool_result_text value limit
        ≡ take head value ++ (marker (length value) ++ drop (length value - tail) value))
      × (valid_string (take head value) ≡ true)
      × (valid_string (drop (length value - tail) value) ≡ true)
      × (head + tail ≤ limit)
unfolding compact_tool_result_text head_of tail_of
compact_tool_result_text_parts value limit h = (
  head_of value limit,
  tail_of value limit,
  ground arith,
  shrink_head_whole value _,
  shrink_tail_whole value _,
  head_tail-le value limit,
)

-- The length of a trimmed tool result that is computed without the text is the length of the
-- text. A text over the limit becomes a start of it, the marker, and an end of it; both parts
-- are valid UTF-8, and together they are no longer than the limit.
pub compact_tool_result_text_lem :
    (value : Bytes) (limit : ℕ)
    → (length (compact_tool_result_text value limit) ≡ compact_tool_result_length value limit)
      × (limit < length value
          → (head : ℕ) × (tail : ℕ) × (compact_tool_result_text value limit
              ≡ take head value ++ (marker (length value) ++ drop (length value - tail) value))
            × (valid_string (take head value) ≡ true)
            × (valid_string (drop (length value - tail) value) ≡ true)
            × (head + tail ≤ limit))
compact_tool_result_text_lem value limit =
    (length-compact_tool_result_text value limit, compact_tool_result_text_parts value limit)
