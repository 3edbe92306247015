-- ===== src/Session/Load/Start.antt =====
-- The search of `finalRecordStart`, in blocks from the end.
use notch.Prelude.{
  ℕ, zero, suc, ◌+◌, ◌-◌, ◌≤◌, ◌<◌, ◌≡◌, refl, ap, ◌∙◌, true, false, none, some, [], ◌∷◌, ◌++◌,
  arith, ◌==◌, length, take, drop, All-take, All-drop, dec_lt, length-append, length-drop,
  drop-append, drop-append_more, take-append_more,
}
use notch.Go.Bytes.{Bytes}
use notch.Session.Decode.Lines.{NoNewline}
use notch.Session.Load.{last_newline, block_size, record_start_from, final_record_start}

last_newline-none : (s : Bytes) → NoNewline s → last_newline s ≡ none
unfolding last_newline
last_newline-none [] h = refl
last_newline-none (c ∷ s) (n, h) = rw (last_newline-none s h, n) refl

last_newline-some :
    (t p : Bytes) → NoNewline p → last_newline ((t ++ 10 ∷ []) ++ p) ≡ some (length t)
unfolding last_newline
last_newline-some [] p h = rw (last_newline-none p h) refl
last_newline-some (c ∷ t) p h = rw (last_newline-some t p h) refl

-- The block that holds the last newline, and one that is behind it.
block_with :
    (t p : Bytes) (start end : ℕ)
    → NoNewline p
    → start ≤ length t
    → length t < end
    → last_newline (take (end - start) (drop start ((t ++ 10 ∷ []) ++ p))) ≡ some (length t - start)
block_with t p start end h below above =
    let head = drop start t ++ 10 ∷ [] in
    let size : length head ≡ length t - start + 1 =
      omega (arith, length-append (drop start t) (10 ∷ []), length-drop start t) in
    let fits : start ≤ length (t ++ 10 ∷ []) = omega (arith, length-append t (10 ∷ [])) in
    let rest = take (end - start - length head) p in
    ap (λ b. last_newline (take (end - start) b))
      (drop-append start (t ++ 10 ∷ []) p fits
        ∙ ap (λ b. b ++ p) (drop-append start t (10 ∷ []) below))
    ∙ ap last_newline (take-append_more (end - start) head p (omega (arith, size)))
    ∙ last_newline-some (drop start t) rest (All-take _ (end - start - length head) p h)
    ∙ ap some (length-drop start t)

block_behind :
    (s p : Bytes) (start count : ℕ)
    → NoNewline p
    → length s ≤ start
    → last_newline (take count (drop start (s ++ p))) ≡ none
block_behind s p start count h behind =
    ap (λ b. last_newline (take count b)) (drop-append_more start s p behind)
    ∙ last_newline-none (take count (drop (start - length s) p))
        (All-take _ count (drop (start - length s) p) (All-drop _ (start - length s) p h))

record_start_from_lem :
    (fuel : ℕ) (t p : Bytes) (end : ℕ)
    → NoNewline p
    → length t < end
    → end ≤ fuel
    → record_start_from fuel ((t ++ 10 ∷ []) ++ p) end ≡ suc (length t)
unfolding record_start_from
record_start_from_lem zero t p end h above enough = absurd (omega arith)
record_start_from_lem (suc fuel) t p end h above enough =
    let start = end - block_size in
    let more : (end == 0) ≡ false = ground arith in
    elim (dec_lt (length t) start) [
      | yes behind ↦
          let size : length (t ++ 10 ∷ []) ≤ start = omega (arith, length-append t (10 ∷ [])) in
          rw (more, block_behind (t ++ 10 ∷ []) p start (end - start) h size)
            (record_start_from_lem fuel t p start h behind (omega arith))
      | no within ↦ rw (more, block_with t p start end h (omega arith) above) (omega arith)
    ]

record_start_from_none :
    (fuel : ℕ) (p : Bytes) (end : ℕ) → NoNewline p → record_start_from fuel p end ≡ 0
unfolding record_start_from
record_start_from_none zero p end h = refl
record_start_from_none (suc fuel) p end h = elim (dec_lt 0 end) [
  | yes more ↦
      let start = end - block_size in
      let filled : (end == 0) ≡ false = ground arith in
      rw (filled, block_behind [] p start (end - start) h (omega arith))
        (record_start_from_none fuel p start h)
  | no empty ↦ let done : (end == 0) ≡ true = ground arith in rw done refl
]

-- Behind a line end and in front of a text with no newline, `finalRecordStart` finds the
-- position behind that newline; for a text with no newline it finds 0.
pub final_record_start_lem :
    (t p : Bytes)
    → NoNewline p
    → (final_record_start ((t ++ 10 ∷ []) ++ p) ≡ suc (length t)) × (final_record_start p ≡ 0)
unfolding final_record_start
final_record_start_lem t p h =
    let f = (t ++ 10 ∷ []) ++ p in
    let size : length t < length f =
      omega (arith, length-append (t ++ 10 ∷ []) p, length-append t (10 ∷ [])) in
    (
      record_start_from_lem (length f) t p (length f) h size (omega arith),
      record_start_from_none (length p) p (length p) h,
    )
