-- ===== src/Context/Window/Fits.antt =====
-- The window that the two first loops choose, and that it needs no shrinking.
use notch.Prelude.{
  ℕ, zero, suc, ◌+◌, ◌-◌, ◌/◌, ◌≤◌, ◌<◌, ◌≡◌, refl, ap, ◌⊎◌, inl, inr, some, List, [], ◌∷◌, arith,
  leb, Bool-cases, length, take, drop, get_or, length-append, if_split, tests, ◌∙◌, Option, le→leb,
  leb→le,
}
use notch.Go.Bytes.{Bytes}
use notch.Model.{Message}
use notch.Context.Window.{
  Marshal, marshal_messages, sizes, prefix_end, suffix_start, omission, build, encoded, if_within,
  shrink_suffix, Serialized, shrink, cut_middle, cut_sized, fit_conversation,
}
use notch.Context.Window.Sizes.{
  total, total-append, total-drop, length-drop_all, Sized, sizes-Sized, Sized-append, Sized-take,
  Sized-drop, length-Sized, marshal_messages-Sized, marshal_messages_encodes, one_more,
}

-- The prefix is counted, and it is empty or within its budget.
abbrev pub IsPrefix : List ℕ → ℕ → ℕ → ℕ × ℕ → Type 0
IsPrefix zs budget used (start, counted) =
    (start ≤ length zs)
    × (counted ≡ used + total (take start zs))
    × ((counted ≤ budget) ⊎ (start ≡ 0))

IsPrefix-cons :
    (z : ℕ) (zs : List ℕ) (budget used : ℕ) (p : ℕ × ℕ)
    → used + z + 1 ≤ budget
    → IsPrefix zs budget (used + z + 1) p
    → IsPrefix (z ∷ zs) budget used (suc p.0, p.1)
IsPrefix-cons z zs budget used (start, counted) u (a, b, inl c) = (omega arith, omega arith, inl c)
IsPrefix-cons z zs budget used (zero, counted) u (a, b, inr c) =
    (omega arith, omega arith, inl (omega arith))
IsPrefix-cons z zs budget used (suc start, counted) u (a, b, inr c) = omega arith

pub prefix_end-IsPrefix :
    (zs : List ℕ) (budget used : ℕ) → IsPrefix zs budget used (prefix_end zs budget used)
unfolding prefix_end
prefix_end-IsPrefix [] budget used = (omega arith, omega arith, inr refl)
prefix_end-IsPrefix (z ∷ zs) budget used =
    if_split (IsPrefix (z ∷ zs) budget used) (leb (used + z + 1) budget) _ _
      (λ e.
        IsPrefix-cons z zs budget used (prefix_end zs budget (used + z + 1)) (omega (tests, e))
          (prefix_end-IsPrefix zs budget (used + z + 1)))
      (λ e. (omega arith, omega arith, inr refl))

IsPrefix-within :
    (limit : ℕ) (zs : List ℕ) (start used : ℕ)
    → 258 ≤ limit
    → IsPrefix zs (limit / 3) 258 (start, used)
    → used ≤ limit
IsPrefix-within limit zs start used l (a, b, inl c) = omega arith
IsPrefix-within limit zs zero used l (a, b, inr c) = omega arith
IsPrefix-within limit zs (suc start) used l (a, b, inr c) = omega arith

-- The messages behind the suffix's start fit, and one more would not.
abbrev pub IsSuffix : ℕ → List ℕ → ℕ → ℕ → ℕ → ℕ → Type 0
IsSuffix limit zs start k used end =
    (start ≤ end)
    × (end ≤ start + k)
    × (used + total (drop end zs) ≤ limit + total (drop (start + k) zs))
    × ((end ≡ start) ⊎ (limit + total (drop (start + k) zs) < used + total (drop (end - 1) zs)))

total-drop_at :
    (zs : List ℕ) (start k : ℕ)
    → start + suc k ≤ length zs
    → total (drop (start + k) zs) ≡ get_or zs (start + k) 0 + 1 + total (drop (start + suc k) zs)
total-drop_at zs start k h =
    let q : start + suc k ≡ suc (start + k) = omega arith in
    rw q (total-drop zs (start + k) (omega arith))

IsSuffix-step :
    (limit : ℕ) (zs : List ℕ) (start k used end : ℕ)
    → start + suc k ≤ length zs
    → IsSuffix limit zs start k (used + get_or zs (start + k) 0 + 1) end
    → IsSuffix limit zs start (suc k) used end
IsSuffix-step limit zs start k used end h (a, b, c, inl d) =
    (a, omega arith, omega (arith, total-drop_at zs start k), inl d)
IsSuffix-step limit zs start k used end h (a, b, c, inr d) = (
  a,
  omega arith,
  omega (arith, total-drop_at zs start k),
  inr (omega (arith, total-drop_at zs start k)),
)

pub suffix_start-IsSuffix :
    (limit : ℕ) (zs : List ℕ) (start k used : ℕ)
    → start + k ≤ length zs
    → used ≤ limit
    → IsSuffix limit zs start k used (suffix_start limit zs start k used)
unfolding suffix_start
suffix_start-IsSuffix limit zs start zero used h u =
    let z : start + 0 ≡ start = omega arith in
    (omega arith, omega arith, rw z (omega arith), inl refl)
suffix_start-IsSuffix limit zs start (suc k) used h u =
    if_split (IsSuffix limit zs start (suc k) used) (leb (used + get_or zs (start + k) 0 + 1) limit)
      _ _
      (λ e.
        IsSuffix-step limit zs start k used _ h
          (suffix_start-IsSuffix limit zs start k _ (omega arith) (omega (tests, e))))
      (λ e.
        let q : start + suc k - 1 ≡ start + k = omega arith in
        (
          omega arith,
          omega arith,
          omega arith,
          inr (rw q (ground (arith, e, total-drop_at zs start k h))),
        ))

if_within-first :
    (limit : ℕ) (o : Option Bytes) (next : Serialized) (s : Bytes)
    → o ≡ some s
    → length s ≤ limit
    → if_within limit o next ≡ encoded s
unfolding if_within
if_within-first limit o next s e h = rw (e, le→leb (length s) limit h) refl

module _ (j : Marshal) (limit : ℕ) (ms : List Message) where
  -- The first candidate is the answer where it fits.
  shrink-first :
      (start kept : ℕ) (s : Bytes)
      → marshal_messages j (build ms start (length ms - kept)) ≡ some s
      → length s ≤ limit
      → shrink j limit ms start kept ≡ encoded s
  unfolding shrink shrink_suffix
  shrink-first zero zero s e h =
      let z : length ms ≡ length ms - 0 = omega arith in
      if_within-first limit _ _ s (ap (λ n. marshal_messages j (build ms 0 n)) z ∙ e) h
  shrink-first zero (suc kept) s e h = if_within-first limit _ _ s e h
  shrink-first (suc start) kept s e h = if_within-first limit _ _ s e h

module _ (j : Marshal) (limit : ℕ) (ms : List Message) where
  -- The array with the marker is within the limit.
  build-fits :
      (start end : ℕ) (zs : List ℕ)
      → Sized j ms zs
      → start ≤ end
      → end ≤ length ms
      → (x : Bytes) → j.encode (omission (end - start)) ≡ some x
      → length x < 256
      → 258 + total (take start zs) + total (drop end zs) ≤ limit
      → (s : Bytes) × (marshal_messages j (build ms start end) ≡ some s) × (length s ≤ limit)
  unfolding build
  build-fits start end zs h a b x e l f =
      let sized = Sized-append j (Sized-take j start h) (one_more x e (Sized-drop j end h)) in
      let (s, es, el) =
        marshal_messages-Sized j sized
          (omega (arith, length-append (take start ms) (omission (end - start) ∷ drop end ms))) in
      (s, es, omega (arith, total-append (take start zs) (length x ∷ drop end zs)))

  -- What is kept: a prefix within a third of the limit, and a suffix that has no room for one more.
  unfoldable pub IsWindow : List ℕ → Bytes → Type 0
  IsWindow zs s =
      (start : ℕ) × (end : ℕ) × (start ≤ end)
      × (end ≤ length ms)
      × (marshal_messages j (build ms start end) ≡ some s)
      × ((258 + total (take start zs) ≤ limit / 3) ⊎ (start ≡ 0))
      × ((end ≡ start) ⊎ (limit < 258 + total (take start zs) + total (drop (end - 1) zs)))

  unfoldable pub Markers : Type 0
  Markers =
      (omitted : ℕ)
      → omitted ≤ length ms
      → (x : Bytes) × (j.encode (omission omitted) ≡ some x) × (length x < 256)

  -- The answer, for any prefix and suffix that are counted as the loops count.
  shrink-IsWindow :
      (zs : List ℕ) (start used end : ℕ)
      → Sized j ms zs
      → 258 ≤ limit
      → Markers
      → IsPrefix zs (limit / 3) 258 (start, used)
      → IsSuffix limit zs start (length ms - start) used end
      → (s : Bytes) × (shrink j limit ms start (length ms - end) ≡ encoded s)
        × (length s ≤ limit)
        × IsWindow zs s
  unfolding IsWindow Markers
  shrink-IsWindow zs start used end h l markers (pa, pb, pc) (sa, sb, sc, sd) =
      let n : length ms ≡ length zs = length-Sized j h in
      let all : start + (length ms - start) ≡ length zs = omega arith in
      let z : total (drop (start + (length ms - start)) zs) ≡ 0 = rw all (length-drop_all zs) in
      let (x, e, small) = markers (end - start) (omega arith) in
      let (s, es, el) = build-fits start end zs h sa (omega arith) x e small (omega arith) in
      let back : length ms - (length ms - end) ≡ end = omega arith in
      (
        s,
        shrink-first j limit ms start (length ms - end) s (rw back es) el,
        el,
        (
          start,
          end,
          sa,
          omega arith,
          es,
          elim pc [ inl c ↦ inl (omega (arith, c)) | inr c ↦ inr c ],
          elim sd [ inl c ↦ inl c | inr c ↦ inr (omega (arith, c)) ],
        ),
      )

  cut_middle-IsWindow :
      (zs : List ℕ)
      → Sized j ms zs
      → 258 ≤ limit
      → Markers
      → (s : Bytes) × (cut_middle j limit ms zs ≡ encoded s) × (length s ≤ limit) × IsWindow zs s
  unfolding cut_middle
  cut_middle-IsWindow zs h l markers =
      let p = prefix_end zs (limit / 3) 258 in
      let prefix = prefix_end-IsPrefix zs (limit / 3) 258 in
      let n : length ms ≡ length zs = length-Sized j h in
      let a : p.0 + (length ms - p.0) ≤ length zs = omega (arith, prefix.0) in
      shrink-IsWindow zs p.0 p.1 _ h l markers prefix (
        suffix_start-IsSuffix limit zs p.0 (length ms - p.0) p.1 a
          (IsPrefix-within limit zs p.0 p.1 l prefix))

-- Where each message encodes, as does the marker for each number of omitted messages in less
-- than 256 bytes, and the limit is at least 258, a conversation is serialized within the limit:
-- as a whole where it fits, and else as a prefix and a suffix around the marker. The prefix is
-- empty or within a third of the limit, and behind it the suffix leaves no room for one message
-- more, or nothing is omitted.
pub fit_conversation_lem :
    (j : Marshal) (limit : ℕ) (ms : List Message) (zs : List ℕ)
    → sizes j ms ≡ some zs
    → 258 ≤ limit
    → Markers j limit ms
    → (s : Bytes) × (fit_conversation j limit ms ≡ encoded s)
      × (length s ≤ limit)
      × ((marshal_messages j ms ≡ some s)
          ⊎ ((t : Bytes) × (marshal_messages j ms ≡ some t)
              × (limit < length t)
              × IsWindow j limit ms zs s))
unfolding fit_conversation if_within cut_sized
fit_conversation_lem j limit ms zs e l markers =
    let h = sizes-Sized j ms zs e in
    let (t, et) = marshal_messages_encodes j h in
    let (s, es, el, w) = cut_middle-IsWindow j limit ms zs h l markers in
    elim (Bool-cases (leb (length t) limit)) [
      | inl b ↦ (t, (rw (et, b) refl), leb→le (length t) limit b, inl et)
      | inr b ↦ (s, (rw (et, b, e) es), el, inr (t, et, ground (arith, b), w))
    ]
