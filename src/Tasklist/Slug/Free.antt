-- ===== src/Tasklist/Slug/Free.antt =====
-- The loop of `uniqueID` over the suffixes.
use mathlib.Core.Path.{subst}
use notch.Prelude.{
  ℕ, zero, suc, ◌+◌, ◌≤◌, ◌<◌, ◌≡◌, refl, sym, ap, ◌∙◌, true, false, List, [], ◌∷◌, ◌==◌, arith,
  length, length-append, drop, drop-append_exact, Bool-cases, inl, inr, dec_lt, if◌then◌else◌,
}
use notch.Go.Bytes.{Bytes, bytes_eq, bytes_eq_iff}
use notch.Go.Strconv.{itoa, itoa-injective}
use notch.Tasklist.Slug.{is_used, candidate, find_free, slug, unique_id}

candidate-injective : (base : Bytes) (j k : ℕ) → candidate base j ≡ candidate base k → j ≡ k
unfolding candidate
candidate-injective base zero zero e = refl
candidate-injective base zero (suc k) e =
    absurd (omega (arith, ap length e, length-append base (b'-' ∷ itoa (k + 2))))
candidate-injective base (suc j) zero e =
    absurd (omega (arith, ap length e, length-append base (b'-' ∷ itoa (j + 2))))
candidate-injective base (suc j) (suc k) e =
    let left = b'-' ∷ itoa (j + 2) in
    let right = b'-' ∷ itoa (k + 2) in
    let tails : left ≡ right =
      sym (drop-append_exact base left)
      ∙ ap (drop (length base)) e
      ∙ drop-append_exact base right in
    omega (arith, itoa-injective (j + 2) (k + 2) (ap (drop 1) tails))

different :
    (base : Bytes) (j k : ℕ) → k < j → bytes_eq (candidate base j) (candidate base k) ≡ false
different base j k h = elim (Bool-cases (bytes_eq (candidate base j) (candidate base k))) [
  | inl same ↦
      let e =
        candidate-injective base j k
          ((bytes_eq_iff (candidate base j) (candidate base k)).0 same) in
      absurd (omega arith)
  | inr other ↦ other
]

remove : Bytes → List Bytes → List Bytes
remove x [] = []
remove x (u ∷ us) = let rest = remove x us in if bytes_eq x u then us else u ∷ rest

length-remove :
    (x : Bytes) (us : List Bytes) → is_used us x ≡ true → suc (length (remove x us)) ≡ length us
unfolding remove is_used
length-remove x [] h = absurd (cc h)
length-remove x (u ∷ us) h = ground (arith, length-remove x us)

is_used-remove :
    (x y : Bytes) (us : List Bytes)
    → is_used us y ≡ true
    → bytes_eq y x ≡ false
    → is_used (remove x us) y ≡ true
unfolding remove is_used
is_used-remove x y [] h n = h
is_used-remove x y (u ∷ us) h n = elim (Bool-cases (bytes_eq x u)) [
  | inl same ↦
      let e : bytes_eq y u ≡ false = ap (bytes_eq y) (sym ((bytes_eq_iff x u).0 same)) ∙ n in
      rw same (ground (arith, e))
  | inr other ↦ rw other (ground (arith, is_used-remove x y us))
]

-- The first candidate from number `k` on that is not used.
abbrev pub IsFirstFree : List Bytes → Bytes → ℕ → Bytes → Type 0
IsFirstFree used base k id =
    (m : ℕ) × (k ≤ m)
    × (id ≡ candidate base m)
    × (is_used used id ≡ false)
    × ((j : ℕ) → k ≤ j → j < m → is_used used (candidate base j) ≡ true)

find_free-IsFirstFree :
    (fuel : ℕ) (used us : List Bytes) (base : Bytes) (k : ℕ)
    → length us < fuel
    → ((j : ℕ)
        → k ≤ j
        → is_used used (candidate base j) ≡ true
        → is_used us (candidate base j) ≡ true)
    → IsFirstFree used base k (find_free fuel used base k)
unfolding find_free
find_free-IsFirstFree zero used us base k enough within = absurd (omega arith)
find_free-IsFirstFree (suc fuel) used us base k enough within =
    elim (Bool-cases (is_used used (candidate base k))) [
      | inr free ↦ rw free ((k, omega arith, refl, free, λ j low high. absurd (omega arith)))
      | inl busy ↦
          let c = candidate base k in
          let fewer = length-remove c us (within k (omega arith) busy) in
          let (m, low, e, free, before) =
            find_free-IsFirstFree fuel used (remove c us) base (suc k) (omega (arith, fewer))
              (λ j h taken.
                is_used-remove c (candidate base j) us (within j (omega arith) taken)
                  (different base j k (omega arith))) in
          rw busy (
            m,
            omega arith,
            e,
            free,
            λ j hj hm. elim (dec_lt k j) [
              | yes behind ↦ before j (omega arith) hm
              | no here ↦
                  let same : k ≡ j = omega arith in
                  subst (λ i. is_used used (candidate base i) ≡ true) same busy
            ],
          )
    ]

-- The slug of the value, or the fallback where the slug is empty.
abbrev pub id_base : (Bytes → Bytes) → Bytes → Bytes → Bytes
id_base to_lower value fallback =
    let id = slug to_lower value in if length id == 0 then fallback else id

-- `uniqueID` returns the base, or with a suffix the first of base-2, base-3 and so on, that is
-- not used: the loop ends, and all candidates in front of the result are used.
pub unique_id-IsFirstFree :
    (to_lower : Bytes → Bytes) (value : Bytes) (used : List Bytes) (fallback : Bytes)
    → IsFirstFree used (id_base to_lower value fallback) 0 (unique_id to_lower value used fallback)
unfolding unique_id
unique_id-IsFirstFree to_lower value used fallback =
    find_free-IsFirstFree (suc (length used)) used used (id_base to_lower value fallback) 0
      (omega arith) (λ j h taken. taken)
