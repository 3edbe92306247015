-- ===== src/Semver/Order/Tags.antt =====
-- The order of prereleases, identifier by identifier.
use notch.Prelude.{◌≡◌, refl, List, [], ◌∷◌, arith, if◌then◌else◌, All}
use notch.Prelude.Int.{ℤ, pos}
use notch.Go.Bytes.{Bytes, bytes_eq, bytes_eq_iff, bytes_eq_refl}
use notch.Semver.{minus_one, compare_prerelease, compare_tags}
use notch.Semver.Order.Identifiers.{
  negate, InRange, less, compare_identifier-less, less-swap, less_trans, less_irrefl,
}

bytes_eq-sym : (l r : Bytes) → bytes_eq l r ≡ bytes_eq r l
bytes_eq-sym l r = ground (arith, bytes_eq_iff l r, bytes_eq_iff r l)

-- The step of the loop, by the order of the two identifiers.
abbrev step : Bytes → Bytes → ℤ → ℤ
step l r rest = if bytes_eq l r then rest else if less l r then minus_one else pos 1

compare_prerelease-step :
    (l r : Bytes) (ls rs : List Bytes)
    → InRange l
    → InRange r
    → compare_prerelease (l ∷ ls) (r ∷ rs) ≡ step l r (compare_prerelease ls rs)
unfolding compare_prerelease
compare_prerelease-step l r ls rs hl hr = rw (compare_identifier-less l r hl hr)

step-swap :
    (l r : Bytes) (a b : ℤ)
    → InRange l
    → InRange r
    → b ≡ negate a
    → step r l b ≡ negate (step l r a)
step-swap l r a b hl hr e = ground (arith, bytes_eq-sym l r, less-swap l r hl hr)

compare_prerelease-swap :
    (ls rs : List Bytes)
    → All InRange ls
    → All InRange rs
    → compare_prerelease rs ls ≡ negate (compare_prerelease ls rs)
compare_prerelease-swap [] [] hl hr = unfold compare_prerelease in refl
compare_prerelease-swap [] (r ∷ rs) hl hr = unfold compare_prerelease in refl
compare_prerelease-swap (l ∷ ls) [] hl hr = unfold compare_prerelease in refl
compare_prerelease-swap (l ∷ ls) (r ∷ rs) (hl, hls) (hr, hrs) =
    rw (compare_prerelease-step l r ls rs hl hr, compare_prerelease-step r l rs ls hr hl)
      (step-swap l r _ _ hl hr (compare_prerelease-swap ls rs hls hrs))

compare_prerelease-zero :
    (ls rs : List Bytes)
    → All InRange ls
    → All InRange rs
    → compare_prerelease ls rs ≡ pos 0
    → ls ≡ rs
compare_prerelease-zero [] [] hl hr e = refl
compare_prerelease-zero [] (r ∷ rs) hl hr e = unfold compare_prerelease in cc e
compare_prerelease-zero (l ∷ ls) [] hl hr e = unfold compare_prerelease in cc e
compare_prerelease-zero (l ∷ ls) (r ∷ rs) (hl, hls) (hr, hrs) e = ground (
  arith,
  compare_prerelease-step l r ls rs hl hr,
  bytes_eq_iff l r,
  compare_prerelease-zero ls rs hls hrs,
)

compare_prerelease_refl : (ls : List Bytes) → compare_prerelease ls ls ≡ pos 0
unfolding compare_prerelease
compare_prerelease_refl [] = refl
compare_prerelease_refl (l ∷ ls) = rw (bytes_eq_refl l) (compare_prerelease_refl ls)

step_trans :
    (l m r : Bytes) (a b c : ℤ)
    → (a ≡ minus_one → b ≡ minus_one → c ≡ minus_one)
    → step l m a ≡ minus_one
    → step m r b ≡ minus_one
    → step l r c ≡ minus_one
step_trans l m r a b c h p q = ground (
  arith,
  bytes_eq_iff l m,
  bytes_eq_iff m r,
  bytes_eq_iff l r,
  less_trans l m r,
  less_trans m l m,
  less_irrefl m,
  less_irrefl l,
)

compare_prerelease_trans :
    (ls ms rs : List Bytes)
    → All InRange ls
    → All InRange ms
    → All InRange rs
    → compare_prerelease ls ms ≡ minus_one
    → compare_prerelease ms rs ≡ minus_one
    → compare_prerelease ls rs ≡ minus_one
compare_prerelease_trans ls [] [] hl hm hr p q = unfold compare_prerelease in cc
compare_prerelease_trans ls (m ∷ ms) [] hl hm hr p q = unfold compare_prerelease in cc
compare_prerelease_trans [] [] (r ∷ rs) hl hm hr p q = unfold compare_prerelease in cc
compare_prerelease_trans (l ∷ ls) [] (r ∷ rs) hl hm hr p q = unfold compare_prerelease in cc
compare_prerelease_trans [] (m ∷ ms) (r ∷ rs) hl hm hr p q = unfold compare_prerelease in refl
compare_prerelease_trans (l ∷ ls) (m ∷ ms) (r ∷ rs) (hl, hls) (hm, hms) (hr, hrs) p q =
    rw (compare_prerelease-step l r ls rs hl hr) (
      step_trans l m r _ _ _ (compare_prerelease_trans ls ms rs hls hms hrs)
        (rw (compare_prerelease-step l m ls ms hl hm) at p)
        (rw (compare_prerelease-step m r ms rs hm hr) at q))

pub compare_tags-swap :
    (ls rs : List Bytes)
    → All InRange ls
    → All InRange rs
    → compare_tags rs ls ≡ negate (compare_tags ls rs)
unfolding compare_tags
compare_tags-swap [] [] hl hr = refl
compare_tags-swap [] (r ∷ rs) hl hr = refl
compare_tags-swap (l ∷ ls) [] hl hr = refl
compare_tags-swap (l ∷ ls) (r ∷ rs) hl hr = compare_prerelease-swap (l ∷ ls) (r ∷ rs) hl hr

pub compare_tags-zero :
    (ls rs : List Bytes) → All InRange ls → All InRange rs → compare_tags ls rs ≡ pos 0 → ls ≡ rs
unfolding compare_tags
compare_tags-zero [] [] hl hr e = refl
compare_tags-zero [] (r ∷ rs) hl hr e = cc
compare_tags-zero (l ∷ ls) [] hl hr e = cc
compare_tags-zero (l ∷ ls) (r ∷ rs) hl hr e = compare_prerelease-zero (l ∷ ls) (r ∷ rs) hl hr e

pub compare_tags_refl : (ls : List Bytes) → compare_tags ls ls ≡ pos 0
unfolding compare_tags
compare_tags_refl [] = refl
compare_tags_refl (l ∷ ls) = compare_prerelease_refl (l ∷ ls)

pub compare_tags_trans :
    (ls ms rs : List Bytes)
    → All InRange ls
    → All InRange ms
    → All InRange rs
    → compare_tags ls ms ≡ minus_one
    → compare_tags ms rs ≡ minus_one
    → compare_tags ls rs ≡ minus_one
unfolding compare_tags
compare_tags_trans [] [] rs hl hm hr p q = cc
compare_tags_trans [] (m ∷ ms) rs hl hm hr p q = cc
compare_tags_trans (l ∷ ls) ms [] hl hm hr p q = refl
compare_tags_trans (l ∷ ls) [] (r ∷ rs) hl hm hr p q = cc
compare_tags_trans (l ∷ ls) (m ∷ ms) (r ∷ rs) hl hm hr p q =
    compare_prerelease_trans (l ∷ ls) (m ∷ ms) (r ∷ rs) hl hm hr p q
