-- ===== src/Session/Listing/Sorted.antt =====
-- What `List` returns.
use mathlib.Core.List.{Perm}
use mathlib.Core.List.Perm
use notch.Prelude.{
  ◌<◌, ◌⊎◌, ◌≡◌, refl, Bool, true, false, not, ◌&&◌, some, List, [], ◌∷◌, arith, if_split, All,
  if◌then◌else◌, Bool-cases, inl, inr,
}
use notch.Go.Bytes.{Bytes}
use notch.Go.Strings.{bytes_lt}
use notch.Session.{Codec, ok}
use notch.Session.Listing.{
  File, Info, or_skip, read_light, is_session_name, scan_files, newer, insert_info, sort_infos,
  list_sessions,
}

bytes_lt_asym : (xs ys : Bytes) → bytes_lt xs ys ≡ true → bytes_lt ys xs ≡ false
unfolding bytes_lt
bytes_lt_asym xs [] h = ground arith
bytes_lt_asym [] (y ∷ ys) h = refl
bytes_lt_asym (x ∷ xs) (y ∷ ys) h = ground (arith, bytes_lt_asym xs ys)

-- `x ≤ y` and `y ≤ z` give `x ≤ z`.
bytes_lt_trans :
    (xs ys zs : Bytes) → bytes_lt ys xs ≡ false → bytes_lt zs ys ≡ false → bytes_lt zs xs ≡ false
unfolding bytes_lt
bytes_lt_trans [] ys zs h k = refl
bytes_lt_trans (x ∷ xs) [] zs h k = ground arith
bytes_lt_trans (x ∷ xs) (y ∷ ys) [] h k = ground arith
bytes_lt_trans (x ∷ xs) (y ∷ ys) (z ∷ zs) h k = ground (arith, bytes_lt_trans xs ys zs)

newer_asym : (a b : Info) → newer a b ≡ true → newer b a ≡ false
unfolding newer
newer_asym a b h = ground (arith, bytes_lt_asym b.id a.id)

newer_trans : (a b c : Info) → newer b a ≡ false → newer c b ≡ false → newer c a ≡ false
unfolding newer
newer_trans a b c h k = ground (arith, bytes_lt_trans c.id b.id a.id)

abbrev pub InOrder : List Info → Type 0
InOrder [] = Unit
InOrder (i ∷ is) = All (λ j. newer j i ≡ false) is × InOrder is

All-insert_info :
    (P : Info → Type 0) (i : Info) (is : List Info) → P i → All P is → All P (insert_info i is)
unfolding insert_info
All-insert_info P i [] p h = (p, tt)
All-insert_info P i (j ∷ js) p (q, h) =
    if_split (All P) (newer j i) _ _ (λ e. (q, All-insert_info P i js p h)) (λ e. (p, (q, h)))

All-older :
    (i j : Info) (js : List Info)
    → newer j i ≡ false
    → All (λ k. newer k j ≡ false) js
    → All (λ k. newer k i ≡ false) js
All-older i j [] e h = tt
All-older i j (k ∷ ks) e (q, h) = (newer_trans i j k e q, All-older i j ks e h)

insert_info-InOrder : (i : Info) (is : List Info) → InOrder is → InOrder (insert_info i is)
unfolding insert_info
insert_info-InOrder i [] h = (tt, tt)
insert_info-InOrder i (j ∷ js) (q, h) =
    if_split InOrder (newer j i) _ _
      (λ e. (
        All-insert_info (λ k. newer k j ≡ false) i js (newer_asym j i e) q,
        insert_info-InOrder i js h,
      ))
      (λ e. ((e, All-older i j js e q), (q, h)))

sort_infos-InOrder : (is : List Info) → InOrder (sort_infos is)
unfolding sort_infos
sort_infos-InOrder [] = tt
sort_infos-InOrder (i ∷ is) = insert_info-InOrder i (sort_infos is) (sort_infos-InOrder is)

-- No session is newer than one in front of it, nor has it one time with that and a greater ID.
abbrev pub IsBehind : Info → Info → Type 0
IsBehind i j =
    (j.modified_at < i.modified_at)
    ⊎ ((j.modified_at ≡ i.modified_at) × (bytes_lt i.id j.id ≡ false))

abbrev pub NewestFirst : List Info → Type 0
NewestFirst [] = Unit
NewestFirst (i ∷ is) = All (IsBehind i) is × NewestFirst is

newer-IsBehind : (i j : Info) → newer j i ≡ false → IsBehind i j
unfolding newer
newer-IsBehind i j h = ground arith

All-IsBehind : (i : Info) (js : List Info) → All (λ j. newer j i ≡ false) js → All (IsBehind i) js
All-IsBehind i [] h = tt
All-IsBehind i (j ∷ js) (e, h) = (newer-IsBehind i j e, All-IsBehind i js h)

InOrder-NewestFirst : (is : List Info) → InOrder is → NewestFirst is
InOrder-NewestFirst [] h = tt
InOrder-NewestFirst (i ∷ is) (a, h) = (All-IsBehind i is a, InOrder-NewestFirst is h)

insert_info-Perm : (i : Info) (is : List Info) → Perm (insert_info i is) (i ∷ is)
unfolding insert_info
insert_info-Perm i [] = Perm.refl (i ∷ [])
insert_info-Perm i (j ∷ js) =
    if_split (λ r. Perm r (i ∷ j ∷ js)) (newer j i) _ _
      (λ e. Perm.trans (Perm.cons j (insert_info-Perm i js)) (Perm.swap i j js))
      (λ e. Perm.refl (i ∷ j ∷ js))

sort_infos-Perm : (is : List Info) → Perm (sort_infos is) is
unfolding sort_infos
sort_infos-Perm [] = Perm.refl []
sort_infos-Perm (i ∷ is) =
    Perm.trans (insert_info-Perm i (sort_infos is)) (Perm.cons i (sort_infos-Perm is))

abbrev pub is_session : File → Bool
is_session f = not f.is_dir && is_session_name f.name

-- Each session file opens, is inspected and closes.
abbrev pub IsAccessible : File → Type 0
IsAccessible f = is_session f ≡ true → (f.opens && f.stats && f.closes) ≡ true

-- The sessions that can be read, in the directory's order.
abbrev pub readable : Codec → List File → List Info
readable c [] = []
readable c (f ∷ fs) =
    if is_session f then or_skip f (read_light c f.contents) (readable c fs) else readable c fs

scan_files-readable :
    (c : Codec) (fs : List File) → All IsAccessible fs → scan_files c fs ≡ ok (readable c fs)
unfolding scan_files
scan_files-readable c [] h = refl
scan_files-readable c (f ∷ fs) (a, h) =
    rw (scan_files-readable c fs h) (elim (Bool-cases (is_session f)) [
      | inl e ↦ ground (arith, e, a e)
      | inr e ↦ ground (arith, e)
    ])

-- Where each session file opens, is inspected and closes, the listing has the sessions that can
-- be read, whatever files are damaged, each once, and none is newer than one in front of it; at
-- one time the greater ID counts as newer.
pub list_sessions_lem :
    (c : Codec) (fs : List File)
    → All IsAccessible fs
    → (infos : List Info) × (list_sessions c (some fs) ≡ ok infos)
      × Perm infos (readable c fs)
      × NewestFirst infos
unfolding list_sessions
list_sessions_lem c fs h = (
  sort_infos (readable c fs),
  rw (scan_files-readable c fs h) refl,
  sort_infos-Perm (readable c fs),
  InOrder-NewestFirst _ (sort_infos-InOrder (readable c fs)),
)
