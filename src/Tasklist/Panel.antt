-- ===== src/Tasklist/Panel.antt =====
-- `panelLines`, `render` and `execute`: what the host shows of the tasks.
use notch.Prelude.{
  ℕ, zero, suc, ◌+◌, ◌-◌, ◌≤◌, ◌<◌, ◌≡◌, refl, sym, ap, ◌∙◌, Bool, true, false, ◌||◌, Option, none,
  some, List, [], ◌∷◌, ◌++◌, map, ◌==◌, ltb, leb, arith, if◌then◌else◌, length, length-map,
  length-append, length-take, take, any, append-nil, dec_lt, take-append_exact,
}
use notch.Go.Bytes.{Bytes, codes, bytes_eq}
use notch.Go.Strconv.{itoa}
use notch.Tasklist.{Task, Summary, count, count_from, count_one}
use notch.Tasklist.Tasks.{refused, tasks, accept}

-- The icons and the mark of a medium priority in UTF-8.
unfoldable pub icon : Bytes → Bytes
unfolding bytes_eq
icon status =
    if bytes_eq status (codes "in_progress")
    then 0xE2 ∷ 0x97 ∷ 0x8F ∷ []
    else if bytes_eq status (codes "completed")
    then 0xE2 ∷ 0x9C ∷ 0x93 ∷ []
    else if bytes_eq status (codes "cancelled")
    then 0xE2 ∷ 0x8A ∷ 0x98 ∷ []
    else 0xE2 ∷ 0x97 ∷ 0x8B ∷ []

unfoldable pub priority_mark : Bytes → Bytes
unfolding bytes_eq
priority_mark p =
    if bytes_eq p (codes "high")
    then codes "! "
    else if bytes_eq p (codes "medium")
    then 0xE2 ∷ 0x80 ∷ 0xA2 ∷ 0x20 ∷ []
    else []

unfoldable pub panel_line : Task → Bytes
unfolding icon priority_mark
panel_line t = icon t.status ++ codes " " ++ priority_mark t.priority ++ t.content

unfoldable pub more_line : ℕ → Bytes
unfolding itoa
more_line n = (0xE2 ∷ 0x80 ∷ 0xA6 ∷ 0x20 ∷ []) ++ itoa n ++ codes " more"

-- The loop over the first `count` tasks, and the line behind it.
unfoldable pub lines_up_to : ℕ → List Task → List Bytes
unfolding panel_line more_line
lines_up_to count ts =
    map panel_line (take count ts)
    ++ (if ltb count (length ts) then more_line (length ts - count) ∷ [] else [])

unfoldable pub panel_lines : List Task → List Bytes
unfolding lines_up_to
panel_lines ts = lines_up_to (if ltb 14 (length ts) then 14 else length ts) ts

unfoldable pub render_line : Task → Bytes
render_line t =
    let priority = if length t.priority == 0 then [] else 0x20 ∷ t.priority in
    codes "- [" ++ t.status ++ codes "] " ++ t.id ++ codes ":" ++ priority ++ codes " " ++ t.content

-- strings.Join with newlines.
unfoldable pub join_lines : List Bytes → Bytes
join_lines [] = []
join_lines (l ∷ ls) = let rest = join_lines ls in if length ls == 0 then l else l ++ 10 ∷ rest

unfoldable pub render : List Task → Bytes
unfolding render_line join_lines
render [] = codes "Task list cleared."
render (t ∷ ts) = join_lines (map render_line (t ∷ ts))

-- What the host keeps for the key "tasks".
pub record Host : Type 0 where
  pub status : Bytes
  pub panel_title : Bytes
  pub panel : List Bytes

unfoldable pub progress : Summary → Bytes
unfolding itoa
progress s = itoa s.completed ++ b'/' ∷ itoa s.total

unfoldable pub show : List Task → Host
unfolding count progress panel_lines
show ts =
    let summary = count ts in
    if ltb 0 summary.pending || ltb 0 summary.in_progress
    then record {
      status = codes "tasks " ++ progress summary;
      panel_title = codes "Tasks " ++ progress summary;
      panel = panel_lines ts;
    }
    else record { status = []; panel_title = []; panel = [] }

-- `execute` behind json.Decode: the host, with the content of the result or the error.
unfoldable pub execute : (Bytes → Bytes) → Option (List Task) → Host → Host × (Option Bytes)
unfolding accept show render
execute to_lower todos host = elim (accept to_lower todos) [
  | refused e ↦ (host, none)
  | tasks ts ↦ (show ts, some (render ts))
]

-- The lines where the first `count` tasks leave others behind, and where they leave none.
cut_lines :
    (count : ℕ) (ts : List Task)
    → lines_up_to count ts
      ≡ map panel_line (take count ts)
        ++ (if ltb count (length ts) then more_line (length ts - count) ∷ [] else [])
unfolding lines_up_to
cut_lines count ts = refl

panel_more :
    (ts : List Task)
    → 14 < length ts
    → panel_lines ts ≡ map panel_line (take 14 ts) ++ more_line (length ts - 14) ∷ []
unfolding panel_lines
panel_more ts h =
    let long : ltb 14 (length ts) ≡ true = ground arith in
    let rest = more_line (length ts - 14) ∷ [] in
    ap (λ b. lines_up_to (if b then 14 else length ts) ts) long
    ∙ cut_lines 14 ts
    ∙ ap (λ b. map panel_line (take 14 ts) ++ (if b then rest else [])) long

take_all {ℓ} : {A : Type ℓ} (n : ℕ) (xs : List A) → length xs ≤ n → take n xs ≡ xs
take_all zero [] h = refl
take_all zero (x ∷ xs) h = absurd (omega arith)
take_all (suc n) [] h = refl
take_all (suc n) (x ∷ xs) h = ap (λ k. x ∷ k) (take_all n xs (omega arith))

panel_all : (ts : List Task) → length ts ≤ 14 → panel_lines ts ≡ map panel_line ts
unfolding panel_lines
panel_all ts h =
    let short : ltb 14 (length ts) ≡ false = ground arith in
    let none_left : ltb (length ts) (length ts) ≡ false = ground arith in
    let all = take (length ts) ts in
    let rest = more_line (length ts - length ts) ∷ [] in
    ap (λ b. lines_up_to (if b then 14 else length ts) ts) short
    ∙ cut_lines (length ts) ts
    ∙ ap (λ b. map panel_line all ++ (if b then rest else [])) none_left
    ∙ append-nil (map panel_line all)
    ∙ ap (map panel_line) (take_all (length ts) ts (omega arith))

-- Each of the first 14 tasks has its line in the panel, in order; where there are more, there is
-- one line more.
pub panel_lines_lem :
    (ts : List Task)
    → (take 14 (panel_lines ts) ≡ map panel_line (take 14 ts))
      × (length (panel_lines ts) ≡ (if leb (length ts) 14 then length ts else 15))
panel_lines_lem ts = elim (dec_lt 14 (length ts)) [
  | yes more ↦
      let shown = map panel_line (take 14 ts) in
      let rest = more_line (length ts - 14) ∷ [] in
      let size : length shown ≡ 14 =
        omega (arith, length-map (take 14 ts) panel_line, length-take 14 ts) in
      let long : leb (length ts) 14 ≡ false = ground arith in
      (
        ap (take 14) (panel_more ts more)
            ∙ ap (λ n. take n (shown ++ rest)) (sym size)
            ∙ take-append_exact shown rest,
        rw long (ap length (panel_more ts more) ∙ length-append shown rest ∙ ap (λ n. n + 1) size),
      )
  | no all ↦
      let fits : length ts ≤ 14 = omega arith in
      let short : leb (length ts) 14 ≡ true = ground arith in
      let size : length (map panel_line ts) ≤ 14 = omega (arith, length-map ts panel_line) in
      (
        ap (take 14) (panel_all ts fits)
            ∙ take_all 14 (map panel_line ts) size
            ∙ sym (ap (map panel_line) (take_all 14 ts fits)),
        rw short (ap length (panel_all ts fits) ∙ length-map ts panel_line),
      )
]

abbrev pub is_open : Task → Bool
is_open t = bytes_eq t.status (codes "pending") || bytes_eq t.status (codes "in_progress")

abbrev has_open : Summary → Bool
has_open s = ltb 0 s.pending || ltb 0 s.in_progress

count_one-open :
    (t : Task) (s : Summary) → has_open (count_one t.status s) ≡ (has_open s || is_open t)
unfolding count_one
count_one-open t s = ground arith

count_from-open :
    (ts : List Task) (s : Summary) → has_open (count_from ts s) ≡ (has_open s || any is_open ts)
unfolding count_from
count_from-open [] s = ground arith
count_from-open (t ∷ ts) s =
    count_from-open ts (count_one t.status s) ∙ ground (arith, count_one-open t s)

positive : (n : ℕ) → (suc n == 0) ≡ false
positive n = ground arith

show_busy :
    (ts : List Task)
    → has_open (count ts) ≡ true
    → show ts ≡ record {
      status = codes "tasks " ++ progress (count ts);
      panel_title = codes "Tasks " ++ progress (count ts);
      panel = panel_lines ts;
    }
unfolding show
show_busy ts h = rw (show, h) refl

show_idle :
    (ts : List Task)
    → has_open (count ts) ≡ false
    → show ts ≡ record { status = []; panel_title = []; panel = [] }
unfolding show
show_idle ts h = rw (show, h) refl

-- While a task is pending or in progress the host shows a status that is not empty and the lines
-- of the panel; else it shows nothing.
pub show_lem :
    (ts : List Task)
    → ((any is_open ts ≡ true)
        → ((length (show ts).status == 0) ≡ false) × ((show ts).panel ≡ panel_lines ts))
      × ((any is_open ts ≡ false) → show ts ≡ record { status = []; panel_title = []; panel = [] })
unfolding count
show_lem ts =
    let empty : Summary = record {
      total = length ts;
      pending = 0;
      in_progress = 0;
      completed = 0;
      cancelled = 0;
    } in
    let same : has_open (count ts) ≡ any is_open ts = count_from-open ts empty in
    (
      λ h.
          let busy : has_open (count ts) ≡ true = same ∙ h in
          (
            ap (λ k. length k.status == 0) (show_busy ts busy) ∙ positive _,
            ap (λ k. k.panel) (show_busy ts busy),
          ),
      λ h. let idle : has_open (count ts) ≡ false = same ∙ h in show_idle ts idle,
    )

-- Each of the first 14 tasks has its line in the panel, in order; where there are more, there is
-- one line more. While a task is pending or in progress the host shows a status that is not
-- empty and the lines of the panel; else it shows nothing.
pub panel_lem :
    (ts : List Task)
    → (take 14 (panel_lines ts) ≡ map panel_line (take 14 ts))
      × (length (panel_lines ts) ≡ (if leb (length ts) 14 then length ts else 15))
      × ((any is_open ts ≡ true)
          → ((length (show ts).status == 0) ≡ false) × ((show ts).panel ≡ panel_lines ts))
      × ((any is_open ts ≡ false) → show ts ≡ record { status = []; panel_title = []; panel = [] })
panel_lem ts =
    let (lines, size) = panel_lines_lem ts in
    let (busy, idle) = show_lem ts in (lines, size, busy, idle)
