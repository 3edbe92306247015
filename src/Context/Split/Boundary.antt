-- ===== src/Context/Split/Boundary.antt =====
-- The boundary that `compactionSplitLocked` returns.
use notch.Prelude.{
  ℕ, zero, suc, ◌+◌, ◌≤◌, ◌<◌, ◌≡◌, refl, ap, Bool, true, false, ◌&&◌, Option, none, some, List, [],
  ◌∷◌, arith, ◌⊎◌, inl, inr, Bool-cases, ltb, leb, if◌then◌else◌, length, get_elem?, drop,
  Option-cases, sym,
}
use notch.Model.{Message}
use notch.Context.Estimate.{estimate_message, estimate_messages}
use notch.Context.Split.{
  normal_user_prompt, Scan, or_else, scan_step, scan, choose, compaction_split,
}
use mathlib.Core.Path.{subst}

-- Message number `j` is a normal prompt of the user.
pub record IsPrompt (ms : List Message) (j : ℕ) : Type 0 where
  pub message : Message
  pub at : get_elem? ms j ≡ some message
  pub normal : normal_user_prompt message ≡ true

-- The first prompt, but for one at number 0, from which on the messages fit into `keep` tokens.
-- The list starts at number `k`.
pub record IsFirstFit (keep k : ℕ) (ms : List Message) (j : ℕ) : Type 0 where
  pub prompt : IsPrompt ms j
  pub inner : 0 < k + j
  pub fits : estimate_messages (drop j ms) ≤ keep
  pub first : (i : ℕ) → i < j → IsPrompt ms i → 0 < k + i → keep < estimate_messages (drop i ms)

pub record IsLast (ms : List Message) (j : ℕ) : Type 0 where
  pub prompt : IsPrompt ms j
  pub last : (i : ℕ) → j < i → ¬ IsPrompt ms i

abbrev SplitAt : ℕ → ℕ → List Message → Option ℕ → Type 0
SplitAt keep k ms none = (j : ℕ) → IsPrompt ms j → 0 < k + j → keep < estimate_messages (drop j ms)
SplitAt keep k ms (some i) = (j : ℕ) × (i ≡ k + j) × IsFirstFit keep k ms j

abbrev LastAt : ℕ → List Message → Option ℕ → Type 0
LastAt k ms none = (j : ℕ) → ¬ IsPrompt ms j
LastAt k ms (some i) = (j : ℕ) × (i ≡ k + j) × IsLast ms j

here : (m : Message) (ms : List Message) → normal_user_prompt m ≡ true → IsPrompt (m ∷ ms) 0
here m ms h = record { message = m; at = refl; normal = h }

there : (m : Message) (ms : List Message) (j : ℕ) → IsPrompt ms j → IsPrompt (m ∷ ms) (suc j)
there m ms j p = record { message = p.message; at = p.at; normal = p.normal }

back : (m : Message) (ms : List Message) (j : ℕ) → IsPrompt (m ∷ ms) (suc j) → IsPrompt ms j
back m ms j p = record { message = p.message; at = p.at; normal = p.normal }

normal_of_here :
    (m : Message) (ms : List Message) → IsPrompt (m ∷ ms) 0 → normal_user_prompt m ≡ true
normal_of_here m ms p = cc (p.at, p.normal)

NoSplit-shift :
    (keep k : ℕ) (m : Message) (ms : List Message)
    → (IsPrompt (m ∷ ms) 0 → 0 < k → keep < estimate_messages (m ∷ ms))
    → SplitAt keep (suc k) ms none
    → SplitAt keep k (m ∷ ms) none
NoSplit-shift keep k m ms h s zero p lt = h p (omega arith)
NoSplit-shift keep k m ms h s (suc j) p lt = s j (back m ms j p) (omega arith)

SplitAt-shift :
    (keep k : ℕ) (m : Message) (ms : List Message) (o : Option ℕ)
    → (IsPrompt (m ∷ ms) 0 → 0 < k → keep < estimate_messages (m ∷ ms))
    → SplitAt keep (suc k) ms o
    → SplitAt keep k (m ∷ ms) o
SplitAt-shift keep k m ms none h s = NoSplit-shift keep k m ms h s
SplitAt-shift keep k m ms (some i) h (j, e, f) = (
  suc j,
  omega arith,
  record { prompt = there m ms j f.prompt; inner = omega arith; fits = f.fits; first = first },
)
  where
    first :
        (i : ℕ)
        → i < suc j
        → IsPrompt (m ∷ ms) i
        → 0 < k + i
        → keep < estimate_messages (drop i (m ∷ ms))
    first zero lt p pos = h p (omega arith)
    first (suc i) lt p pos = f.first i (omega arith) (back m ms i p) (omega arith)

NoLast-skip :
    (k : ℕ) (m : Message) (ms : List Message)
    → normal_user_prompt m ≡ false
    → LastAt (suc k) ms none
    → LastAt k (m ∷ ms) none
NoLast-skip k m ms h l zero p = cc (normal_of_here m ms p)
NoLast-skip k m ms h l (suc j) p = l j (back m ms j p)

LastAt-skip :
    (k : ℕ) (m : Message) (ms : List Message) (o : Option ℕ)
    → normal_user_prompt m ≡ false
    → LastAt (suc k) ms o
    → LastAt k (m ∷ ms) o
LastAt-skip k m ms none h l = NoLast-skip k m ms h l
LastAt-skip k m ms (some i) h (j, e, f) =
    (suc j, omega arith, record { prompt = there m ms j f.prompt; last = last })
  where
    last : (i : ℕ) → suc j < i → ¬ IsPrompt (m ∷ ms) i
    last zero lt p = absurd (omega arith)
    last (suc i) lt p = f.last i (omega arith) (back m ms i p)

LastAt-prompt :
    (k : ℕ) (m : Message) (ms : List Message) (o : Option ℕ)
    → normal_user_prompt m ≡ true
    → LastAt (suc k) ms o
    → LastAt k (m ∷ ms) (or_else o (some k))
LastAt-prompt k m ms none h l = (0, omega arith, record { prompt = here m ms h; last = last })
  where
    last : (i : ℕ) → 0 < i → ¬ IsPrompt (m ∷ ms) i
    last zero lt p = absurd (omega arith)
    last (suc i) lt p = l i (back m ms i p)
LastAt-prompt k m ms (some i) h (j, e, f) =
    (suc j, omega arith, record { prompt = there m ms j f.prompt; last = last })
  where
    last : (i : ℕ) → suc j < i → ¬ IsPrompt (m ∷ ms) i
    last zero lt p = absurd (omega arith)
    last (suc i) lt p = f.last i (omega arith) (back m ms i p)

record Scanned (keep k : ℕ) (ms : List Message) (s : Scan) : Type 0 where
  tokens : s.suffix_tokens ≡ estimate_messages ms
  split : SplitAt keep k ms s.split
  last : LastAt k ms s.last_normal

SplitAt-here :
    (keep k : ℕ) (m : Message) (ms : List Message)
    → normal_user_prompt m ≡ true
    → 0 < k
    → estimate_messages (m ∷ ms) ≤ keep
    → SplitAt keep k (m ∷ ms) (some k)
SplitAt-here keep k m ms h pos fits = (
  0,
  omega arith,
  record {
    prompt = here m ms h;
    inner = omega arith;
    fits = fits;
    first = λ i lt. absurd (omega arith);
  },
)

SplitAt-test :
    (t : Bool) (keep k : ℕ) (m : Message) (ms : List Message) (o : Option ℕ)
    → t ≡ (ltb 0 k && leb (estimate_messages (m ∷ ms)) keep)
    → normal_user_prompt m ≡ true
    → SplitAt keep (suc k) ms o
    → SplitAt keep k (m ∷ ms) (if t then some k else o)
SplitAt-test true keep k m ms o e h s = SplitAt-here keep k m ms h (ground arith) (ground arith)
SplitAt-test false keep k m ms o e h s = SplitAt-shift keep k m ms o (λ p pos. ground arith) s

scan_step-Scanned :
    (keep k : ℕ) (m : Message) (ms : List Message) (s : Scan)
    → Scanned keep (suc k) ms s
    → Scanned keep k (m ∷ ms) (scan_step keep k m s)
unfolding scan_step estimate_messages
scan_step-Scanned keep k m ms s h =
    let total : s.suffix_tokens + estimate_message m ≡ estimate_messages (m ∷ ms) =
      omega (arith, h.tokens) in
    elim (Bool-cases (normal_user_prompt m)) [
      | inr e ↦
          rw (e, scan_step)
            (record {
              tokens = omega (arith, h.tokens);
              split = SplitAt-shift keep k m ms s.split (λ p. cc (normal_of_here m ms p)) h.split;
              last = LastAt-skip k m ms s.last_normal e h.last;
            })
      | inl e ↦
          rw (e, scan_step)
            (record {
              tokens = omega (arith, h.tokens);
              split =
                  SplitAt-test _ keep k m ms s.split (ap (λ t. ltb 0 k && leb t keep) total) e
                    h.split;
              last = LastAt-prompt k m ms s.last_normal e h.last;
            })
    ]

scan-Scanned : (keep k : ℕ) (ms : List Message) → Scanned keep k ms (scan keep k ms)
unfolding scan estimate_messages
scan-Scanned keep k [] = record { tokens = refl; split = λ j p. cc p.at; last = λ j p. cc p.at }
scan-Scanned keep k (m ∷ ms) = scan_step-Scanned keep k m ms _ (scan-Scanned keep (suc k) ms)

abbrev pub IsBoundary : ℕ → List Message → ℕ → Type 0
IsBoundary keep ms i =
    IsFirstFit keep 0 ms i
    ⊎ (IsLast ms i
        × (0 < i)
        × ((j : ℕ) → IsPrompt ms j → 0 < j → keep < estimate_messages (drop j ms)))

choose-IsBoundary :
    (keep : ℕ) (ms : List Message) (s l : Option ℕ) (i : ℕ)
    → SplitAt keep 0 ms s
    → LastAt 0 ms l
    → choose s l ≡ some i
    → IsBoundary keep ms i
unfolding choose
choose-IsBoundary keep ms (some a) l i (j, q, f) h e = let p : i ≡ j = ground arith in rw p (inl f)
choose-IsBoundary keep ms none none i n h e = cc
choose-IsBoundary keep ms none (some l) i n (j, q, f) e =
    let p : i ≡ j = ground arith in
    let pos : 0 < j = ground arith in rw p (inr (f, pos, λ k pr lt. n k pr (omega arith)))

-- The boundary, if there is one, is a normal prompt behind message 0: the first from which on
-- the messages fit into `keep` tokens, or, where no prompt fits, the last prompt of all.
pub compaction_split-IsBoundary :
    (keep : ℕ) (ms : List Message) (i : ℕ)
    → compaction_split keep ms ≡ some i
    → IsBoundary keep ms i
unfolding compaction_split
compaction_split-IsBoundary keep ms i e =
    let h = scan-Scanned keep 0 ms in choose-IsBoundary keep ms _ _ i h.split h.last (ground arith)

choose-none :
    (keep : ℕ) (ms : List Message) (s l : Option ℕ)
    → SplitAt keep 0 ms s
    → LastAt 0 ms l
    → choose s l ≡ none
    → (j : ℕ) → 0 < j
    → ¬ IsPrompt ms j
unfolding choose
choose-none keep ms (some a) l s h e j pos p = cc
choose-none keep ms none none s h e j pos p = h j p
choose-none keep ms none (some l) s (k, q, f) e j pos p =
    f.last j (let z : k ≡ 0 = ground arith in omega arith) p

get_elem?-lt : (ms : List Message) (j : ℕ) (m : Message) → get_elem? ms j ≡ some m → j < length ms
get_elem?-lt [] j m e = cc
get_elem?-lt (n ∷ ms) zero m e = omega arith
get_elem?-lt (n ∷ ms) (suc j) m e = omega (arith, get_elem?-lt ms j m e)

-- Where no boundary is returned, no message behind message 0 is a normal prompt.
pub compaction_split-none :
    (keep : ℕ) (ms : List Message)
    → compaction_split keep ms ≡ none
    → (j : ℕ) → 0 < j
    → ¬ IsPrompt ms j
unfolding compaction_split
compaction_split-none keep ms e j pos p =
    let h = scan-Scanned keep 0 ms in
    choose-none keep ms _ _ h.split h.last (ground (arith, get_elem?-lt ms j p.message p.at)) j pos
      p

-- What a result of the search says.
abbrev pub IsSplit : ℕ → List Message → Option ℕ → Type 0
IsSplit keep ms none = (j : ℕ) → 0 < j → ¬ IsPrompt ms j
IsSplit keep ms (some i) = IsBoundary keep ms i

-- The boundary, if there is one, is a normal prompt behind message 0: the first from which on
-- the messages fit into `keep` tokens, or, where no prompt fits, the last prompt of all. Where
-- there is none, no message behind message 0 is a normal prompt.
pub compaction_split-IsSplit :
    (keep : ℕ) (ms : List Message) → IsSplit keep ms (compaction_split keep ms)
compaction_split-IsSplit keep ms = elim (Option-cases (compaction_split keep ms)) [
  | inl e ↦ subst (IsSplit keep ms) (sym e) (compaction_split-none keep ms e)
  | inr (i, e) ↦ subst (IsSplit keep ms) (sym e) (compaction_split-IsBoundary keep ms i e)
]
