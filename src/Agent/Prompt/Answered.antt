-- ===== src/Agent/Prompt/Answered.antt =====
-- Conversations in which the calls of each assistant message have their results in the next message.
use mathlib.Core.Path.{subst}
use notch.Prelude.{
  ℕ, zero, suc, ◌≡◌, refl, sym, ap, ap₂, true, String, List, [], ◌∷◌, ◌++◌, map, str_eq, ◌==◌,
  if◌then◌else◌, if_split, Bool-cases, inl, inr, not, length, drop,
}
use notch.Go.Bytes.{Bytes}
use notch.Go.Space.{trim_space}
use notch.Model.{
  Block, Message, text_message, is_call, is_bad_object, empty_object, normalize_block,
  normalize_tool_call_arguments, clean_messages,
}
use notch.Context.Split.{compacted_messages}
use notch.Agent.Append.{cleaned_message}
use notch.Agent.Tools.{Registry, tool_calls, result_block}
use notch.Agent.Prompt.{results_message}

abbrev pub call_ids : List Block → List String
call_ids bs = map (λ b. b.id) (tool_calls bs)

abbrev pub answered_ids : List Block → List String
answered_ids bs = map (λ b. b.tool_use_id) bs

-- The IDs of the calls that wait for results.
abbrev pub owed : Message → List String
owed m = if str_eq m.role "assistant" then call_ids m.content else []

-- The next message holds the results, one for each call, in the order of the calls.
abbrev pub IsPaid : List String → List Message → Type 0
IsPaid [] ms = Unit
IsPaid (id ∷ ids) [] = ⊥
IsPaid (id ∷ ids) (n ∷ ms) = (n.role ≡ "user") × (answered_ids n.content ≡ id ∷ ids)

abbrev pub Answered : List Message → Type 0
Answered [] = Unit
Answered (m ∷ ms) = IsPaid (owed m) ms × Answered ms

-- The last message is one with calls that have no results yet.
abbrev pub IsOpen : List String → List Message → Type 0
IsOpen ids [] = ⊥
IsOpen ids (m ∷ []) = owed m ≡ ids
IsOpen ids (m ∷ n ∷ ms) = IsPaid (owed m) (n ∷ ms) × IsOpen ids (n ∷ ms)

IsPaid-append : (ids : List String) (ms ns : List Message) → IsPaid ids ms → IsPaid ids (ms ++ ns)
IsPaid-append [] ms ns h = tt
IsPaid-append (id ∷ ids) [] ns h = absurd h
IsPaid-append (id ∷ ids) (n ∷ ms) ns h = h

pub Answered-plain :
    (ms : List Message) (m : Message) → Answered ms → owed m ≡ [] → Answered (ms ++ m ∷ [])
Answered-plain [] m h e = (subst (λ ids. IsPaid ids []) (sym e) tt, tt)
Answered-plain (x ∷ ms) m (p, h) e = (IsPaid-append (owed x) ms (m ∷ []) p, Answered-plain ms m h e)

pub Answered-opens :
    (ms : List Message) (m : Message) → Answered ms → IsOpen (owed m) (ms ++ m ∷ [])
Answered-opens [] m h = refl
Answered-opens (x ∷ []) m (p, h) = (IsPaid-append (owed x) [] (m ∷ []) p, refl)
Answered-opens (x ∷ y ∷ ms) m (p, h) =
    (IsPaid-append (owed x) (y ∷ ms) (m ∷ []) p, Answered-opens (y ∷ ms) m h)

-- With no calls there is nothing to answer.
pub IsOpen-nothing : (ms : List Message) → IsOpen [] ms → Answered ms
IsOpen-nothing [] h = tt
IsOpen-nothing (m ∷ []) h = (subst (λ ids. IsPaid ids []) (sym h) tt, tt)
IsOpen-nothing (m ∷ n ∷ ms) (p, h) = (p, IsOpen-nothing (n ∷ ms) h)

user_pays :
    (ids : List String) (m : Message)
    → m.role ≡ "user"
    → answered_ids m.content ≡ ids
    → IsPaid ids (m ∷ [])
user_pays [] m role e = tt
user_pays (id ∷ ids) m role e = (role, e)

pub IsOpen-Answered :
    (ids : List String) (ms : List Message) (m : Message)
    → IsOpen ids ms
    → m.role ≡ "user"
    → answered_ids m.content ≡ ids
    → Answered (ms ++ m ∷ [])
IsOpen-Answered ids [] m h role e = absurd h
IsOpen-Answered ids (x ∷ []) m h role e = (
  subst (λ k. IsPaid k (m ∷ [])) (sym h) (user_pays ids m role e),
  (subst (λ k. IsPaid k []) (sym (user_owes m role)) tt, tt),
)
  where
    user_owes : (m : Message) → m.role ≡ "user" → owed m ≡ []
    user_owes m role = ap (λ r. if str_eq r "assistant" then call_ids m.content else []) role
IsOpen-Answered ids (x ∷ y ∷ ms) m (p, h) role e =
    (IsPaid-append (owed x) (y ∷ ms) (m ∷ []) p, IsOpen-Answered ids (y ∷ ms) m h role e)

pub Answered-drop : (n : ℕ) (ms : List Message) → Answered ms → Answered (drop n ms)
Answered-drop zero ms h = h
Answered-drop (suc n) [] h = tt
Answered-drop (suc n) (m ∷ ms) (p, h) = Answered-drop n ms h

pub Answered-compacted :
    (summary : Bytes) (recent : List Message)
    → Answered recent
    → Answered (compacted_messages summary recent)
unfolding compacted_messages text_message
Answered-compacted summary recent h = (tt, h)

-- Normalization leaves the tags and the IDs.
abbrev IsAlike : Block → Block → Type 0
IsAlike b b' = (is_call b' ≡ is_call b) × (b'.id ≡ b.id) × (b'.tool_use_id ≡ b.tool_use_id)

normalize_block-IsAlike : (b : Block) → IsAlike b (normalize_block b).0
unfolding normalize_block is_call
normalize_block-IsAlike b =
    let P : Block × ℕ → Type 0 = λ out. IsAlike b out.0 in
    let same : Block × ℕ = (b, 0) in
    let filled : Block × ℕ = (record b { arguments = empty_object }, 0) in
    let bad : Block × ℕ = (record b { arguments = empty_object; is_error = true }, 1) in
    let invalid = if is_bad_object (trim_space b.arguments) then bad else same in
    if_split P (not (is_call b)) same (if length b.arguments == 0 then filled else invalid)
      (λ _. (refl, refl, refl))
      (λ _.
        if_split P (length b.arguments == 0) filled invalid (λ _. (refl, refl, refl))
          (λ _.
            if_split P (is_bad_object (trim_space b.arguments)) bad same (λ _. (refl, refl, refl))
              (λ _. (refl, refl, refl))))

call_ids-cons :
    (b b' : Block) (bs bs' : List Block)
    → IsAlike b b'
    → call_ids bs' ≡ call_ids bs
    → call_ids (b' ∷ bs') ≡ call_ids (b ∷ bs)
unfolding tool_calls
call_ids-cons b b' bs bs' (call, id, uses) e = elim (Bool-cases (is_call b)) [
  | inl t ↦ rw (call, t) (ap₂ (λ i is. i ∷ is) id e)
  | inr t ↦ rw (call, t) e
]

call_ids-normalize : (bs : List Block) → call_ids (normalize_tool_call_arguments bs).0 ≡ call_ids bs
unfolding normalize_tool_call_arguments
call_ids-normalize [] = refl
call_ids-normalize (b ∷ bs) =
    call_ids-cons b (normalize_block b).0 bs (normalize_tool_call_arguments bs).0
      (normalize_block-IsAlike b) (call_ids-normalize bs)

answered_ids-normalize :
    (bs : List Block) → answered_ids (normalize_tool_call_arguments bs).0 ≡ answered_ids bs
unfolding normalize_tool_call_arguments
answered_ids-normalize [] = refl
answered_ids-normalize (b ∷ bs) =
    ap₂ (λ i is. i ∷ is) (normalize_block-IsAlike b).2 (answered_ids-normalize bs)

pub owed-cleaned_message : (m : Message) → owed (cleaned_message m) ≡ owed m
unfolding cleaned_message clean_messages
owed-cleaned_message m =
    ap (λ ids. if str_eq m.role "assistant" then ids else []) (call_ids-normalize m.content)

pub answered_ids-cleaned_message :
    (m : Message) → answered_ids (cleaned_message m).content ≡ answered_ids m.content
unfolding cleaned_message clean_messages
answered_ids-cleaned_message m = answered_ids-normalize m.content

pub role-cleaned_message : (m : Message) → (cleaned_message m).role ≡ m.role
unfolding cleaned_message clean_messages
role-cleaned_message m = refl

-- A message of results holds one for each call, in order.
pub answered_ids-results :
    (g : Registry) (calls : List Block)
    → answered_ids (results_message g calls).content ≡ map (λ b. b.id) calls
unfolding result_block
answered_ids-results g [] = refl
answered_ids-results g (call ∷ calls) = ap (λ ids. call.id ∷ ids) (answered_ids-results g calls)
