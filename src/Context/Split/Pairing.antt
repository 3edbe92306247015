-- ===== src/Context/Split/Pairing.antt =====
-- Tool results and their calls around a compaction (internal/agent/context.go).
use notch.Prelude.{
  ℕ, zero, suc, ◌≡◌, Bool, true, false, ◌&&◌, String, some, List, [], ◌∷◌, arith, inl, inr,
  Bool-cases, str_eq, any, All, get_elem?, drop, if◌then◌else◌,
}
use notch.Go.Bytes.{Bytes}
use notch.Model.{Block, Message, is_call, is_result, text_message}
use notch.Context.Trim.{is_tool_result}
use notch.Context.Split.{
  has_text, is_prompt_content, normal_user_prompt, compaction_split, compacted_messages,
}
use notch.Context.Split.Boundary.{IsPrompt, IsBoundary, compaction_split-IsBoundary}

-- The blocks hold a call with the ID.
abbrev pub calls : List Block → String → Bool
calls bs id = any (λ b. is_call b && str_eq b.id id) bs

-- Every tool result answers a call of the message in front, whose blocks are `before`.
abbrev pub Paired : List Block → List Message → Type 0
Paired before [] = Unit
Paired before (m ∷ ms) =
    All (λ b. is_result b ≡ true → calls before b.tool_use_id ≡ true) m.content
    × Paired m.content ms

no_result :
    (seen : Bool) (bs : List Block)
    → is_prompt_content seen bs ≡ true
    → All (λ b. is_tool_result b ≡ false) bs
unfolding is_prompt_content
no_result seen [] h = tt
no_result seen (b ∷ bs) h = elim (Bool-cases (is_tool_result b)) [
  | inl e ↦ absurd (impossible e)
  | inr e ↦ (e, no_result (if has_text b then true else seen) bs (rest e))
]
  where
    impossible : is_tool_result b ≡ true → ⊥
    impossible e = ground arith

    rest :
        is_tool_result b ≡ false → is_prompt_content (if has_text b then true else seen) bs ≡ true
    rest e = ground arith

-- Each block that is a result has the tag that the boundary looks for.
abbrev pub IsTagged : Block → Type 0
IsTagged b = is_result b ≡ true → is_tool_result b ≡ true

abbrev pub AllTagged : List Message → Type 0
AllTagged = All (λ m. All IsTagged m.content)

-- A list that begins with no result is paired behind any message.
unanswering :
    (before : List Block) (bs : List Block)
    → All IsTagged bs
    → All (λ b. is_tool_result b ≡ false) bs
    → All (λ b. is_result b ≡ true → calls before b.tool_use_id ≡ true) bs
unanswering before [] t h = tt
unanswering before (b ∷ bs) (tb, ts) (hb, hs) =
    ((λ e. let tagged = tb e in cc), unanswering before bs ts hs)

prompt-no_result :
    (m : Message) → normal_user_prompt m ≡ true → All (λ b. is_tool_result b ≡ false) m.content
unfolding normal_user_prompt
prompt-no_result m h = no_result false m.content (ground arith)

Paired-drop :
    (before after : List Block) (ms : List Message) (i : ℕ) (m : Message)
    → AllTagged ms
    → Paired before ms
    → get_elem? ms i ≡ some m
    → normal_user_prompt m ≡ true
    → Paired after (drop i ms)
Paired-drop before after [] i m t h e n = cc
Paired-drop before after (x ∷ ms) zero m (tx, ts) (hx, hs) e n =
    (unanswering after x.content tx (prompt-no_result x (let p : x ≡ m = cc in rw p n)), hs)
Paired-drop before after (x ∷ ms) (suc i) m (tx, ts) (hx, hs) e n =
    Paired-drop x.content after ms i m ts hs e n

boundary-prompt : (keep : ℕ) (ms : List Message) (i : ℕ) → IsBoundary keep ms i → IsPrompt ms i
boundary-prompt keep ms i (inl f) = f.prompt
boundary-prompt keep ms i (inr (l, _, _)) = l.prompt

-- Where every result of a call is tagged `tool_result` and answers a call of the message in
-- front: in what a compaction keeps, the summary and the messages from the boundary on, every
-- result, of either tag, still answers a call of the message in front.
pub compacted_messages-Paired :
    (keep : ℕ) (ms : List Message) (i : ℕ) (summary : Bytes)
    → AllTagged ms
    → Paired [] ms
    → compaction_split keep ms ≡ some i
    → Paired [] (compacted_messages summary (drop i ms))
unfolding compacted_messages text_message is_result
compacted_messages-Paired keep ms i summary t h e =
    let p = boundary-prompt keep ms i (compaction_split-IsBoundary keep ms i e) in
    (((λ r. cc), tt), Paired-drop [] _ ms i p.message t h p.at p.normal)
