-- ===== src/Context/Interrupted/Complete.antt =====
-- What `contextMessages` gives as a whole.
use notch.Prelude.{
  ℕ, suc, ◌≡◌, ◌≢◌, refl, ap, ◌∙◌, Bool, true, false, ◌&&◌, not, String, List, [], ◌∷◌, arith, inl,
  inr, str_eq, str_eq_iff, All, Bool-cases, if◌then◌else◌,
}
use notch.Model.{Block, Message, is_call, is_result}
use notch.Model.Repair.{answers, recovery}
use notch.Context.Trim.{is_tool_result, trim_blocks, trim_messages}
use notch.Context.Estimate.{estimate_messages, estimate_context_messages, estimate_context_exact}
use notch.Context.Interrupted.{
  ResultAfter, note_results, results_after, is_unanswered, missing, insert_missing, add_interrupted,
  context_messages,
}
use notch.Context.Interrupted.Later.{answered_later, Before, Before-step}
use notch.Context.Interrupted.Answered.{
  Complete, IsAnsweredLater, is_unanswered_lem, add_interrupted-Complete,
}

answers-trim_blocks :
    (bs : List Block) (seen : ℕ) (id : String) → answers (trim_blocks bs seen).0 id ≡ answers bs id
unfolding answers trim_blocks is_result
answers-trim_blocks [] seen id = refl
answers-trim_blocks (b ∷ bs) seen id = ground (arith, answers-trim_blocks bs seen id)

answered_later-trim_messages :
    (ms : List Message) (id : String)
    → answered_later (trim_messages ms).0 id ≡ answered_later ms id
unfolding trim_messages
answered_later-trim_messages [] id = refl
answered_later-trim_messages (m ∷ ms) id =
    rw (answers-trim_blocks m.content (trim_messages ms).1 id, answered_later-trim_messages ms id)

All-if :
    {A : Type 0} (P : A → Type 0) (t : Bool) (x y : A) (out : List A) (s s' : ℕ)
    → P x
    → P y
    → All P out
    → All P (if◌then◌else◌ {A = List A × ℕ} t (x ∷ out, s) (y ∷ out, s')).0
All-if P true x y out s s' hx hy h = (hx, h)
All-if P false x y out s s' hx hy h = (hy, h)

-- Trimming changes only the text of a block.
trim_blocks-All :
    (ms ms' : List Message)
    → ((id : String) → answered_later ms' id ≡ answered_later ms id)
    → (bs : List Block) (seen : ℕ) → All (IsAnsweredLater ms) bs
    → All (IsAnsweredLater ms') (trim_blocks bs seen).0
unfolding trim_blocks is_call
trim_blocks-All ms ms' e [] seen h = tt
trim_blocks-All ms ms' e (b ∷ bs) seen (hb, hs) =
    All-if (IsAnsweredLater ms') (is_tool_result b) _ b _ _ _ (λ c id. rw (e b.id) (hb c id))
      (λ c id. rw (e b.id) (hb c id)) (trim_blocks-All ms ms' e bs seen hs)

trim_messages-Complete : (ms : List Message) → Complete ms → Complete (trim_messages ms).0
unfolding trim_messages
trim_messages-Complete [] c = tt
trim_messages-Complete (m ∷ ms) (h, c) = (
  trim_blocks-All ms (trim_messages ms).0 (answered_later-trim_messages ms) m.content
      (trim_messages ms).1 h,
  trim_messages-Complete ms c,
)

-- In the context that is sent, every call with an ID has a result in a later message.
pub context_messages-Complete : (ms : List Message) → Complete (context_messages ms)
unfolding context_messages
context_messages-Complete ms = trim_messages-Complete _ (add_interrupted-Complete ms)

not_unanswered :
    (full : ResultAfter) (i : ℕ) (ms : List Message) (b : Block)
    → (b.id ≢ "" → is_unanswered full i b ≡ (is_call b && not (answered_later ms b.id)))
    → IsAnsweredLater ms b
    → is_unanswered full i b ≡ false
not_unanswered full i ms b u h = elim (Bool-cases (str_eq b.id "")) [
  | inl e ↦ unfold is_unanswered in ground arith
  | inr e ↦
      let id : b.id ≢ "" = λ p. cc ((str_eq_iff b.id "").1 p) in
      u id
      ∙ elim (Bool-cases (is_call b)) [ inl call ↦ rw (call, h call id) | inr other ↦ rw other ]
]

missing-nil :
    (full : ResultAfter) (i : ℕ) (ms : List Message) (bs : List Block)
    → ((b : Block)
        → b.id ≢ ""
        → is_unanswered full i b ≡ (is_call b && not (answered_later ms b.id)))
    → All (IsAnsweredLater ms) bs
    → missing full i bs ≡ []
unfolding missing
missing-nil full i ms [] u h = refl
missing-nil full i ms (b ∷ bs) u (hb, hs) =
    rw (not_unanswered full i ms b (u b) hb) (missing-nil full i ms bs u hs)

insert_missing_nothing :
    (full : ResultAfter) (i : ℕ) (ms : List Message) (after : ResultAfter)
    → full ≡ results_after i ms after
    → Before i after
    → Complete ms
    → insert_missing full i ms ≡ ms
unfolding insert_missing results_after recovery
insert_missing_nothing full i [] after e h c = refl
insert_missing_nothing full i (m ∷ ms) after e h (ca, cs) =
    let after' = note_results i m.content after in
    let before : Before (suc i) after' = Before-step i m.content after h in
    rw
      (missing-nil full i ms m.content (λ b id. rw e (is_unanswered_lem i ms after' b before id))
        ca)
      (ap (λ rest. m ∷ rest) (insert_missing_nothing full (suc i) ms after' e before cs))

-- A conversation in which every call with an ID has a result in a later message is sent as it is
-- but for the trimming, and its estimate is that of what is sent.
pub context_messages_nothing_missing :
    (ms : List Message)
    → Complete ms
    → (context_messages ms ≡ (trim_messages ms).0)
      × (estimate_messages (context_messages ms) ≡ estimate_context_messages ms)
unfolding context_messages add_interrupted
context_messages_nothing_missing ms c =
    let e = insert_missing_nothing _ 0 ms [] refl tt c in
    let sent = ap (λ ns. (trim_messages ns).0) e in
    (sent, ap estimate_messages sent ∙ estimate_context_exact ms)
