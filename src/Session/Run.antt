-- ===== src/Session/Run.antt =====
-- Any sequence of appends to a session, with what the operating system answers to each.
use mathlib.Core.Path.{subst}
use notch.Prelude.{
  ℕ, ◌≡◌, refl, sym, ap, Bool, true, false, not, ◌||◌, Option, none, some, List, [], ◌∷◌, arith,
  ◌==◌, length, get_or, All, Option-cases, inl, inr, if◌then◌else◌,
}
use notch.Go.Bytes.{Bytes}
use notch.Go.Space.{trim_space}
use notch.Model.{Message, clean_messages}
use notch.Model.Normalize.{clean_messages_twice}
use notch.Session.{
  Codec, Entry, message_entry, compaction_entry, reset_entry, usage_entry, UsageEntry,
  DelegatedUsage,
}
use notch.Session.Decode.{DecodeError, check_usage, check_delegated, negative_tokens, valid_costs}
use notch.Session.Append.{
  Session, Io, AppendError, append_record, append_message, append_compaction, append_reset,
  append_usage, refuse_usage, refuse_delegated,
}
use notch.Session.Durable.{
  ReadsBack, IsSound, IsDurable, IsDurable-Reloads, Reloads, append_record-IsDurable,
}

pub data Request : Type 0 where
  appends_message : Message → Request
  appends_compaction : Bytes → List Message → Bool → Request
  appends_reset : Request
  appends_usage : UsageEntry → Request

-- The record that a request writes, if it is not refused.
unfoldable pub entry_of : Request → Entry
unfolding clean_messages
entry_of (appends_message m) = message_entry (get_or (clean_messages (m ∷ [])).0 0 m)
entry_of (appends_compaction summary ms auto) =
    compaction_entry (record { summary = summary; messages = (clean_messages ms).0; auto = auto })
entry_of appends_reset = reset_entry
entry_of (appends_usage u) = usage_entry u

unfoldable pub append : Codec → Io → Request → Session → Session × Option AppendError
append c io (appends_message m) s = append_message c io m s
append c io (appends_compaction summary ms auto) s = append_compaction c io summary ms auto s
append c io appends_reset s = append_reset c io s
append c io (appends_usage u) s = append_usage c io u s

unfoldable pub append_all : Codec → List (Io × Request) → Session → Session
unfolding append
append_all c [] s = s
append_all c ((io, r) ∷ rs) s = append_all c rs (append c io r s).0

trim_space-nil : (s : Bytes) → (length (trim_space s) == 0) ≡ false → (length s == 0) ≡ false
trim_space-nil [] h = absurd (unfold trim_space in cc h)
trim_space-nil (x ∷ s) h = ground arith

delegated_fits :
    (n : ℕ) (d : Option DelegatedUsage) → refuse_delegated d ≡ none → check_delegated n d ≡ none
unfolding refuse_delegated check_delegated
delegated_fits n none h = refl
delegated_fits n (some d) h = ground arith

-- Two chains of tests, of which the second refuses no more than the first.
no_more :
    (a b c a' : Bool) (x : Option AppendError) (y : Option DecodeError) (e₁ e₂ e₃ : AppendError)
    (d₁ d₂ : DecodeError)
    → (a ≡ false → a' ≡ false)
    → (x ≡ none → y ≡ none)
    → (if a then some e₁ else if b then some e₂ else if not c then some e₃ else x) ≡ none
    → (if a' || b then some d₁ else if not c then some d₂ else y) ≡ none
no_more true b c a' x y e₁ e₂ e₃ d₁ d₂ ha hx h = absurd (cc h)
no_more false true c a' x y e₁ e₂ e₃ d₁ d₂ ha hx h = absurd (cc h)
no_more false false false a' x y e₁ e₂ e₃ d₁ d₂ ha hx h = absurd (cc h)
no_more false false true a' x y e₁ e₂ e₃ d₁ d₂ ha hx h = rw (ha refl) (hx h)

-- What `AppendUsage` accepts `decode` accepts.
usage_fits : (n : ℕ) (u : UsageEntry) → refuse_usage u ≡ none → check_usage n u ≡ none
unfolding refuse_usage check_usage
usage_fits n u h =
    no_more (length (trim_space u.model) == 0) (negative_tokens u.usage) (valid_costs u.usage)
      (length u.model == 0) (refuse_delegated u.delegated) (check_delegated n u.delegated) _ _ _ _ _
      (trim_space-nil u.model) (delegated_fits n u.delegated) h

append_usage-accepted :
    (c : Codec) (io : Io) (u : UsageEntry) (s : Session)
    → refuse_usage u ≡ none
    → append_usage c io u s ≡ append_record c io (usage_entry u) s
unfolding append_usage append_record
append_usage-accepted c io u s h = rw (append_usage, h) refl

append_usage-refused :
    (c : Codec) (io : Io) (u : UsageEntry) (s : Session) (e : AppendError)
    → refuse_usage u ≡ some e
    → append_usage c io u s ≡ (s, some e)
unfolding append_usage
append_usage-refused c io u s e h = rw (append_usage, h) refl

append-IsDurable :
    (c : Codec) (io : Io) (r : Request) (s : Session)
    → ReadsBack c (entry_of r)
    → IsDurable c s
    → IsDurable c (append c io r s).0
unfolding append append_message append_compaction append_reset append_usage clean_messages entry_of
append-IsDurable c io (appends_message m) s faithful h =
    append_record-IsDurable c io _ s faithful (ap (λ o. o.0) (clean_messages_twice (m ∷ []))) h
append-IsDurable c io (appends_compaction summary ms auto) s faithful h =
    append_record-IsDurable c io _ s faithful (ap (λ o. o.0) (clean_messages_twice ms)) h
append-IsDurable c io appends_reset s faithful h = append_record-IsDurable c io _ s faithful tt h
append-IsDurable c io (appends_usage u) s faithful h = elim (Option-cases (refuse_usage u)) [
  | inl accepted ↦
      subst (λ o. IsDurable c (o.0)) (sym (append_usage-accepted c io u s accepted))
        (append_record-IsDurable c io (usage_entry u) s faithful (λ n. usage_fits n u accepted) h)
  | inr (e, refused) ↦
      subst (λ o. IsDurable c (o.0)) (sym (append_usage-refused c io u s e refused)) h
]

append_all-IsDurable :
    (c : Codec) (rs : List (Io × Request)) (s : Session)
    → All (λ r. ReadsBack c (entry_of r.1)) rs
    → IsDurable c s
    → IsDurable c (append_all c rs s)
unfolding append_all
append_all-IsDurable c [] s faithful h = h
append_all-IsDurable c ((io, r) ∷ rs) s (first, faithful) h =
    append_all-IsDurable c rs (append c io r s).0 faithful (append-IsDurable c io r s first h)

-- Where the record of each request reads back as it is, and for a session whose file of whole
-- lines replays to its conversation: after any sequence of appends, whatever the operating
-- system answers to each, `Load` reads the file, and finds the conversation in memory, repaired,
-- or that with one record more.
pub append_all-Reloads :
    (c : Codec) (rs : List (Io × Request)) (s : Session)
    → All (λ r. ReadsBack c (entry_of r.1)) rs
    → IsSound c s
    → Reloads c (append_all c rs s)
append_all-Reloads c rs s faithful sound =
    IsDurable-Reloads c (append_all c rs s) (append_all-IsDurable c rs s faithful (inl sound))

-- Where the record of each request reads back as it is, and for a session whose file of whole
-- lines replays to its conversation: if the session is not closed after a sequence of appends,
-- whatever the operating system answered to each, the file holds whole lines and replays to the
-- conversation in memory.
pub append_all-IsSound :
    (c : Codec) (rs : List (Io × Request)) (s : Session)
    → All (λ r. ReadsBack c (entry_of r.1)) rs
    → IsSound c s
    → (append_all c rs s).closed ≡ false
    → IsSound c (append_all c rs s)
append_all-IsSound c rs s faithful sound usable =
    elim (append_all-IsDurable c rs s faithful (inl sound)) [
      | inl h ↦ h
      | inr (shut, _) ↦ absurd (cc (shut, usable))
    ]
