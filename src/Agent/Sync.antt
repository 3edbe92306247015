-- ===== src/Agent/Sync.antt =====
-- The agent's conversation and that of its session under the operations on both.
use mathlib.Core.Path.{subst}
use notch.Prelude.{
  ℕ, ◌≡◌, refl, sym, ap, ◌∙◌, Bool, true, false, ◌&&◌, Option, none, some, List, [], ◌∷◌, ◌++◌,
  ◌==◌, if◌then◌else◌, length, Option-cases, inl, inr,
}
use notch.Go.Bytes.{Bytes, codes, bytes_eq}
use notch.Go.Space.{trim_space}
use notch.Model.{Message, clean_messages}
use notch.Session.{Codec, Loaded, Entry, commit, commit_custom, UsageEntry, usage_entry}
use notch.Session.Append.{
  Session, Io, AppendError, append_line, append_record, append_entry, append_kind, is_reserved,
  append_usage, refuse_usage,
}
use notch.Session.Crash.{Appended, append_line-Appended}
use notch.Session.Durable.{append_record-refused, append_record-written}
use notch.Agent.{
  ProviderSwitch, Handle, Agent, forget_report, after_append, replace_messages, use_switch,
}
use notch.Agent.Append.{add_message}

-- The session holds the agent's messages, cleaned as they were written.
abbrev pub Synced : List Message → Option Handle → Type 0
Synced ms none = Unit
Synced ms (some (h, s)) = s.loaded.messages ≡ (clean_messages ms).0

abbrev pub IsSynced : Agent → Type 0
IsSynced a = Synced a.messages a.session

-- An append that fails leaves the conversation, and one that succeeds changes it by `f`.
abbrev Commits : (Loaded → Loaded) → Session → Session × Option AppendError → Type 0
Commits f s (s', none) = s'.loaded ≡ f s.loaded
Commits f s (s', some e) = s'.loaded ≡ s.loaded

Appended-Commits :
    (line : Bytes) (f : Loaded → Loaded) (s : Session) (out : Session × Option AppendError)
    → Appended line f s out
    → Commits f s out
Appended-Commits line f s (s', none) (inl (_, _, h, _)) = h
Appended-Commits line f s (s', some e) (inl (bad, _, _, _)) = absurd (cc bad)
Appended-Commits line f s (s', none) (inr ((e, bad), _, _)) = absurd (cc bad)
Appended-Commits line f s (s', some e) (inr (_, h, _)) = h

pub append_record-Commits :
    (c : Codec) (io : Io) (e : Entry) (s : Session) → Commits (commit e) s (append_record c io e s)
append_record-Commits c io e s = elim (Option-cases (c.marshal e)) [
  | inl refused ↦ subst (Commits (commit e) s) (sym (append_record-refused c io e s refused)) refl
  | inr (body, written) ↦
      let line = body ++ 10 ∷ [] in
      subst (Commits (commit e) s) (sym (append_record-written c io e body s written)) (
        Appended-Commits line (commit e) s (append_line io line (commit e) s)
          (append_line-Appended io line (commit e) s))
]

-- A custom entry leaves the messages, whatever becomes of it.
abbrev Keeps : Session → Session × Option AppendError → Type 0
Keeps s out = (out.0).loaded.messages ≡ s.loaded.messages

Commits-Keeps :
    (body : Bytes) (s : Session) (out : Session × Option AppendError)
    → Commits (commit_custom body) s out
    → Keeps s out
unfolding commit_custom
Commits-Keeps body s (s', none) h = ap (λ l. l.messages) h
Commits-Keeps body s (s', some e) h = ap (λ l. l.messages) h

if_both :
    (s : Session) (b : Bool) (x y : Session × Option AppendError)
    → Keeps s x
    → Keeps s y
    → Keeps s (if b then x else y)
if_both s true x y hx hy = hx
if_both s false x y hx hy = hy

append_entry-Keeps :
    (c : Codec) (io : Io) (encoded : Option Bytes) (s : Session)
    → Keeps s (append_entry c io encoded s)
unfolding append_entry
append_entry-Keeps c io none s = refl
append_entry-Keeps c io (some body) s =
    let line = body ++ 10 ∷ [] in
    let out = append_line io line (commit_custom body) s in
    if_both s (bytes_eq (trim_space line) (codes "null")) _ _ refl (
      if_both s ((c.discriminate line).1 && is_reserved (trim_space (c.discriminate line).0)) _ _
        refl
        (Commits-Keeps body s out (
          Appended-Commits line (commit_custom body) s out
            (append_line-Appended io line (commit_custom body) s))))

pub append_kind-Keeps :
    (c : Codec) (io : Io) (kind : Bytes) (is_nil : Bool) (envelope : Bytes → Option Bytes)
    (s : Session)
    → Keeps s (append_kind c io kind is_nil envelope s)
unfolding append_kind
append_kind-Keeps c io kind is_nil envelope s =
    let trimmed = trim_space kind in
    if_both s (length trimmed == 0) _ _ refl (
      if_both s (is_reserved trimmed) _ _ refl
        (if_both s is_nil _ _ refl (append_entry-Keeps c io (envelope trimmed) s)))

pub after_append-replace :
    (h : ℕ) (ms : List Message) (f : Loaded → Loaded) (a : Agent) (s : Session)
    (out : Session × Option AppendError)
    → (f s.loaded).messages ≡ (clean_messages ms).0
    → Synced a.messages (some (h, s))
    → Commits f s out
    → IsSynced (after_append h (replace_messages ms) a out).0
unfolding after_append replace_messages forget_report
after_append-replace h ms f a s (s', none) new old done = ap (λ l. l.messages) done ∙ new
after_append-replace h ms f a s (s', some e) new old done = ap (λ l. l.messages) done ∙ old

pub after_append-switch :
    (h : ℕ) (sw : ProviderSwitch) (a : Agent) (s : Session) (out : Session × Option AppendError)
    → Synced a.messages (some (h, s))
    → Keeps s out
    → IsSynced (after_append h (use_switch sw) a out).0
unfolding after_append use_switch forget_report
after_append-switch h sw a s (s', none) old keeps = keeps ∙ old
after_append-switch h sw a s (s', some e) old keeps = keeps ∙ old

clean_messages-append :
    (xs ys : List Message)
    → (clean_messages (xs ++ ys)).0 ≡ (clean_messages xs).0 ++ (clean_messages ys).0
unfolding clean_messages
clean_messages-append [] ys = refl
clean_messages-append (x ∷ xs) ys = rw (clean_messages-append xs ys) refl

pub after_append-add :
    (h : ℕ) (m : Message) (f : Loaded → Loaded) (a : Agent) (s : Session)
    (out : Session × Option AppendError)
    → ((f s.loaded).messages ≡ s.loaded.messages ++ (clean_messages (m ∷ [])).0)
    → Synced a.messages (some (h, s))
    → Commits f s out
    → IsSynced (after_append h (add_message m) a out).0
unfolding after_append
after_append-add h m f a s (s', none) new old done =
    ap (λ l. l.messages) done
    ∙ new
    ∙ ap (λ ms. ms ++ (clean_messages (m ∷ [])).0) old
    ∙ sym (clean_messages-append a.messages (m ∷ []))
after_append-add h m f a s (s', some e) new old done = ap (λ l. l.messages) done ∙ old

pub after_append-stay :
    (h : ℕ) (a : Agent) (s : Session) (out : Session × Option AppendError)
    → Synced a.messages (some (h, s))
    → Keeps s out
    → IsSynced (after_append h (λ b. b) a out).0
unfolding after_append
after_append-stay h a s (s', none) old keeps = keeps ∙ old
after_append-stay h a s (s', some e) old keeps = keeps ∙ old

usage-Keeps :
    (c : Codec) (io : Io) (u : UsageEntry) (s : Session) (out : Session × Option AppendError)
    → Commits (commit (usage_entry u)) s out
    → Keeps s out
unfolding commit
usage-Keeps c io u s (s', none) h = ap (λ l. l.messages) h
usage-Keeps c io u s (s', some e) h = ap (λ l. l.messages) h

unless_refused :
    (o : Option AppendError) (s : Session) (out : Session × Option AppendError)
    → Keeps s out
    → Keeps s (elim o [ some e ↦ (s, some e) | none ↦ out ])
unless_refused none s out h = h
unless_refused (some e) s out h = refl

pub append_usage-Keeps :
    (c : Codec) (io : Io) (u : UsageEntry) (s : Session) → Keeps s (append_usage c io u s)
unfolding append_usage
append_usage-Keeps c io u s =
    unless_refused (refuse_usage u) s (append_record c io (usage_entry u) s) (
      usage-Keeps c io u s (append_record c io (usage_entry u) s)
        (append_record-Commits c io (usage_entry u) s))
