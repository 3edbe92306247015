-- ===== src/Agent/Prompt/Rules.antt =====
-- What holds of a step of the loop: of the run where it goes on, and of the run and the outcome where
-- it returns.
use notch.Prelude.{◌≡◌, refl, Option, none, some}
use notch.Agent.{Agent, AgentError}
use notch.Agent.Prompt.{not_saved, Outcome, failed, Run, Flow, next, returns, ◌>>=◌, saved}
use notch.Agent.Prompt.Loop.{then_turns}

module _ {Money : Type 0} (P : Run Money → Type 0) (Q : Run Money → Outcome → Type 0) where
  abbrev pub Holds : Flow Money → Type 0
  Holds (next r) = P r
  Holds (returns r o) = Q r o

module _ {Money : Type 0} (P R : Run Money → Type 0) (Q : Run Money → Outcome → Type 0) where
  pub bind-Holds :
      (m : Flow Money) (f : Run Money → Flow Money)
      → Holds P Q m
      → ((r : Run Money) → P r → Holds R Q (f r))
      → Holds R Q (m >>= f)
  bind-Holds (next r) f h k = k r h
  bind-Holds (returns r o) f h k = h

module _ {Money : Type 0} (P : Run Money → Type 0) (Q : Run Money → Outcome → Type 0) where
  pub then_turns-Holds :
      (m : Flow Money) (f : Run Money → Run Money × Outcome)
      → Holds P Q m
      → ((r : Run Money) → P r → let (r', o) = f r in Q r' o)
      → let (r', o) = then_turns m f in Q r' o
  then_turns-Holds (next r) f h k = k r h
  then_turns-Holds (returns r o) f h k = h

module _ {Money : Type 0} (P : Run Money → Type 0) (Q : Run Money → Outcome → Type 0) where
  pub saved-Holds :
      (r : Run Money) (out : Agent × Option AgentError)
      → (out.1 ≡ none → P (record r { agent = out.0 }))
      → ((e : AgentError) → Q (record r { agent = out.0 }) (failed (not_saved e)))
      → Holds P Q (saved r out)
  saved-Holds r (a, none) p q = p refl
  saved-Holds r (a, some e) p q = q e

module _ {Money : Type 0} (P : Run Money → Type 0) (Q S : Run Money → Outcome → Type 0) where
  pub weaker-Holds :
      (m : Flow Money) → Holds P Q m → ((r : Run Money) (o : Outcome) → Q r o → S r o) → Holds P S m
  weaker-Holds (next r) h k = h
  weaker-Holds (returns r o) h k = k r o h
