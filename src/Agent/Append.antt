-- ===== src/Agent/Append.antt =====
-- internal/agent/agent.go: appendMessage and appendUsage, which write to the session first.
use notch.Prelude.{Option, none, some, [], ◌∷◌, ◌++◌, get_or}
use notch.Model.{Message, clean_messages}
use notch.Session.{Codec, UsageEntry}
use notch.Session.Append.{Io, append_message, append_usage}
use notch.Agent.{Handle, Agent, AgentError, after_append}

abbrev pub add_message : Message → Agent → Agent
add_message m a = record a { messages = a.messages ++ m ∷ [] }

unfoldable pub cleaned_message : Message → Message
unfolding clean_messages
cleaned_message m = get_or (clean_messages (m ∷ [])).0 0 m

-- The append of a cleaned message, where the session is the one given.
unfoldable pub append_cleaned :
    Codec → Io → Message → Option Handle → Agent → Agent × Option AgentError
unfolding append_message after_append
append_cleaned c io m none a = (add_message m a, none)
append_cleaned c io m (some (h, s)) a = after_append h (add_message m) a (append_message c io m s)

unfoldable pub append_to_conversation : Codec → Io → Message → Agent → Agent × Option AgentError
unfolding append_cleaned cleaned_message
append_to_conversation c io m a = append_cleaned c io (cleaned_message m) a.session a

-- The usage is written where there is a session; the conversation stays.
unfoldable pub usage_in :
    Codec → Io → UsageEntry → Option Handle → Agent → Agent × Option AgentError
unfolding append_usage after_append
usage_in c io u none a = (a, none)
usage_in c io u (some (h, s)) a = after_append h (λ b. b) a (append_usage c io u s)

unfoldable pub append_turn_usage : Codec → Io → UsageEntry → Agent → Agent × Option AgentError
unfolding usage_in
append_turn_usage c io u a = usage_in c io u a.session a
