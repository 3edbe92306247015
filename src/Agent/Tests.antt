-- ===== src/Agent/Tests.antt =====
-- The agent on concrete sessions.
use notch.Prelude.{◌≡◌, refl, Bool, true, false, none, some, List, [], ◌∷◌, ◌++◌}
use notch.Go.Bytes.{codes}
use notch.Model.{text_message, clean_messages}
use notch.Session.{Codec}
use notch.Session.Append.{Session, Io}
use notch.Session.Decode.{empty_loaded}
use notch.Agent.{Agent}
use notch.Agent.Sync.{IsSynced}
use notch.Agent.Steps.{
  AgentOp, compacts, queues, applies_pending, resumes, resets, run_agent, run_agent-IsSynced,
}

abbrev session : Session
session = record {
  loaded = empty_loaded;
  disk = codes "{}" ++ 10 ∷ [];
  has_file = true;
  closed = false;
}

abbrev agent : Agent
agent = record {
  messages = [];
  session = some (1, session);
  cache_key = codes "notch-";
  provider_name = codes "p";
  provider = 1;
  model = codes "m";
  enabled = true;
  context_window = 1000;
  reserve_tokens = 100;
  reported_input_tokens = 500;
  reported_estimate = 400;
  processing = true;
  pending_switch = none;
}

-- Every record is written as an empty object.
abbrev codec : Codec
codec = record {
  decode_header = λ _. none;
  decode_message = λ _. none;
  decode_compaction = λ _. none;
  decode_reset = λ _. true;
  decode_usage = λ _. none;
  is_one_json = λ _. true;
  discriminate = λ _. (codes "model_change", true);
  marshal = λ _. some (codes "{}");
}

abbrev io : Bool → Io
io syncs = record {
  stat_ok = true;
  writes = [];
  sync_ok = syncs;
  truncate_ok = true;
  rollback_sync_ok = true;
}

abbrev ops : List (Io × AgentOp)
ops =
    (io true, compacts (codes "so far") (text_message "user" (codes "go on") ∷ []) true)
    ∷ (io true, queues (codes "q") (some 2) (codes "n") 2000)
    ∷ (io false, applies_pending)
    ∷ (io false, resets none)
    ∷ (io true, resumes (some (2, session)))
    ∷ []

clean_none : (clean_messages []).0 ≡ []
unfolding clean_messages
clean_none = refl

clean_start : IsSynced agent
unfolding clean_messages
clean_start = refl

run_agent-IsSynced_example : IsSynced (run_agent codec (λ _. some (codes "{}")) ops agent)
run_agent-IsSynced_example =
    run_agent-IsSynced codec (λ _. some (codes "{}")) ops agent
      (tt, (tt, (tt, (tt, (clean_none, tt))))) clean_start
