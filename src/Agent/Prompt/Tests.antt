-- ===== src/Agent/Prompt/Tests.antt =====
-- A prompt whose first answer calls a tool, with a message that steers.
use notch.Prelude.{
  ℕ, ◌+◌, ◌≤◌, ◌≡◌, ◌≢◌, refl, true, false, none, some, List, [], ◌∷◌, leb, arith, ◌++◌,
}
use notch.Prelude.Int.{pos}
use notch.Go.Bytes.{codes}
use notch.Model.{Block, empty_block, clean_messages}
use notch.Session.{Codec, UsageEntry}
use notch.Session.Append.{Io}
use notch.Session.Decode.{empty_loaded}
use notch.Agent.{Agent}
use notch.Agent.Sync.{IsSynced}
use notch.Agent.Queue.{no_queues, steering}
use notch.Agent.Tools.{intercepted}
use notch.Agent.Prompt.{goes_on, Turn, Settings, Run, Outcome, out_of_turns}
use notch.Agent.Prompt.Loop.{prompt_with_start}
use notch.Agent.Prompt.Records.{Ended}
use notch.Agent.Prompt.Kept.{prompt_with_start-Ended}
use notch.Agent.Prompt.Limit.{prompt_with_start_ends}

abbrev io : Io
io = record {
  stat_ok = true;
  writes = [];
  sync_ok = true;
  truncate_ok = true;
  rollback_sync_ok = true;
}

abbrev codec : Codec
codec = record {
  decode_header = λ _. none;
  decode_message = λ _. none;
  decode_compaction = λ _. none;
  decode_reset = λ _. true;
  decode_usage = λ _. none;
  is_one_json = λ _. true;
  discriminate = λ _. (codes "model_change", true);
  marshal = λ _. some (codes "{}");
}

abbrev agent : Agent
agent = record {
  messages = [];
  session = some (
    1,
    record { loaded = empty_loaded; disk = codes "{}" ++ 10 ∷ []; has_file = true; closed = false },
  );
  cache_key = codes "notch-";
  provider_name = codes "p";
  provider = 1;
  model = codes "m";
  enabled = false;
  context_window = 1000;
  reserve_tokens = 100;
  reported_input_tokens = 0;
  reported_estimate = 0;
  processing = true;
  pending_switch = none;
}

abbrev usage : UsageEntry
usage = record {
  provider = codes "p";
  model = codes "m";
  usage = record {
    input_tokens = pos 3;
    output_tokens = pos 1;
    cache_read_tokens = pos 0;
    cache_write_tokens = pos 0;
    reasoning_tokens = pos 0;
    cost_usd = none;
    provider_cost_usd = none;
    estimated_cost_usd = none;
  };
  delegated = none;
  stop_reason = codes "tool_use";
}

abbrev turn : List Block → Turn ℕ
turn content = record {
  before = goes_on;
  context_tokens_estimate = 10;
  summary = record {
    hook = none;
    serializes = true;
    response = none;
    usage_io = io;
    compaction_io = io;
  };
  context_hook_ok = true;
  request_estimate = 10;
  response = some (record {
    content = content;
    stop_reason = codes "tool_use";
    total_input_tokens = 3;
    cost = some 2;
    delegated = none;
  });
  registry = record {
    call_hooks = λ call. intercepted false [] none;
    tool = λ name. none;
    end_hooks = λ call r. none;
    model_default = λ call. call.arguments;
    quote = λ name. codes name;
  };
  usage = usage;
  switches =
      record { provider_name = codes "q"; provider = 2; model = codes "n"; context_window = 2000 }
      ∷ [];
  early = (steering, codes "wait") ∷ [];
  late = [];
  agent_end = some [];
  assistant_io = io;
  results_io = io;
  switch_io = io;
  usage_io = io;
  user_io = io;
}

abbrev call : Block
call = record empty_block { type = "tool_use"; id = "a"; name = "read"; arguments = codes "{}" }

abbrev turn_list : List (Turn ℕ)
turn_list = turn (call ∷ []) ∷ turn [] ∷ turn (call ∷ []) ∷ []

abbrev settings : Settings ℕ
settings = record {
  codec = codec;
  envelope = λ b. some b;
  max_turns = 2;
  keep_recent_tokens = 100;
  max_cost = some 5;
  add = λ a b. a + b;
  at_least = λ a b. leb b a;
}

abbrev out : Run ℕ × Outcome
out = prompt_with_start settings false io io [] (codes "go") turn_list agent no_queues

starts : IsSynced agent
unfolding clean_messages
starts = refl

prompt_with_start-Ended_example : Ended out.0 out.1
prompt_with_start-Ended_example =
    prompt_with_start-Ended settings false io io [] (codes "go") turn_list agent no_queues starts tt

prompt_with_start_ends_example :
    ((out.0).turns ≤ 2) × (out.1 ≢ out_of_turns) × ((out.0).queues.processing ≡ false)
prompt_with_start_ends_example =
    prompt_with_start_ends settings false io io [] (codes "go") turn_list agent no_queues
      (omega arith) (omega arith)
