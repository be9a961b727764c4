-- ===== src/Samples.antt =====
-- Concrete models, requests and tables on which the tests run.
use Prim.Native.String.{len}
use control_deck.Prelude.{
  ℕ, String, Bool, false, leb, Option, none, some, List, [], ◌∷◌, IsPreorder, leb-IsPreorder, by,
  by-IsPreorder,
}
use control_deck.Prelude.Fraction.{of_nat}
use control_deck.Types.{
  Capability, ModelClass, CostBasis, SystemPromptMode, ConfigSource, RequestStatus, ReplicaStatus,
  Role, Content, ChatMessage, ChatCompletionRequest, ModelConfig, CallerIdentity, Text, Opaque,
}
use control_deck.Database.{RequestRow, ReplicaRow, Db}
use control_deck.Routing.Complexity.{codes}

abbrev pub model_of : String → ModelClass → List Capability → ModelConfig
model_of id class caps = record {
  id = id;
  name = id;
  class_label = "";
  model_class = class;
  capabilities = caps;
  min_replicas = 1;
  max_replicas = 2;
  system_prompt = codes "be brief";
  cost_value = of_nat 2;
  cost_basis = CostBasis.per_1k_tokens;
  endpoint_url = "http://m";
  upstream_model = id;
  backend_model_id = id;
  system_prompt_mode = SystemPromptMode.passthrough;
  port = 8080;
  first_token_timeout_ms = none;
  config_source = ConfigSource.gitops;
  has_override = false;
}

abbrev pub fleet : List ModelConfig
fleet =
    model_of "big" ModelClass.large (Capability.chat ∷ Capability.tools ∷ [])
    ∷ model_of "small" ModelClass.fast (Capability.chat ∷ [])
    ∷ []

abbrev pub says : Role → Text → ChatMessage
says role text = record {
  role = role;
  content = Content.string text;
  tool_calls = none;
  tool_call_id = none;
  name = none;
}

abbrev pub ask : Option String → Option (List Opaque) → List ChatMessage → ChatCompletionRequest
ask model tools messages = record {
  model = model;
  messages = messages;
  tools = tools;
  tool_choice = none;
  stream = false;
  temperature = none;
  top_p = none;
  max_tokens = none;
  stop = none;
  seed = none;
  presence_penalty = none;
  frequency_penalty = none;
  response_format = none;
}

abbrev pub hello : List ChatMessage
hello = says Role.user (codes "hello") ∷ []

abbrev pub ann : CallerIdentity
ann = record { oid = "oid-ann"; name = "Ann"; team = none }

abbrev pub replica_of : String → ℕ → ℕ → ReplicaRow
replica_of id in_flight ceiling = record {
  id = id;
  model_id = "big";
  status = ReplicaStatus.ready;
  in_flight = in_flight;
  load_pct = of_nat 0;
  tokens_per_sec = none;
  tokens_per_sec_at = none;
  max_concurrency = ceiling;
  endpoint_url = "http://r";
  last_seen_at = none;
  cpu_millicores = none;
  memory_bytes = none;
  restart_count = 0;
  updated_at = 0;
}

abbrev pub streaming_row : String → ℕ → RequestRow
streaming_row id at = record {
  id = id;
  caller_oid = "oid-ann";
  caller_name = "Ann";
  team = none;
  requested_model = none;
  routed_model = some "big";
  capabilities = [];
  status = RequestStatus.streaming;
  error_code = none;
  replica_id = some "r2";
  input_tokens = 0;
  output_tokens = 0;
  arrived_at = at;
  started_at = some at;
  completed_at = none;
  last_token_at = some at;
  first_token_at = some at;
  duration_ms = none;
  cost_usd = none;
  affinity_hit = none;
}

-- Replica r1 is at its ceiling and r2 has room for one more.
abbrev pub busy_db : Db
busy_db = record {
  requests = streaming_row "q1" 1000 ∷ [];
  replicas = replica_of "r1" 2 2 ∷ replica_of "r2" 1 2 ∷ [];
  replica_affinity =
      record { affinity_key = "k"; model_id = "big"; replica_id = "r1"; last_used_at = 0 } ∷ [];
  scale_signals = [];
  model_registry = [];
  model_registry_overrides = [];
  model_cost_config = [];
  audit_content = [];
  audit_logging_config = [];
}

-- Texts by length: a total preorder that stands for the database's order.
abbrev pub by_length : String → String → Bool
by_length = by len leb

pub by_length-IsPreorder : IsPreorder by_length
by_length-IsPreorder = by-IsPreorder len leb-IsPreorder
