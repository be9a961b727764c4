-- ===== src/Database.antt =====
-- The tables of server/src/db/migrations that the router keeps its state in. A table is the list of
-- its rows; a column that may be NULL is an `Option`; a TIMESTAMPTZ is in milliseconds.
use control_deck.Prelude.{ℕ, String, Bool, Option, List}
use control_deck.Prelude.Fraction.{Fraction}
use control_deck.Types.{
  Capability, ModelClass, ReplicaStatus, CostBasis, RequestStatus, ErrorCode, SystemPromptMode,
  Text,
}

pub record RequestRow : Type 0 where
  pub id : String
  pub caller_oid : String
  pub caller_name : String
  pub team : Option String
  pub requested_model : Option String
  pub routed_model : Option String
  pub capabilities : List Capability
  pub status : RequestStatus
  pub error_code : Option ErrorCode
  pub replica_id : Option String
  pub input_tokens : ℕ
  pub output_tokens : ℕ
  pub arrived_at : ℕ
  pub started_at : Option ℕ
  pub completed_at : Option ℕ
  pub last_token_at : Option ℕ
  pub first_token_at : Option ℕ
  pub duration_ms : Option ℕ
  pub cost_usd : Option Fraction
  pub affinity_hit : Option Bool

pub record ReplicaRow : Type 0 where
  pub id : String
  pub model_id : String
  pub status : ReplicaStatus
  pub in_flight : ℕ
  pub load_pct : Fraction
  pub tokens_per_sec : Option Fraction
  pub tokens_per_sec_at : Option ℕ
  pub max_concurrency : ℕ
  pub endpoint_url : String
  pub last_seen_at : Option ℕ
  pub cpu_millicores : Option ℕ
  pub memory_bytes : Option ℕ
  pub restart_count : ℕ
  pub updated_at : ℕ

pub record AffinityRow : Type 0 where
  pub affinity_key : String
  pub model_id : String
  pub replica_id : String
  pub last_used_at : ℕ

pub record ScaleSignalRow : Type 0 where
  pub model_id : String
  pub requested_at : ℕ

pub record ModelRegistryRow : Type 0 where
  pub id : String
  pub name : String
  pub class_label : String
  pub model_class : ModelClass
  pub capabilities : List Capability
  pub min_replicas : ℕ
  pub max_replicas : ℕ
  pub system_prompt : Text
  pub cost_value : Fraction
  pub cost_basis : CostBasis
  pub endpoint_url : String
  pub upstream_model : Option String
  pub system_prompt_mode : Option SystemPromptMode
  pub backend_model_id : Option String
  pub port : Option ℕ
  pub first_token_timeout_ms : Option ℕ

-- The JSON of the column `fields`; a field that is missing is `none`.
pub record OverrideFields : Type 0 where
  pub name : Option String
  pub class_label : Option String
  pub min_replicas : Option ℕ
  pub max_replicas : Option ℕ
  pub system_prompt : Option Text
  pub cost_value : Option Fraction
  pub cost_basis : Option CostBasis

pub record OverrideRow : Type 0 where
  pub model_id : String
  pub fields : OverrideFields
  pub updated_by : Option String
  pub updated_at : ℕ

pub record CostConfigRow : Type 0 where
  pub model_id : String
  pub cost_value : Fraction
  pub cost_basis : CostBasis
  pub updated_by : String

pub record AuditContentRow : Type 0 where
  pub request_id : String
  pub prompt : Text
  pub response : Text
  pub created_at : ℕ

pub data ScopeType : Type 0 where
  global team model key : ScopeType

pub record LoggingScopeRow : Type 0 where
  pub scope_type : ScopeType
  pub scope_key : String
  pub enabled : Bool

-- The tables that a request passes through.
pub record Db : Type 0 where
  pub requests : List RequestRow
  pub replicas : List ReplicaRow
  pub replica_affinity : List AffinityRow
  pub scale_signals : List ScaleSignalRow
  pub model_registry : List ModelRegistryRow
  pub model_registry_overrides : List OverrideRow
  pub model_cost_config : List CostConfigRow
  pub audit_content : List AuditContentRow
  pub audit_logging_config : List LoggingScopeRow
