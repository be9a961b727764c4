-- ===== src/Types/Defs.antt =====
-- server/src/types.ts: the enumerations and records.
use control_deck.Prelude.{ℕ, String, Bool, Option, List}
use control_deck.Prelude.Fraction.{Fraction}

abbrev pub Text : Type 0
Text = List ℕ

-- A JSON value that is forwarded unread.
abbrev pub Opaque : Type 0
Opaque = Text

pub data Capability : Type 0 where
  chat vision tools embeddings : Capability

pub data ModelClass : Type 0 where
  large fast vision embedding : ModelClass

pub data ReplicaStatus : Type 0 where
  ready loading busy idle error : ReplicaStatus

pub data CostBasis : Type 0 where
  per_1k_tokens per_request per_compute_second : CostBasis

pub data RequestStatus : Type 0 where
  queued routed streaming completed queue_timeout stall_timeout replica_unavailable : RequestStatus
  capability_mismatch auth_invalid error : RequestStatus

pub data ErrorCode : Type 0 where
  model_not_found queue_timeout stall_timeout replica_unavailable capability_mismatch : ErrorCode
  auth_invalid invalid_request context_length_exceeded : ErrorCode

pub data ErrorType : Type 0 where
  invalid_request_error auth_error capacity_error timeout_error : ErrorType

pub record StandardError : Type 0 where
  pub kind : ErrorType
  pub code : ErrorCode
  pub message : Text

pub record Replica : Type 0 where
  pub id : String
  pub model_id : String
  pub status : ReplicaStatus
  pub in_flight : ℕ
  pub load_pct : Fraction
  pub tokens_per_sec : Option Fraction
  pub endpoint_url : String

pub data SystemPromptMode : Type 0 where
  passthrough merge : SystemPromptMode

pub data ConfigSource : Type 0 where
  gitops override : ConfigSource

pub record ModelConfig : Type 0 where
  pub id : String
  pub name : String
  pub class_label : String
  pub model_class : ModelClass
  pub capabilities : List Capability
  pub min_replicas : ℕ
  pub max_replicas : ℕ
  pub system_prompt : Text
  pub cost_value : Fraction
  pub cost_basis : CostBasis
  pub endpoint_url : String
  pub upstream_model : String
  pub backend_model_id : String
  pub system_prompt_mode : SystemPromptMode
  pub port : ℕ
  pub first_token_timeout_ms : Option ℕ
  pub config_source : ConfigSource
  pub has_override : Bool

pub data Role : Type 0 where
  system developer user assistant tool : Role

-- One part of a multi-part content; `text` is missing where the part has no text field that is a
-- string.
pub record Part : Type 0 where
  pub kind : String
  pub text : Option Text

pub data Content : Type 0 where
  string : Text → Content
  parts : List Part → Content
  null : Content

pub record ChatMessage : Type 0 where
  pub role : Role
  pub content : Content
  pub tool_calls : Option (List Opaque)
  pub tool_call_id : Option Opaque
  pub name : Option Opaque

pub record ChatCompletionRequest : Type 0 where
  pub model : Option String
  pub messages : List ChatMessage
  pub tools : Option (List Opaque)
  pub tool_choice : Option Opaque
  pub stream : Bool
  pub temperature : Option Opaque
  pub top_p : Option Opaque
  pub max_tokens : Option Opaque
  pub stop : Option Opaque
  pub seed : Option Opaque
  pub presence_penalty : Option Opaque
  pub frequency_penalty : Option Opaque
  pub response_format : Option Opaque

pub record CallerIdentity : Type 0 where
  pub oid : String
  pub name : String
  pub team : Option String
