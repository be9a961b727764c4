-- ===== src/Routing/Select.antt =====
-- server/src/routing/select-model.ts
pub mod Laws
pub mod Errors
pub mod Preference
use control_deck.Prelude.{
  String, Bool, true, false, ◌==◌, not, if◌then◌else◌, or_else, Option, none, some, List, [], ◌∷◌,
  find, filter,
}
use control_deck.Types.{
  Capability, ModelClass, same_class, ErrorCode, ModelConfig, ChatCompletionRequest,
}
use control_deck.Routing.Capabilities.{
  Endpoint, required_capabilities, includes, has_all_capabilities, filter_by_capabilities,
}
use control_deck.Routing.Complexity.{
  compute_complexity_signals, is_complex, includes_text, lower_case,
}

pub data Reason : Type 0 where
  explicit_override complexity_large complexity_fast : Reason

-- An error carries what its message is made of: the model named, or the capabilities that are
-- missing.
pub data SelectModelResult : Type 0 where
  ok : (model_id : String) → Reason → SelectModelResult
  model_not_found : (model_id : String) → SelectModelResult
  lacks : (model_id : String) (missing : List Capability) → SelectModelResult
  none_eligible : (required : List Capability) → SelectModelResult

-- The `code` of the error.
abbrev pub error_code : SelectModelResult → Option ErrorCode
error_code (SelectModelResult.ok _ _) = none
error_code (SelectModelResult.model_not_found _) = some ErrorCode.model_not_found
error_code (SelectModelResult.lacks _ _) = some ErrorCode.capability_mismatch
error_code (SelectModelResult.none_eligible _) = some ErrorCode.capability_mismatch

-- `undefined`, "" and "auto" leave the choice to the router.
unfoldable pub named_model : Option String → Option String
named_model none = none
named_model (some m) = if m == "" then none else if m == "auto" then none else some m

unfoldable pub select_explicit : String → List ModelConfig → List Capability → SelectModelResult
unfolding has_all_capabilities
select_explicit model_id candidates required =
    elim (find (λ (m : ModelConfig). m.id == model_id) candidates) [
      | none ↦ SelectModelResult.model_not_found model_id
      | some named ↦
          if has_all_capabilities named required
          then SelectModelResult.ok named.id Reason.explicit_override
          else SelectModelResult.lacks model_id
              (filter (λ cap. not (includes named.capabilities cap)) required)
    ]

abbrev pub of_class : ModelClass → ModelConfig → Bool
of_class c model = same_class model.model_class c

-- `eligible` is the list `first ∷ rest`.
unfoldable pub pick_by_class : ModelConfig → List ModelConfig → Bool → ModelConfig
pick_by_class first rest complex =
    let preferred_class = if complex then ModelClass.large else ModelClass.fast in
    or_else (find (of_class preferred_class) (first ∷ rest))
      (if complex then or_else (find (of_class ModelClass.fast) (first ∷ rest)) first else first)

abbrev pub reason_of : ModelClass → Reason
reason_of ModelClass.large = Reason.complexity_large
reason_of _ = Reason.complexity_fast

unfoldable pub choose : List ModelConfig → List Capability → Bool → SelectModelResult
unfolding pick_by_class
choose [] required complex = SelectModelResult.none_eligible required
choose (first ∷ rest) required complex =
    let chosen = pick_by_class first rest complex in
    SelectModelResult.ok chosen.id (reason_of chosen.model_class)

unfoldable pub select_auto :
    ChatCompletionRequest → List ModelConfig → List Capability → SelectModelResult
unfolding filter_by_capabilities choose compute_complexity_signals is_complex includes_text
    lower_case
select_auto request candidates required =
    choose (filter_by_capabilities candidates required) required
      (is_complex (compute_complexity_signals request))

unfoldable pub select_model :
    ChatCompletionRequest → List ModelConfig → Endpoint → SelectModelResult
unfolding required_capabilities named_model select_explicit select_auto
select_model request candidates endpoint =
    let required = required_capabilities request endpoint in
    elim (named_model request.model) [
      | some model_id ↦ select_explicit model_id candidates required
      | none ↦ select_auto request candidates required
    ]
