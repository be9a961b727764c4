-- ===== src/Registry/Gitops/Examples.antt =====
-- A configuration of a model and its alias.

use control_deck.Prelude.{String, ◌≡◌, refl, Option, none, some, List, [], ◌∷◌, Memᴰ}
use control_deck.Types.{Capability, ModelClass}
use control_deck.Registry.{merge_model_config, fetch_override, get_model}
use control_deck.Registry.Gitops.{
  GitOpsModel, ConfigFile, ConfigError, ReadConfig, row_of, model_error, first_error,
  read_models_config, sync_models_from_config,
}
use control_deck.Registry.Gitops.Checks.{IsRoutable, read_models_config-IsRoutable}
use control_deck.Registry.Gitops.Sync.{sync_models_from_config-get_model}
use control_deck.Registry.Examples.{one_model}

abbrev configured : String → Option String → GitOpsModel
configured id ref = record {
  id = id;
  name = none;
  class_label = none;
  model_class = ModelClass.large;
  capabilities = Capability.chat ∷ [];
  min_replicas = none;
  max_replicas = some 3;
  system_prompt = none;
  cost_value = none;
  cost_basis = none;
  endpoint_url = none;
  upstream_model = none;
  backend_ref = ref;
  port = none;
  system_prompt_mode = none;
  first_token_timeout_ms = none;
}

abbrev two : List GitOpsModel
two = configured "big" none ∷ configured "alias" (some "big") ∷ []

-- An empty reference counts as none, and a reference to a reference is refused.
chain_is_rejected :
    read_models_config (
      ConfigFile.holds (
        configured "big" (some "")
        ∷ configured "alias" (some "big")
        ∷ configured "far" (some "alias")
        ∷ []))
    ≡ ReadConfig.rejected (ConfigError.chained "far" "alias")
unfolding read_models_config first_error model_error
chain_is_rejected = refl

read_models_config-IsRoutable_example : IsRoutable two (configured "alias" (some "big"))
unfolding read_models_config first_error model_error
read_models_config-IsRoutable_example =
    read_models_config-IsRoutable
      (ConfigFile.holds (configured "big" (some "") ∷ configured "alias" (some "big") ∷ [])) two
      (configured "alias" (some "big")) refl (Memᴰ.tail (Memᴰ.head refl))

sync_models_from_config-get_model_example :
    get_model (sync_models_from_config (some "ns") one_model two).0 "alias"
    ≡ some (
        merge_model_config
          (row_of (some "ns") (configured "alias" (some "big")))
          (fetch_override one_model "alias"))
sync_models_from_config-get_model_example =
    sync_models_from_config-get_model (some "ns") one_model two "alias"
