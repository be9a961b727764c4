-- ===== src/Registry/Examples.antt =====
-- The theorems about the registry at a concrete table.
use control_deck.Prelude.{String, ◌≡◌, ◌↔◌, refl, none, some, [], ◌∷◌, Mem}
use control_deck.Prelude.Fraction.{of_nat}
use control_deck.Types.{Capability, ModelClass, CostBasis, ModelConfig}
use control_deck.Database.{ModelRegistryRow, OverrideFields, Db}
use control_deck.Routing.Complexity.{codes}
use control_deck.Registry.{no_fields, merged, list_models, get_model}
use control_deck.Registry.Laws.{list_models-get_model}
use control_deck.Samples.{busy_db, by_length}

abbrev pub big_row : ModelRegistryRow
big_row = record {
  id = "big";
  name = "Big";
  class_label = "";
  model_class = ModelClass.large;
  capabilities = Capability.chat ∷ [];
  min_replicas = 1;
  max_replicas = 2;
  system_prompt = codes "be brief";
  cost_value = of_nat 2;
  cost_basis = CostBasis.per_1k_tokens;
  endpoint_url = "http://m";
  upstream_model = none;
  system_prompt_mode = none;
  backend_model_id = none;
  port = none;
  first_token_timeout_ms = none;
}

abbrev pub one_model : Db
one_model = record busy_db { model_registry = big_row ∷ [] }

abbrev more_replicas : OverrideFields
more_replicas = record no_fields { max_replicas = some 4 }

abbrev big_config : ModelConfig
big_config = merged big_row no_fields

big_listed : list_models by_length one_model ≡ big_config ∷ []
unfolding list_models
big_listed = refl

list_models-get_model_example :
    Mem big_config (list_models by_length one_model)
    ↔ ((id : String) × (get_model one_model id ≡ some big_config))
list_models-get_model_example = list_models-get_model by_length one_model big_config (tt, tt)
