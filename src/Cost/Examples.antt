-- ===== src/Cost/Examples.antt =====
-- The theorems about costs at concrete configurations.
use control_deck.Prelude.{String, ◌≡◌, ◌≢◌, some, none, any, true, false, refl}
use control_deck.Prelude.Fraction.{of_nat}
use control_deck.Types.{CostBasis}
use control_deck.Cost.{
  ComputeCostInput, compute_cost, get_cost_config_for_model, set_cost_config_for_model,
}
use control_deck.Cost.Laws.{get_cost_config_for_model-set}
use control_deck.Database.{Db}
use control_deck.Registry.{model_is}
use control_deck.Registry.Examples.{one_model}

abbrev short_turn : ComputeCostInput
short_turn = record {
  cost_basis = CostBasis.per_1k_tokens;
  cost_value = of_nat 2;
  input_tokens = 100;
  output_tokens = 20;
  duration_ms = 900;
}

abbrev long_turn : ComputeCostInput
long_turn = record short_turn { input_tokens = 150; output_tokens = 80; duration_ms = 2000 }

-- 120 / 1000 * 2
short_turn-cost : (compute_cost short_turn).num ≡ 240
unfolding compute_cost
short_turn-cost = refl

get_cost_config_for_model-set_example :
    (any (model_is "big") one_model.model_registry ≡ true
      → (db' : Db) × (set_cost_config_for_model one_model "big"
            (of_nat 3)
            CostBasis.per_request
            "ann"
          ≡ some db')
        × (get_cost_config_for_model db' "big"
            ≡ some (record { cost_value = of_nat 3; cost_basis = CostBasis.per_request }))
        × ((other : String)
            → "big" ≢ other
            → get_cost_config_for_model db' other ≡ get_cost_config_for_model one_model other))
    × (any (model_is "big") one_model.model_registry ≡ false
        → set_cost_config_for_model one_model "big" (of_nat 3) CostBasis.per_request "ann" ≡ none)
get_cost_config_for_model-set_example =
    get_cost_config_for_model-set one_model "big" "ann" (of_nat 3) CostBasis.per_request
