-- ===== src/Cost.antt =====
-- server/src/cost: what a request costs, under the basis that an admin has set for its model.
pub mod Laws
pub mod Breakdown
mod Examples
use control_deck.Prelude.{
  ℕ, ◌+◌, ◌*◌, ◌-◌, String, Bool, ◌==◌, if◌then◌else◌, any, Option, none, some, List, [], ◌∷◌, find,
  upsert,
}
use control_deck.Prelude.Fraction.{Fraction, mul}
use control_deck.Types.{CostBasis}
use control_deck.Database.{CostConfigRow, Db}
use control_deck.Registry.{model_is}

pub record ComputeCostInput : Type 0 where
  pub cost_basis : CostBasis
  pub cost_value : Fraction
  pub input_tokens : ℕ
  pub output_tokens : ℕ
  pub duration_ms : ℕ

-- n / 1000
abbrev pub thousandths : ℕ → Fraction
thousandths n = record { num = n; pred_den = 999 }

unfoldable pub cost_of : CostBasis → Fraction → ℕ → ℕ → ℕ → Fraction
cost_of CostBasis.per_1k_tokens value input output duration =
    mul (thousandths (input + output)) value
cost_of CostBasis.per_request value input output duration = value
cost_of CostBasis.per_compute_second value input output duration = mul (thousandths duration) value

unfoldable pub compute_cost : ComputeCostInput → Fraction
unfolding cost_of
compute_cost i = cost_of i.cost_basis i.cost_value i.input_tokens i.output_tokens i.duration_ms

pub record CostConfig : Type 0 where
  pub cost_value : Fraction
  pub cost_basis : CostBasis

abbrev pub cost_row_is : String → CostConfigRow → Bool
cost_row_is model_id c = c.model_id == model_id

abbrev pub config_of : Option CostConfigRow → Option CostConfig
config_of none = none
config_of (some c) = some (record { cost_value = c.cost_value; cost_basis = c.cost_basis })

unfoldable pub get_cost_config_for_model : Db → String → Option CostConfig
get_cost_config_for_model db model_id = config_of (find (cost_row_is model_id) db.model_cost_config)

-- The INSERT … ON CONFLICT (model_id) DO UPDATE, for a model that is registered.
abbrev pub with_cost_config : Db → String → Fraction → CostBasis → String → Db
with_cost_config db model_id value basis updated_by = record db {
  model_cost_config =
      upsert (cost_row_is model_id)
        (λ (c : CostConfigRow). record c {
          cost_value = value;
          cost_basis = basis;
          updated_by = updated_by;
        })
        (record {
          model_id = model_id;
          cost_value = value;
          cost_basis = basis;
          updated_by = updated_by;
        })
        db.model_cost_config;
}

-- `none` is the error of the foreign key when there is no such model.
unfoldable pub set_cost_config_for_model : Db → String → Fraction → CostBasis → String → Option Db
set_cost_config_for_model db model_id value basis updated_by =
    if any (model_is model_id) db.model_registry
    then some (with_cost_config db model_id value basis updated_by)
    else none
