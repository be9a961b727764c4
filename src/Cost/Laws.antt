-- ===== src/Cost/Laws.antt =====
-- What the cost of a request depends on, and that a configured cost is read back.
use native.Mathlib.Nat.{mul-le-mul_right}
use control_deck.Prelude.{
  ℕ, any, true, false, none, ◌≢◌, Option-cases, find-upsert_self, find-upsert_other, ◌+◌, ◌≤◌,
  String, ◌≡◌, refl, ap, ◌∙◌, some, find, inl, inr, arith,
}
use control_deck.Prelude.Fraction.{Fraction, Le, mul, den}
use control_deck.Types.{CostBasis}
use control_deck.Database.{CostConfigRow, Db}
use control_deck.Registry.{model_is}
use control_deck.Cost.{
  thousandths, compute_cost, config_of, cost_row_is, get_cost_config_for_model,
  set_cost_config_for_model, with_cost_config,
}

thousandths_mono :
    (n n' : ℕ) (value : Fraction)
    → n ≤ n'
    → Le (mul (thousandths n) value) (mul (thousandths n') value)
thousandths_mono n n' value h =
    mul-le-mul_right (den (mul (thousandths n) value)) (mul-le-mul_right value.num h)

-- More tokens and more time never cost less, under every basis.
pub compute_cost_mono :
    (basis : CostBasis) (value : Fraction) (i i' o o' d d' : ℕ)
    → i ≤ i'
    → o ≤ o'
    → d ≤ d'
    → Le
        (compute_cost (record {
          cost_basis = basis;
          cost_value = value;
          input_tokens = i;
          output_tokens = o;
          duration_ms = d;
        }))
        (compute_cost (record {
          cost_basis = basis;
          cost_value = value;
          input_tokens = i';
          output_tokens = o';
          duration_ms = d';
        }))
unfolding compute_cost
compute_cost_mono CostBasis.per_1k_tokens value i i' o o' d d' h k l =
    thousandths_mono (i + o) (i' + o') value (omega arith)
compute_cost_mono CostBasis.per_request value i i' o o' d d' h k l = omega arith
compute_cost_mono CostBasis.per_compute_second value i i' o o' d d' h k l =
    thousandths_mono d d' value l

cost_key : CostConfigRow → String
cost_key c = c.model_id

-- The cost that an admin sets for a registered model is the one that is read for it, and the cost of
-- every other model is as it was. For a model that is not registered the statement fails.
pub get_cost_config_for_model-set :
    (db : Db) (model_id by : String) (value : Fraction) (basis : CostBasis)
    → (any (model_is model_id) db.model_registry ≡ true
        → (db' : Db) × (set_cost_config_for_model db model_id value basis by ≡ some db')
          × (get_cost_config_for_model db' model_id
              ≡ some (record { cost_value = value; cost_basis = basis }))
          × ((other : String)
              → model_id ≢ other
              → get_cost_config_for_model db' other ≡ get_cost_config_for_model db other))
      × (any (model_is model_id) db.model_registry ≡ false
          → set_cost_config_for_model db model_id value basis by ≡ none)
unfolding get_cost_config_for_model set_cost_config_for_model cost_key
get_cost_config_for_model-set db model_id by value basis =
    let row : CostConfigRow = record {
      model_id = model_id;
      cost_value = value;
      cost_basis = basis;
      updated_by = by;
    } in
    let set : CostConfigRow → CostConfigRow =
      λ c. record c { cost_value = value; cost_basis = basis; updated_by = by } in
    (
      λ registered. (
        with_cost_config db model_id value basis by,
        rw registered refl,
        ap config_of
              (find-upsert_self cost_key set row model_id db.model_cost_config refl (λ c. refl))
            ∙ elim (Option-cases (find (cost_row_is model_id) db.model_cost_config)) [
              | inl e ↦ rw e refl
              | inr (c, e) ↦ rw e refl
            ],
        λ other ne. ap config_of (
            find-upsert_other cost_key set row model_id other db.model_cost_config refl (λ c. refl)
              ne),
      ),
      λ absent. rw absent refl,
    )
