-- ===== src/Cost/Breakdown/Examples.antt =====
-- A breakdown of two completed requests and one that runs.
use control_deck.Prelude.{ℕ, ◌≡◌, refl, [], ◌∷◌, map, sum_by}
use control_deck.Types.{RequestStatus}
use control_deck.Database.{RequestRow, Db}
use control_deck.Cost.Breakdown.{
  CostBreakdownGroupBy, CostBreakdownEntry, GetCostBreakdownInput, get_cost_breakdown,
}
use control_deck.Cost.Breakdown.Laws.{get_cost_breakdown-adds_up}
use control_deck.Samples.{busy_db, streaming_row}

abbrev finished : ℕ → RequestRow
finished tokens = record (streaming_row "q0" 500) {
  status = RequestStatus.completed;
  output_tokens = tokens;
}

abbrev three : Db
three = record busy_db { requests = finished 3 ∷ streaming_row "q1" 1000 ∷ finished 4 ∷ [] }

abbrev by_model : GetCostBreakdownInput
by_model = record { since = 500; until = 2000; group_by = CostBreakdownGroupBy.model }

one_group : map (λ (e : CostBreakdownEntry). e.tokens) (get_cost_breakdown three by_model) ≡ 7 ∷ []
unfolding get_cost_breakdown
one_group = refl

get_cost_breakdown-adds_up_example :
    (sum_by (λ (e : CostBreakdownEntry). e.requests) (get_cost_breakdown three by_model) ≡ 2)
    × (sum_by (λ (e : CostBreakdownEntry). e.tokens) (get_cost_breakdown three by_model) ≡ 7)
get_cost_breakdown-adds_up_example = get_cost_breakdown-adds_up three by_model
