-- ===== src/Cost/Breakdown.antt =====
-- server/src/cost/breakdown.ts: what the completed requests of a window cost, by model or by caller.
pub mod Laws
mod Examples
use control_deck.Prelude.{
  ℕ, ◌+◌, String, Bool, true, false, ◌&&◌, ◌==◌, if◌then◌else◌, leb, is_text, is_some, or_else, any,
  filter, length, map, sum_by, sort_by, Option, none, some, List, [], ◌∷◌,
}
use control_deck.Prelude.Fraction.{Fraction, of_nat, add, le_frac}
use control_deck.Types.{is_completed}
use control_deck.Database.{RequestRow, Db}

pub data CostBreakdownGroupBy : Type 0 where
  model caller : CostBreakdownGroupBy

pub record CostBreakdownEntry : Type 0 where
  pub key : String
  pub tokens : ℕ
  pub requests : ℕ
  pub cost : Fraction

pub record GetCostBreakdownInput : Type 0 where
  pub since : ℕ
  pub until : ℕ
  pub group_by : CostBreakdownGroupBy

-- The column that the rows are grouped by.
abbrev pub group_column : CostBreakdownGroupBy → RequestRow → Option String
group_column CostBreakdownGroupBy.model r = r.routed_model
group_column CostBreakdownGroupBy.caller r = some r.caller_oid

-- WHERE status = 'completed' AND arrived_at BETWEEN … AND the column IS NOT NULL
abbrev pub is_in_window : GetCostBreakdownInput → RequestRow → Bool
is_in_window input r =
    is_completed r.status
    && (leb input.since r.arrived_at
        && (leb r.arrived_at input.until && is_some (group_column input.group_by r)))

abbrev pub key_of : CostBreakdownGroupBy → RequestRow → String
key_of group r = or_else (group_column group r) ""

abbrev pub distinct_keys : CostBreakdownGroupBy → List RequestRow → List String
distinct_keys group [] = []
distinct_keys group (r ∷ rows) =
    let keys = distinct_keys group rows in
    if any (λ (k : String). k == key_of group r) keys then keys else key_of group r ∷ keys

abbrev sum_costs : List RequestRow → Fraction
sum_costs [] = of_nat 0
sum_costs (r ∷ rows) = add (or_else r.cost_usd (of_nat 0)) (sum_costs rows)

abbrev pub tokens_used : RequestRow → ℕ
tokens_used r = r.input_tokens + r.output_tokens

abbrev pub group_of : CostBreakdownGroupBy → List RequestRow → String → List RequestRow
group_of group rows key = filter (λ (r : RequestRow). key_of group r == key) rows

abbrev pub entry_for : CostBreakdownGroupBy → List RequestRow → String → CostBreakdownEntry
entry_for group rows key =
    let mine = group_of group rows key in
    record {
      key = key;
      tokens = sum_by tokens_used mine;
      requests = length mine;
      cost = sum_costs mine;
    }

-- ORDER BY cost DESC
abbrev pub dearer_first : CostBreakdownEntry → CostBreakdownEntry → Bool
dearer_first a b = le_frac b.cost a.cost

unfoldable pub get_cost_breakdown : Db → GetCostBreakdownInput → List CostBreakdownEntry
unfolding sort_by
get_cost_breakdown db input =
    let rows = filter (is_in_window input) db.requests in
    sort_by dearer_first (map (entry_for input.group_by rows) (distinct_keys input.group_by rows))
