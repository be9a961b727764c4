-- ===== src/Metrics/Examples.antt =====
-- The demand of a backend with an alias.
use control_deck.Prelude.{◌+◌, false, ◌≡◌, refl, none, some, [], ◌∷◌, Memᴰ}
use control_deck.Database.{ModelRegistryRow, Db}
use control_deck.Scheduler.Queue.{EnqueueRequestInput, queued_row, enqueue_request}
use control_deck.Http.Chat.{route_row}
use control_deck.Registry.Examples.{big_row, one_model}
use control_deck.Metrics.{get_keda_metric_for_model}
use control_deck.Metrics.Laws.{enqueue_request-is_counted}

abbrev alias_row : ModelRegistryRow
alias_row = record big_row { id = "alias"; backend_model_id = some "big" }

abbrev aliased : Db
aliased = record one_model { model_registry = big_row ∷ alias_row ∷ [] }

abbrev arriving : EnqueueRequestInput
arriving = record {
  id = "q2";
  caller_oid = "oid-ann";
  caller_name = "Ann";
  team = none;
  requested_model = some "alias";
  capabilities = [];
}

abbrev arrived : Db
arrived = record aliased { requests = queued_row arriving 1500 ∷ aliased.requests }

busy_metric :
    get_keda_metric_for_model aliased "big" false
    ≡ record { pending_requests = 4; in_flight = 3; queued = 0 }
unfolding get_keda_metric_for_model
busy_metric = refl

enqueue_request-is_counted_example :
    let before = get_keda_metric_for_model aliased "big" false in
    let after = get_keda_metric_for_model (route_row arrived "q2" "alias") "big" false in
    (after.queued ≡ before.queued + 1)
    × (after.in_flight ≡ before.in_flight)
    × (after.pending_requests ≡ before.in_flight + before.queued + 2)
unfolding enqueue_request
enqueue_request-is_counted_example =
    enqueue_request-is_counted aliased arriving alias_row "big" false 1500 arrived refl
      (Memᴰ.tail (Memᴰ.head refl)) refl
