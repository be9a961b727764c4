-- ===== src/Metrics.antt =====
-- server/src/metrics/index.ts: getKedaMetricForModel, the demand that the autoscaler reads, and its
-- route in server/src/http/routes/system.ts.
pub mod Laws
mod Examples
use control_deck.Prelude.{
  ℕ, ◌+◌, String, Bool, true, false, ◌&&◌, ◌||◌, ◌==◌, if◌then◌else◌, is_text, any, filter, length,
  ltb, List, [], ◌∷◌, Option, some, none,
}
use control_deck.Types.{is_queued}
use control_deck.Database.{RequestRow, ReplicaRow, ModelRegistryRow, Db}
use control_deck.Scheduler.Keda.{KedaClient, wants_scale_up}

pub record KedaMetric : Type 0 where
  pub pending_requests : ℕ
  pub in_flight : ℕ
  pub queued : ℕ

-- WHERE id = $1 OR backend_model_id = $1
abbrev pub is_served_by : String → ModelRegistryRow → Bool
is_served_by backend m = m.id == backend || is_text m.backend_model_id backend

abbrev pub routed_to : String → List ModelRegistryRow → Option String → Bool
routed_to backend models none = false
routed_to backend models (some id) =
    any (λ (m : ModelRegistryRow). is_served_by backend m && m.id == id) models

abbrev pub waits_for : String → List ModelRegistryRow → RequestRow → Bool
waits_for backend models r = is_queued r.status && routed_to backend models r.routed_model

-- COALESCE(SUM(in_flight), 0) … WHERE model_id = $1
abbrev pub use_of : String → ReplicaRow → ℕ
use_of backend r = if r.model_id == backend then r.in_flight else 0

abbrev pub in_flight_of : String → List ReplicaRow → ℕ
in_flight_of backend [] = 0
in_flight_of backend (r ∷ rs) = use_of backend r + in_flight_of backend rs

unfoldable pub get_keda_metric_for_model : Db → String → Bool → KedaMetric
get_keda_metric_for_model db backend recently_requested_scale_up =
    let busy = in_flight_of backend db.replicas in
    let queued = length (filter (waits_for backend db.model_registry) db.requests) in
    let demand = busy + queued in
    record {
      pending_requests = demand + (if ltb 0 demand || recently_requested_scale_up then 1 else 0);
      in_flight = busy;
      queued = queued;
    }

abbrev is_preemptive : KedaClient → Db → String → ℕ → ℕ → Bool
is_preemptive KedaClient.noop db backend within_ms now = false
is_preemptive (KedaClient.metrics debounce_ms) db backend within_ms now =
    wants_scale_up db backend within_ms now

-- GET /metrics/keda/:modelId
unfoldable pub keda_route : KedaClient → Db → String → ℕ → ℕ → KedaMetric
unfolding wants_scale_up get_keda_metric_for_model
keda_route keda db backend within_ms now =
    get_keda_metric_for_model db backend (is_preemptive keda db backend within_ms now)
