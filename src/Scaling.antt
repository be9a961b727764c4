-- ===== src/Scaling.antt =====
-- server/src/scaling/status.ts: what an operator is told of a model's autoscaler.
--
-- What the cluster answers is an argument: an object that cannot be read is `none`, and so is a
-- namespace that cannot be found. `number` is JavaScript's Number, `none` for NaN; a value is whole.
mod Laws
use control_deck.Prelude.{
  ℕ, suc, ◌+◌, ◌-◌, ◌<◌, String, Bool, true, false, not, ◌||◌, ◌&&◌, ◌==◌, if◌then◌else◌, is_empty,
  any, find, eqb, leb, length, Option, none, some, List, [], ◌∷◌, ◌++◌, or_else,
}
use control_deck.Types.{Text}
use control_deck.Routing.Complexity.{codes, starts_with, is_space}
use control_deck.Http.Stream.{trim}

pub data ScalingState : Type 0 where
  active not_reconciled metric_unreadable absent unknown : ScalingState

pub data Metric : Type 0 where
  no_metric not_a_number : Metric
  value : ℕ → Metric

pub record ScalingStatus : Type 0 where
  pub state : ScalingState
  pub detail : Text
  pub min_replicas : Option ℕ
  pub max_replicas : Option ℕ
  pub desired_replicas : Option ℕ
  pub current_metric : Metric
  pub trigger_url : Option Text

pub record ScaledObject : Type 0 where
  pub min_replica_count : Option ℕ
  pub max_replica_count : Option ℕ
  pub first_trigger_url : Option Text

pub record Condition : Type 0 where
  pub kind : String
  pub status : String
  pub reason : Option Text
  pub message : Option Text

-- Of the metrics, the values of the first.
pub record Hpa : Type 0 where
  pub desired_replicas : Option ℕ
  pub average_value : Option Text
  pub metric_value : Option Text
  pub conditions : List Condition

abbrev pub unknown_status : Text → ScalingStatus
unknown_status detail = record {
  state = ScalingState.unknown;
  detail = detail;
  min_replicas = none;
  max_replicas = none;
  desired_replicas = none;
  current_metric = Metric.no_metric;
  trigger_url = none;
}

abbrev selector : Text
selector = codes "&LabelSelector{"

abbrev ends_line : ℕ → Bool
ends_line c = eqb c 10 || (eqb c 13 || (eqb c 0x2028 || eqb c 0x2029))

abbrev longer_by_one : Option ℕ → Option ℕ
longer_by_one none = none
longer_by_one (some n) = some (suc n)

-- How many units /.*?\},?\}/ takes from here.
abbrev to_close : Text → Option ℕ
to_close [] = none
to_close (c ∷ s) =
    let rest = longer_by_one (to_close s) in
    if starts_with (c ∷ s) (codes "},}")
    then some 3
    else if starts_with (c ∷ s) (codes "}}")
    then some 2
    else if ends_line c
    then none
    else rest

-- The units after a place that belong to the selector which begins at it, if one does.
abbrev selector_at : Text → Option ℕ
selector_at [] = none
selector_at (c ∷ s) = if starts_with (c ∷ s) selector then to_close (c ∷ s) else none

-- `text.replace(/&LabelSelector\{.*?\},?\}/g, "")`; the next `skipped` units are a selector's.
abbrev without_selectors : (skipped : ℕ) → Text → Text
without_selectors skipped [] = []
without_selectors (suc n) (c ∷ s) = without_selectors n s
without_selectors ℕ.zero (c ∷ s) =
    let kept = c ∷ without_selectors 0 s in
    elim (selector_at (c ∷ s)) [ none ↦ kept | some n ↦ without_selectors (n - 1) s ]

-- `text.replace(/\s+/g, " ")`
abbrev single_spaces : (inside : Bool) → Text → Text
single_spaces inside [] = []
single_spaces inside (c ∷ s) =
    if is_space c
    then if inside then single_spaces true s else b' ' ∷ single_spaces true s
    else c ∷ single_spaces false s

abbrev drop_first : ℕ → Text → Text
drop_first ℕ.zero s = s
drop_first (suc n) [] = []
drop_first (suc n) (c ∷ s) = drop_first n s

abbrev shortened : ℕ → Text → Text
shortened limit s = if leb (length s) limit then s else codes "…" ++ drop_first (length s - limit) s

-- An empty message is as none.
unfoldable pub summarise_hpa_message : Option Text → ℕ → Text
unfolding starts_with is_space trim
summarise_hpa_message none limit = []
summarise_hpa_message (some message) limit =
    shortened limit (trim (single_spaces false (without_selectors 0 message)))

abbrev current_metric_of : (Text → Option ℕ) → Option Text → Metric
current_metric_of number none = Metric.no_metric
current_metric_of number (some raw) = elim (number raw) [
  | none ↦ Metric.not_a_number
  | some n ↦ Metric.value n
]

-- `current?.averageValue ?? current?.value`
abbrev raw_metric : Hpa → Option Text
raw_metric hpa = elim hpa.average_value [ none ↦ hpa.metric_value | some v ↦ some v ]

abbrev pub is_inactive : Option Condition → Bool
is_inactive none = false
is_inactive (some c) = c.status == "False"

abbrev pub scaling_active : Hpa → Option Condition
scaling_active hpa = find (λ (c : Condition). c.kind == "ScalingActive") hpa.conditions

abbrev is_zero : Metric → Bool
is_zero (Metric.value n) = eqb n 0
is_zero _ = false

abbrev active_detail : Metric → Text
active_detail m =
    if is_zero m
    then codes
        "Scaling normally. The metric is 0 because nothing is queued or in flight, so holding at the minimum is correct."
    else codes "Scaling normally."

abbrev absent_detail : Text → Text → Text
absent_detail backend namespace =
    codes "No ScaledObject \""
    ++ (backend
        ++ (codes "-scaledobject\" in "
            ++ (namespace
                ++ codes
                    ". Either the chart did not create one, or the router may not read them — the Role needs get/list on keda.sh/scaledobjects.")))

abbrev not_reconciled_detail : Text → Text
not_reconciled_detail namespace =
    codes
      "KEDA has not created an HPA for this ScaledObject. The operator is not processing it: most often it was installed watching a single namespace (WATCH_NAMESPACE) that is not "
    ++ (namespace
        ++ codes
            ". Check the keda-operator Deployment, or install the chart's own KEDA with keda.enabled=true.")

abbrev quoted : Text → Text
quoted [] = []
quoted (c ∷ s) = codes " Kubernetes reports: " ++ (c ∷ s)

abbrev fault_reason : Option Condition → Text
fault_reason none = codes "unknown reason"
fault_reason (some c) = or_else c.reason (codes "unknown reason")

abbrev message_of : Option Condition → Option Text
message_of none = none
message_of (some c) = c.message

abbrev unreadable_detail : Option Condition → Text
unreadable_detail c =
    codes "The HPA cannot read the router's metric ("
    ++ (fault_reason c
        ++ (codes
              "). A timeout or refused connection usually means traffic from KEDA's namespace to this one is blocked — a default-deny NetworkPolicy is the common cause in a locked-down cluster, and the chart can render an allow rule (networkPolicy.enabled). \"no such host\" means the Service name does not resolve. If instead the metrics API itself is failing, check that KEDA still serves v1beta1.external.metrics.k8s.io — it is a cluster singleton, so a second metrics adapter breaks every KEDA HPA."
            ++ quoted (summarise_hpa_message (message_of c) 240)))

module _ (number : Text → Option ℕ) (backend namespace : Text) where
  abbrev pub read_hpa : ScaledObject → Hpa → ScalingStatus
  read_hpa so hpa =
      let metric = current_metric_of number (raw_metric hpa) in
      let broken = is_inactive (scaling_active hpa) in
      record {
        state = (if broken then ScalingState.metric_unreadable else ScalingState.active);
        detail = (if broken then unreadable_detail (scaling_active hpa) else active_detail metric);
        min_replicas = so.min_replica_count;
        max_replicas = so.max_replica_count;
        desired_replicas = hpa.desired_replicas;
        current_metric = metric;
        trigger_url = so.first_trigger_url;
      }

  abbrev pub read_scaled_object : ScaledObject → Option Hpa → ScalingStatus
  read_scaled_object so none = record {
    state = ScalingState.not_reconciled;
    detail = not_reconciled_detail namespace;
    min_replicas = so.min_replica_count;
    max_replicas = so.max_replica_count;
    desired_replicas = none;
    current_metric = Metric.no_metric;
    trigger_url = so.first_trigger_url;
  }
  read_scaled_object so (some hpa) = read_hpa so hpa

  abbrev pub read_cluster : Option ScaledObject → Option Hpa → ScalingStatus
  read_cluster none hpa = record (unknown_status (absent_detail backend namespace)) {
    state = ScalingState.absent;
  }
  read_cluster (some so) hpa = read_scaled_object so hpa

abbrev pub in_namespace :
    (Text → Option ℕ) → Text → Option Text → Option ScaledObject → Option Hpa → ScalingStatus
in_namespace number backend none so hpa =
    unknown_status (codes "Could not determine the namespace.")
in_namespace number backend (some namespace) so hpa = read_cluster number backend namespace so hpa

unfoldable pub get_scaling_status :
    (Text → Option ℕ)
    → (in_cluster : Bool) → Text
    → Option Text
    → Option ScaledObject
    → Option Hpa
    → ScalingStatus
unfolding summarise_hpa_message
get_scaling_status number in_cluster backend namespace so hpa =
    if in_cluster
    then in_namespace number backend namespace so hpa
    else unknown_status (codes "Not running in Kubernetes, so there is no autoscaler to inspect.")
