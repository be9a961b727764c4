-- ===== src/Metrics/Laws.antt =====
-- The demand of a backend follows a request from its arrival to its replica.
use control_deck.Prelude.{
  ℕ, ◌+◌, String, Bool, true, false, ◌&&◌, ◌==◌, ◌≡◌, ◌≢◌, refl, ap, Option, some, List, [], ◌∷◌,
  All, Mem, any, any_of_mem, update, update-absent, Bool-cases, inl, inr, sum_by, Replaced-sum,
  eq_iff, eq_refl, IsPreorder, HasDistinctKeys, arith,
}
use control_deck.Types.{Replica}
use control_deck.Database.{RequestRow, ReplicaRow, ModelRegistryRow, Db}
use control_deck.Scheduler.Settings.{Settings}
use control_deck.Scheduler.Keda.{KedaClient}
use control_deck.Scheduler.Queue.{EnqueueRequestInput, request_is, queued_row, enqueue_request}
use control_deck.Scheduler.Queue.Clocks.{request_key}
use control_deck.Scheduler.Placement.{placed, place_request, bump}
use control_deck.Scheduler.Placement.Laws.{replica_key}
use control_deck.Scheduler.Placement.Outcome.{place_request-Placement}
use control_deck.Http.Chat.{route_row, set_model}
use control_deck.Metrics.{is_served_by, waits_for, use_of, in_flight_of, get_keda_metric_for_model}

in_flight_of-sum :
    (backend : String) (rs : List ReplicaRow) → in_flight_of backend rs ≡ sum_by (use_of backend) rs
in_flight_of-sum backend [] = refl
in_flight_of-sum backend (r ∷ rs) = ap (λ n. use_of backend r + n) (in_flight_of-sum backend rs)

any-false :
    (id : String) (rows : List RequestRow)
    → any (request_is id) rows ≡ false
    → All (λ (r : RequestRow). r.id ≢ id) rows
any-false id [] e = tt
any-false id (r ∷ rows) e =
    (λ same. let here = (eq_iff r.id id).1 same in ground arith, any-false id rows (ground arith))

-- A request that enters the queue and is routed to a model counts once for the backend that serves the
-- model, under whatever name it was routed, and the autoscaler is asked for one replica beyond the
-- demand. What is in flight stays as it was.
pub enqueue_request-is_counted :
    (db : Db) (input : EnqueueRequestInput) (model : ModelRegistryRow) (backend : String) (b : Bool)
    (now : ℕ) (db' : Db)
    → enqueue_request db input now ≡ some db'
    → Mem model db.model_registry
    → is_served_by backend model ≡ true
    → let before = get_keda_metric_for_model db backend b in
      let after = get_keda_metric_for_model (route_row db' input.id model.id) backend b in
      (after.queued ≡ before.queued + 1)
      × (after.in_flight ≡ before.in_flight)
      × (after.pending_requests ≡ before.in_flight + before.queued + 2)
unfolding enqueue_request get_keda_metric_for_model
enqueue_request-is_counted db input model backend b now db' e listed serves =
    elim (Bool-cases (any (request_is input.id) db.requests)) [
      | inl taken ↦ let stopped = rw taken at e in cc
      | inr fresh ↦
          let added : record db { requests = queued_row input now ∷ db.requests } ≡ db' =
            ground arith in
          let new = set_model model.id (queued_row input now) in
          let rest : update (request_is input.id) (set_model model.id) db.requests ≡ db.requests =
            update-absent request_key (set_model model.id) input.id db.requests
              (any-false input.id db.requests fresh) in
          let counted : waits_for backend db.model_registry new ≡ true =
            any_of_mem (λ (m : ModelRegistryRow). is_served_by backend m && m.id == model.id)
              db.model_registry model listed (rw serves (eq_refl model.id)) in
          rw (← added) (rw (eq_refl input.id, rest, counted) (omega arith, refl, ground arith))
    ]

-- A placement on a backend adds one to what is in flight there. Replica ids are distinct, and the
-- database's order of texts is a total preorder.
pub place_request-is_counted :
    (collate : String → String → Bool) (locked : String → Bool) (settings : Settings)
    (keda : KedaClient) (order : IsPreorder collate) (db : Db) (backend : String)
    (key : Option String) (b : Bool) (now : ℕ) (replica : Replica) (hit : Bool)
    → HasDistinctKeys replica_key db.replicas
    → (place_request collate locked settings keda db backend key now).1 ≡ placed replica hit
    → let db' = (place_request collate locked settings keda db backend key now).0 in
      (get_keda_metric_for_model db' backend b).in_flight
      ≡ (get_keda_metric_for_model db backend b).in_flight + 1
unfolding get_keda_metric_for_model
place_request-is_counted collate locked settings keda order db backend key b now replica hit
      distinct e =
    let p =
      place_request-Placement collate locked settings keda order db backend key now distinct replica
        hit e in
    let db' = (place_request collate locked settings keda db backend key now).0 in
    let own : use_of backend p.row ≡ p.row.in_flight =
      rw p.can_take.serves (rw (eq_refl backend) refl) in
    let grown : use_of backend (bump now p.row) ≡ p.row.in_flight + 1 =
      rw p.can_take.serves (rw (eq_refl backend) refl) in
    omega (
      arith,
      in_flight_of-sum backend db'.replicas,
      in_flight_of-sum backend db.replicas,
      Replaced-sum (use_of backend) p.claimed,
      own,
      grown,
    )
