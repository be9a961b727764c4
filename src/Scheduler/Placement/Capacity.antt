-- ===== src/Scheduler/Placement/Capacity.antt =====
-- When a request has to wait, and that no replica is given more than it can serve.
use control_deck.Prelude.{
  ℕ, ◌+◌, ◌≤◌, String, Bool, ◌≡◌, refl, ◌↔◌, Option, List, All, sum_by, of_All, IsPreorder,
  Replaced-sum, All-Replaced, HasDistinctKeys-Replaced, HasDistinctKeys, arith,
}
use control_deck.Types.{Replica}
use control_deck.Database.{ReplicaRow, Db}
use control_deck.Scheduler.Settings.{Settings}
use control_deck.Scheduler.Keda.{KedaClient}
use control_deck.Scheduler.Placement.{
  PlaceRequestResult, placed, needs_queue, place_affine, place_general, place_request,
}
use control_deck.Scheduler.Placement.Laws.{
  replica_key, CanTake, least_loaded-mem, least_loaded-none_iff, affine_replica_sound,
}
use control_deck.Scheduler.Placement.Outcome.{
  Placement, PathTaken, by_affinity, by_load, refused, path_taken, place_request-Placement,
}

-- Replica ids are distinct, and no replica serves more than its ceiling.
pub record IsWithinCapacity (replicas : List ReplicaRow) : Type 0 where
  pub distinct : HasDistinctKeys replica_key replicas
  pub bounded : All (λ (r : ReplicaRow). r.in_flight ≤ r.max_concurrency) replicas

abbrev pub total_in_flight : List ReplicaRow → ℕ
total_in_flight replicas = sum_by (λ (r : ReplicaRow). r.in_flight) replicas

abbrev pub slots_taken : PlaceRequestResult → ℕ
slots_taken (placed _ _) = 1
slots_taken needs_queue = 0

module _ (collate : String → String → Bool) (locked : String → Bool) (settings : Settings)
    (keda : KedaClient) where
  PathTaken-queue :
      (db : Db) (model_id : String) (key : Option String) (now : ℕ) (out : Db × PlaceRequestResult)
      → PathTaken collate locked settings keda db model_id key now out
      → (out.1 ≡ needs_queue) ↔ All (λ r. ¬ CanTake locked model_id r) db.replicas
  unfolding place_affine place_general
  PathTaken-queue db model_id key now out (by_affinity row e) =
      let (can_take, listed, _) =
        affine_replica_sound collate locked settings keda db model_id key now row e in
      (λ h. cc, λ none_can. absurd (of_All _ db.replicas row none_can listed can_take))
  PathTaken-queue db model_id key now out (by_load row e l) =
      let (can_take, listed) =
        least_loaded-mem collate locked settings keda db model_id now row l in
      (λ h. cc, λ none_can. absurd (of_All _ db.replicas row none_can listed can_take))
  PathTaken-queue db model_id key now out (refused e l) =
      (λ _. (least_loaded-none_iff collate locked settings keda db model_id now).0 l, λ _. refl)

  PathTaken-unchanged :
      (db : Db) (model_id : String) (key : Option String) (now : ℕ) (out : Db × PlaceRequestResult)
      → PathTaken collate locked settings keda db model_id key now out
      → out.1 ≡ needs_queue
      → out.0 ≡ db
  unfolding place_affine place_general
  PathTaken-unchanged db model_id key now out (by_affinity row e) h = cc
  PathTaken-unchanged db model_id key now out (by_load row e l) h = cc
  PathTaken-unchanged db model_id key now out (refused e l) h = refl

  -- A request has to wait exactly when no replica can take it: each one serves another model, is not
  -- ready, is at its ceiling, or is held by another transaction. The database is then unchanged.
  pub place_request-needs_queue_iff :
      (db : Db) (model_id : String) (key : Option String) (now : ℕ)
      → let out = place_request collate locked settings keda db model_id key now in
        ((out.1 ≡ needs_queue) ↔ All (λ r. ¬ CanTake locked model_id r) db.replicas)
        × (out.1 ≡ needs_queue → out.0 ≡ db)
  place_request-needs_queue_iff db model_id key now =
      let way = path_taken collate locked settings keda db model_id key now in
      (PathTaken-queue db model_id key now _ way, PathTaken-unchanged db model_id key now _ way)

  pub Placement-IsWithinCapacity :
      (db : Db) (model_id : String) (key : Option String) (now : ℕ) (db' : Db) (replica : Replica)
      (hit : Bool)
      → Placement collate locked settings keda db model_id key now db' replica hit
      → IsWithinCapacity db.replicas
      → IsWithinCapacity db'.replicas
        × (total_in_flight db'.replicas ≡ total_in_flight db.replicas + 1)
  Placement-IsWithinCapacity db model_id key now db' replica hit p ok = (
    record {
      distinct = HasDistinctKeys-Replaced replica_key p.claimed refl ok.distinct;
      bounded =
          All-Replaced (λ (r : ReplicaRow). r.in_flight ≤ r.max_concurrency) p.claimed
            (λ _. omega (arith, p.can_take.has_room)) ok.bounded;
    },
    omega (arith, Replaced-sum (λ (r : ReplicaRow). r.in_flight) p.claimed),
  )

  placed_or_queued :
      (order : IsPreorder collate) (db : Db) (model_id : String) (key : Option String) (now : ℕ)
      → IsWithinCapacity db.replicas
      → (result : PlaceRequestResult)
      → (place_request collate locked settings keda db model_id key now).1 ≡ result
      → let db' = (place_request collate locked settings keda db model_id key now).0 in
        IsWithinCapacity db'.replicas
        × (total_in_flight db'.replicas ≡ total_in_flight db.replicas + slots_taken result)
  placed_or_queued order db model_id key now ok (placed replica hit) e =
      Placement-IsWithinCapacity db model_id key now _ replica hit
        (place_request-Placement collate locked settings keda order db model_id key now ok.distinct
          replica hit e)
        ok
  placed_or_queued order db model_id key now ok needs_queue e =
      rw ((place_request-needs_queue_iff db model_id key now).1 e) (ok, omega arith)

  -- No placement takes a replica over its ceiling, and the slots in use grow by exactly one when a
  -- replica is returned and not at all when the request has to wait. It starts from a table with
  -- distinct ids in which no replica is over its ceiling.
  pub place_request-IsWithinCapacity :
      (order : IsPreorder collate) (db : Db) (model_id : String) (key : Option String) (now : ℕ)
      → IsWithinCapacity db.replicas
      → let out = place_request collate locked settings keda db model_id key now in
        IsWithinCapacity out.0.replicas
        × (total_in_flight out.0.replicas ≡ total_in_flight db.replicas + slots_taken out.1)
  place_request-IsWithinCapacity order db model_id key now ok =
      placed_or_queued order db model_id key now ok _ refl
