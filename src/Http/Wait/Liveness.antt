-- ===== src/Http/Wait/Liveness.antt =====
-- A request that waits is served as soon as a try of it meets a replica that can take it.
use control_deck.Prelude.{
  ℕ, zero, suc, ◌+◌, ◌*◌, ◌/◌, ◌≤◌, ◌<◌, String, Bool, true, ◌≡◌, refl, sym, subst, ltb, Option,
  some, Mem, of_All, arith,
}
use control_deck.Database.{ReplicaRow, Db}
use control_deck.Scheduler.Settings.{Settings}
use control_deck.Scheduler.Keda.{KedaClient}
use control_deck.Scheduler.Placement.Laws.{CanTake}
use control_deck.Scheduler.Placement.Capacity.{place_request-needs_queue_iff}
use control_deck.Scheduler.Placement.{PlaceRequestResult, placed, needs_queue}
use control_deck.Http.Wait.{
  World, Waited, served, placement_retry_ms, try_place, settle, wait, wait_for_placement,
}
use control_deck.Http.Wait.Laws.{before_try}

abbrev pub IsServed : Option (Db × Waited) → Type 0
IsServed out =
    (db : Db) × (replica_id : String) × (url : String) × (hit : Bool) × (out
      ≡ some (db, served replica_id url hit))

module _ (collate : String → String → Bool) (settings : Settings) (keda : KedaClient)
    (world : World) (model_id request_id : String) (key : Option String) where
  -- The time of try `n` of a wait that starts at `now`.
  abbrev pub time_of_try : ℕ → ℕ → ℕ
  time_of_try now zero = now
  time_of_try now (suc n) = time_of_try now n + (placement_retry_ms + world.delay n)

  time_of_try_mono :
      (now k n m : ℕ) → n + k ≡ m → time_of_try now n + k * placement_retry_ms ≤ time_of_try now m
  time_of_try_mono now zero n m e = let same : n ≡ m = omega arith in rw same (omega arith)
  time_of_try_mono now (suc k) n m e = omega (arith, time_of_try_mono now k (suc n) m (omega arith))

  abbrev tables : ℕ → Db → Db
  tables n db = before_try collate settings keda world model_id request_id key n db

  abbrev try_at : ℕ → ℕ → Db → Db × PlaceRequestResult
  try_at now n db =
      try_place collate settings keda world model_id request_id key n (time_of_try now n)
        (tables n db)

  settle-placed :
      (out : Db × PlaceRequestResult) (again : Db → Option (Db × Waited))
      → (out.1 ≡ needs_queue → IsServed (again out.0))
      → IsServed (settle collate settings keda world model_id request_id key out again)
  settle-placed (db, placed replica hit) again rest =
      (db, replica.id, replica.endpoint_url, hit, refl)
  settle-placed (db, needs_queue) again rest = rest refl

  module _ (now deadline : ℕ) (db : Db) (m : ℕ) (r : ReplicaRow)
      (early : time_of_try now m < deadline) (listed : Mem r (tables (suc m) db).replicas)
      (can_take : CanTake (world.locked m) model_id r) where
    never_queued : (try_at now m db).1 ≡ needs_queue → ⊥
    never_queued e =
        of_All _ (tables (suc m) db).replicas r
          ((place_request-needs_queue_iff collate (world.locked m) settings keda (tables (suc m) db)
              model_id key (time_of_try now m)).0.0
            e)
          listed can_take

    wait-IsServed :
        (k fuel n : ℕ)
        → n + k ≡ m
        → k ≤ fuel
        → IsServed (
            wait collate settings keda world model_id request_id key
              (suc fuel)
              n
              (time_of_try now n)
              deadline
              (tables n db))
    unfolding wait
    wait-IsServed zero fuel n e enough =
        let same : m ≡ n = omega arith in
        let in_time : ltb (time_of_try now n) deadline ≡ true =
          subst (λ i. ltb (time_of_try now i) deadline ≡ true) same (ground arith) in
        rw in_time (
          settle-placed (try_at now n db) _ (λ q.
            absurd (never_queued (subst (λ i. (try_at now i db).1 ≡ needs_queue) (sym same) q))))
    wait-IsServed (suc k) (suc fuel) n e enough =
        let in_time : ltb (time_of_try now n) deadline ≡ true =
          ground (arith, time_of_try_mono now (suc k) n m e) in
        rw in_time (
          settle-placed (try_at now n db) _ (λ q.
            let unchanged : (try_at now n db).0 ≡ tables (suc n) db =
              (place_request-needs_queue_iff collate (world.locked n) settings keda
                  (tables (suc n) db) model_id key (time_of_try now n)).1
                q in
            rw unchanged (wait-IsServed k fuel (suc n) (omega arith) (omega arith))))
    wait-IsServed (suc k) zero n e enough = absurd (omega arith)

  -- If some try before the deadline meets a replica that can take the request, the request is placed,
  -- whatever other processes do meanwhile. So a wait runs out only if no try met such a replica.
  pub wait_for_placement-IsServed :
      (db : Db) (now m : ℕ) (r : ReplicaRow)
      → time_of_try now m < now + settings.queue_timeout_ms
      → Mem r (tables (suc m) db).replicas
      → CanTake (world.locked m) model_id r
      → IsServed (wait_for_placement collate settings keda world model_id request_id key db now)
  unfolding wait_for_placement
  wait_for_placement-IsServed db now m r early listed can_take =
      wait-IsServed now (now + settings.queue_timeout_ms) db m r early listed can_take m
        (settings.queue_timeout_ms / placement_retry_ms + 1) 0 (omega arith)
        (omega (arith, time_of_try_mono now m 0 m (omega arith)))
