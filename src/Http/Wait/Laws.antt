-- ===== src/Http/Wait/Laws.antt =====
-- The wait for a replica ends, and how.
use control_deck.Prelude.{
  ℕ, suc, ◌+◌, ◌*◌, ◌/◌, ◌≤◌, ◌<◌, String, Bool, false, ◌≡◌, refl, sym, ap, ◌∙◌, ltb, Option, some,
  Bool-cases, inl, inr, arith,
}
use control_deck.Types.{Replica}
use control_deck.Database.{Db}
use control_deck.Scheduler.Settings.{Settings}
use control_deck.Scheduler.Keda.{KedaClient}
use control_deck.Scheduler.Queue.{expire_queued_request}
use control_deck.Scheduler.Placement.Capacity.{place_request-needs_queue_iff}
use control_deck.Scheduler.Placement.{PlaceRequestResult, placed, needs_queue}
use control_deck.Http.Wait.{
  World, Waited, timed_out, served_by, placement_retry_ms, try_place, settle, wait,
  wait_for_placement,
}

module _ (collate : String → String → Bool) (settings : Settings) (keda : KedaClient)
    (world : World) (model_id request_id : String) (key : Option String) where
  -- The tables before try `n`: what the other processes have made of those at the start.
  abbrev pub before_try : ℕ → Db → Db
  before_try ℕ.zero db = db
  before_try (suc n) db = world.others n (before_try n db)

  -- How a wait ends: by a placement before the deadline, or after it by the end of its own wait.
  pub data Ending (deadline : ℕ) (db : Db) : Option (Db × Waited) → Type 0 where
    in_time :
        (n t : ℕ) (db' : Db) (replica : Replica) (hit : Bool)
        → t < deadline
        → try_place collate settings keda world model_id request_id key n t (before_try n db)
          ≡ (db', placed replica hit)
        → Ending deadline db (some (db', served_by replica hit))
    too_late :
        (n t : ℕ)
        → deadline ≤ t
        → Ending deadline db (
            some (
              (expire_queued_request (world.others n (before_try n db)) request_id t).0,
              timed_out,
            ))

  settle-Ending :
      (deadline n t : ℕ) (db : Db) (out : Db × PlaceRequestResult)
      (again : Db → Option (Db × Waited))
      → t < deadline
      → try_place collate settings keda world model_id request_id key n t (before_try n db) ≡ out
      → Ending deadline db (again (before_try (suc n) db))
      → Ending deadline db (settle collate settings keda world model_id request_id key out again)
  settle-Ending deadline n t db (db', placed replica hit) again early e rest =
      in_time n t db' replica hit early e
  settle-Ending deadline n t db (db', needs_queue) again early e rest =
      let unchanged : db' ≡ before_try (suc n) db =
        ap (λ (o : Db × PlaceRequestResult). o.0) (sym e)
        ∙ (place_request-needs_queue_iff collate (world.locked n) settings keda
              (before_try (suc n) db) model_id key t).1
            (ap (λ (o : Db × PlaceRequestResult). o.1) e) in
      rw unchanged rest

  wait-Ending :
      (fuel n now deadline : ℕ) (db : Db)
      → deadline ≤ now + fuel * placement_retry_ms
      → Ending deadline db (
          wait collate settings keda world model_id request_id key
            (suc fuel)
            n
            now
            deadline
            (before_try n db))
  unfolding wait
  wait-Ending ℕ.zero n now deadline db enough =
      let late : ltb now deadline ≡ false = ground arith in rw late (too_late n now (ground arith))
  wait-Ending (suc fuel) n now deadline db enough = elim (Bool-cases (ltb now deadline)) [
    | inr late ↦ rw late (too_late n now (ground arith))
    | inl early ↦ rw early (
        settle-Ending deadline n now db
          (try_place collate settings keda world model_id request_id key n now (before_try n db))
          (λ db'.
            wait collate settings keda world model_id request_id key (suc fuel) (suc n)
              (now + (placement_retry_ms + world.delay n)) deadline db')
          (ground arith) refl
          (wait-Ending fuel (suc n) (now + (placement_retry_ms + world.delay n)) deadline db
            (omega arith)))
  ]

  -- The wait always ends with an answer, whatever other processes do and however late it is woken:
  -- with a replica that a try before the deadline placed it on, or after the deadline with the
  -- expiry of its own queued request.
  pub wait_for_placement-Ending :
      (db : Db) (now : ℕ)
      → Ending
          (now + settings.queue_timeout_ms)
          db
          (wait_for_placement collate settings keda world model_id request_id key db now)
  unfolding wait_for_placement
  wait_for_placement-Ending db now =
      wait-Ending (settings.queue_timeout_ms / placement_retry_ms + 1) 0 now
        (now + settings.queue_timeout_ms) db (omega arith)
