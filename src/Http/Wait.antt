-- ===== src/Http/Wait.antt =====
-- server/src/http/routes/v1.ts: waitForPlacement, the wait of a request for a replica.
--
-- The wait tries, sleeps and tries again until its deadline. What happens meanwhile is a parameter:
-- at try n other processes have changed the tables by `others n` and hold the rows `locked n`, and
-- the sleep after it lasts `delay n` longer than asked for. The fuel counts the tries.
pub mod Laws
pub mod Liveness
use control_deck.Prelude.{ℕ, suc, ◌+◌, ◌/◌, String, Bool, if◌then◌else◌, ltb, Option, none, some}
use control_deck.Types.{Replica}
use control_deck.Database.{Db}
use control_deck.Scheduler.Settings.{Settings}
use control_deck.Scheduler.Keda.{KedaClient}
use control_deck.Scheduler.Queue.{expire_queued_request}
use control_deck.Scheduler.Placement.{PlaceRequestResult, placed, needs_queue, place_request}

pub record World : Type 0 where
  pub others : ℕ → Db → Db
  pub locked : ℕ → String → Bool
  pub delay : ℕ → ℕ

pub data Waited : Type 0 where
  served : (replica_id endpoint_url : String) (affinity_hit : Bool) → Waited
  timed_out : Waited

abbrev pub placement_retry_ms : ℕ
placement_retry_ms = 200

abbrev pub served_by : Replica → Bool → Waited
served_by replica hit = served replica.id replica.endpoint_url hit

module _ (collate : String → String → Bool) (settings : Settings) (keda : KedaClient)
    (world : World) (model_id request_id : String) (key : Option String) where
  abbrev pub try_place : ℕ → ℕ → Db → Db × PlaceRequestResult
  try_place n now db =
      place_request collate (world.locked n) settings keda (world.others n db) model_id key now

  -- The end of one try: an answer, or the tables that the next one starts from.
  abbrev pub settle : Db × PlaceRequestResult → (Db → Option (Db × Waited)) → Option (Db × Waited)
  settle (db, placed replica hit) again = some (db, served_by replica hit)
  settle (db, needs_queue) again = again db

  -- Its last step is expireQueuedRequest.
  abbrev pub give_up : ℕ → ℕ → Db → Option (Db × Waited)
  give_up n now db = some ((expire_queued_request (world.others n db) request_id now).0, timed_out)

  unfoldable pub wait : ℕ → ℕ → ℕ → ℕ → Db → Option (Db × Waited)
  unfolding place_request expire_queued_request
  wait ℕ.zero n now deadline db = none
  wait (suc fuel) n now deadline db =
      let again : Db → Option (Db × Waited) =
        λ db'. wait fuel (suc n) (now + (placement_retry_ms + world.delay n)) deadline db' in
      if ltb now deadline then settle (try_place n now db) again else give_up n now db

  abbrev pub tries : ℕ
  tries = suc (settings.queue_timeout_ms / placement_retry_ms + 1)

  unfoldable pub wait_for_placement : Db → ℕ → Option (Db × Waited)
  unfolding wait
  wait_for_placement db now = wait tries 0 now (now + settings.queue_timeout_ms) db
