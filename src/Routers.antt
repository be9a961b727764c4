-- ===== src/Routers.antt =====
-- Several router processes over one database (server/src/http/routes/v1.ts, scheduler): the handlers
-- that hold a slot of a replica, and what each may do next. A step is one transaction of one handler
-- or of the sweeps; the transactions of all processes come in any order.
--
-- A handler holds its slot in the variable `placement`, from the answer of `placeRequest`. After
-- `completeRequest` it still has statements to do, and if one of them is refused it runs `failRequest`
-- all the same. A handler that dies on a refused statement keeps its slot in use for ever.
-- Reconciliation, which changes ceilings and removes replicas, and the removal of models and of old
-- requests are left out.
pub mod Pool
pub mod Rows
pub mod Invariant
pub mod Ending
pub mod Placing
pub mod Steps
pub mod Refinement
mod Examples
use control_deck.Prelude.{
  ℕ, String, Bool, true, false, ◌==◌, ◌≡◌, ◌≢◌, Option, some, List, ◌∷◌, All, Mem, find, update,
  delete,
}
use control_deck.Prelude.Fraction.{Fraction}
use control_deck.Types.{Replica, StandardError}
use control_deck.Database.{RequestRow, Db}
use control_deck.Scheduler.Settings.{Settings}
use control_deck.Scheduler.Keda.{KedaClient}
use control_deck.Scheduler.Placement.{PlaceRequestResult, placed, place_request}
use control_deck.Scheduler.Queue.{
  EnqueueRequestInput, request_is, enqueue_request, expire_queued_request, mark_stream_started,
  record_token_emitted, complete_request, sweep_queue_timeouts, sweep_stall_timeouts,
  sweep_first_token_timeouts, truthy,
}
use control_deck.Http.Failure.{mark_failed, return_slot}
use control_deck.Http.Chat.{route_row, note_hit}

-- A handler after its placement; `started` once it has marked its row as streaming, `failing` once it
-- has marked its row as failed.
pub record Holder : Type 0 where
  pub request_id : String
  pub replica_id : String
  pub started : Bool
  pub failing : Bool

-- `closing` are the handlers that have completed their request and have statements left.
pub record System : Type 0 where
  pub db : Db
  pub holders : List Holder
  pub closing : List Holder

abbrev pub holder_key : Holder → String
holder_key h = h.request_id

abbrev pub holder_is : String → Holder → Bool
holder_is id h = h.request_id == id

abbrev pub begun : Holder → Holder
begun h = record h { started = true }

abbrev pub with_db : System → Db → System
with_db s db = record s { db = db }

abbrev pub doomed : Holder → Holder
doomed h = record h { failing = true }

abbrev pub drop_holder : System → Db → String → List Holder → System
drop_holder s db id closing = record {
  db = db;
  holders = delete (holder_is id) s.holders;
  closing = closing;
}

module _ (collate : String → String → Bool) (settings : Settings) (keda : KedaClient) where
  pub data Step (s : System) : System → Type 0 where
    enqueue :
        (input : EnqueueRequestInput) (now : ℕ) (db : Db)
        → enqueue_request s.db input now ≡ some db
        → Step s (with_db s db)
    route : (id model_id : String) → Step s (with_db s (route_row s.db id model_id))
    place :
        (id model_id : String) (key : Option String) (locked : String → Bool) (now : ℕ)
        (row : RequestRow) (replica : Replica) (hit : Bool)
        → find (request_is id) s.db.requests ≡ some row
        → All (λ (h : Holder). h.request_id ≢ id) s.holders
        → (place_request collate locked settings keda s.db model_id key now).1 ≡ placed replica hit
        → Step s (record s {
          db = (place_request collate locked settings keda s.db model_id key now).0;
          holders =
              record { request_id = id; replica_id = replica.id; started = false; failing = false }
              ∷ s.holders;
        })
    start :
        (h : Holder) (now : ℕ)
        → Mem h s.holders
        → h.failing ≡ false
        → Step s (record s {
          db = mark_stream_started s.db h.request_id h.replica_id now;
          holders = update (holder_is h.request_id) begun s.holders;
        })
    hit : (id : String) (hit : Bool) → Step s (with_db s (note_hit s.db id hit))
    token : (id : String) (now : ℕ) → Step s (with_db s (record_token_emitted s.db id now))
    complete :
        (h : Holder) (tokens : ℕ) (cost : Fraction) (now : ℕ)
        → Mem h s.holders
        → h.started ≡ true
        → h.failing ≡ false
        → Step s (
            drop_holder s
              (complete_request settings.ewma_alpha s.db h.request_id tokens cost now)
              h.request_id
              (h ∷ s.closing))
    -- The two statements of failRequest.
    fail :
        (h : Holder) (err : StandardError) (now : ℕ)
        → Mem h s.holders
        → h.started ≡ true
        → h.failing ≡ false
        → Step s (record s {
          db = mark_failed s.db h.request_id err now;
          holders = update (holder_is h.request_id) doomed s.holders;
        })
    release :
        (h : Holder)
        → Mem h s.holders
        → h.failing ≡ true
        → Step s
            (drop_holder s (return_slot (truthy (some h.replica_id)) s.db) h.request_id s.closing)
    -- The same after a completion, when a statement behind it is refused.
    fail_late :
        (h : Holder) (err : StandardError) (now : ℕ)
        → Mem h s.closing
        → Step s (record s {
          db = mark_failed s.db h.request_id err now;
          closing = update (holder_is h.request_id) doomed s.closing;
        })
    release_late :
        (h : Holder)
        → Mem h s.closing
        → h.failing ≡ true
        → Step s (record s {
          db = return_slot (truthy (some h.replica_id)) s.db;
          closing = delete (holder_is h.request_id) s.closing;
        })
    -- A handler that a refused statement ends.
    abandon : (h : Holder) → Mem h s.holders → Step s (drop_holder s s.db h.request_id s.closing)
    close :
        (h : Holder)
        → Mem h s.closing
        → Step s (record s { closing = delete (holder_is h.request_id) s.closing })
    expire : (id : String) (now : ℕ) → Step s (with_db s (expire_queued_request s.db id now).0)
    sweep_queue : (ms now : ℕ) → Step s (with_db s (sweep_queue_timeouts s.db ms now).0)
    sweep_stall : (ms now : ℕ) → Step s (with_db s (sweep_stall_timeouts s.db ms now).0)
    sweep_first_token : (ms now : ℕ) → Step s (with_db s (sweep_first_token_timeouts s.db ms now).0)

  pub data Run (s : System) : System → Type 0 where
    here : Run s s
    then_step : {t u : System} → Run s t → Step t u → Run s u

  -- No slot is given back for a request that was completed already, and no handler that holds a slot
  -- is ended by a refused statement.
  abbrev pub IsOrderlyStep : {s t : System} → Step s t → Type 0
  IsOrderlyStep (Step.release_late h listed failing) = ⊥
  IsOrderlyStep (Step.abandon h listed) = ⊥
  IsOrderlyStep _ = Unit

  abbrev pub IsOrderly : {s t : System} → Run s t → Type 0
  IsOrderly Run.here = Unit
  IsOrderly (Run.then_step run step) = IsOrderly run × IsOrderlyStep step
