-- ===== src/Scheduler/Placement.antt =====
-- server/src/scheduler/place-request.ts: least-loaded placement, with affinity preferred.
--
-- The statements of one call read one time. `locked` are the rows that other transactions hold and
-- that SKIP LOCKED passes over; `collate` is the database's order of texts.
pub mod Laws
pub mod Outcome
pub mod Capacity
use control_deck.Prelude.{
  ℕ, ◌+◌, String, Bool, true, false, ◌&&◌, not, ◌==◌, if◌then◌else◌, eqb, ltb, leb, Option, none,
  some, List, find, filter, update, first_by, lex, by, nulls_first,
}
use control_deck.Prelude.Fraction.{Fraction, le_frac}
use control_deck.Types.{ReplicaStatus, Replica}
use control_deck.Database.{ReplicaRow, Db}
use control_deck.Scheduler.Settings.{Settings}
use control_deck.Scheduler.Keda.{KedaClient, request_scale_up}
use control_deck.Scheduler.Affinity.{lookup_affinity, record_affinity}
use control_deck.Scheduler.Queue.{replica_is}

pub data PlaceRequestResult : Type 0 where
  placed : (replica : Replica) (affinity_hit : Bool) → PlaceRequestResult
  needs_queue : PlaceRequestResult

abbrev pub is_ready : ReplicaStatus → Bool
is_ready ReplicaStatus.ready = true
is_ready _ = false

abbrev pub to_replica : ReplicaRow → Replica
to_replica row = record {
  id = row.id;
  model_id = row.model_id;
  status = row.status;
  in_flight = row.in_flight;
  load_pct = row.load_pct;
  tokens_per_sec = row.tokens_per_sec;
  endpoint_url = row.endpoint_url;
}

-- WHERE model_id = $1 AND status = 'ready' AND in_flight < max_concurrency
abbrev pub is_eligible : String → ReplicaRow → Bool
is_eligible model_id r =
    r.model_id == model_id && (is_ready r.status && ltb r.in_flight r.max_concurrency)

-- … FOR UPDATE SKIP LOCKED
abbrev pub is_free : (String → Bool) → String → ReplicaRow → Bool
is_free locked model_id r = is_eligible model_id r && not (locked r.id)

-- The throughput that is recent enough to count.
abbrev pub fresh_throughput : ℕ → ℕ → ReplicaRow → Option Fraction
fresh_throughput fresh_ms now r = elim r.tokens_per_sec_at [
  | none ↦ none
  | some t ↦ if ltb now (t + fresh_ms) then r.tokens_per_sec else none
]

-- ORDER BY in_flight, throughput DESC NULLS FIRST, load_pct, id
abbrev pub before : (String → String → Bool) → ℕ → ℕ → ReplicaRow → ReplicaRow → Bool
before collate fresh_ms now = lex (by (λ (r : ReplicaRow). r.in_flight) leb) (
    lex (by (fresh_throughput fresh_ms now) (nulls_first le_frac))
      (lex (by (λ (r : ReplicaRow). r.load_pct) le_frac) (by (λ (r : ReplicaRow). r.id) collate)))

abbrev pub bump : ℕ → ReplicaRow → ReplicaRow
bump now r = record r { in_flight = r.in_flight + 1; updated_at = now }

-- SET in_flight = in_flight + 1 on the row selected.
abbrev pub claim : Db → ReplicaRow → ℕ → Db
claim db row now = record db { replicas = update (replica_is row.id) (bump now) db.replicas }

-- A scale-up is requested as a replica goes from idle to serving.
abbrev pub scale_on_first : KedaClient → Db → ReplicaRow → String → ℕ → Db
scale_on_first keda db row model_id now =
    if eqb row.in_flight 0 then request_scale_up keda db model_id now else db

abbrev pub the_replica : String → ReplicaRow → Bool
the_replica target r = r.id == target

module _ (collate : String → String → Bool) (locked : String → Bool) (settings : Settings)
    (keda : KedaClient) where
  abbrev pub remember : Option String → Db → String → ReplicaRow → ℕ → Db
  remember none db model_id row now = db
  remember (some key) db model_id row now =
      if settings.affinity_enabled then record_affinity db key model_id row.id now else db

  -- The replica that holds the conversation, if it may take a request.
  unfoldable pub affine_replica : Db → String → Option String → ℕ → Option ReplicaRow
  unfolding lookup_affinity
  affine_replica db model_id none now = none
  affine_replica db model_id (some key) now =
      if settings.affinity_enabled
      then elim (lookup_affinity db key model_id settings.affinity_ttl_ms now) [
        | none ↦ none
        | some target ↦ find (λ r. the_replica target r && is_free locked model_id r) db.replicas
      ]
      else none

  unfoldable pub least_loaded : Db → String → ℕ → Option ReplicaRow
  unfolding first_by
  least_loaded db model_id now =
      first_by (before collate settings.throughput_fresh_ms now)
        (filter (is_free locked model_id) db.replicas)

  unfoldable pub place_affine :
      Db → String → Option String → ReplicaRow → ℕ → Db × PlaceRequestResult
  unfolding request_scale_up record_affinity
  place_affine db model_id key row now =
      let scaled = scale_on_first keda (claim db row now) row model_id now in
      (
        remember key scaled model_id row now,
        PlaceRequestResult.placed (to_replica (bump now row)) true,
      )

  unfoldable pub place_general :
      Db → String → Option String → ReplicaRow → ℕ → Db × PlaceRequestResult
  unfolding request_scale_up record_affinity
  place_general db model_id key row now =
      let remembered = remember key (claim db row now) model_id row now in
      (
        scale_on_first keda remembered row model_id now,
        PlaceRequestResult.placed (to_replica (bump now row)) false,
      )

  abbrev pub place_least :
      Db → String → Option String → ℕ → Option ReplicaRow → Db × PlaceRequestResult
  place_least db model_id key now none = (db, PlaceRequestResult.needs_queue)
  place_least db model_id key now (some row) = place_general db model_id key row now

  unfoldable pub place_request : Db → String → Option String → ℕ → Db × PlaceRequestResult
  unfolding affine_replica least_loaded place_affine place_general
  place_request db model_id key now = elim (affine_replica db model_id key now) [
    | some row ↦ place_affine db model_id key row now
    | none ↦ place_least db model_id key now (least_loaded db model_id now)
  ]
