-- ===== src/Routers/Invariant.antt =====
-- What is true of the tables and the handlers at every moment, and that statements which leave the
-- replicas alone keep it.
use control_deck.Prelude.{
  ℕ, ◌≤◌, Bool, true, false, ◌==◌, ◌≡◌, refl, ◌∙◌, some, List, ◌∷◌, All, All-map, any, any_of_mem,
  find, find-update, find_sound, update, Bool-cases, inl, inr, HasDistinctKeys, eq_iff, arith,
}
use control_deck.Database.{RequestRow, ReplicaRow, Db}
use control_deck.Scheduler.Queue.{
  EnqueueRequestInput, queued_row, request_is, truthy, enqueue_request, update_requests,
}
use control_deck.Scheduler.Queue.Clocks.{request_key}
use control_deck.Scheduler.Placement.Laws.{replica_key}
use control_deck.Routers.{Holder, System, holder_key, with_db}
use control_deck.Routers.Pool.{Pool}
use control_deck.Routers.Rows.{held_by}

-- The counter of a replica is the number of handlers that hold a slot of it, within its ceiling.
pub record Slot (ceiling : Pool) (holders : List Holder) (r : ReplicaRow) : Type 0 where
  pub named : truthy (some r.id) ≡ some r.id
  pub counted : r.in_flight ≡ held_by holders r.id
  pub within : r.in_flight ≤ r.max_concurrency
  pub fixed : r.max_concurrency ≡ ceiling r.id

-- The row of a handler's request is in the table, on its replica once the handler has begun.
pub record Runs (rows : List RequestRow) (h : Holder) : Type 0 where
  pub row : RequestRow
  pub found : find (request_is h.request_id) rows ≡ some row
  pub on : h.started ≡ true → row.replica_id ≡ some h.replica_id
  pub named : truthy (some h.replica_id) ≡ some h.replica_id

pub record IsSound (ceiling : Pool) (s : System) : Type 0 where
  pub distinct : HasDistinctKeys replica_key s.db.replicas
  pub slots : All (Slot ceiling s.holders) s.db.replicas
  pub apart : HasDistinctKeys holder_key s.holders
  pub runs : All (Runs s.db.requests) s.holders

module _ (p : RequestRow → Bool) (f : RequestRow → RequestRow)
    (keeps : (r : RequestRow) → (f r).id ≡ r.id) where
  pub Runs-update :
      (rows : List RequestRow) (h : Holder)
      → ((r : RequestRow)
          → r.id ≡ h.request_id
          → p r ≡ true
          → r.replica_id ≡ some h.replica_id
          → (f r).replica_id ≡ some h.replica_id)
      → Runs rows h
      → Runs (update p f rows) h
  Runs-update rows h stays runs =
      let seen = find-update request_key p f h.request_id rows keeps in
      let (here, _) = find_sound (request_is h.request_id) rows runs.row runs.found in
      let id : runs.row.id ≡ h.request_id = (eq_iff runs.row.id h.request_id).0 here in
      elim (Bool-cases (p runs.row)) [
        | inl e ↦ record {
          row = f runs.row;
          found = seen ∙ rw (runs.found, e) refl;
          on = λ b. stays runs.row id e (runs.on b);
          named = runs.named;
        }
        | inr e ↦ record {
          row = runs.row;
          found = seen ∙ rw (runs.found, e) refl;
          on = runs.on;
          named = runs.named;
        }
      ]

  -- An UPDATE of requests that leaves ids and replicas alone.
  pub update_requests-IsSound :
      (ceiling : Pool) (s : System)
      → ((r : RequestRow) → (f r).replica_id ≡ r.replica_id)
      → IsSound ceiling s
      → IsSound ceiling (with_db s (update_requests s.db p f))
  update_requests-IsSound ceiling s stays ok = record {
    distinct = ok.distinct;
    slots = ok.slots;
    apart = ok.apart;
    runs =
        All-map (Runs s.db.requests) (Runs (update p f s.db.requests))
          (λ h. Runs-update s.db.requests h (λ r _ _ on. stays r ∙ on)) s.holders ok.runs;
  }

-- A new row is not the row of a request that is in the table.
enqueue-Runs :
    (input : EnqueueRequestInput) (now : ℕ) (rows : List RequestRow) (h : Holder)
    → any (request_is input.id) rows ≡ false
    → Runs rows h
    → Runs (queued_row input now ∷ rows) h
enqueue-Runs input now rows h fresh runs =
    let (here, listed) = find_sound (request_is h.request_id) rows runs.row runs.found in
    elim (Bool-cases (input.id == h.request_id)) [
      | inr e ↦ record { row = runs.row; found = rw e runs.found; on = runs.on; named = runs.named }
      | inl e ↦
          let same : request_is input.id runs.row ≡ true =
            rw ((eq_iff input.id h.request_id).0 e) here in
          let taken = any_of_mem (request_is input.id) rows runs.row listed same in cc
    ]

pub enqueue_request-IsSound :
    (ceiling : Pool) (s : System) (input : EnqueueRequestInput) (now : ℕ) (db : Db)
    → enqueue_request s.db input now ≡ some db
    → IsSound ceiling s
    → IsSound ceiling (with_db s db)
unfolding enqueue_request
enqueue_request-IsSound ceiling s input now db e ok =
    elim (Bool-cases (any (request_is input.id) s.db.requests)) [
      | inl taken ↦ let stopped = rw taken at e in cc
      | inr fresh ↦
          let rows = queued_row input now ∷ s.db.requests in
          let added : record s.db { requests = rows } ≡ db = ground arith in
          let runs : All (Runs rows) s.holders =
            All-map (Runs s.db.requests) (Runs rows)
              (λ h. enqueue-Runs input now s.db.requests h fresh) s.holders ok.runs in
          rw (← added)
            (record { distinct = ok.distinct; slots = ok.slots; apart = ok.apart; runs = runs })
    ]
