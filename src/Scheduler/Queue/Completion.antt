-- ===== src/Scheduler/Queue/Completion.antt =====
-- The end of a request: its row, and the slot of the replica that it ran on.
use control_deck.Prelude.{
  ℕ, ◌+◌, ◌≤◌, ◌<◌, any_sound, any_of_mem, any-update, update-update, String, true, false, ◌≡◌,
  refl, ◌∙◌, ◌≢◌, ◌↔◌, inl, inr, Option, none, some, find, any, update, Mem, Option-cases,
  find-update, find_sound, update-Replaced, Replaced, Replaced-sum, All-Replaced,
  HasDistinctKeys-Replaced, eq_iff, eq_refl, arith,
}
use control_deck.Prelude.Fraction.{Fraction}
use control_deck.Types.{RequestStatus, ErrorCode}
use control_deck.Database.{RequestRow, ReplicaRow, Db}
use control_deck.Scheduler.Queue.{
  request_is, replica_is, truthy, elapsed, complete_row, release_slot, complete_request,
  expire_queued_request, still_queued, queue_timed_out,
}
use control_deck.Scheduler.Queue.Clocks.{request_key}
use control_deck.Scheduler.Placement.Laws.{replica_key}
use control_deck.Scheduler.Placement.Capacity.{IsWithinCapacity, total_in_flight}

module _ (alpha : Fraction) (db : Db) (id : String) (tokens : ℕ) (cost : Fraction) (now : ℕ)
    (r : RequestRow) (found : find (request_is id) db.requests ≡ some r) where
  pub complete_request-replicas :
      (replica_id : String)
      → truthy r.replica_id ≡ some replica_id
      → (complete_request alpha db id tokens cost now).replicas
        ≡ update
            (replica_is replica_id)
            (release_slot alpha tokens (elapsed r.started_at now) now)
            db.replicas
  unfolding complete_request
  complete_request-replicas replica_id on = rw (found, complete_request, on) (rw found refl)

  complete_request-no_replica :
      truthy r.replica_id ≡ none
      → (complete_request alpha db id tokens cost now).replicas ≡ db.replicas
  unfolding complete_request
  complete_request-no_replica on = rw (found, complete_request, on) refl

  pub complete_request-requests :
      (o : Option String)
      → truthy r.replica_id ≡ o
      → (complete_request alpha db id tokens cost now).requests
        ≡ update (request_is id) (complete_row tokens cost now) db.requests
  unfolding complete_request
  complete_request-requests none on = rw (found, complete_request, on) refl
  complete_request-requests (some replica_id) on = rw (found, complete_request, on) refl

  pub completed_row :
      find (request_is id) (complete_request alpha db id tokens cost now).requests
      ≡ some (complete_row tokens cost now r)
  completed_row =
      let named = (find_sound (request_is id) db.requests r found).0 in
      rw (complete_request-requests (truthy r.replica_id) refl) (
        find-update request_key (request_is id) (complete_row tokens cost now) id db.requests
          (λ x. refl)
        ∙ rw (found, named) refl)

  -- A completion gives back one slot of the replica that the request ran on, and changes no other
  -- replica; it keeps every replica within its ceiling. The slots in use fall by exactly one if the
  -- replica had any in use. The row of the request becomes completed, with the tokens, the cost and
  -- the time it took. The request's row names a replica that is in the table.
  pub complete_request-releases :
      (replica : ReplicaRow)
      → IsWithinCapacity db.replicas
      → truthy r.replica_id ≡ some replica.id
      → Mem replica db.replicas
      → let db' = complete_request alpha db id tokens cost now in
        Replaced replica
          (release_slot alpha tokens (elapsed r.started_at now) now replica)
          db.replicas
          db'.replicas
        × IsWithinCapacity db'.replicas
        × (0 < replica.in_flight → total_in_flight db'.replicas + 1 ≡ total_in_flight db.replicas)
        × (find (request_is id) db'.requests ≡ some (complete_row tokens cost now r))
  unfolding release_slot
  complete_request-releases replica ok on listed =
      let set = release_slot alpha tokens (elapsed r.started_at now) now in
      let changed : Replaced replica (set replica) db.replicas
          (complete_request alpha db id tokens cost now).replicas =
        rw (complete_request-replicas replica.id on)
          (update-Replaced replica_key set replica db.replicas ok.distinct listed) in
      (
        changed,
        record {
          distinct = HasDistinctKeys-Replaced replica_key changed refl ok.distinct;
          bounded =
              All-Replaced (λ (x : ReplicaRow). x.in_flight ≤ x.max_concurrency) changed
                (λ h. omega arith) ok.bounded;
        },
        λ busy. omega (arith, Replaced-sum (λ (x : ReplicaRow). x.in_flight) changed),
        completed_row,
      )

  -- A completion does not look at the status of the row, and leaves its error code. So a request that
  -- a sweep has failed, and whose stream then ends well, is recorded as completed with the error code
  -- of its timeout.
  pub complete_request-keeps_error :
      (code : ErrorCode)
      → r.error_code ≡ some code
      → (r' : RequestRow) × (find
            (request_is id)
            (complete_request alpha db id tokens cost now).requests
          ≡ some r')
        × (r'.status ≡ RequestStatus.completed)
        × (r'.error_code ≡ some code)
  complete_request-keeps_error code failed =
      (complete_row tokens cost now r, completed_row, refl, failed)

expire_other :
    (db : Db) (id j : String) (now : ℕ)
    → j ≢ id
    → find (request_is j) (update (still_queued id) (queue_timed_out now) db.requests)
      ≡ find (request_is j) db.requests
expire_other db id j now ne =
    find-update request_key (still_queued id) (queue_timed_out now) j db.requests (λ x. refl)
    ∙ elim (Option-cases (find (request_is j) db.requests)) [
      | inl e ↦ rw e refl
      | inr (r, e) ↦
          let named = (eq_iff r.id j).0 (find_sound (request_is j) db.requests r e).0 in
          let other : still_queued id r ≡ false = ground (arith, eq_iff r.id id) in
          rw (e, other) refl
    ]

expire_answer :
    (db : Db) (id : String)
    → (any (still_queued id) db.requests ≡ true)
      ↔ ((r : RequestRow) × Mem r db.requests × (r.id ≡ id) × (r.status ≡ RequestStatus.queued))
expire_answer db id = (
  λ e.
      let (r, listed, q) = any_sound (still_queued id) db.requests e in
      (r, listed, ground (arith, eq_iff r.id id), ground (arith, eq_iff r.id id)),
  λ h.
      let (r, listed, named, queued) = h in
      any_of_mem (still_queued id) db.requests r listed (rw (named, queued, eq_refl id) refl),
)

leaves_queue :
    (id : String) (now : ℕ) (r : RequestRow)
    → still_queued id r ≡ true
    → still_queued id (queue_timed_out now r) ≡ false
leaves_queue id now r h = ground arith

-- Only the caller's own request is failed when its wait runs out, and only while it is queued: the
-- answer says whether it was, every other request keeps its row, and a second call finds nothing to
-- fail and changes nothing.
pub expire_queued_request-own :
    (db : Db) (id j : String) (now later : ℕ)
    → let out = expire_queued_request db id now in
      (j ≢ id → find (request_is j) out.0.requests ≡ find (request_is j) db.requests)
      × ((out.1 ≡ true) ↔ (
          (r : RequestRow) × Mem r db.requests × (r.id ≡ id) × (r.status ≡ RequestStatus.queued)))
      × (expire_queued_request out.0 id later ≡ (out.0, false))
unfolding expire_queued_request
expire_queued_request-own db id j now later = (
  expire_other db id j now,
  expire_answer db id,
  rw
      (
        any-update (still_queued id) (queue_timed_out now) (leaves_queue id now) db.requests,
        update-update (still_queued id) (queue_timed_out now) (leaves_queue id now)
            (queue_timed_out later) db.requests,
      )
      refl,
)
