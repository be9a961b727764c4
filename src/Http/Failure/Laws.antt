-- ===== src/Http/Failure/Laws.antt =====
-- What a failed generation tells its caller, and what it leaves in the tables.
use control_deck.Prelude.{
  ℕ, ◌+◌, ◌-◌, ◌<◌, ◌≤◌, ◌≢◌, ◌⊎◌, String, true, ◌≡◌, refl, Option, none, some, find, update, Mem,
  find-update, find_sound, update-Replaced, Replaced, Replaced-sum, All-Replaced,
  HasDistinctKeys-Replaced, ◌∙◌, arith,
}
use control_deck.Types.{Text, RequestStatus, ErrorCode, StandardError}
use control_deck.Routing.Complexity.{codes}
use control_deck.Database.{RequestRow, ReplicaRow, Db}
use control_deck.Scheduler.Queue.{request_is, replica_is, truthy}
use control_deck.Scheduler.Queue.Clocks.{request_key}
use control_deck.Scheduler.Placement.Laws.{replica_key}
use control_deck.Scheduler.Placement.Capacity.{IsWithinCapacity, total_in_flight}
use control_deck.Adapter.Failure.{is_context_overflow}
use control_deck.Http.Failure.{Thrown, status_for_code, fail_row, give_back, fail_request}

-- What is the caller's own fault: a response of 400 to 499, or one that says that the context
-- overflowed.
abbrev pub IsCallersFault : Thrown → Type 0
IsCallersFault (Thrown.backend e) =
    ((400 ≤ e.status) × (e.status < 500)) ⊎ (is_context_overflow e ≡ true)
IsCallersFault (Thrown.error message) = ⊥
IsCallersFault Thrown.value = ⊥

abbrev pub message_in : Thrown → Text
message_in (Thrown.backend e) = e.message
message_in (Thrown.error message) = message
message_in Thrown.value = codes "Generation failed unexpectedly."

pub fail_request-replicas :
    (db : Db) (id : String) (err : StandardError) (now : ℕ) (replica_id : String)
    → truthy (some replica_id) ≡ some replica_id
    → (fail_request db id err (some replica_id) now).replicas
      ≡ update (replica_is replica_id) give_back db.replicas
unfolding fail_request
fail_request-replicas db id err now replica_id on = rw (on, fail_request) refl

pub fail_request-requests :
    (db : Db) (id : String) (err : StandardError) (now : ℕ) (replica_id : String)
    → truthy (some replica_id) ≡ some replica_id
    → (fail_request db id err (some replica_id) now).requests
      ≡ update (request_is id) (fail_row err now) db.requests
unfolding fail_request
fail_request-requests db id err now replica_id on = rw (on, fail_request) refl

-- The statuses that are named like an error are those errors' own, and every other error is `error`.
pub data IsStatusOf : ErrorCode → RequestStatus → Type 0 where
  of_queue_timeout : IsStatusOf ErrorCode.queue_timeout RequestStatus.queue_timeout
  of_stall_timeout : IsStatusOf ErrorCode.stall_timeout RequestStatus.stall_timeout
  of_replica : IsStatusOf ErrorCode.replica_unavailable RequestStatus.replica_unavailable
  of_other :
      (c : ErrorCode)
      → c ≢ ErrorCode.queue_timeout
      → c ≢ ErrorCode.stall_timeout
      → c ≢ ErrorCode.replica_unavailable
      → IsStatusOf c RequestStatus.error

-- The row `r'` is `r`, failed with an error.
pub record IsFailed (err : StandardError) (now : ℕ) (r r' : RequestRow) : Type 0 where
  pub status : IsStatusOf err.code r'.status
  pub code : r'.error_code ≡ some err.code
  pub finished : r'.completed_at ≡ some now
  pub replica : r'.replica_id ≡ r.replica_id

status_for_code-IsStatusOf : (c : ErrorCode) → IsStatusOf c (status_for_code c)
status_for_code-IsStatusOf ErrorCode.model_not_found =
    IsStatusOf.of_other _ (λ e. cc) (λ e. cc) (λ e. cc)
status_for_code-IsStatusOf ErrorCode.queue_timeout = IsStatusOf.of_queue_timeout
status_for_code-IsStatusOf ErrorCode.stall_timeout = IsStatusOf.of_stall_timeout
status_for_code-IsStatusOf ErrorCode.replica_unavailable = IsStatusOf.of_replica
status_for_code-IsStatusOf ErrorCode.auth_invalid =
    IsStatusOf.of_other _ (λ e. cc) (λ e. cc) (λ e. cc)
status_for_code-IsStatusOf ErrorCode.invalid_request =
    IsStatusOf.of_other _ (λ e. cc) (λ e. cc) (λ e. cc)
status_for_code-IsStatusOf ErrorCode.context_length_exceeded =
    IsStatusOf.of_other _ (λ e. cc) (λ e. cc) (λ e. cc)
status_for_code-IsStatusOf ErrorCode.capability_mismatch =
    IsStatusOf.of_other _ (λ e. cc) (λ e. cc) (λ e. cc)

module _ (db : Db) (id : String) (err : StandardError) (now : ℕ) (r : RequestRow)
    (found : find (request_is id) db.requests ≡ some r) where
  failed_row :
      (replica_id : Option String) (o : Option String)
      → truthy replica_id ≡ o
      → find (request_is id) (fail_request db id err replica_id now).requests
        ≡ some (fail_row err now r)
  unfolding fail_request
  failed_row replica_id none on =
      let named = (find_sound (request_is id) db.requests r found).0 in
      rw (on, fail_request)
        (find-update request_key (request_is id) (fail_row err now) id db.requests (λ x. refl)
          ∙ rw (found, named) refl)
  failed_row replica_id (some _) on =
      let named = (find_sound (request_is id) db.requests r found).0 in
      rw (on, fail_request)
        (find-update request_key (request_is id) (fail_row err now) id db.requests (λ x. refl)
          ∙ rw (found, named) refl)

  -- A generation that fails on a replica gives back one slot of it and changes no other, keeps every
  -- replica within its ceiling, and leaves the request's row finished at that time, with the error's
  -- code, the status of that name where there is one and `error` otherwise, and its replica as it was.
  -- The replica is in the table, and neither statement is refused.
  pub fail_request-releases :
      (replica : ReplicaRow)
      → IsWithinCapacity db.replicas
      → truthy (some replica.id) ≡ some replica.id
      → Mem replica db.replicas
      → let db' = fail_request db id err (some replica.id) now in
        Replaced replica (give_back replica) db.replicas db'.replicas
        × ((give_back replica).in_flight ≡ replica.in_flight - 1)
        × IsWithinCapacity db'.replicas
        × (0 < replica.in_flight → total_in_flight db'.replicas + 1 ≡ total_in_flight db.replicas)
        × ((r' : RequestRow) × (find (request_is id) db'.requests ≡ some r')
            × IsFailed err now r r')
  fail_request-releases replica ok on listed =
      let changed : Replaced replica (give_back replica) db.replicas
          (fail_request db id err (some replica.id) now).replicas =
        rw (fail_request-replicas db id err now replica.id on)
          (update-Replaced replica_key give_back replica db.replicas ok.distinct listed) in
      (
        changed,
        refl,
        record {
          distinct = HasDistinctKeys-Replaced replica_key changed refl ok.distinct;
          bounded =
              All-Replaced (λ (x : ReplicaRow). x.in_flight ≤ x.max_concurrency) changed
                (λ h. omega arith) ok.bounded;
        },
        λ busy. omega (arith, Replaced-sum (λ (x : ReplicaRow). x.in_flight) changed),
        (
          fail_row err now r,
          failed_row (some replica.id) (some replica.id) on,
          record {
            status = status_for_code-IsStatusOf err.code;
            code = refl;
            finished = refl;
            replica = refl;
          },
        ),
      )
