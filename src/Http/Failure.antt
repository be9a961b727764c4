-- ===== src/Http/Failure.antt =====
-- server/src/http/routes/v1.ts: a generation that fails, as the caller and the tables see it.
pub mod Laws
use control_deck.Prelude.{ℕ, ◌-◌, String, if◌then◌else◌, Option, none, some, update}
use control_deck.Types.{Text, RequestStatus, ErrorCode, StandardError}
use control_deck.Database.{RequestRow, ReplicaRow, Db}
use control_deck.Scheduler.Queue.{request_is, replica_is, truthy}
use control_deck.Adapter.Failure.{BackendError, is_caller_error, is_context_overflow}
use control_deck.Http.Errors.{invalid_request, context_length_exceeded, replica_unavailable}
use control_deck.Routing.Complexity.{codes}

-- What a `catch` receives: an error of a model server, another Error by its message, or another value.
pub data Thrown : Type 0 where
  backend : BackendError → Thrown
  error : Text → Thrown
  value : Thrown

unfoldable pub backend_failure : Thrown → StandardError
unfolding is_context_overflow is_caller_error
backend_failure (Thrown.backend e) =
    if is_context_overflow e
    then context_length_exceeded e.message
    else if is_caller_error e
    then invalid_request e.message
    else replica_unavailable e.message
backend_failure (Thrown.error message) = replica_unavailable message
backend_failure Thrown.value = replica_unavailable (codes "Generation failed unexpectedly.")

-- STATUS_FOR_ERROR_CODE[code] ?? "error"
abbrev pub status_for_code : ErrorCode → RequestStatus
status_for_code ErrorCode.queue_timeout = RequestStatus.queue_timeout
status_for_code ErrorCode.stall_timeout = RequestStatus.stall_timeout
status_for_code ErrorCode.replica_unavailable = RequestStatus.replica_unavailable
status_for_code _ = RequestStatus.error

abbrev pub fail_row : StandardError → ℕ → RequestRow → RequestRow
fail_row err now r = record r {
  status = status_for_code err.code;
  error_code = some err.code;
  completed_at = some now;
}

abbrev pub give_back : ReplicaRow → ReplicaRow
give_back r = record r { in_flight = r.in_flight - 1 }

-- The first statement of failRequest, and the second: each is a transaction of its own.
abbrev pub mark_failed : Db → String → StandardError → ℕ → Db
mark_failed db request_id err now = record db {
  requests = update (request_is request_id) (fail_row err now) db.requests;
}

abbrev pub return_slot : Option String → Db → Db
return_slot none db = db
return_slot (some id) db = record db { replicas = update (replica_is id) give_back db.replicas }

-- Neither statement is refused.
unfoldable pub fail_request : Db → String → StandardError → Option String → ℕ → Db
fail_request db request_id err replica_id now =
    return_slot (truthy replica_id) (mark_failed db request_id err now)
