-- ===== src/Http/Errors.antt =====
-- server/src/http/errors.ts: the status of each error, and the errors that the routes make.
use control_deck.Prelude.{ℕ}
use control_deck.Types.{Text, ErrorCode, ErrorType, StandardError}

abbrev pub status_of_code : ErrorCode → ℕ
status_of_code ErrorCode.auth_invalid = 401
status_of_code ErrorCode.model_not_found = 404
status_of_code ErrorCode.capability_mismatch = 422
status_of_code ErrorCode.invalid_request = 400
status_of_code ErrorCode.context_length_exceeded = 400
status_of_code ErrorCode.queue_timeout = 504
status_of_code ErrorCode.stall_timeout = 504
status_of_code ErrorCode.replica_unavailable = 503

unfoldable pub status_for_error : StandardError → ℕ
status_for_error err = status_of_code err.code

abbrev pub invalid_request : Text → StandardError
invalid_request message = record {
  kind = ErrorType.invalid_request_error;
  code = ErrorCode.invalid_request;
  message = message;
}

abbrev pub context_length_exceeded : Text → StandardError
context_length_exceeded message = record {
  kind = ErrorType.invalid_request_error;
  code = ErrorCode.context_length_exceeded;
  message = message;
}

abbrev pub replica_unavailable : Text → StandardError
replica_unavailable message = record {
  kind = ErrorType.capacity_error;
  code = ErrorCode.replica_unavailable;
  message = message;
}

abbrev pub queue_timeout_error : Text → StandardError
queue_timeout_error message = record {
  kind = ErrorType.timeout_error;
  code = ErrorCode.queue_timeout;
  message = message;
}
