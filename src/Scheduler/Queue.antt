-- ===== src/Scheduler/Queue.antt =====
-- server/src/scheduler/queue.ts: the life of a row of `requests`.
pub mod Clocks
pub mod Completion
pub mod Sweeps
pub mod Throughput
use control_deck.Prelude.{
  ℕ, ◌+◌, ◌-◌, ◌*◌, String, Bool, true, false, ◌&&◌, ◌==◌, if◌then◌else◌, ltb, leb, or_else,
  is_some, is_text, Option, none, some, List, [], ◌∷◌, map, find, filter, any, update, not,
}
use control_deck.Prelude.Fraction.{Fraction, add, mul, one_minus}
use control_deck.Types.{Capability, RequestStatus, ErrorCode, is_queued, is_streaming}
use control_deck.Database.{RequestRow, ReplicaRow, ModelRegistryRow, Db}

abbrev pub min_sample_duration_ms : ℕ
min_sample_duration_ms = 250

abbrev pub min_sample_tokens : ℕ
min_sample_tokens = 5

pub record EnqueueRequestInput : Type 0 where
  pub id : String
  pub caller_oid : String
  pub caller_name : String
  pub team : Option String
  pub requested_model : Option String
  pub capabilities : List Capability

abbrev pub request_is : String → RequestRow → Bool
request_is id r = r.id == id

abbrev pub replica_is : String → ReplicaRow → Bool
replica_is id r = r.id == id

abbrev pub queued_row : EnqueueRequestInput → ℕ → RequestRow
queued_row input now = record {
  id = input.id;
  caller_oid = input.caller_oid;
  caller_name = input.caller_name;
  team = input.team;
  requested_model = input.requested_model;
  routed_model = none;
  capabilities = input.capabilities;
  status = RequestStatus.queued;
  error_code = none;
  replica_id = none;
  input_tokens = 0;
  output_tokens = 0;
  arrived_at = now;
  started_at = none;
  completed_at = none;
  last_token_at = none;
  first_token_at = none;
  duration_ms = none;
  cost_usd = none;
  affinity_hit = none;
}

-- `none` where the primary key is taken and the INSERT fails.
unfoldable pub enqueue_request : Db → EnqueueRequestInput → ℕ → Option Db
enqueue_request db input now =
    if any (request_is input.id) db.requests
    then none
    else some (record db { requests = queued_row input now ∷ db.requests })

-- `t < now() - ms`, false on NULL.
abbrev pub older : Option ℕ → ℕ → ℕ → Bool
older none ms now = false
older (some t) ms now = ltb (t + ms) now

-- The columns that the sweeps and `expireQueuedRequest` set.
abbrev pub time_out : RequestStatus → ErrorCode → ℕ → RequestRow → RequestRow
time_out status code now r = record r {
  status = status;
  error_code = some code;
  completed_at = some now;
}

abbrev pub queue_timed_out : ℕ → RequestRow → RequestRow
queue_timed_out now = time_out RequestStatus.queue_timeout ErrorCode.queue_timeout now

abbrev pub stall_timed_out : ℕ → RequestRow → RequestRow
stall_timed_out now = time_out RequestStatus.stall_timeout ErrorCode.stall_timeout now

-- UPDATE requests SET … WHERE … RETURNING id.
abbrev pub update_requests : Db → (RequestRow → Bool) → (RequestRow → RequestRow) → Db
update_requests db p f = record db { requests = update p f db.requests }

abbrev pub returned_ids : Db → (RequestRow → Bool) → List String
returned_ids db p = map (λ (r : RequestRow). r.id) (filter p db.requests)

abbrev pub queue_expired : ℕ → ℕ → RequestRow → Bool
queue_expired timeout_ms now r = is_queued r.status && ltb (r.arrived_at + timeout_ms) now

unfoldable pub sweep_queue_timeouts : Db → ℕ → ℕ → Db × List String
sweep_queue_timeouts db timeout_ms now = (
  update_requests db (queue_expired timeout_ms now) (queue_timed_out now),
  returned_ids db (queue_expired timeout_ms now),
)

abbrev pub still_queued : String → RequestRow → Bool
still_queued id r = request_is id r && is_queued r.status

unfoldable pub expire_queued_request : Db → String → ℕ → Db × Bool
expire_queued_request db id now =
    (update_requests db (still_queued id) (queue_timed_out now), any (still_queued id) db.requests)

abbrev pub start_stream : String → ℕ → RequestRow → RequestRow
start_stream replica_id now r = record r {
  status = RequestStatus.streaming;
  replica_id = some replica_id;
  started_at = some now;
  last_token_at = some now;
}

unfoldable pub mark_stream_started : Db → String → String → ℕ → Db
mark_stream_started db id replica_id now =
    update_requests db (request_is id) (start_stream replica_id now)

abbrev pub emit_token : ℕ → RequestRow → RequestRow
emit_token now r = record r {
  last_token_at = some now;
  first_token_at = some (or_else r.first_token_at now);
}

unfoldable pub record_token_emitted : Db → String → ℕ → Db
record_token_emitted db id now = update_requests db (request_is id) (emit_token now)

abbrev pub stalled : ℕ → ℕ → RequestRow → Bool
stalled threshold_ms now r =
    is_streaming r.status && (is_some r.first_token_at && older r.last_token_at threshold_ms now)

unfoldable pub sweep_stall_timeouts : Db → ℕ → ℕ → Db × List String
sweep_stall_timeouts db threshold_ms now = (
  update_requests db (stalled threshold_ms now) (stall_timed_out now),
  returned_ids db (stalled threshold_ms now),
)

-- The allowance of the model that a request was routed to; `none` where the join finds no model.
abbrev pub allowance : List ModelRegistryRow → ℕ → Option String → Option ℕ
allowance models default_ms none = none
allowance models default_ms (some id) = elim (find (λ (m : ModelRegistryRow). m.id == id) models) [
  | none ↦ none
  | some m ↦ some (or_else m.first_token_timeout_ms default_ms)
]

abbrev older_than : Option ℕ → Option ℕ → ℕ → Bool
older_than t none now = false
older_than t (some ms) now = older t ms now

abbrev pub never_started : List ModelRegistryRow → ℕ → ℕ → RequestRow → Bool
never_started models default_ms now r =
    is_streaming r.status
    && (not (is_some r.first_token_at)
        && older_than r.started_at (allowance models default_ms r.routed_model) now)

unfoldable pub sweep_first_token_timeouts : Db → ℕ → ℕ → Db × List String
sweep_first_token_timeouts db default_ms now =
    let expired = never_started db.model_registry default_ms now in
    (update_requests db expired (stall_timed_out now), returned_ids db expired)

-- EXTRACT(EPOCH FROM now() - started_at) * 1000, at least 0, and 0 for a request never started.
abbrev pub elapsed : Option ℕ → ℕ → ℕ
elapsed none now = 0
elapsed (some t) now = now - t

abbrev pub complete_row : ℕ → Fraction → ℕ → RequestRow → RequestRow
complete_row output_tokens cost_usd now r = record r {
  status = RequestStatus.completed;
  completed_at = some now;
  output_tokens = output_tokens;
  cost_usd = some cost_usd;
  duration_ms = some (elapsed r.started_at now);
}

-- Tokens per second of one request; it is read only where the duration is not 0.
abbrev pub throughput : ℕ → ℕ → Fraction
throughput tokens duration_ms = record { num = tokens * 1000; pred_den = duration_ms - 1 }

unfoldable pub average : Fraction → Option Fraction → Fraction → Fraction
average alpha none sample = sample
average alpha (some old) sample = add (mul (one_minus alpha) old) (mul alpha sample)

-- The columns of the replica that a completion sets.
unfoldable pub release_slot : Fraction → ℕ → ℕ → ℕ → ReplicaRow → ReplicaRow
unfolding average
release_slot alpha tokens duration_ms now r =
    let sampled = leb min_sample_duration_ms duration_ms && leb min_sample_tokens tokens in
    record r {
      in_flight = r.in_flight - 1;
      tokens_per_sec =
          (if sampled
            then some (average alpha r.tokens_per_sec (throughput tokens duration_ms))
            else r.tokens_per_sec);
      tokens_per_sec_at = (if sampled then some now else r.tokens_per_sec_at);
      updated_at = now;
    }

-- A replica id that the code takes for none: NULL or "".
abbrev pub truthy : Option String → Option String
truthy none = none
truthy (some s) = if s == "" then none else some s

abbrev replica_of : Option RequestRow → Option String
replica_of none = none
replica_of (some r) = truthy r.replica_id

abbrev duration_of : Option RequestRow → ℕ → ℕ
duration_of none now = 0
duration_of (some r) now = elapsed r.started_at now

-- One transaction: the request, then the replica that it ran on.
unfoldable pub complete_request : Fraction → Db → String → ℕ → Fraction → ℕ → Db
unfolding release_slot
complete_request alpha db id output_tokens cost_usd now =
    let row = find (request_is id) db.requests in
    let requests' = update (request_is id) (complete_row output_tokens cost_usd now) db.requests in
    elim (replica_of row) [
      | none ↦ record db { requests = requests' }
      | some replica_id ↦ record db {
        requests = requests';
        replicas =
            update (replica_is replica_id)
              (release_slot alpha output_tokens (duration_of row now) now) db.replicas;
      }
    ]
