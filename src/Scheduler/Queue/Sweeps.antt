-- ===== src/Scheduler/Queue/Sweeps.antt =====
-- What each sweep of server/src/scheduler/queue.ts fails and returns, and that no row is under two
-- clocks at once.
use control_deck.Prelude.{
  ℕ, ◌+◌, ◌<◌, String, Bool, true, ◌≡◌, refl, subst, ◌≢◌, ◌↔◌, if◌then◌else◌, Option, none, some,
  List, Mem, filter, update, mem-update, mem-map, mem-of-mem_map, mem-filter, mem-of-mem_filter,
  not_iff, arith,
}
use control_deck.Types.{RequestStatus}
use control_deck.Database.{RequestRow, ModelRegistryRow, Db}
use control_deck.Scheduler.Queue.{
  update_requests, returned_ids, queue_expired, stalled, never_started, allowance, queue_timed_out,
  stall_timed_out, sweep_queue_timeouts, sweep_stall_timeouts, sweep_first_token_timeouts,
}

-- A time is recorded, and the limit after it has passed.
abbrev pub IsOlder : Option ℕ → ℕ → ℕ → Type 0
IsOlder t ms now = (at : ℕ) × (t ≡ some at) × (at + ms < now)

pub record IsQueueExpired (timeout_ms now : ℕ) (r : RequestRow) : Type 0 where
  pub queued : r.status ≡ RequestStatus.queued
  pub waited : r.arrived_at + timeout_ms < now

pub record IsStalled (threshold_ms now : ℕ) (r : RequestRow) : Type 0 where
  pub streaming : r.status ≡ RequestStatus.streaming
  pub started : r.first_token_at ≢ none
  pub silent : IsOlder r.last_token_at threshold_ms now

-- The limit is that of the model that the request was routed to.
pub record IsNeverStarted (models : List ModelRegistryRow) (default_ms now : ℕ) (r : RequestRow)
    : Type 0 where
  pub streaming : r.status ≡ RequestStatus.streaming
  pub silent : r.first_token_at ≡ none
  pub allowed : ℕ
  pub limit : allowance models default_ms r.routed_model ≡ some allowed
  pub waited : IsOlder r.started_at allowed now

-- A sweep changes exactly the rows of which `P` holds, as `set` says, and returns their ids.
pub record Sweeps (P : RequestRow → Type 0) (set : RequestRow → RequestRow) (db : Db)
    (out : Db × List String) : Type 0 where
  pub returned :
      (j : String) → Mem j out.1 ↔ ((r : RequestRow) × Mem r db.requests × (r.id ≡ j) × P r)
  pub failed : (r : RequestRow) → Mem r db.requests → P r → Mem (set r) out.0.requests
  pub kept : (r : RequestRow) → Mem r db.requests → ¬ P r → Mem r out.0.requests
  pub replicas : out.0.replicas ≡ db.replicas

module _ (P : RequestRow → Type 0) (p : RequestRow → Bool) (set : RequestRow → RequestRow)
    (decides : (r : RequestRow) → (p r ≡ true) ↔ P r) where
  update-Sweeps : (db : Db) → Sweeps P set db (update_requests db p set, returned_ids db p)
  update-Sweeps db = record {
    returned = λ j. (
      λ m.
          let (r, kept, named) =
            mem-of-mem_map (λ (r : RequestRow). r.id) (filter p db.requests) j m in
          let (q, listed) = mem-of-mem_filter p db.requests r kept in
          (r, listed, named, (decides r).0 q),
      λ h.
          let (r, listed, named, q) = h in
          subst (λ k. Mem k (returned_ids db p)) named
            (mem-map (λ (r : RequestRow). r.id) (filter p db.requests) r
              (mem-filter p db.requests r listed ((decides r).1 q))),
    );
    failed = λ r listed q.
        subst (λ b. Mem (if b then set r else r) (update p set db.requests)) ((decides r).1 q)
          (mem-update p set db.requests r listed);
    kept = λ r listed q.
        subst (λ b. Mem (if b then set r else r) (update p set db.requests))
          ((not_iff p P decides r).1 q) (mem-update p set db.requests r listed);
    replicas = refl;
  }

queue_expired_iff :
    (timeout_ms now : ℕ) (r : RequestRow)
    → (queue_expired timeout_ms now r ≡ true) ↔ IsQueueExpired timeout_ms now r
queue_expired_iff timeout_ms now r = ground arith

stalled_iff :
    (threshold_ms now : ℕ) (r : RequestRow)
    → (stalled threshold_ms now r ≡ true) ↔ IsStalled threshold_ms now r
stalled_iff threshold_ms now r = ground arith

never_started_iff :
    (models : List ModelRegistryRow) (default_ms now : ℕ) (r : RequestRow)
    → (never_started models default_ms now r ≡ true) ↔ IsNeverStarted models default_ms now r
never_started_iff models default_ms now r = ground arith

-- Each sweep fails exactly the rows whose clock has run out, leaves every other row and all replicas
-- as they are, and returns the ids of the rows that it failed: queued rows that arrived longer ago
-- than the timeout, streaming rows with a token whose latest one is older than the threshold, and
-- streaming rows without a token that started longer ago than their model allows.
pub clocks-Sweeps :
    (db : Db) (limit_ms now : ℕ)
    → Sweeps
        (IsQueueExpired limit_ms now)
        (queue_timed_out now)
        db
        (sweep_queue_timeouts db limit_ms now)
      × Sweeps
          (IsStalled limit_ms now)
          (stall_timed_out now)
          db
          (sweep_stall_timeouts db limit_ms now)
      × Sweeps
          (IsNeverStarted db.model_registry limit_ms now)
          (stall_timed_out now)
          db
          (sweep_first_token_timeouts db limit_ms now)
unfolding sweep_queue_timeouts sweep_stall_timeouts sweep_first_token_timeouts
clocks-Sweeps db limit_ms now = (
  update-Sweeps _ _ _ (queue_expired_iff limit_ms now) db,
  update-Sweeps _ _ _ (stalled_iff limit_ms now) db,
  update-Sweeps _ _ _ (never_started_iff db.model_registry limit_ms now) db,
)

-- No row is under two clocks at once, whatever the limits and times of the sweeps are.
pub clocks_disjoint :
    (r : RequestRow) (models : List ModelRegistryRow) (t t' t'' now now' now'' : ℕ)
    → ¬ (IsQueueExpired t now r × IsStalled t' now' r)
      × ¬ (IsQueueExpired t now r × IsNeverStarted models t'' now'' r)
      × ¬ (IsStalled t' now' r × IsNeverStarted models t'' now'' r)
clocks_disjoint r models t t' t'' now now' now'' = (
  λ h. let q = h.0.queued in let s = h.1.streaming in cc,
  λ h. let q = h.0.queued in let s = h.1.streaming in cc,
  λ h. h.0.started h.1.silent,
)
