-- ===== src/Scheduler/Examples.antt =====
-- The theorems about the scheduler at concrete tables.
use control_deck.Prelude.{
  ℕ, String, Bool, true, false, ◌≡◌, refl, ◌↔◌, ◌≢◌, none, some, List, [], ◌∷◌, All, Mem,
  HasDistinctKeys, find, eq_iff, arith,
}
use control_deck.Prelude.Fraction.{den, of_nat, Le}
use control_deck.Types.{ErrorCode, RequestStatus}
use control_deck.Database.{RequestRow, Db}
use control_deck.Scheduler.Settings.{defaults}
use control_deck.Scheduler.Keda.{KedaClient}
use control_deck.Scheduler.Queue.{
  request_is, complete_request, average, sweep_stall_timeouts, expire_queued_request,
  sweep_queue_timeouts, sweep_first_token_timeouts, queue_timed_out, stall_timed_out,
}
use control_deck.Scheduler.Queue.Clocks.{Event, token, stall_sweep, queue_sweep, run, run-streaming}
use control_deck.Scheduler.Queue.Sweeps.{
  Sweeps, IsQueueExpired, IsStalled, IsNeverStarted, clocks-Sweeps,
}
use control_deck.Scheduler.Queue.Throughput.{average_bounds}
use control_deck.Scheduler.Queue.Completion.{
  complete_request-keeps_error, expire_queued_request-own,
}
use control_deck.Scheduler.Placement.{placed, needs_queue, bump, to_replica, place_request}
use control_deck.Scheduler.Placement.Laws.{replica_key, CanTake}
use control_deck.Scheduler.Placement.Outcome.{Placement, place_request-Placement}
use control_deck.Scheduler.Placement.Capacity.{
  IsWithinCapacity, total_in_flight, place_request-needs_queue_iff, place_request-IsWithinCapacity,
}
use control_deck.Samples.{busy_db, replica_of, streaming_row, by_length, by_length-IsPreorder}

abbrev nothing_locked : String → Bool
nothing_locked _ = false

abbrev keda : KedaClient
keda = KedaClient.metrics 1000

busy_db-distinct : HasDistinctKeys replica_key busy_db.replicas
busy_db-distinct = ((λ e. ground (arith, eq_iff "r2" "r1"), tt), (tt, tt))

pub busy_db-IsWithinCapacity : IsWithinCapacity busy_db.replicas
busy_db-IsWithinCapacity = record { distinct = busy_db-distinct; bounded = omega arith }

-- The conversation's replica r1 is full, so the request goes to r2.
placed_on_r2 :
    (place_request by_length nothing_locked defaults keda busy_db "big" (some "k") 5000).1
    ≡ placed (to_replica (bump 5000 (replica_of "r2" 1 2))) false
unfolding place_request
placed_on_r2 = refl

place_request-Placement_example :
    Placement by_length nothing_locked defaults keda busy_db "big"
      (some "k")
      5000
      (place_request by_length nothing_locked defaults keda busy_db "big" (some "k") 5000).0
      (to_replica (bump 5000 (replica_of "r2" 1 2)))
      false
place_request-Placement_example =
    place_request-Placement by_length nothing_locked defaults keda by_length-IsPreorder busy_db
      "big" (some "k") 5000 busy_db-distinct (to_replica (bump 5000 (replica_of "r2" 1 2))) false
      placed_on_r2

place_request-needs_queue_iff_example :
    (((place_request by_length (λ _. true) defaults keda busy_db "big" none 5000).1 ≡ needs_queue)
      ↔ All (λ r. ¬ CanTake (λ _. true) "big" r) busy_db.replicas)
    × ((place_request by_length (λ _. true) defaults keda busy_db "big" none 5000).1 ≡ needs_queue
        → (place_request by_length (λ _. true) defaults keda busy_db "big" none 5000).0 ≡ busy_db)
place_request-needs_queue_iff_example =
    place_request-needs_queue_iff by_length (λ _. true) defaults keda busy_db "big" none 5000

place_request-IsWithinCapacity_example :
    IsWithinCapacity
      (place_request by_length nothing_locked defaults keda busy_db "big" none 5000).0.replicas
    × (total_in_flight
          (place_request by_length nothing_locked defaults keda busy_db "big" none 5000).0.replicas
        ≡ 4)
unfolding place_request
place_request-IsWithinCapacity_example =
    place_request-IsWithinCapacity by_length nothing_locked defaults keda by_length-IsPreorder
      busy_db "big" none 5000 busy_db-IsWithinCapacity

abbrev slow_stream : List (ℕ × Event)
slow_stream =
    (60_000, stall_sweep 60_000)
    ∷ (61_000, token "q1")
    ∷ (400_000, queue_sweep 300_000)
    ∷ (110_000, stall_sweep 60_000)
    ∷ []

run-streaming_example :
    (r : RequestRow) × (find (request_is "q1") (run busy_db slow_stream).requests ≡ some r)
    × (r.status ≡ RequestStatus.streaming)
run-streaming_example =
    run-streaming busy_db "q1" 1000 slow_stream
      (record {
        row = streaming_row "q1" 1000;
        found = refl;
        streaming = refl;
        started = refl;
        latest = refl;
      })
      (omega arith)

clocks-Sweeps_example :
    Sweeps
      (IsQueueExpired 500 9000)
      (queue_timed_out 9000)
      busy_db
      (sweep_queue_timeouts busy_db 500 9000)
    × Sweeps
        (IsStalled 500 9000)
        (stall_timed_out 9000)
        busy_db
        (sweep_stall_timeouts busy_db 500 9000)
    × Sweeps
        (IsNeverStarted busy_db.model_registry 500 9000)
        (stall_timed_out 9000)
        busy_db
        (sweep_first_token_timeouts busy_db 500 9000)
clocks-Sweeps_example = clocks-Sweeps busy_db 500 9000

average_bounds_example :
    (Le (of_nat 10) (of_nat 20)
      → Le (of_nat 10) (average defaults.ewma_alpha (some (of_nat 10)) (of_nat 20))
        × Le (average defaults.ewma_alpha (some (of_nat 10)) (of_nat 20)) (of_nat 20))
    × (Le (of_nat 20) (of_nat 10)
        → Le (of_nat 20) (average defaults.ewma_alpha (some (of_nat 10)) (of_nat 20))
          × Le (average defaults.ewma_alpha (some (of_nat 10)) (of_nat 20)) (of_nat 10))
    × (◌≡◌ {A = ℕ} defaults.ewma_alpha.num 0
        → Le (average defaults.ewma_alpha (some (of_nat 10)) (of_nat 20)) (of_nat 10)
          × Le (of_nat 10) (average defaults.ewma_alpha (some (of_nat 10)) (of_nat 20)))
    × (defaults.ewma_alpha.num ≡ den defaults.ewma_alpha
        → Le (average defaults.ewma_alpha (some (of_nat 10)) (of_nat 20)) (of_nat 20)
          × Le (of_nat 20) (average defaults.ewma_alpha (some (of_nat 10)) (of_nat 20)))
average_bounds_example = average_bounds defaults.ewma_alpha (of_nat 10) (of_nat 20) (omega arith)

abbrev done_db : Db
done_db = complete_request defaults.ewma_alpha busy_db "q1" 40 (of_nat 1) 9000

abbrev swept_db : Db
swept_db = record busy_db { requests = stall_timed_out 8000 (streaming_row "q1" 1000) ∷ [] }

complete_request-keeps_error_example :
    (r' : RequestRow) × (find
        (request_is "q1")
        (complete_request defaults.ewma_alpha swept_db "q1" 40 (of_nat 1) 9000).requests
      ≡ some r')
    × (r'.status ≡ RequestStatus.completed)
    × (r'.error_code ≡ some ErrorCode.stall_timeout)
complete_request-keeps_error_example =
    complete_request-keeps_error defaults.ewma_alpha swept_db "q1" 40 (of_nat 1) 9000
      (stall_timed_out 8000 (streaming_row "q1" 1000)) refl ErrorCode.stall_timeout refl

expire_queued_request-own_example :
    let out = expire_queued_request busy_db "q1" 9000 in
    (◌≢◌ {A = String} "q2" "q1"
      → find (request_is "q2") out.0.requests ≡ find (request_is "q2") busy_db.requests)
    × ((out.1 ≡ true) ↔ (
        (r : RequestRow) × Mem r busy_db.requests
        × (r.id ≡ "q1")
        × (r.status ≡ RequestStatus.queued)))
    × (expire_queued_request out.0 "q1" 9500 ≡ (out.0, false))
expire_queued_request-own_example = expire_queued_request-own busy_db "q1" "q2" 9000 9500
