-- ===== src/Http/Examples.antt =====
-- The theorems about failures and waits at concrete errors and tables.
use control_deck.Prelude.{
  arith, if◌then◌else◌, eqb, ◌+◌, ◌<◌, true, false, ◌≡◌, ◌↔◌, refl, none, some, Memᴰ, Replaced,
  find, ℕ, List, [], ◌∷◌, map, Mem, sort_by, IsSorted,
}
use control_deck.Types.{Text, StandardError}
use control_deck.Routing.Complexity.{codes}
use control_deck.Scheduler.Settings.{defaults}
use control_deck.Scheduler.Keda.{KedaClient}
use control_deck.Scheduler.Queue.{request_is}
use control_deck.Scheduler.Placement.Capacity.{IsWithinCapacity, total_in_flight}
use control_deck.Scheduler.Examples.{busy_db-IsWithinCapacity}
use control_deck.Database.{RequestRow}
use control_deck.Adapter.Failure.{BackendError}
use control_deck.Http.Errors.{status_for_error, replica_unavailable}
use control_deck.Http.Failure.{Thrown, backend_failure, give_back, fail_request}
use control_deck.Http.Failure.Laws.{IsFailed, fail_request-releases}
use control_deck.Http.ToolCalls.{ToolCallDelta, ToolCall, lower_index, assemble_tool_calls}
use control_deck.Http.ToolCalls.Laws.{Collected, fragments, assemble_tool_calls-Collected}
use control_deck.Http.Deadline.{Clock, generation_deadline, generate}
use control_deck.Http.Deadline.Laws.{IsPaced, none_in_time, generate-IsPaced}
use control_deck.Http.Wait.{World, wait_for_placement}
use control_deck.Http.Wait.Liveness.{IsServed, wait_for_placement-IsServed}
use control_deck.Http.Wait.Laws.{Ending, wait_for_placement-Ending}
use control_deck.Samples.{busy_db, replica_of, streaming_row, by_length}

abbrev refused : BackendError
refused = record { status = 422; body = codes "bad tool"; message = codes "bad tool" }

refused-status : status_for_error (backend_failure (Thrown.backend refused)) ≡ 400
unfolding status_for_error backend_failure
refused-status = refl

abbrev lost : StandardError
lost = replica_unavailable (codes "gone")

fail_request-releases_example :
    let db' = fail_request busy_db "q1" lost (some "r2") 9000 in
    Replaced (replica_of "r2" 1 2) (give_back (replica_of "r2" 1 2)) busy_db.replicas db'.replicas
    × ((give_back (replica_of "r2" 1 2)).in_flight ≡ 0)
    × IsWithinCapacity db'.replicas
    × (0 < 1 → total_in_flight db'.replicas + 1 ≡ total_in_flight busy_db.replicas)
    × ((r' : RequestRow) × (find (request_is "q1") db'.requests ≡ some r')
        × IsFailed lost 9000 (streaming_row "q1" 1000) r')
fail_request-releases_example =
    fail_request-releases busy_db "q1" lost 9000 (streaming_row "q1" 1000) refl
      (replica_of "r2" 1 2) busy_db-IsWithinCapacity refl (Memᴰ.tail (Memᴰ.head refl))

abbrev quiet : World
quiet = record { others = λ n db. db; locked = λ n id. false; delay = λ n. 5 }

wait_for_placement-Ending_example :
    Ending by_length defaults
      (KedaClient.metrics 1000)
      quiet
      "big"
      "q2"
      none
      (100 + 300_000)
      busy_db
      (wait_for_placement by_length defaults
        (KedaClient.metrics 1000)
        quiet
        "big"
        "q2"
        none
        busy_db
        100)
wait_for_placement-Ending_example =
    wait_for_placement-Ending by_length defaults (KedaClient.metrics 1000) quiet "big" "q2" none
      busy_db 100

abbrev fragment : ℕ → Text → Text → ToolCallDelta
fragment i name arguments = record {
  index = some i;
  id = [];
  kind = [];
  name = name;
  arguments = arguments;
}

-- The fragments of two calls, one between those of the other.
abbrev interleaved : List ToolCallDelta
interleaved =
    fragment 1 (codes "find") (codes "{\"a\":")
    ∷ fragment 0 (codes "open") (codes "{}")
    ∷ fragment 1 [] (codes "1}")
    ∷ []

interleaved-calls :
    map (λ (c : ToolCall). c.arguments) (assemble_tool_calls interleaved)
    ≡ codes "{}" ∷ codes "{\"a\":1}" ∷ []
unfolding assemble_tool_calls
interleaved-calls = refl

assemble_tool_calls-Collected_example :
    (entries : List (ℕ × ToolCall)) × Collected interleaved entries
    × (assemble_tool_calls interleaved
        ≡ map (λ (e : ℕ × ToolCall). e.1) (sort_by lower_index entries))
    × IsSorted lower_index (sort_by lower_index entries)
    × ((e : ℕ × ToolCall)
        → Mem e (sort_by lower_index entries)
        → e.1.arguments ≡ fragments e.0 interleaved)
assemble_tool_calls-Collected_example = assemble_tool_calls-Collected interleaved

-- The weights load for 8 seconds, and the second token is late.
abbrev times : List ℕ
times = 9000 ∷ 70_000 ∷ []

generate-IsPaced_example :
    let d = generate 71_000 60_000 (generation_deadline 600_000 1000) times in
    ((d.aborted ≡ false) ↔ IsPaced 71_000 60_000 (1000 + 600_000) times)
    × ((d.reason ≡ Clock.first_token) ↔ (none_in_time (1000 + 600_000) times ≡ true))
generate-IsPaced_example = generate-IsPaced 71_000 600_000 60_000 1000 times

-- Nothing is free at the first try, and then r2 has room.
abbrev freed_later : World
freed_later = record {
  others = λ n db. if eqb n 0 then record db { replicas = replica_of "r1" 2 2 ∷ [] } else busy_db;
  locked = λ n id. false;
  delay = λ n. 5;
}

wait_for_placement-IsServed_example : IsServed (
    wait_for_placement by_length defaults
      (KedaClient.metrics 1000)
      freed_later
      "big"
      "q2"
      none
      busy_db
      100)
wait_for_placement-IsServed_example =
    wait_for_placement-IsServed by_length defaults (KedaClient.metrics 1000) freed_later "big" "q2"
      none busy_db 100 1 (replica_of "r2" 1 2) (omega arith) (Memᴰ.tail (Memᴰ.head refl))
      (record { serves = refl; is_up = refl; has_room = omega arith; unlocked = refl })
