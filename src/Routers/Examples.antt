-- ===== src/Routers/Examples.antt =====
-- A run of one handler: placed, begun, completed.
use control_deck.Prelude.{false, refl, none, [], ◌∷◌, Memᴰ}
use control_deck.Prelude.Fraction.{of_nat}
use control_deck.Scheduler.Settings.{defaults}
use control_deck.Scheduler.Keda.{KedaClient}
use control_deck.Scheduler.Placement.{place_request, bump, to_replica}
use control_deck.Scheduler.Queue.{mark_stream_started, complete_request}
use control_deck.Routers.{Holder, System, Step, Run, begun, drop_holder}
use control_deck.Routers.Pool.{Pool}
use control_deck.Samples.{replica_of, streaming_row, busy_db, by_length}

abbrev keda : KedaClient
keda = KedaClient.metrics 1000

-- One replica with two slots, and a request that waits.
abbrev at_first : System
at_first = record {
  db = record busy_db { replicas = replica_of "r2" 0 2 ∷ [] };
  holders = [];
  closing = [];
}

abbrev two_slots : Pool
two_slots k = 2

abbrev placed_holder : Holder
placed_holder = record { request_id = "q1"; replica_id = "r2"; started = false; failing = false }

abbrev after_place : System
after_place = record {
  db = (place_request by_length (λ _. false) defaults keda at_first.db "big" none 1500).0;
  holders = placed_holder ∷ [];
  closing = [];
}

placing : Step by_length defaults keda at_first after_place
unfolding place_request
placing =
    Step.place "q1" "big" none (λ _. false) 1500 (streaming_row "q1" 1000)
      (to_replica (bump 1500 (replica_of "r2" 0 2))) false refl tt refl

abbrev after_start : System
after_start = record {
  db = mark_stream_started after_place.db "q1" "r2" 1600;
  holders = begun placed_holder ∷ [];
  closing = [];
}

starting : Step by_length defaults keda after_place after_start
starting = Step.start placed_holder 1600 (Memᴰ.head refl) refl

abbrev after_completion : System
after_completion =
    drop_holder after_start
      (complete_request defaults.ewma_alpha after_start.db "q1" 9 (of_nat 0) 2000) "q1"
      (begun placed_holder ∷ [])

completing : Step by_length defaults keda after_start after_completion
completing = Step.complete (begun placed_holder) 9 (of_nat 0) 2000 (Memᴰ.head refl) refl refl

whole_run : Run by_length defaults keda at_first after_completion
whole_run = Run.then_step (Run.then_step (Run.then_step Run.here placing) starting) completing
