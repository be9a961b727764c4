-- ===== src/Http/Chat/Examples.antt =====
-- The theorems about a chat request at concrete tables, and runs of the whole handler.
use control_deck.Prelude.{◌+◌, Bool, true, false, ◌≡◌, refl, none, some, [], ◌∷◌, Memᴰ, arith}
use control_deck.Types.{ModelClass}
use control_deck.Database.{Db}
use control_deck.Routing.Complexity.{codes}
use control_deck.Scheduler.Settings.{defaults}
use control_deck.Scheduler.Keda.{KedaClient}
use control_deck.Scheduler.Examples.{busy_db-IsWithinCapacity}
use control_deck.Scheduler.Placement.Capacity.{total_in_flight}
use control_deck.Routing.Select.{select_model}
use control_deck.Registry.{list_models}
use control_deck.Scheduler.Affinity.{affinity_key_for}
use control_deck.Scheduler.Queue.{enqueue_request, complete_request, mark_stream_started}
use control_deck.Audit.Scope.{is_content_logging_enabled}
use control_deck.Http.Deadline.{generation_deadline}
use control_deck.Http.Turn.{consume, settle_turn, keep_turn}
use control_deck.Registry.Examples.{one_model}
use control_deck.Http.Failure.{Thrown}
use control_deck.Http.Wait.{World, wait_for_placement}
use control_deck.Http.Turn.{Turn, Chunk, Close, Statement, Outside, Frame}
use control_deck.Http.Turn.Serving.{Serving}
use control_deck.Http.Chat.{Env, Reply, Call, chat_completions, serve}
use control_deck.Http.Chat.Slots.{Holds}
use control_deck.Http.Chat.Balance.{IsBalanced, chat_completions-IsBalanced}
use control_deck.Http.Chat.Endings.{NeverOpen, chat_completions-NeverOpen}
use control_deck.Http.Chat.Leaks.{serve-releases_twice}
use control_deck.Samples.{
  model_of, ask, hello, ann, busy_db, streaming_row, replica_of, by_length, by_length-IsPreorder,
}

abbrev quiet : World
quiet = record { others = λ n db. db; locked = λ n id. false; delay = λ n. 5 }

abbrev outside : (Statement → Bool) → Outside
outside refused = record {
  stringify_parts = λ _. [];
  stringify_deltas = λ _. [];
  stringify_calls = λ _. [];
  refused = refused;
  refusal = Thrown.error (codes "database is down");
}

abbrev pub env_with : (Statement → Bool) → Env
env_with refused = record {
  collate = by_length;
  settings = defaults;
  keda = KedaClient.metrics 1000;
  world = quiet;
  digest = λ _. "digest";
  out = outside refused;
}

abbrev pub calm_env : Env
calm_env = env_with (λ _. false)

-- Two chunks and the end, in good time.
abbrev a_turn : Turn
a_turn = record {
  request_id = "q2";
  started_at = 2000;
  chunks = (2500, Chunk.content (codes "ho")) ∷ (2600, Chunk.content (codes "la")) ∷ [];
  close_at = 2700;
  close = Close.done none none;
  ended_at = 2800;
}

abbrev hello_call : Bool → Call
hello_call streams = record {
  identity = ann;
  body = record (ask none none hello) { stream = streams };
  dry_run = false;
  include_usage = false;
  arrived_at = 1500;
  turn = a_turn;
}

streamed :
    (chat_completions calm_env (hello_call true) one_model).1
    ≡ Reply.stream (
        Frame.role
        ∷ Frame.chunk (Chunk.content (codes "ho"))
        ∷ Frame.chunk (Chunk.content (codes "la"))
        ∷ Frame.finish (codes "stop")
        ∷ Frame.done_marker
        ∷ [])
unfolding chat_completions select_model list_models enqueue_request wait_for_placement
    affinity_key_for serve consume generation_deadline settle_turn keep_turn
    is_content_logging_enabled complete_request mark_stream_started
streamed = refl

chat_completions-IsBalanced_example :
    IsBalanced one_model (chat_completions calm_env (hello_call false) one_model).0
chat_completions-IsBalanced_example =
    chat_completions-IsBalanced calm_env by_length-IsPreorder (λ n db. refl) (λ s. refl)
      (hello_call false) one_model busy_db-IsWithinCapacity (refl, (refl, tt))

abbrev logging_down : Statement → Bool
logging_down Statement.read_logging = true
logging_down _ = false

-- Two requests are on r2, and q2 is one of them.
abbrev shared : Db
shared = record busy_db {
  requests = record (streaming_row "q2" 2000) { replica_id = some "r2" } ∷ [];
  replicas = replica_of "r2" 2 2 ∷ [];
}

shared-Holds : Holds "r2" shared.replicas
shared-Holds = record {
  row = replica_of "r2" 2 2;
  named = refl;
  listed = Memᴰ.head refl;
  busy = omega arith;
  ok = record { distinct = (tt, tt); bounded = omega arith };
}

shared-Serving : Serving "q2" "r2" shared.replicas shared
shared-Serving = record { same = refl; row = streaming_row "q2" 2000; found = refl; on = refl }

serve-releases_twice_example :
    total_in_flight
        (serve
          (env_with logging_down)
          (model_of "big" ModelClass.large [])
          ann
          hello
          false
          a_turn
          "r2"
          true
          shared).0.replicas
      + 2
    ≡ 2
unfolding consume generation_deadline shared-Holds
serve-releases_twice_example =
    serve-releases_twice (env_with logging_down) (model_of "big" ModelClass.large []) ann hello
      false a_turn "r2" shared.replicas refl shared-Holds (omega arith) refl refl refl refl refl
      refl shared none none shared-Serving refl

chat_completions-NeverOpen_example :
    NeverOpen "q2" (chat_completions calm_env (hello_call true) one_model).0.requests
chat_completions-NeverOpen_example =
    chat_completions-NeverOpen calm_env by_length-IsPreorder (λ n db. refl) (λ s. refl)
      (hello_call true) one_model busy_db-IsWithinCapacity (refl, (refl, tt)) refl
