-- ===== src/Http/Embeddings/Examples.antt =====
-- The leak of an embeddings request at a concrete table.
use control_deck.Prelude.{◌+◌, false, ◌≡◌, refl, some, [], ◌∷◌, find}
use control_deck.Types.{ModelClass, RequestStatus}
use control_deck.Database.{RequestRow, Db}
use control_deck.Routing.Complexity.{codes}
use control_deck.Scheduler.Queue.{request_is}
use control_deck.Scheduler.Placement.{place_request}
use control_deck.Scheduler.Placement.Capacity.{total_in_flight}
use control_deck.Scheduler.Examples.{busy_db-IsWithinCapacity}
use control_deck.Http.Wait.{wait_for_placement}
use control_deck.Http.Chat.{Reply}
use control_deck.Http.Chat.Examples.{calm_env}
use control_deck.Http.Embeddings.{Embedded, EmbedCall, queued_embed}
use control_deck.Http.Embeddings.Leaks.{queued_embed-leaks}
use control_deck.Samples.{replica_of, model_of, ann, busy_db, streaming_row, by_length-IsPreorder}

abbrev a_call : EmbedCall
a_call = record {
  identity = ann;
  model = some "big";
  input = some (codes "text" ∷ []);
  request_id = "q1";
  arrived_at = 1500;
  started_at = 2000;
  ended_at = 2100;
  answer = Embedded.threw;
}

-- The tables with the request placed on r2.
abbrev placed_db : Db
placed_db = record busy_db {
  replicas = replica_of "r1" 2 2 ∷ record (replica_of "r2" 2 2) { updated_at = 1500 } ∷ [];
}

queued_embed-leaks_example :
    let (after, reply) =
      queued_embed calm_env a_call
        (codes "text" ∷ [])
        (model_of "big" ModelClass.large [])
        busy_db
        (some busy_db) in
    (total_in_flight after.replicas ≡ total_in_flight busy_db.replicas + 1)
    × (reply ≡ Reply.broken)
    × ((r : RequestRow) × (find (request_is "q1") after.requests ≡ some r)
        × (r.status ≡ RequestStatus.streaming)
        × (r.replica_id ≡ some "r2"))
unfolding wait_for_placement place_request
queued_embed-leaks_example =
    queued_embed-leaks calm_env by_length-IsPreorder (λ n db. refl) a_call (codes "text" ∷ [])
      (model_of "big" ModelClass.large []) busy_db placed_db busy_db (streaming_row "q1" 1000) "r2"
      "http://r" false busy_db-IsWithinCapacity (refl, (refl, tt)) refl refl refl
