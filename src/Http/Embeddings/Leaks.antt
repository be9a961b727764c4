-- ===== src/Http/Embeddings/Leaks.antt =====
-- A slot that is never given back.
use control_deck.Prelude.{
  ℕ, ◌+◌, String, Bool, ◌≡◌, refl, ap, ◌∙◌, some, none, List, find, find-update, find_sound,
  IsPreorder,
}
use control_deck.Types.{Text, ModelConfig, RequestStatus}
use control_deck.Database.{RequestRow, Db}
use control_deck.Scheduler.Queue.{request_is, start_stream, mark_stream_started}
use control_deck.Scheduler.Queue.Clocks.{request_key}
use control_deck.Scheduler.Placement.Capacity.{IsWithinCapacity, total_in_flight}
use control_deck.Http.Wait.{served, wait_for_placement}
use control_deck.Http.Wait.Laws.{wait_for_placement-Ending}
use control_deck.Http.Chat.{Env, Reply, route_row, set_model}
use control_deck.Http.Chat.Admission.{HasNames, Ending-Admitted}
use control_deck.Http.Embeddings.{Embedded, EmbedCall, embed_on, placed_embed, queued_embed}

module _ (env : Env) (order : IsPreorder env.collate)
    (quiet : (n : ℕ) (db : Db) → env.world.others n db ≡ db) (call : EmbedCall) (inputs : List Text)
    (model : ModelConfig) where
  embed_on-threw :
      (db : Db) (e : Embedded)
      → e ≡ Embedded.threw
      → embed_on env call inputs model db e ≡ (db, Reply.broken)
  unfolding embed_on
  embed_on-threw db Embedded.threw h = refl
  embed_on-threw db Embedded.vectors h = cc

  -- An embeddings request that is placed, and for which the model server then throws, ends in an error
  -- that nothing handles: the slot stays in use for good, and the row of the request stays as
  -- streaming. `db` are the tables in which the request is queued.
  pub queued_embed-leaks :
      (db db' start : Db) (row : RequestRow) (replica_id url : String) (hit : Bool)
      → IsWithinCapacity db.replicas
      → HasNames db.replicas
      → find (request_is call.request_id) db.requests ≡ some row
      → call.answer ≡ Embedded.threw
      → wait_for_placement env.collate env.settings env.keda env.world model.backend_model_id
          call.request_id none
          (route_row db call.request_id model.id)
          call.arrived_at
        ≡ some (db', served replica_id url hit)
      → let (after, reply) = queued_embed env call inputs model start (some db) in
        (total_in_flight after.replicas ≡ total_in_flight db.replicas + 1)
        × (reply ≡ Reply.broken)
        × ((r : RequestRow) × (find (request_is call.request_id) after.requests ≡ some r)
            × (r.status ≡ RequestStatus.streaming)
            × (r.replica_id ≡ some replica_id))
  unfolding mark_stream_started
  queued_embed-leaks db db' start row replica_id url hit ok names found threw waited =
      let id = call.request_id in
      let routed = route_row db id model.id in
      let admitted =
        Ending-Admitted env order quiet model.backend_model_id id none
          (call.arrived_at + env.settings.queue_timeout_ms) routed ok names _
          (wait_for_placement-Ending env.collate env.settings env.keda env.world
            model.backend_model_id id none routed call.arrived_at)
          db' replica_id url hit waited in
      let marked = mark_stream_started db' id replica_id call.started_at in
      let ended : queued_embed env call inputs model start (some db) ≡ (marked, Reply.broken) =
        ap (placed_embed env call inputs model routed) waited
        ∙ embed_on-threw marked call.answer threw in
      let (named, _) = find_sound (request_is id) db.requests row found in
      let in_routed : find (request_is id) routed.requests ≡ some (set_model model.id row) =
        find-update request_key (request_is id) (set_model model.id) id db.requests (λ r. refl)
        ∙ rw (found, named) refl in
      let still : find (request_is id) db'.requests ≡ some (set_model model.id row) =
        ap (find (request_is id)) admitted.requests ∙ in_routed in
      rw ended (
        admitted.one_more,
        refl,
        (
          start_stream replica_id call.started_at (set_model model.id row),
          find-update request_key (request_is id) (start_stream replica_id call.started_at) id
                db'.requests (λ r. refl)
              ∙ rw (still, named) refl,
          refl,
          refl,
        ),
      )
