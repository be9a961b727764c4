-- ===== src/Http/Chat/Endings.antt =====
-- A whole chat request, from no row in the table to a row that is over.
use control_deck.Prelude.{
  ℕ, suc, ◌+◌, String, ◌==◌, ◌≡◌, refl, sym, ap, subst, ◌∙◌, if_both, Option, none, some, List, ◌∷◌,
  any, find, find-update, find_sound, update, Bool-cases, inl, inr, eq_refl, IsPreorder,
}
use control_deck.Types.{RequestStatus, ModelConfig}
use control_deck.Routing.Capabilities.{Endpoint}
use control_deck.Routing.Select.{SelectModelResult, select_model}
use control_deck.Registry.{list_models}
use control_deck.Database.{RequestRow, Db}
use control_deck.Scheduler.Affinity.{affinity_key_for}
use control_deck.Scheduler.Queue.{
  request_is, queued_row, enqueue_request, expire_queued_request, still_queued, queue_timed_out,
}
use control_deck.Scheduler.Queue.Clocks.{request_key}
use control_deck.Scheduler.Placement.Capacity.{IsWithinCapacity}
use control_deck.Http.Wait.{Waited, wait_for_placement}
use control_deck.Http.Wait.Laws.{Ending, in_time, too_late, wait_for_placement-Ending}
use control_deck.Http.Turn.{Statement}
use control_deck.Http.Chat.{
  Env, Reply, Call, mark_placed, placed_chat, routed_chat, chat_with, selected_chat,
  chat_completions, enqueue_input, route_row, set_model,
}
use control_deck.Http.Chat.Release.{NoRefusals}
use control_deck.Http.Chat.Admission.{HasNames, before_quiet, Ending-Admitted}
use control_deck.Http.Chat.Balance.{marked-Serving}
use control_deck.Http.Chat.Outcome.{IsOver, serve-IsOver}

-- The request is not in the table, or its row is over.
pub data NeverOpen (id : String) (rows : List RequestRow) : Type 0 where
  absent : find (request_is id) rows ≡ none → NeverOpen id rows
  ended : IsOver id rows → NeverOpen id rows

-- A wait that runs out ends the request that was queued.
expired-IsOver :
    (id : String) (rows : List RequestRow) (row : RequestRow) (now : ℕ)
    → find (request_is id) rows ≡ some row
    → row.status ≡ RequestStatus.queued
    → IsOver id (update (still_queued id) (queue_timed_out now) rows)
expired-IsOver id rows row now found queued =
    let (here, _) = find_sound (request_is id) rows row found in
    record {
      row = queue_timed_out now row;
      found =
          find-update request_key (still_queued id) (queue_timed_out now) id rows (λ r. refl)
          ∙ rw (found, here, queued) refl;
      over = refl;
    }

module _ (env : Env) (order : IsPreorder env.collate)
    (quiet : (n : ℕ) (db : Db) → env.world.others n db ≡ db) (calm : NoRefusals env.out) where
  module _ (call : Call) (model : ModelConfig) where
    waited-IsOver :
        (deadline : ℕ) (key : Option String) (db : Db) (row : RequestRow)
        → find (request_is call.turn.request_id) db.requests ≡ some row
        → row.status ≡ RequestStatus.queued
        → IsWithinCapacity db.replicas
        → HasNames db.replicas
        → (w : Option (Db × Waited))
        → Ending env.collate env.settings env.keda env.world model.backend_model_id
            call.turn.request_id key deadline db w
        → IsOver call.turn.request_id (placed_chat env call model db w).0.requests
    unfolding expire_queued_request
    waited-IsOver deadline key db row found queued ok names _ (too_late n t late) =
        let same =
          before_quiet env order quiet model.backend_model_id call.turn.request_id key (suc n) db in
        subst
          (λ (d : Db).
            IsOver call.turn.request_id
              (update (still_queued call.turn.request_id) (queue_timed_out t) d.requests))
          (sym same) (expired-IsOver call.turn.request_id db.requests row t found queued)
    waited-IsOver deadline key db row found queued ok names _
          (in_time n t db' replica hit early e) =
        let admitted =
          Ending-Admitted env order quiet model.backend_model_id call.turn.request_id key deadline
            db ok names _ (in_time n t db' replica hit early e) db' replica.id replica.endpoint_url
            hit refl in
        let found' : find (request_is call.turn.request_id) db'.requests ≡ some row =
          ap (find (request_is call.turn.request_id)) admitted.requests ∙ found in
        rw (calm Statement.mark_started, calm Statement.note_hit)
          (serve-IsOver env model call.identity call.body.messages call.include_usage call.turn
            replica.id db'.replicas admitted.named calm call.body.stream
            (mark_placed env call model db' replica.id hit)
            (marked-Serving env call model db' replica.id hit row found'))

    routed-NeverOpen :
        (db : Db)
        → IsWithinCapacity db.replicas
        → HasNames db.replicas
        → find (request_is call.turn.request_id) db.requests ≡ none
        → NeverOpen call.turn.request_id (routed_chat env call model db).0.requests
    unfolding enqueue_request
    routed-NeverOpen db ok names missing =
        let id = call.turn.request_id in
        let input = enqueue_input id call.identity call.body.model model.capabilities in
        if_both (λ (x : Db × Reply). NeverOpen id x.0.requests) call.dry_run _ _
          (NeverOpen.absent missing)
          (elim (Bool-cases (any (request_is id) db.requests)) [
            | inl taken ↦ rw taken (NeverOpen.absent missing)
            | inr fresh ↦ rw fresh (
                let db1 = record db { requests = queued_row input call.arrived_at ∷ db.requests } in
                let db2 = route_row db1 id model.id in
                let key =
                  affinity_key_for env.digest call.identity model.backend_model_id
                    call.body.messages in
                rw (calm Statement.enqueue, calm Statement.route_model)
                  (NeverOpen.ended (
                    waited-IsOver (call.arrived_at + env.settings.queue_timeout_ms) key db2
                      (set_model model.id (queued_row input call.arrived_at))
                      (rw (eq_refl id, eq_refl id) refl) refl ok names
                      (wait_for_placement env.collate env.settings env.keda env.world
                        model.backend_model_id id key db2 call.arrived_at)
                      (wait_for_placement-Ending env.collate env.settings env.keda env.world
                        model.backend_model_id id key db2 call.arrived_at))))
          ])

  module _ (call : Call) (db : Db) (ok : IsWithinCapacity db.replicas)
      (names : HasNames db.replicas)
      (missing : find (request_is call.turn.request_id) db.requests ≡ none) where
    found-NeverOpen :
        (m : Option ModelConfig)
        → NeverOpen call.turn.request_id (chat_with env call db m).0.requests
    found-NeverOpen none = NeverOpen.absent missing
    found-NeverOpen (some model) = routed-NeverOpen call model db ok names missing

    selected-NeverOpen :
        (candidates : List ModelConfig) (s : SelectModelResult)
        → NeverOpen call.turn.request_id (selected_chat env call db candidates s).0.requests
    selected-NeverOpen candidates (SelectModelResult.ok id reason) =
        found-NeverOpen (find (λ (m : ModelConfig). m.id == id) candidates)
    selected-NeverOpen candidates (SelectModelResult.model_not_found id) = NeverOpen.absent missing
    selected-NeverOpen candidates (SelectModelResult.lacks id caps) = NeverOpen.absent missing
    selected-NeverOpen candidates (SelectModelResult.none_eligible caps) = NeverOpen.absent missing

    -- When the handler of a chat request has ended, the row of its request, if there is one, is neither
    -- queued nor streaming: it is completed, failed or timed out. The database refuses no statement of it,
    -- what other processes do in the meantime is left out, and the id of the request is new.
    -- The replicas have distinct ids, none of them empty, and start within their ceilings.
    pub chat_completions-NeverOpen :
        NeverOpen call.turn.request_id (chat_completions env call db).0.requests
    unfolding chat_completions
    chat_completions-NeverOpen =
        if_both (λ (x : Db × Reply). NeverOpen call.turn.request_id x.0.requests) _ _ _
          (NeverOpen.absent missing)
          (selected-NeverOpen (list_models env.collate db)
            (select_model call.body (list_models env.collate db) Endpoint.chat))
