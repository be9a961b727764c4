-- ===== src/Http/Chat/Balance.antt =====
-- A chat request gives back the slot that it takes, however its turn ends.
use control_deck.Prelude.{
  ℕ, ◌+◌, suc, String, Bool, ◌≡◌, refl, ap, ◌∙◌, ◌==◌, Option, none, some, List, ◌∷◌, find, any,
  if_both, find-update, find_sound, IsPreorder, Bool-cases, inl, inr, eq_refl, arith,
}
use control_deck.Types.{ModelConfig}
use control_deck.Database.{RequestRow, Db}
use control_deck.Routing.Capabilities.{Endpoint}
use control_deck.Routing.Select.{SelectModelResult, select_model}
use control_deck.Registry.{list_models}
use control_deck.Scheduler.Affinity.{affinity_key_for}
use control_deck.Scheduler.Queue.{
  request_is, start_stream, mark_stream_started, enqueue_request, expire_queued_request, queued_row,
}
use control_deck.Scheduler.Queue.Clocks.{request_key}
use control_deck.Scheduler.Placement.Capacity.{IsWithinCapacity, total_in_flight}
use control_deck.Http.Wait.{Waited, wait_for_placement}
use control_deck.Http.Wait.Laws.{Ending, in_time, too_late, wait_for_placement-Ending}
use control_deck.Http.Turn.{Statement}
use control_deck.Http.Turn.Serving.{Serving, Serving-update}
use control_deck.Http.Chat.{
  Env, Reply, Call, set_hit, mark_placed, placed_chat, routed_chat, chat_with, selected_chat,
  chat_completions, enqueue_input, route_row, set_model,
}
use control_deck.Http.Chat.Release.{NoRefusals, serve-GivesBack}
use control_deck.Http.Chat.Admission.{HasNames, before_quiet, Ending-Admitted}

-- As many slots in use as before, and no replica over its ceiling.
pub record IsBalanced (db db' : Db) : Type 0 where
  pub total : total_in_flight db'.replicas ≡ total_in_flight db.replicas
  pub ok : IsWithinCapacity db'.replicas

IsBalanced-same :
    (db db' : Db) → db'.replicas ≡ db.replicas → IsWithinCapacity db.replicas → IsBalanced db db'
IsBalanced-same db db' e ok = record { total = ap total_in_flight e; ok = rw e ok }

-- A request whose row is in the table, once it is marked as running on the replica.
pub marked-Serving :
    (env : Env) (call : Call) (model : ModelConfig) (db : Db) (replica_id : String) (hit : Bool)
    (row : RequestRow)
    → find (request_is call.turn.request_id) db.requests ≡ some row
    → Serving call.turn.request_id replica_id db.replicas
        (mark_placed env call model db replica_id hit)
unfolding mark_stream_started
marked-Serving env call model db replica_id hit row found =
    let id = call.turn.request_id in
    let (named, _) = find_sound (request_is id) db.requests row found in
    let marked : Serving id replica_id db.replicas
        (mark_stream_started db id replica_id call.turn.started_at) =
      record {
        same = refl;
        row = start_stream replica_id call.turn.started_at row;
        found =
            find-update request_key (request_is id) (start_stream replica_id call.turn.started_at)
              id db.requests (λ r. refl)
            ∙ rw (found, named) refl;
        on = refl;
      } in
    Serving-update id replica_id db.replicas (request_is id) (set_hit hit) (λ r. refl) (λ r. refl)
      (mark_stream_started db id replica_id call.turn.started_at) marked

module _ (env : Env) (order : IsPreorder env.collate)
    (quiet : (n : ℕ) (db : Db) → env.world.others n db ≡ db) (calm : NoRefusals env.out) where
  module _ (call : Call) (model : ModelConfig) where
    waited-IsBalanced :
        (deadline : ℕ) (key : Option String) (db : Db) (row : RequestRow)
        → find (request_is call.turn.request_id) db.requests ≡ some row
        → IsWithinCapacity db.replicas
        → HasNames db.replicas
        → (w : Option (Db × Waited))
        → Ending env.collate env.settings env.keda env.world model.backend_model_id
            call.turn.request_id key deadline db w
        → IsBalanced db (placed_chat env call model db w).0
    unfolding expire_queued_request
    waited-IsBalanced deadline key db row found ok names _ (too_late n t late) =
        let same =
          before_quiet env order quiet model.backend_model_id call.turn.request_id key (suc n) db in
        IsBalanced-same db _ (ap (λ (d : Db). d.replicas) same) ok
    waited-IsBalanced deadline key db row found ok names _ (in_time n t db' replica hit early e) =
        let admitted =
          Ending-Admitted env order quiet model.backend_model_id call.turn.request_id key deadline
            db ok names _ (in_time n t db' replica hit early e) db' replica.id replica.endpoint_url
            hit refl in
        let found' : find (request_is call.turn.request_id) db'.requests ≡ some row =
          ap (find (request_is call.turn.request_id)) admitted.requests ∙ found in
        let given =
          serve-GivesBack env model call.identity call.body.messages call.include_usage call.turn
            replica.id db'.replicas admitted.named admitted.holds calm call.body.stream
            (mark_placed env call model db' replica.id hit)
            (marked-Serving env call model db' replica.id hit row found') in
        rw (calm Statement.mark_started, calm Statement.note_hit)
          (record { total = omega (arith, given.one_less, admitted.one_more); ok = given.ok })

    queued-IsBalanced :
        (db : Db)
        → IsWithinCapacity db.replicas
        → HasNames db.replicas
        → IsBalanced db (routed_chat env call model db).0
    unfolding enqueue_request
    queued-IsBalanced db ok names =
        let id = call.turn.request_id in
        let input = enqueue_input id call.identity call.body.model model.capabilities in
        if_both (λ (x : Db × Reply). IsBalanced db x.0) call.dry_run _ _
          (IsBalanced-same db db refl ok)
          (elim (Bool-cases (any (request_is id) db.requests)) [
            | inl taken ↦ rw taken (IsBalanced-same db db refl ok)
            | inr fresh ↦ rw fresh (
                let db1 = record db { requests = queued_row input call.arrived_at ∷ db.requests } in
                let db2 = route_row db1 id model.id in
                let key =
                  affinity_key_for env.digest call.identity model.backend_model_id
                    call.body.messages in
                let w =
                  wait_for_placement env.collate env.settings env.keda env.world
                    model.backend_model_id id key db2 call.arrived_at in
                let ended =
                  wait_for_placement-Ending env.collate env.settings env.keda env.world
                    model.backend_model_id id key db2 call.arrived_at in
                let balanced =
                  waited-IsBalanced (call.arrived_at + env.settings.queue_timeout_ms) key db2
                    (set_model model.id (queued_row input call.arrived_at))
                    (rw (eq_refl id, eq_refl id) refl) ok names w ended in
                rw (calm Statement.enqueue, calm Statement.route_model)
                  (record { total = balanced.total; ok = balanced.ok }))
          ])

  found-IsBalanced :
      (call : Call) (db : Db)
      → IsWithinCapacity db.replicas
      → HasNames db.replicas
      → (m : Option ModelConfig) → IsBalanced db (chat_with env call db m).0
  found-IsBalanced call db ok names none = IsBalanced-same db db refl ok
  found-IsBalanced call db ok names (some model) = queued-IsBalanced call model db ok names

  selected-IsBalanced :
      (call : Call) (db : Db)
      → IsWithinCapacity db.replicas
      → HasNames db.replicas
      → (candidates : List ModelConfig) (s : SelectModelResult)
      → IsBalanced db (selected_chat env call db candidates s).0
  selected-IsBalanced call db ok names candidates (SelectModelResult.ok id reason) =
      found-IsBalanced call db ok names (find (λ (m : ModelConfig). m.id == id) candidates)
  selected-IsBalanced call db ok names candidates (SelectModelResult.model_not_found id) =
      IsBalanced-same db db refl ok
  selected-IsBalanced call db ok names candidates (SelectModelResult.lacks id caps) =
      IsBalanced-same db db refl ok
  selected-IsBalanced call db ok names candidates (SelectModelResult.none_eligible caps) =
      IsBalanced-same db db refl ok

  -- A chat request leaves as many slots in use as it found, and no replica over its ceiling, whether it
  -- is refused, times out, fails or completes, and whether it streams or not. The database
  -- refuses no statement of it, and what other processes do in the meantime is left out. The replicas have
  -- distinct ids, none of them empty, and start within their ceilings.
  pub chat_completions-IsBalanced :
      (call : Call) (db : Db)
      → IsWithinCapacity db.replicas
      → HasNames db.replicas
      → IsBalanced db (chat_completions env call db).0
  unfolding chat_completions
  chat_completions-IsBalanced call db ok names =
      if_both (λ (x : Db × Reply). IsBalanced db x.0) _ _ _ (IsBalanced-same db db refl ok)
        (selected-IsBalanced call db ok names (list_models env.collate db)
          (select_model call.body (list_models env.collate db) Endpoint.chat))
