-- ===== src/Http/Chat/Leaks.antt =====
-- A slot that is given back twice.
use control_deck.Prelude.{
  ◌+◌, ◌<◌, String, Bool, true, false, ◌≡◌, refl, ap, ◌∙◌, some, Option, List, update, arith,
}
use control_deck.Types.{Text, ModelConfig, CallerIdentity, ChatMessage}
use control_deck.Database.{ReplicaRow, Db}
use control_deck.Scheduler.Queue.{replica_is, truthy, release_slot}
use control_deck.Scheduler.Placement.Capacity.{total_in_flight}
use control_deck.Http.Failure.{give_back}
use control_deck.Http.Failure.Laws.{fail_request-replicas}
use control_deck.Http.Deadline.{pass_time, UpstreamUsage}
use control_deck.Http.Turn.{
  Turn, Statement, error_of, Progress, Stop, Frame, start, consume, prompt_text, audit_body,
}
use control_deck.Http.Turn.Serving.{
  Serving, consume-Serving, settle_turn-replicas, settle_turn-fails,
}
use control_deck.Http.Chat.{
  Env, serve, close_stream, stream_end, success_frames, settle_with, usage_of, calls_json,
}
use control_deck.Http.Chat.Slots.{Holds, update-GivesBack, update-Holds}

module _ (env : Env) (model : ModelConfig) (identity : CallerIdentity) (messages : List ChatMessage)
    (include_usage : Bool) (turn : Turn) (replica_id : String) (replicas : List ReplicaRow)
    (named : truthy (some replica_id) ≡ some replica_id) (holds : Holds replica_id replicas)
    (busy : 1 < holds.row.in_flight) (read : env.out.refused Statement.read_cost ≡ false)
    (input : env.out.refused Statement.set_input_tokens ≡ false)
    (done : env.out.refused Statement.complete ≡ false)
    (logging : env.out.refused Statement.read_logging ≡ true)
    (marks : env.out.refused Statement.set_failed ≡ false)
    (returns : env.out.refused Statement.decrement ≡ false) where
  close_stream-failed :
      (p : Progress) (frames : List Frame) (x : Db × Bool)
      → x.1 ≡ false
      → (close_stream env model identity messages include_usage turn replica_id p frames
          x).0.replicas
        ≡ update (replica_is replica_id) give_back x.0.replicas
  close_stream-failed p frames (db, true) e = cc
  close_stream-failed p frames (db, false) e =
      rw (marks, returns)
        (fail_request-replicas db turn.request_id
          (error_of env.settings model (pass_time turn.ended_at p.deadline) env.out.refusal)
          turn.ended_at replica_id named)

  stream_end_twice :
      (p : Progress) (stop : Stop) (reason : Option Text) (usage : Option UpstreamUsage)
      → stop ≡ Stop.finished reason usage
      → Serving turn.request_id replica_id replicas p.db
      → total_in_flight
            (stream_end env model identity messages include_usage turn replica_id p stop).0.replicas
          + 2
        ≡ total_in_flight replicas
  unfolding release_slot
  stream_end_twice p (Stop.failed err) reason usage e s = cc
  stream_end_twice p (Stop.finished reason' usage') reason usage e s =
      let u =
        usage_of env model identity messages include_usage turn replica_id p
          (Stop.finished reason' usage') in
      let prompt = prompt_text env.out.stringify_parts messages in
      let body =
        audit_body p.reasoning p.text
          (calls_json env model identity messages include_usage turn replica_id true p.deltas) in
      let settled =
        settle_with env model identity messages include_usage turn replica_id true p u in
      let (duration, once) =
        settle_turn-replicas env.out env.settings model identity turn u prompt body replica_id
          replicas p.db named s read input done in
      let release =
        release_slot env.settings.ewma_alpha u.completion_tokens duration turn.ended_at in
      let twice =
        close_stream-failed p
          (success_frames env model identity messages include_usage turn replica_id p reason' u)
          settled
          (settle_turn-fails env.out env.settings model identity turn u prompt body replica_id
            replicas p.db named s read input done logging)
        ∙ ap (update (replica_is replica_id) give_back) once in
      let first =
        update-GivesBack replica_id release replicas (λ r. refl) (λ r. refl) (λ r. refl) holds in
      let still =
        update-Holds replica_id release replicas (λ r. refl) (λ r. refl) (λ r. refl) holds busy in
      let second =
        update-GivesBack replica_id give_back (update (replica_is replica_id) release replicas)
          (λ r. refl) (λ r. refl) (λ r. refl) still in
      rw twice (omega (arith, first.one_less, second.one_less))

  -- A stream that ends well, while another request is on the same replica, gives back two slots for the
  -- one that it holds if the database refuses to read the logging switches after the completion, and
  -- refuses no statement of the completion and of failRequest: the completion gives the slot back, and
  -- so does the handler of errors.
  pub serve-releases_twice :
      (db : Db) (reason : Option Text) (usage : Option UpstreamUsage)
      → Serving turn.request_id replica_id replicas db
      → (consume env.settings model turn turn.chunks
          (start env.settings model db turn.started_at)).1
        ≡ Stop.finished reason usage
      → total_in_flight
            (serve env model identity messages include_usage turn replica_id true db).0.replicas
          + 2
        ≡ total_in_flight replicas
  unfolding serve
  serve-releases_twice db reason usage s ended =
      let first = start env.settings model db turn.started_at in
      let out = consume env.settings model turn turn.chunks first in
      stream_end_twice out.0 out.1 reason usage ended (
        consume-Serving turn.request_id replica_id replicas env.settings model turn turn.chunks
          first s)
