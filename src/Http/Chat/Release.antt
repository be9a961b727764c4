-- ===== src/Http/Chat/Release.antt =====
-- A turn gives back the slot that its request holds, however it ends.
use control_deck.Prelude.{
  String, Bool, true, false, ◌≡◌, refl, sym, subst, Option, some, List, if_both,
}
use control_deck.Types.{Text, StandardError, ModelConfig, CallerIdentity, ChatMessage}
use control_deck.Database.{ReplicaRow, Db}
use control_deck.Scheduler.Queue.{truthy, release_slot}
use control_deck.Http.Failure.{give_back, fail_request}
use control_deck.Http.Failure.Laws.{fail_request-replicas}
use control_deck.Http.Deadline.{Usage}
use control_deck.Http.Turn.{
  Turn, Outside, Statement, Progress, Stop, Frame, start, consume, prompt_text, audit_body,
}
use control_deck.Http.Turn.Serving.{
  Serving, consume-Serving, settle_turn-replicas, settle_turn-succeeds,
}
use control_deck.Http.Chat.{
  Env, Reply, serve, fail, stream_end, plain_end, close_stream, close_plain, success_frames,
  settle_with, usage_of, calls_json,
}
use control_deck.Http.Chat.Slots.{Holds, GivesBack, update-GivesBack}

-- The database refuses no statement of the handler.
abbrev pub NoRefusals : Outside → Type 0
NoRefusals out = (s : Statement) → out.refused s ≡ false

module _ (env : Env) (model : ModelConfig) (identity : CallerIdentity) (messages : List ChatMessage)
    (include_usage : Bool) (turn : Turn) (replica_id : String) where
  pub fail-calm :
      NoRefusals env.out
      → (db : Db) (err : StandardError)
      → fail env model identity messages include_usage turn replica_id db err
        ≡ (fail_request db turn.request_id err (some replica_id) turn.ended_at, true)
  fail-calm calm db err = rw (calm Statement.set_failed, calm Statement.decrement) refl

  pub close_plain-db :
      (p : Progress) (reason : Option Text) (u : Usage) (x : Db × Bool)
      → (close_plain env model identity messages include_usage turn replica_id p reason u x).0 ≡ x.0
  close_plain-db p reason u (db, true) = refl
  close_plain-db p reason u (db, false) = refl

  pub close_stream-db :
      (p : Progress) (frames : List Frame) (x : Db × Bool)
      → x.1 ≡ true
      → (close_stream env model identity messages include_usage turn replica_id p frames x).0 ≡ x.0
  close_stream-db p frames (db, true) e = refl
  close_stream-db p frames (db, false) e = cc

module _ (env : Env) (model : ModelConfig) (identity : CallerIdentity) (messages : List ChatMessage)
    (include_usage : Bool) (turn : Turn) (replica_id : String) (replicas : List ReplicaRow)
    (named : truthy (some replica_id) ≡ some replica_id) (calm : NoRefusals env.out) where
  pub settled-succeeds :
      (streams : Bool) (p : Progress) (u : Usage)
      → Serving turn.request_id replica_id replicas p.db
      → (settle_with env model identity messages include_usage turn replica_id streams p u).1 ≡ true
  settled-succeeds streams p u s =
      settle_turn-succeeds env.out env.settings model identity turn u
        (prompt_text env.out.stringify_parts messages)
        (audit_body p.reasoning p.text
          (calls_json env model identity messages include_usage turn replica_id streams p.deltas))
        replica_id replicas p.db named s (calm Statement.read_cost)
        (calm Statement.set_input_tokens) (calm Statement.complete) (calm Statement.read_logging)
        (calm Statement.keep_content)

module _ (env : Env) (model : ModelConfig) (identity : CallerIdentity) (messages : List ChatMessage)
    (include_usage : Bool) (turn : Turn) (replica_id : String) (replicas : List ReplicaRow)
    (named : truthy (some replica_id) ≡ some replica_id) (holds : Holds replica_id replicas) where
  fail-GivesBack :
      NoRefusals env.out
      → (db : Db) (err : StandardError) → Serving turn.request_id replica_id replicas db
      → GivesBack replicas
          (fail env model identity messages include_usage turn replica_id db err).0.replicas
  fail-GivesBack calm db err s =
      rw (fail-calm env model identity messages include_usage turn replica_id calm db err) (
        rw (fail_request-replicas db turn.request_id err turn.ended_at replica_id named) (
          rw s.same (
            update-GivesBack replica_id give_back replicas (λ r. refl) (λ r. refl) (λ r. refl)
              holds)))

  module _ (calm : NoRefusals env.out) where
    settled-GivesBack :
        (streams : Bool) (p : Progress) (u : Usage)
        → Serving turn.request_id replica_id replicas p.db
        → GivesBack replicas
            (settle_with env model identity messages include_usage turn replica_id streams p
              u).0.replicas
    unfolding release_slot
    settled-GivesBack streams p u s =
        let (duration, e) =
          settle_turn-replicas env.out env.settings model identity turn u
            (prompt_text env.out.stringify_parts messages)
            (audit_body p.reasoning p.text (
              calls_json env model identity messages include_usage turn replica_id streams
                p.deltas))
            replica_id replicas p.db named s (calm Statement.read_cost)
            (calm Statement.set_input_tokens) (calm Statement.complete) in
        rw e (
          update-GivesBack replica_id
            (release_slot env.settings.ewma_alpha u.completion_tokens duration turn.ended_at)
            replicas (λ r. refl) (λ r. refl) (λ r. refl) holds)

    plain_end-GivesBack :
        (p : Progress) (stop : Stop)
        → Serving turn.request_id replica_id replicas p.db
        → GivesBack replicas
            (plain_end env model identity messages include_usage turn replica_id p stop).0.replicas
    plain_end-GivesBack p (Stop.failed err) s = fail-GivesBack calm p.db err s
    plain_end-GivesBack p (Stop.finished reason usage) s =
        let u =
          usage_of env model identity messages include_usage turn replica_id p
            (Stop.finished reason usage) in
        subst (λ (d : Db). GivesBack replicas d.replicas)
          (sym (
            close_plain-db env model identity messages include_usage turn replica_id p reason u
              (settle_with env model identity messages include_usage turn replica_id false p u)))
          (settled-GivesBack false p u s)

    stream_end-GivesBack :
        (p : Progress) (stop : Stop)
        → Serving turn.request_id replica_id replicas p.db
        → GivesBack replicas
            (stream_end env model identity messages include_usage turn replica_id p stop).0.replicas
    stream_end-GivesBack p (Stop.failed err) s = fail-GivesBack calm p.db err s
    stream_end-GivesBack p (Stop.finished reason usage) s =
        let u =
          usage_of env model identity messages include_usage turn replica_id p
            (Stop.finished reason usage) in
        subst (λ (d : Db). GivesBack replicas d.replicas)
          (sym (
            close_stream-db env model identity messages include_usage turn replica_id p
              (success_frames env model identity messages include_usage turn replica_id p reason u)
              (settle_with env model identity messages include_usage turn replica_id true p u)
              (settled-succeeds env model identity messages include_usage turn replica_id replicas
                named calm true p u s)))
          (settled-GivesBack true p u s)

    -- However the turn ends, it gives back the slot.
    pub serve-GivesBack :
        (streams : Bool) (db : Db)
        → Serving turn.request_id replica_id replicas db
        → GivesBack replicas
            (serve env model identity messages include_usage turn replica_id streams db).0.replicas
    unfolding serve
    serve-GivesBack streams db s =
        let first = start env.settings model db turn.started_at in
        let (p, stop) = consume env.settings model turn turn.chunks first in
        let s' =
          consume-Serving turn.request_id replica_id replicas env.settings model turn turn.chunks
            first s in
        if_both (λ (x : Db × Reply). GivesBack replicas x.0.replicas) streams _ _
          (stream_end-GivesBack p stop s') (plain_end-GivesBack p stop s')
