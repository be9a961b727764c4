-- ===== src/Http/Chat/Outcome.antt =====
-- The row of a chat request when its handler has ended.
use control_deck.Prelude.{
  ℕ, String, Bool, true, false, not, ◌||◌, ◌≡◌, refl, sym, ap, subst, ◌∙◌, if_both, some, List, any,
  find, find-update, find_sound, Bool-cases, inl, inr, arith,
}
use control_deck.Types.{
  Text, ErrorCode, RequestStatus, StandardError, ModelConfig, CallerIdentity, ChatMessage,
  is_queued, is_streaming,
}
use control_deck.Database.{RequestRow, ReplicaRow, Db}
use control_deck.Scheduler.Queue.{request_is, truthy, complete_row}
use control_deck.Scheduler.Queue.Clocks.{request_key}
use control_deck.Scheduler.Queue.Completion.{completed_row}
use control_deck.Audit.History.{record_audit_content}
use control_deck.Http.Failure.{fail_row, status_for_code}
use control_deck.Http.Failure.Laws.{fail_request-requests}
use control_deck.Http.Deadline.{Usage}
use control_deck.Http.Turn.{
  Turn, Outside, Statement, Progress, Stop, start, consume, settle_turn, keep_turn, kept_or_not,
  count_input, set_input,
}
use control_deck.Http.Turn.Serving.{Serving, Serving-update, consume-Serving}
use control_deck.Http.Chat.{
  Env, Reply, serve, fail, stream_end, plain_end, success_frames, settle_with, usage_of,
}
use control_deck.Http.Chat.Release.{
  NoRefusals, fail-calm, close_plain-db, close_stream-db, settled-succeeds,
}

-- Neither waiting nor running.
abbrev pub is_over : RequestStatus → Bool
is_over status = not (is_queued status || is_streaming status)

-- The row of the request is in the table, and over.
pub record IsOver (id : String) (rows : List RequestRow) : Type 0 where
  pub row : RequestRow
  pub found : find (request_is id) rows ≡ some row
  pub over : is_over row.status ≡ true

status_for_code-over : (code : ErrorCode) → is_over (status_for_code code) ≡ true
status_for_code-over code = ground arith

kept_or_not-requests :
    (db : Db) (id : String) (prompt response : Text) (now : ℕ)
    → (kept_or_not db (record_audit_content db id prompt response now)).0.requests ≡ db.requests
unfolding record_audit_content
kept_or_not-requests db id prompt response now =
    elim (Bool-cases (any (request_is id) db.requests)) [ inl e ↦ rw e refl | inr e ↦ rw e refl ]

keep_turn-requests :
    (out : Outside) (model : ModelConfig) (identity : CallerIdentity) (turn : Turn)
    (prompt response : Text) (db : Db)
    → (keep_turn out model identity turn prompt response db).0.requests ≡ db.requests
unfolding keep_turn
keep_turn-requests out model identity turn prompt response db =
    let same : Db × Bool → Type 0 = λ x. x.0.requests ≡ db.requests in
    if_both same (out.refused Statement.read_logging) _ _ refl (
      if_both same _ _ _ refl (
        if_both same (out.refused Statement.keep_content) _ _ refl
          (kept_or_not-requests db turn.request_id prompt response turn.ended_at)))

module _ (env : Env) (model : ModelConfig) (identity : CallerIdentity) (messages : List ChatMessage)
    (include_usage : Bool) (turn : Turn) (replica_id : String) (replicas : List ReplicaRow)
    (named : truthy (some replica_id) ≡ some replica_id) where
  fail-IsOver :
      NoRefusals env.out
      → (db : Db) (err : StandardError) → Serving turn.request_id replica_id replicas db
      → IsOver turn.request_id
          (fail env model identity messages include_usage turn replica_id db err).0.requests
  fail-IsOver calm db err s =
      let (here, _) = find_sound (request_is turn.request_id) db.requests s.row s.found in
      record {
        row = fail_row err turn.ended_at s.row;
        found =
            ap (λ (x : Db × Bool). find (request_is turn.request_id) x.0.requests)
              (fail-calm env model identity messages include_usage turn replica_id calm db err)
            ∙ ap (find (request_is turn.request_id))
                (fail_request-requests db turn.request_id err turn.ended_at replica_id named)
            ∙ find-update request_key (request_is turn.request_id) (fail_row err turn.ended_at)
                turn.request_id db.requests (λ r. refl)
            ∙ rw (s.found, here) refl;
        over = status_for_code-over err.code;
      }

  module _ (calm : NoRefusals env.out) where
    settled-IsOver :
        (streams : Bool) (p : Progress) (u : Usage)
        → Serving turn.request_id replica_id replicas p.db
        → IsOver turn.request_id
            (settle_with env model identity messages include_usage turn replica_id streams p
              u).0.requests
    unfolding settle_turn
    settled-IsOver streams p u s =
        let counted =
          Serving-update turn.request_id replica_id replicas (request_is turn.request_id)
            (set_input u.prompt_tokens) (λ r. refl) (λ r. refl) p.db s in
        rw (calm Statement.read_cost) rw (calm Statement.set_input_tokens) rw
          (calm Statement.complete)
          (record {
            row = complete_row u.completion_tokens _ turn.ended_at counted.row;
            found =
                ap (find (request_is turn.request_id))
                  (keep_turn-requests env.out model identity turn _ _ _)
                ∙ completed_row env.settings.ewma_alpha (count_input p.db turn u) turn.request_id
                    u.completion_tokens _ turn.ended_at counted.row counted.found;
            over = refl;
          })

    plain_end-IsOver :
        (p : Progress) (stop : Stop)
        → Serving turn.request_id replica_id replicas p.db
        → IsOver turn.request_id
            (plain_end env model identity messages include_usage turn replica_id p stop).0.requests
    plain_end-IsOver p (Stop.failed err) s = fail-IsOver calm p.db err s
    plain_end-IsOver p (Stop.finished reason usage) s =
        let u =
          usage_of env model identity messages include_usage turn replica_id p
            (Stop.finished reason usage) in
        subst (λ (d : Db). IsOver turn.request_id d.requests)
          (sym (
            close_plain-db env model identity messages include_usage turn replica_id p reason u
              (settle_with env model identity messages include_usage turn replica_id false p u)))
          (settled-IsOver false p u s)

    stream_end-IsOver :
        (p : Progress) (stop : Stop)
        → Serving turn.request_id replica_id replicas p.db
        → IsOver turn.request_id
            (stream_end env model identity messages include_usage turn replica_id p stop).0.requests
    stream_end-IsOver p (Stop.failed err) s = fail-IsOver calm p.db err s
    stream_end-IsOver p (Stop.finished reason usage) s =
        let u =
          usage_of env model identity messages include_usage turn replica_id p
            (Stop.finished reason usage) in
        subst (λ (d : Db). IsOver turn.request_id d.requests)
          (sym (
            close_stream-db env model identity messages include_usage turn replica_id p
              (success_frames env model identity messages include_usage turn replica_id p reason u)
              (settle_with env model identity messages include_usage turn replica_id true p u)
              (settled-succeeds env model identity messages include_usage turn replica_id replicas
                named calm true p u s)))
          (settled-IsOver true p u s)

    pub serve-IsOver :
        (streams : Bool) (db : Db)
        → Serving turn.request_id replica_id replicas db
        → IsOver turn.request_id
            (serve env model identity messages include_usage turn replica_id streams db).0.requests
    unfolding serve
    serve-IsOver streams db s =
        let first = start env.settings model db turn.started_at in
        let (p, stop) = consume env.settings model turn turn.chunks first in
        let s' =
          consume-Serving turn.request_id replica_id replicas env.settings model turn turn.chunks
            first s in
        if_both (λ (x : Db × Reply). IsOver turn.request_id x.0.requests) streams _ _
          (stream_end-IsOver p stop s') (plain_end-IsOver p stop s')
