-- ===== src/Http/Turn/Serving.antt =====
-- While a turn runs, its request stays on its replica and no slot changes hands.
use control_deck.Prelude.{
  ℕ, String, Bool, true, false, ◌≡◌, refl, ap, ◌∙◌, some, List, [], ◌∷◌, find, update, any,
  find-update, find_sound, any_of_mem, if_both, Bool-cases, inl, inr,
}
use control_deck.Prelude.Fraction.{Fraction}
use control_deck.Types.{Text, ModelConfig, CallerIdentity}
use control_deck.Database.{RequestRow, ReplicaRow, Db}
use control_deck.Scheduler.Settings.{Settings}
use control_deck.Scheduler.Queue.{
  request_is, replica_is, truthy, release_slot, complete_request, emit_token, record_token_emitted,
  elapsed,
}
use control_deck.Scheduler.Queue.Clocks.{request_key}
use control_deck.Scheduler.Queue.Completion.{complete_request-replicas, completed_row}
use control_deck.Audit.History.{record_audit_content}
use control_deck.Http.Deadline.{Usage, pass_time}
use control_deck.Http.Turn.{
  Turn, Chunk, Outside, Statement, Progress, Stop, append, take_chunk, consume, settle_turn,
  set_input, keep_turn, kept_or_not, count_input,
}

-- The request `id` is marked as running on the replica, and the table of replicas is `replicas`.
pub record Serving (id replica_id : String) (replicas : List ReplicaRow) (db : Db) : Type 0 where
  pub same : db.replicas ≡ replicas
  pub row : RequestRow
  pub found : find (request_is id) db.requests ≡ some row
  pub on : row.replica_id ≡ some replica_id

kept_or_not-replicas :
    (db : Db) (id : String) (prompt response : Text) (now : ℕ)
    → (kept_or_not db (record_audit_content db id prompt response now)).0.replicas ≡ db.replicas
unfolding record_audit_content
kept_or_not-replicas db id prompt response now =
    elim (Bool-cases (any (request_is id) db.requests)) [ inl e ↦ rw e refl | inr e ↦ rw e refl ]

-- Keeping the content of a request that is in the table succeeds.
kept_or_not-done :
    (db : Db) (id : String) (prompt response : Text) (now : ℕ)
    → any (request_is id) db.requests ≡ true
    → (kept_or_not db (record_audit_content db id prompt response now)).1 ≡ true
unfolding record_audit_content
kept_or_not-done db id prompt response now e = rw e refl

module _ (id replica_id : String) (replicas : List ReplicaRow) where
  -- Any change to rows of requests that leaves their ids and replicas alone.
  pub Serving-update :
      (p : RequestRow → Bool) (f : RequestRow → RequestRow)
      → ((r : RequestRow) → (f r).id ≡ r.id)
      → ((r : RequestRow) → (f r).replica_id ≡ r.replica_id)
      → (db : Db) → Serving id replica_id replicas db
      → Serving id replica_id replicas (record db { requests = update p f db.requests })
  Serving-update p f keeps stays db s =
      let seen = find-update request_key p f id db.requests keeps in
      elim (Bool-cases (p s.row)) [
        | inl e ↦ record {
          same = s.same;
          row = f s.row;
          found = seen ∙ rw (s.found, e) refl;
          on = stays s.row ∙ s.on;
        }
        | inr e ↦ record {
          same = s.same;
          row = s.row;
          found = seen ∙ rw (s.found, e) refl;
          on = s.on;
        }
      ]

  append-db : (c : Chunk) (p : Progress) → (append c p).db ≡ p.db
  append-db (Chunk.tool_calls ds) p = refl
  append-db (Chunk.reasoning t) p = refl
  append-db (Chunk.content t) p = refl

  pub consume-Serving :
      (settings : Settings) (model : ModelConfig) (turn : Turn) (chunks : List (ℕ × Chunk))
      (p : Progress)
      → Serving id replica_id replicas p.db
      → Serving id replica_id replicas (consume settings model turn chunks p).0.db
  unfolding consume record_token_emitted
  consume-Serving settings model turn [] p s = s
  consume-Serving settings model turn ((now, chunk) ∷ rest) p s =
      let d = pass_time now p.deadline in
      let taken = take_chunk settings turn.request_id now chunk (record p { deadline = d }) in
      if_both (λ (x : Progress × Stop). Serving id replica_id replicas x.0.db) d.aborted _ _ s
        (consume-Serving settings model turn rest taken (
          rw (append-db chunk _) (
            Serving-update (request_is turn.request_id) (emit_token now) (λ r. refl) (λ r. refl)
              p.db s)))

  -- A completion of the request: it gives back a slot of the replica, and its row stays.
  pub complete-Serving :
      (alpha : Fraction) (db : Db) (tokens : ℕ) (cost : Fraction) (now : ℕ)
      → truthy (some replica_id) ≡ some replica_id
      → (s : Serving id replica_id replicas db)
      → ((complete_request alpha db id tokens cost now).replicas
          ≡ update
              (replica_is replica_id)
              (release_slot alpha tokens (elapsed s.row.started_at now) now)
              replicas)
        × (any (request_is id) (complete_request alpha db id tokens cost now).requests ≡ true)
  complete-Serving alpha db tokens cost now named s =
      let on : truthy s.row.replica_id ≡ some replica_id = rw s.on named in
      let done = completed_row alpha db id tokens cost now s.row s.found in
      let (is_it, listed) = find_sound (request_is id) _ _ done in
      (
        complete_request-replicas alpha db id tokens cost now s.row s.found replica_id on
            ∙ ap
                (update (replica_is replica_id)
                  (release_slot alpha tokens (elapsed s.row.started_at now) now))
                s.same,
        any_of_mem (request_is id) _ _ listed is_it,
      )

  -- What the audit keeps touches no replica.
  keep_turn-replicas :
      (out : Outside) (model : ModelConfig) (identity : CallerIdentity) (turn : Turn)
      (prompt response : Text) (db : Db)
      → (keep_turn out model identity turn prompt response db).0.replicas ≡ db.replicas
  unfolding keep_turn
  keep_turn-replicas out model identity turn prompt response db =
      let same : Db × Bool → Type 0 = λ x. x.0.replicas ≡ db.replicas in
      if_both same (out.refused Statement.read_logging) _ _ refl (
        if_both same _ _ _ refl (
          if_both same (out.refused Statement.keep_content) _ _ refl
            (kept_or_not-replicas db turn.request_id prompt response turn.ended_at)))

module _ (out : Outside) (settings : Settings) (model : ModelConfig) (identity : CallerIdentity)
    (turn : Turn) (usage : Usage) (prompt response : Text) (replica_id : String)
    (replicas : List ReplicaRow) (db : Db) (named : truthy (some replica_id) ≡ some replica_id)
    (s : Serving turn.request_id replica_id replicas db)
    (read : out.refused Statement.read_cost ≡ false)
    (input : out.refused Statement.set_input_tokens ≡ false)
    (done : out.refused Statement.complete ≡ false) where
  counted : Serving turn.request_id replica_id replicas (count_input db turn usage)
  counted =
      Serving-update turn.request_id replica_id replicas (request_is turn.request_id)
        (set_input usage.prompt_tokens) (λ r. refl) (λ r. refl) db s

  -- Once the completion is done the slot is given back, whatever the audit does.
  pub settle_turn-replicas :
      (duration : ℕ) × ((settle_turn out settings model identity turn usage prompt response
          db).0.replicas
        ≡ update
            (replica_is replica_id)
            (release_slot settings.ewma_alpha usage.completion_tokens duration turn.ended_at)
            replicas)
  unfolding settle_turn
  settle_turn-replicas = (
    elapsed counted.row.started_at turn.ended_at,
    rw read rw input rw done (
        keep_turn-replicas turn.request_id replica_id replicas out model identity turn prompt
          response _
        ∙ (complete-Serving turn.request_id replica_id replicas settings.ewma_alpha
            (count_input db turn usage) usage.completion_tokens _ turn.ended_at named counted).0),
  )

  -- It goes through if the audit's statements are not refused either.
  pub settle_turn-succeeds :
      out.refused Statement.read_logging ≡ false
      → out.refused Statement.keep_content ≡ false
      → (settle_turn out settings model identity turn usage prompt response db).1 ≡ true
  unfolding settle_turn keep_turn
  settle_turn-succeeds logging keep = rw read rw input rw done rw logging rw keep (
      if_both (λ (x : Db × Bool). x.1 ≡ true) _ _ _ refl
        (kept_or_not-done _ turn.request_id prompt response turn.ended_at
          (complete-Serving turn.request_id replica_id replicas settings.ewma_alpha
            (count_input db turn usage) usage.completion_tokens _ turn.ended_at named counted).1))

  pub settle_turn-fails :
      out.refused Statement.read_logging ≡ true
      → (settle_turn out settings model identity turn usage prompt response db).1 ≡ false
  unfolding settle_turn keep_turn
  settle_turn-fails logging = rw read rw input rw done rw logging refl
