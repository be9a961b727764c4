-- ===== src/Scheduler/Queue/Clocks.antt =====
-- The clocks of server/src/scheduler/queue.ts: what each sweep fails, and what none may fail.

use control_deck.Prelude.{
  ℕ, ◌+◌, ◌≤◌, String, Bool, true, false, ◌≡◌, refl, sym, ◌∙◌, inl, inr, ◌==◌, if◌then◌else◌,
  is_some, some, List, [], ◌∷◌, find, Bool-cases, find-update, find_sound, eq_refl, eq_iff, arith,
}
use control_deck.Types.{RequestStatus}
use control_deck.Database.{RequestRow, Db}
use control_deck.Scheduler.Queue.{
  request_is, queue_expired, stalled, never_started, queue_timed_out, stall_timed_out, emit_token,
  sweep_queue_timeouts, sweep_stall_timeouts, sweep_first_token_timeouts, record_token_emitted,
  update_requests,
}

abbrev pub request_key : RequestRow → String
request_key r = r.id

-- What happens around a stream: tokens of any request, and the periodic sweeps.
pub data Event : Type 0 where
  token : (id : String) → Event
  queue_sweep stall_sweep first_token_sweep : (limit_ms : ℕ) → Event

pub after : Db → ℕ → Event → Db
after db now (token id) = record_token_emitted db id now
after db now (queue_sweep limit_ms) = (sweep_queue_timeouts db limit_ms now).0
after db now (stall_sweep limit_ms) = (sweep_stall_timeouts db limit_ms now).0
after db now (first_token_sweep limit_ms) = (sweep_first_token_timeouts db limit_ms now).0

pub run : Db → List (ℕ × Event) → Db
run db [] = db
run db ((now, event) ∷ events) = run (after db now event) events

-- No inactivity sweep comes later than its limit after the request's latest token; `last` is the
-- time of the latest so far.
abbrev pub KeepsPace : String → ℕ → List (ℕ × Event) → Type 0
KeepsPace id last [] = Unit
KeepsPace id last ((now, token j) ∷ events) = KeepsPace id (if j == id then now else last) events
KeepsPace id last ((now, stall_sweep limit_ms) ∷ events) =
    (now ≤ last + limit_ms) × KeepsPace id last events
KeepsPace id last (_ ∷ events) = KeepsPace id last events

-- The row of `id`, streaming, with its latest token at `last`.
pub record IsGenerating (db : Db) (id : String) (last : ℕ) : Type 0 where
  pub row : RequestRow
  pub found : find (request_is id) db.requests ≡ some row
  pub streaming : row.status ≡ RequestStatus.streaming
  pub started : is_some row.first_token_at ≡ true
  pub latest : row.last_token_at ≡ some last

found-update :
    (db : Db) (p : RequestRow → Bool) (f : RequestRow → RequestRow) (id : String) (row : RequestRow)
    → ((r : RequestRow) → (f r).id ≡ r.id)
    → find (request_is id) db.requests ≡ some row
    → find (request_is id) (update_requests db p f).requests ≡ some (if p row then f row else row)
found-update db p f id row same e = find-update request_key p f id db.requests same ∙ rw e refl

not_sym : (s t : String) → (s == t) ≡ false → (t == s) ≡ false
not_sym s t e = elim (Bool-cases (t == s)) [
  | inl h ↦ let same : s ≡ t = sym ((eq_iff t s).0 h) in let e' = (eq_iff s t).1 same in cc
  | inr h ↦ h
]

untouched :
    (db : Db) (p : RequestRow → Bool) (f : RequestRow → RequestRow) (id : String) (last : ℕ)
    → ((r : RequestRow) → (f r).id ≡ r.id)
    → (g : IsGenerating db id last) → p g.row ≡ false
    → IsGenerating (update_requests db p f) id last
untouched db p f id last same g e = record {
  row = g.row;
  found = found-update db p f id g.row same g.found ∙ rw e refl;
  streaming = g.streaming;
  started = g.started;
  latest = g.latest;
}

token-IsGenerating :
    (db : Db) (j id : String) (last now : ℕ)
    → IsGenerating db id last
    → IsGenerating (record_token_emitted db j now) id (if j == id then now else last)
unfolding record_token_emitted
token-IsGenerating db j id last now g =
    let named : g.row.id ≡ id =
      (eq_iff g.row.id id).0 (find_sound (request_is id) db.requests g.row g.found).0 in
    elim (Bool-cases (j == id)) [
      | inl e ↦
          let hit : request_is j g.row ≡ true = rw (named, (eq_iff j id).0 e, eq_refl id) refl in
          rw e (record {
            row = emit_token now g.row;
            found =
                found-update db (request_is j) (emit_token now) id g.row (λ r. refl) g.found
                ∙ rw hit refl;
            streaming = g.streaming;
            started = refl;
            latest = refl;
          })
      | inr e ↦
          let miss : request_is j g.row ≡ false = rw named (not_sym j id e) in
          rw e (untouched db (request_is j) (emit_token now) id last (λ r. refl) g miss)
    ]

-- A streaming row is not queued, and one with a token is past the first-token clock.
after-IsGenerating :
    (db : Db) (id : String) (last now : ℕ) (event : Event) (events : List (ℕ × Event))
    → KeepsPace id last ((now, event) ∷ events)
    → IsGenerating db id last
    → (last' : ℕ) × IsGenerating (after db now event) id last' × KeepsPace id last' events
unfolding after record_token_emitted sweep_queue_timeouts sweep_stall_timeouts
    sweep_first_token_timeouts
after-IsGenerating db id last now (token j) events pace g =
    (if j == id then now else last, token-IsGenerating db j id last now g, pace)
after-IsGenerating db id last now (queue_sweep limit_ms) events pace g =
    let spared : queue_expired limit_ms now g.row ≡ false = rw g.streaming refl in
    (
      last,
      untouched db (queue_expired limit_ms now) (queue_timed_out now) id last (λ r. refl) g spared,
      pace,
    )
after-IsGenerating db id last now (stall_sweep limit_ms) events pace g =
    let spared : stalled limit_ms now g.row ≡ false =
      rw (g.streaming, g.started, g.latest) (ground arith) in
    (
      last,
      untouched db (stalled limit_ms now) (stall_timed_out now) id last (λ r. refl) g spared,
      pace.1,
    )
after-IsGenerating db id last now (first_token_sweep limit_ms) events pace g =
    let spared : never_started db.model_registry limit_ms now g.row ≡ false =
      rw (g.streaming, g.started) refl in
    (
      last,
      untouched db (never_started db.model_registry limit_ms now) (stall_timed_out now) id last
          (λ r. refl) g spared,
      pace,
    )

-- A generation that makes progress is never failed, however long it takes. The request is streaming
-- and has produced a token; in any sequence of tokens and sweeps of all three kinds, of this and of
-- other requests, in which no inactivity sweep comes later than its limit after the request's latest
-- token, it is still streaming at the end.
pub run-streaming :
    (db : Db) (id : String) (last : ℕ) (events : List (ℕ × Event))
    → IsGenerating db id last
    → KeepsPace id last events
    → (r : RequestRow) × (find (request_is id) (run db events).requests ≡ some r)
      × (r.status ≡ RequestStatus.streaming)
unfolding run
run-streaming db id last [] g pace = (g.row, g.found, g.streaming)
run-streaming db id last ((now, event) ∷ events) g pace =
    let (last', g', pace') = after-IsGenerating db id last now event events pace g in
    run-streaming (after db now event) id last' events g' pace'
