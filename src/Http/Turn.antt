-- ===== src/Http/Turn.antt =====
-- server/src/http/routes/v1.ts: one turn of generation on the replica that it was placed on, to the
-- end of its rows and the reply, for a caller that streams and for one that does not.
pub mod Serving
use control_deck.Prelude.{
  ℕ, ◌+◌, ◌-◌, ◌/◌, String, Bool, true, false, not, ◌==◌, if◌then◌else◌, is_empty, Option, none,
  some, or_else, List, [], ◌∷◌, ◌++◌, map, update, length,
}
use control_deck.Prelude.Fraction.{Fraction}
use control_deck.Types.{
  Text, Opaque, ErrorCode, StandardError, ModelConfig, CallerIdentity, Part, Content, ChatMessage,
}
use control_deck.Routing.Complexity.{codes, join}
use control_deck.Database.{RequestRow, Db}
use control_deck.Scheduler.Settings.{Settings}
use control_deck.Scheduler.Queue.{request_is, record_token_emitted, complete_request}
use control_deck.Cost.{CostConfig, compute_cost, get_cost_config_for_model}
use control_deck.Audit.Scope.{is_content_logging_enabled}
use control_deck.Audit.History.{record_audit_content}
use control_deck.Http.Failure.{Thrown, backend_failure, fail_request}
use control_deck.Http.ToolCalls.{ToolCallDelta, ToolCall, assemble_tool_calls}
use control_deck.Http.Deadline.{
  Clock, Deadline, generation_deadline, saw_token, pass_time, UpstreamUsage, Usage, resolve_usage,
}
use control_deck.Http.Message.{timeout_error}

-- What a model server streams before the end of a turn.
pub data Chunk : Type 0 where
  tool_calls : List ToolCallDelta → Chunk
  reasoning : Text → Chunk
  content : Text → Chunk

-- How the stream ends.
pub data Close : Type 0 where
  done : (finish_reason : Option Text) (usage : Option UpstreamUsage) → Close
  threw : Thrown → Close

-- A turn, with the times at which things happen.
pub record Turn : Type 0 where
  pub request_id : String
  pub started_at : ℕ
  pub chunks : List (ℕ × Chunk)
  pub close_at : ℕ
  pub close : Close
  pub ended_at : ℕ

-- The statements of a handler that the database may refuse: those before its generation, around the
-- wait for a replica, and those after it.
pub data Statement : Type 0 where
  enqueue route_model mark_started note_hit : Statement
  read_cost set_input_tokens complete read_logging keep_content : Statement
  set_failed decrement : Statement

-- JSON.stringify on what the audit keeps, the statements that are refused, and the error that is
-- thrown then.
pub record Outside : Type 0 where
  pub stringify_parts : List Part → Text
  pub stringify_deltas : List ToolCallDelta → Text
  pub stringify_calls : List ToolCall → Text
  pub refused : Statement → Bool
  pub refusal : Thrown

-- The state of the loop over the stream.
pub record Progress : Type 0 where
  pub db : Db
  pub deadline : Deadline
  pub output_tokens : ℕ
  pub text : Text
  pub reasoning : Text
  pub deltas : List ToolCallDelta

pub data Stop : Type 0 where
  finished : (finish_reason : Option Text) (usage : Option UpstreamUsage) → Stop
  failed : StandardError → Stop

abbrev pub append : Chunk → Progress → Progress
append (Chunk.tool_calls ds) p = record p { deltas = p.deltas ++ ds }
append (Chunk.reasoning t) p = record p { reasoning = p.reasoning ++ t }
append (Chunk.content t) p = record p { text = p.text ++ t }

abbrev pub start : Settings → ModelConfig → Db → ℕ → Progress
start settings model db now = record {
  db = db;
  deadline =
      generation_deadline (or_else model.first_token_timeout_ms settings.first_token_timeout_ms)
        now;
  output_tokens = 0;
  text = [];
  reasoning = [];
  deltas = [];
}

abbrev pub error_of : Settings → ModelConfig → Deadline → Thrown → StandardError
error_of settings model d thrown =
    if d.aborted then timeout_error settings d.reason model else backend_failure thrown

-- An aborted stream throws; what it throws is not looked at.
abbrev pub stop_of : Settings → ModelConfig → Deadline → Close → Stop
stop_of settings model d (Close.done finish usage) =
    if d.aborted
    then Stop.failed (timeout_error settings d.reason model)
    else Stop.finished finish usage
stop_of settings model d (Close.threw thrown) = Stop.failed (error_of settings model d thrown)

abbrev pub take_chunk : Settings → String → ℕ → Chunk → Progress → Progress
take_chunk settings request_id now chunk p = append chunk (record p {
  db = record_token_emitted p.db request_id now;
  deadline = saw_token settings.stall_timeout_ms now p.deadline;
  output_tokens = p.output_tokens + 1;
})

-- `for await (const chunk of …)`
unfoldable pub consume :
    Settings → ModelConfig → Turn → List (ℕ × Chunk) → Progress → Progress × Stop
unfolding record_token_emitted timeout_error backend_failure
consume settings model turn [] p =
    let d = pass_time turn.close_at p.deadline in
    (record p { deadline = d }, stop_of settings model d turn.close)
consume settings model turn ((now, chunk) ∷ rest) p =
    let d = pass_time now p.deadline in
    let next =
      consume settings model turn rest
        (take_chunk settings turn.request_id now chunk (record p { deadline = d })) in
    if d.aborted
    then (record p { deadline = d }, Stop.failed (timeout_error settings d.reason model))
    else next

abbrev pub set_input : ℕ → RequestRow → RequestRow
set_input n r = record r { input_tokens = n }

-- `await getCostConfigForModel(model.id) ?? …`
abbrev pub cost_config : Db → ModelConfig → CostConfig
cost_config db model =
    or_else (get_cost_config_for_model db model.id)
      (record { cost_value = model.cost_value; cost_basis = model.cost_basis })

unfoldable pub cost_of_turn : Db → ModelConfig → Usage → ℕ → Fraction
unfolding get_cost_config_for_model compute_cost
cost_of_turn db model usage duration_ms =
    let config = cost_config db model in
    compute_cost (record {
      cost_basis = config.cost_basis;
      cost_value = config.cost_value;
      input_tokens = usage.prompt_tokens;
      output_tokens = usage.completion_tokens;
      duration_ms = duration_ms;
    })

abbrev pub kept_or_not : Db → Option Db → Db × Bool
kept_or_not db none = (db, false)
kept_or_not db (some db') = (db', true)

-- What the audit keeps of a turn that is completed, and whether no statement was refused.
unfoldable pub keep_turn :
    Outside → ModelConfig → CallerIdentity → Turn → Text → Text → Db → Db × Bool
keep_turn out model identity turn prompt response db =
    let logs =
      is_content_logging_enabled db
        (record { team = identity.team; model_id = some model.id; api_key = none }) in
    if out.refused Statement.read_logging
    then (db, false)
    else if not logs
    then (db, true)
    else if out.refused Statement.keep_content
    then (db, false)
    else kept_or_not db (record_audit_content db turn.request_id prompt response turn.ended_at)

abbrev pub count_input : Db → Turn → Usage → Db
count_input db turn usage = record db {
  requests = update (request_is turn.request_id) (set_input usage.prompt_tokens) db.requests;
}

-- The tables after the end of a turn, and whether every statement was done. The first statement that
-- is refused ends it.
unfoldable pub settle_turn :
    Outside → Settings → ModelConfig → CallerIdentity → Turn → Usage → Text → Text → Db → Db × Bool
settle_turn out settings model identity turn usage prompt response db =
    let cost = cost_of_turn db model usage (turn.ended_at - turn.started_at) in
    let completed =
      complete_request settings.ewma_alpha (count_input db turn usage) turn.request_id
        usage.completion_tokens cost turn.ended_at in
    if out.refused Statement.read_cost
    then (db, false)
    else if out.refused Statement.set_input_tokens
    then (db, false)
    else if out.refused Statement.complete
    then (count_input db turn usage, false)
    else keep_turn out model identity turn prompt response completed

abbrev push_text : Text → List Text → List Text
push_text [] parts = parts
push_text (c ∷ cs) parts = (c ∷ cs) ∷ parts

-- `calls` is the JSON of the tool calls, if there are any.
unfoldable pub audit_body : Text → Text → Option Text → Text
audit_body thought text calls =
    join (codes "\n\n")
      (push_text thought (push_text text (elim calls [ none ↦ [] | some json ↦ json ∷ [] ])))

abbrev pub some_unless_empty {ℓ} : {A : Type ℓ} → (List A → Text) → List A → Option Text
some_unless_empty json [] = none
some_unless_empty json (x ∷ xs) = some (json (x ∷ xs))

-- The prompt, for the estimate of its tokens and for the audit.
abbrev prompt_part : (List Part → Text) → Content → Text
prompt_part stringify (Content.string s) = s
prompt_part stringify (Content.parts ps) = stringify ps
prompt_part stringify Content.null = codes "\"\""

unfoldable pub prompt_text : (List Part → Text) → List ChatMessage → Text
prompt_text stringify messages =
    join (codes "\n") (map (λ (m : ChatMessage). prompt_part stringify m.content) messages)

-- Math.ceil(length / 4)
abbrev pub estimate : Text → ℕ
estimate text = (length text + 3) / 4

abbrev pub finish_reason_of : Option Text → Bool → Text
finish_reason_of upstream calls_tools =
    or_else upstream (if calls_tools then codes "tool_calls" else codes "stop")

pub record Completion : Type 0 where
  pub model : String
  pub content : Option Text
  pub reasoning : Option Text
  pub tool_calls : List ToolCall
  pub finish_reason : Text
  pub prompt_tokens : ℕ
  pub completion_tokens : ℕ

pub data Frame : Type 0 where
  role : Frame
  chunk : Chunk → Frame
  finish : (reason : Text) → Frame
  usage : (prompt_tokens completion_tokens : ℕ) → Frame
  done_marker : Frame
  error : StandardError → Frame
