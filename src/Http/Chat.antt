-- ===== src/Http/Chat.antt =====
-- server/src/http/routes/v1.ts: the handlers of /v1/chat/completions and /v1/embeddings, which put
-- selection, queue, placement, generation and failure together.
--
-- What the database refuses is in Turn.Outside; a refused statement that no `catch` stands around ends
-- the handler. The reads of the models and the statements inside the wait for a replica and inside the
-- loop over the stream succeed.
pub mod Slots
pub mod Release
pub mod Admission
pub mod Outcome
pub mod Balance
pub mod Endings
pub mod Leaks
pub mod Examples
use control_deck.Prelude.{
  ℕ, ◌+◌, ◌/◌, String, Bool, true, false, not, ◌==◌, if◌then◌else◌, is_empty, is_text, Option, none,
  some, or_else, List, [], ◌∷◌, ◌++◌, map, find, update, length, sum_by, take,
}
use control_deck.Types.{
  Text, Capability, ErrorCode, StandardError, ModelConfig, CallerIdentity, ChatCompletionRequest,
  ChatMessage,
}
use control_deck.Routing.Capabilities.{Endpoint}
use control_deck.Routing.Complexity.{codes}
use control_deck.Routing.Select.{SelectModelResult, select_model, error_code}
use control_deck.Database.{RequestRow, Db}
use control_deck.Scheduler.Settings.{Settings}
use control_deck.Scheduler.Keda.{KedaClient}
use control_deck.Scheduler.Affinity.{affinity_key_for}
use control_deck.Scheduler.Queue.{
  EnqueueRequestInput, request_is, enqueue_request, mark_stream_started, complete_request,
}
use control_deck.Registry.{list_models}
use control_deck.Adapter.{ChatRequestBody, StreamChatParams, build_chat_request_body}
use control_deck.Http.Errors.{
  status_for_error, status_of_code, invalid_request, queue_timeout_error,
}
use control_deck.Http.Failure.{Thrown, backend_failure, fail_request, mark_failed}
use control_deck.Http.ToolCalls.{ToolCall, ToolCallDelta, assemble_tool_calls}
use control_deck.Http.Deadline.{pass_time, Usage, resolve_usage}
use control_deck.Http.Wait.{World, Waited, served, timed_out, wait_for_placement}
use control_deck.Http.Turn.{
  Turn, Outside, Statement, error_of, Progress, Stop, Frame, Chunk, Completion, start, consume,
  settle_turn, audit_body, prompt_text, estimate, finish_reason_of, some_unless_empty, cost_of_turn,
  set_input,
}

-- What the handlers reach outside themselves.
pub record Env : Type 0 where
  pub collate : String → String → Bool
  pub settings : Settings
  pub keda : KedaClient
  pub world : World
  pub digest : Text → String
  pub out : Outside

pub data Reply : Type 0 where
  refused : (status : ℕ) → StandardError → Reply
  not_selected : (status : ℕ) → SelectModelResult → Reply
  dry_run : (model_id endpoint_url : String) → ChatRequestBody → Reply
  completion : Completion → Reply
  stream : List Frame → Reply
  embedded : (prompt_tokens : ℕ) → Reply
  -- An error that the handler does not catch: the framework answers 500.
  broken : Reply

abbrev pub refuse : StandardError → Reply
refuse err = Reply.refused (status_for_error err) err

abbrev pub chunk_frames : List (ℕ × Chunk) → List Frame
chunk_frames [] = []
chunk_frames ((now, c) ∷ cs) = Frame.chunk c ∷ chunk_frames cs

abbrev usage_frame : Bool → Usage → List Frame
usage_frame true u = Frame.usage u.prompt_tokens u.completion_tokens ∷ []
usage_frame false u = []

module _ (env : Env) (model : ModelConfig) (identity : CallerIdentity) (messages : List ChatMessage)
    (include_usage : Bool) (turn : Turn) (replica_id : String) where
  abbrev pub usage_of : Progress → Stop → Usage
  usage_of p (Stop.failed err) = resolve_usage none 0 0
  usage_of p (Stop.finished reason usage) =
      resolve_usage usage (estimate (prompt_text env.out.stringify_parts messages)) p.output_tokens

  -- The frames of the chunks that came before the stream stopped.
  abbrev seen : Progress → List (ℕ × Chunk)
  seen p = take p.output_tokens turn.chunks

  abbrev pub calls_json : Bool → List ToolCallDelta → Option Text
  calls_json true ds = some_unless_empty env.out.stringify_deltas ds
  calls_json false ds = some_unless_empty env.out.stringify_calls (assemble_tool_calls ds)

  abbrev pub settle_with : Bool → Progress → Usage → Db × Bool
  settle_with streams p usage =
      settle_turn env.out env.settings model identity turn usage
        (prompt_text env.out.stringify_parts messages)
        (audit_body p.reasoning p.text (calls_json streams p.deltas)) p.db

  -- failRequest, and whether both of its statements were done.
  abbrev pub fail : Db → StandardError → Db × Bool
  fail db err =
      if env.out.refused Statement.set_failed
      then (db, false)
      else if env.out.refused Statement.decrement
      then (mark_failed db turn.request_id err turn.ended_at, false)
      else (fail_request db turn.request_id err (some replica_id) turn.ended_at, true)

  -- The `catch` of a stream takes what the statements after the generation throw, too.
  abbrev pub close_stream : Progress → List Frame → Db × Bool → Db × Reply
  close_stream p frames (db, true) = (db, Reply.stream frames)
  close_stream p frames (db, false) =
      let d = pass_time turn.ended_at p.deadline in
      let err = error_of env.settings model d env.out.refusal in
      ((fail db err).0, Reply.stream (frames ++ (Frame.error err ∷ [])))

  abbrev pub opening_frames : Progress → List Frame
  opening_frames p = Frame.role ∷ chunk_frames (seen p)

  abbrev closing_frames : Progress → Option Text → Usage → List Frame
  closing_frames p reason usage =
      Frame.finish (finish_reason_of reason (not (is_empty p.deltas)))
      ∷ (usage_frame include_usage usage ++ (Frame.done_marker ∷ []))

  abbrev pub success_frames : Progress → Option Text → Usage → List Frame
  success_frames p reason usage = opening_frames p ++ closing_frames p reason usage

  abbrev pub stream_end : Progress → Stop → Db × Reply
  stream_end p (Stop.failed err) =
      ((fail p.db err).0, Reply.stream (opening_frames p ++ (Frame.error err ∷ [])))
  stream_end p (Stop.finished reason usage) =
      let u = usage_of p (Stop.finished reason usage) in
      close_stream p (success_frames p reason u) (settle_with true p u)

  abbrev null_if : Bool → Text → Option Text
  null_if calls_tools [] = if calls_tools then none else some []
  null_if calls_tools (c ∷ cs) = some (c ∷ cs)

  abbrev close_plain : Progress → Option Text → Usage → Db × Bool → Db × Reply
  close_plain p reason usage (db, false) = (db, Reply.broken)
  close_plain p reason usage (db, true) =
      let calls = assemble_tool_calls p.deltas in
      (
        db,
        Reply.completion (record {
          model = model.id;
          content = null_if (not (is_empty calls)) p.text;
          reasoning = (if is_empty p.reasoning then none else some p.reasoning);
          tool_calls = calls;
          finish_reason = finish_reason_of reason (not (is_empty calls));
          prompt_tokens = usage.prompt_tokens;
          completion_tokens = usage.completion_tokens;
        }),
      )

  abbrev refuse_if : Bool → StandardError → Reply
  refuse_if done err = if done then refuse err else Reply.broken

  abbrev pub plain_end : Progress → Stop → Db × Reply
  plain_end p (Stop.failed err) = let (db, done) = fail p.db err in (db, refuse_if done err)
  plain_end p (Stop.finished reason usage) =
      let u = usage_of p (Stop.finished reason usage) in
      close_plain p reason u (settle_with false p u)

  -- From the placement on; `started` are the tables with the request marked as streaming.
  unfoldable pub serve : Bool → Db → Db × Reply
  serve streams started =
      let (p, stop) =
        consume env.settings model turn turn.chunks
          (start env.settings model started turn.started_at) in
      if streams then stream_end p stop else plain_end p stop

abbrev pub set_model : String → RequestRow → RequestRow
set_model model_id r = record r { routed_model = some model_id }

abbrev pub set_hit : Bool → RequestRow → RequestRow
set_hit hit r = record r { affinity_hit = some hit }

abbrev pub route_row : Db → String → String → Db
route_row db id model_id = record db {
  requests = update (request_is id) (set_model model_id) db.requests;
}

abbrev pub note_hit : Db → String → Bool → Db
note_hit db id hit = record db { requests = update (request_is id) (set_hit hit) db.requests }

abbrev pub enqueue_input :
    String → CallerIdentity → Option String → List Capability → EnqueueRequestInput
enqueue_input id identity requested capabilities = record {
  id = id;
  caller_oid = identity.oid;
  caller_name = identity.name;
  team = identity.team;
  requested_model = requested;
  capabilities = capabilities;
}

abbrev pub no_replica : String → StandardError
no_replica backend_id = queue_timeout_error (
    codes "No replica became available for model \""
    ++ (codes backend_id ++ codes "\" within the queue-wait timeout."))

abbrev upstream_params : ModelConfig → ChatCompletionRequest → StreamChatParams
upstream_params model body = record {
  model = model.upstream_model;
  messages = body.messages;
  system_prompt = model.system_prompt;
  system_prompt_mode = model.system_prompt_mode;
  tools = body.tools;
  tool_choice = body.tool_choice;
  temperature = body.temperature;
  top_p = body.top_p;
  max_tokens = body.max_tokens;
  stop = body.stop;
  seed = body.seed;
  presence_penalty = body.presence_penalty;
  frequency_penalty = body.frequency_penalty;
  response_format = body.response_format;
}

abbrev pub not_selected_with : SelectModelResult → Reply
not_selected_with s = elim (error_code s) [
  | none ↦ Reply.broken
  | some code ↦ Reply.not_selected (status_of_code code) s
]

-- A request, the answers that it will get from its replica, and the time at which it arrives.
pub record Call : Type 0 where
  pub identity : CallerIdentity
  pub body : ChatCompletionRequest
  pub dry_run : Bool
  pub include_usage : Bool
  pub arrived_at : ℕ
  pub turn : Turn

module _ (env : Env) where
  module _ (call : Call) (model : ModelConfig) where
    abbrev pub mark_placed : Db → String → Bool → Db
    mark_placed db replica_id hit =
        note_hit (mark_stream_started db call.turn.request_id replica_id call.turn.started_at)
          call.turn.request_id hit

    -- From the placement on: no `catch` stands around the first two statements.
    abbrev pub served_chat : Db → String → Bool → Db × Reply
    served_chat db replica_id hit =
        let id = call.turn.request_id in
        let served =
          serve env model call.identity call.body.messages call.include_usage call.turn replica_id
            call.body.stream (mark_placed db replica_id hit) in
        if env.out.refused Statement.mark_started
        then (db, Reply.broken)
        else if env.out.refused Statement.note_hit
        then (mark_stream_started db id replica_id call.turn.started_at, Reply.broken)
        else served

    -- After the wait; its fuel never runs out.
    abbrev pub placed_chat : Db → Option (Db × Waited) → Db × Reply
    placed_chat db none = (db, Reply.broken)
    placed_chat db (some (db', timed_out)) = (db', refuse (no_replica model.backend_model_id))
    placed_chat db (some (db', served replica_id url hit)) = served_chat db' replica_id hit

    abbrev pub queued_chat : Db → Option Db → Db × Reply
    queued_chat db none = (db, Reply.broken)
    queued_chat db (some db') =
        let routed = route_row db' call.turn.request_id model.id in
        let placed = placed_chat routed (
          wait_for_placement env.collate env.settings env.keda env.world model.backend_model_id
            call.turn.request_id
            (affinity_key_for env.digest call.identity model.backend_model_id call.body.messages)
            routed call.arrived_at) in
        if env.out.refused Statement.enqueue
        then (db, Reply.broken)
        else if env.out.refused Statement.route_model
        then (db', Reply.broken)
        else placed

    abbrev pub routed_chat : Db → Db × Reply
    routed_chat db =
        if call.dry_run
        then (
          db,
          Reply.dry_run model.id model.endpoint_url
              (build_chat_request_body env.out.stringify_parts (upstream_params model call.body)),
        )
        else queued_chat db (
            enqueue_request db
              (enqueue_input call.turn.request_id call.identity call.body.model model.capabilities)
              call.arrived_at)

  abbrev pub chat_with : Call → Db → Option ModelConfig → Db × Reply
  chat_with call db none = (db, Reply.broken)
  chat_with call db (some model) = routed_chat call model db

  abbrev pub selected_chat : Call → Db → List ModelConfig → SelectModelResult → Db × Reply
  selected_chat call db candidates (SelectModelResult.ok id reason) =
      chat_with call db (find (λ (m : ModelConfig). m.id == id) candidates)
  selected_chat call db candidates s = (db, not_selected_with s)

  unfoldable pub chat_completions : Call → Db → Db × Reply
  unfolding status_for_error
  chat_completions call db =
      let candidates = list_models env.collate db in
      if is_empty call.body.messages
      then (db, refuse (invalid_request (codes "messages[] is required.")))
      else selected_chat call db candidates (select_model call.body candidates Endpoint.chat)
