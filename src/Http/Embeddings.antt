-- ===== src/Http/Embeddings.antt =====
-- server/src/http/routes/v1.ts: the handler of /v1/embeddings.
pub mod Leaks
mod Examples
use control_deck.Prelude.{
  ℕ, ◌+◌, ◌-◌, String, Bool, true, false, ◌==◌, if◌then◌else◌, Option, none, some, List, [], ◌∷◌,
  find, update, sum_by,
}
use control_deck.Types.{Text, Capability, ModelConfig, CallerIdentity, ChatCompletionRequest}
use control_deck.Routing.Capabilities.{Endpoint}
use control_deck.Routing.Complexity.{codes}
use control_deck.Routing.Select.{SelectModelResult, select_model}
use control_deck.Database.{Db}
use control_deck.Scheduler.Queue.{
  request_is, enqueue_request, mark_stream_started, complete_request,
}
use control_deck.Registry.{list_models}
use control_deck.Http.Errors.{status_for_error, invalid_request}
use control_deck.Http.Deadline.{Usage}
use control_deck.Http.Wait.{Waited, served, timed_out, wait_for_placement}
use control_deck.Http.Turn.{estimate, cost_of_turn, set_input}
use control_deck.Http.Chat.{
  Env, Reply, refuse, no_replica, not_selected_with, enqueue_input, route_row,
}

-- What a model server answers: one vector for each input, or an error that is thrown.
pub data Embedded : Type 0 where
  vectors threw : Embedded

-- `input` is `none` for a body with no input, or with an empty text.
pub record EmbedCall : Type 0 where
  pub identity : CallerIdentity
  pub model : Option String
  pub input : Option (List Text)
  pub request_id : String
  pub arrived_at : ℕ
  pub started_at : ℕ
  pub ended_at : ℕ
  pub answer : Embedded

abbrev model_request : Option String → ChatCompletionRequest
model_request model = record {
  model = model;
  messages = [];
  tools = none;
  tool_choice = none;
  stream = false;
  temperature = none;
  top_p = none;
  max_tokens = none;
  stop = none;
  seed = none;
  presence_penalty = none;
  frequency_penalty = none;
  response_format = none;
}

abbrev pub tokens_of : List Text → ℕ
tokens_of inputs = sum_by estimate inputs

module _ (env : Env) (call : EmbedCall) (inputs : List Text) where
  module _ (model : ModelConfig) where
    -- The call of the backend stands in no `try`: what it throws ends the handler.
    unfoldable pub embed_on : Db → Embedded → Db × Reply
    unfolding cost_of_turn complete_request
    embed_on db Embedded.threw = (db, Reply.broken)
    embed_on db Embedded.vectors =
        let usage : Usage = record {
          prompt_tokens = tokens_of inputs;
          completion_tokens = 0;
          measured = false;
        } in
        let cost = cost_of_turn db model usage (call.ended_at - call.started_at) in
        let counted = record db {
          requests =
              update (request_is call.request_id) (set_input usage.prompt_tokens) db.requests;
        } in
        (
          complete_request env.settings.ewma_alpha counted call.request_id 0 cost call.ended_at,
          Reply.embedded usage.prompt_tokens,
        )

    abbrev pub placed_embed : Db → Option (Db × Waited) → Db × Reply
    placed_embed db none = (db, Reply.broken)
    placed_embed db (some (db', timed_out)) = (db', refuse (no_replica model.backend_model_id))
    placed_embed db (some (db', served replica_id url hit)) =
        embed_on (mark_stream_started db' call.request_id replica_id call.started_at) call.answer

    abbrev pub queued_embed : Db → Option Db → Db × Reply
    queued_embed db none = (db, Reply.broken)
    queued_embed db (some db') =
        let routed = route_row db' call.request_id model.id in
        placed_embed routed (
          wait_for_placement env.collate env.settings env.keda env.world model.backend_model_id
            call.request_id none routed call.arrived_at)

  abbrev pub embed_with : Db → Option ModelConfig → Db × Reply
  embed_with db none = (db, Reply.broken)
  embed_with db (some model) = queued_embed model db (
      enqueue_request db
        (enqueue_input call.request_id call.identity call.model (Capability.embeddings ∷ []))
        call.arrived_at)

  abbrev pub selected_embed : Db → List ModelConfig → SelectModelResult → Db × Reply
  selected_embed db candidates (SelectModelResult.ok id reason) =
      embed_with db (find (λ (m : ModelConfig). m.id == id) candidates)
  selected_embed db candidates s = (db, not_selected_with s)

abbrev embed_inputs : Env → EmbedCall → Db → Option (List Text) → Db × Reply
embed_inputs env call db none = (db, refuse (invalid_request (codes "input is required.")))
embed_inputs env call db (some inputs) =
    let candidates = list_models env.collate db in
    selected_embed env call inputs db candidates
      (select_model (model_request call.model) candidates Endpoint.embeddings)

unfoldable pub embeddings : Env → EmbedCall → Db → Db × Reply
unfolding list_models select_model enqueue_request wait_for_placement mark_stream_started embed_on
    status_for_error
embeddings env call db = embed_inputs env call db call.input
