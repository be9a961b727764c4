-- ===== src/Adapter.antt =====
-- server/src/adapters/llama-swap.ts: the body that is sent to a model server, and its errors.
-- `stringify` is JSON.stringify on a content that is neither a text nor null.
pub mod Prompt
pub mod Failure
mod Examples
use control_deck.Prelude.{
  ℕ, String, Bool, true, false, ◌&&◌, ◌||◌, ◌==◌, not, if◌then◌else◌, is_empty, Option, none, some,
  List, [], ◌∷◌, ◌++◌, map, any, all, filter,
}
use control_deck.Types.{
  Text, Opaque, Role, is_system, is_user, Part, Content, ChatMessage, SystemPromptMode,
}
use control_deck.Routing.Complexity.{codes, join, is_space}

pub record StreamChatParams : Type 0 where
  pub model : String
  pub messages : List ChatMessage
  pub system_prompt : Text
  pub system_prompt_mode : SystemPromptMode
  pub tools : Option (List Opaque)
  pub tool_choice : Option Opaque
  pub temperature : Option Opaque
  pub top_p : Option Opaque
  pub max_tokens : Option Opaque
  pub stop : Option Opaque
  pub seed : Option Opaque
  pub presence_penalty : Option Opaque
  pub frequency_penalty : Option Opaque
  pub response_format : Option Opaque

-- A field that is left out of the body is `none`.
pub record ChatRequestBody : Type 0 where
  pub model : Option String
  pub messages : List ChatMessage
  pub stream : Bool
  pub include_usage : Bool
  pub tools : Option (List Opaque)
  pub tool_choice : Option Opaque
  pub temperature : Option Opaque
  pub top_p : Option Opaque
  pub max_tokens : Option Opaque
  pub stop : Option Opaque
  pub seed : Option Opaque
  pub presence_penalty : Option Opaque
  pub frequency_penalty : Option Opaque
  pub response_format : Option Opaque

abbrev pub message_is_system : ChatMessage → Bool
message_is_system m = is_system m.role

abbrev pub message_is_user : ChatMessage → Bool
message_is_user m = is_user m.role

-- A message with only a role and a content.
abbrev pub plain : Role → Text → ChatMessage
plain role text = record {
  role = role;
  content = Content.string text;
  tool_calls = none;
  tool_call_id = none;
  name = none;
}

abbrev is_set : Content → Bool
is_set (Content.string s) = not (all is_space s)
is_set (Content.parts _) = true
is_set Content.null = false

-- A system message that is not blank.
abbrev pub sets_prompt : ChatMessage → Bool
sets_prompt m = message_is_system m && is_set m.content

module _ (stringify : List Part → Text) where
  abbrev pub text_of : Content → Text
  text_of (Content.string s) = s
  text_of (Content.parts ps) = stringify ps
  text_of Content.null = []

  abbrev pub preamble : List ChatMessage → Text
  preamble messages =
      join (codes "\n\n")
        (map (λ (m : ChatMessage). text_of m.content) (filter message_is_system messages))

  abbrev pub prefixed : Text → ChatMessage → ChatMessage
  prefixed text m = record m {
    content = Content.string (text ++ (codes "\n\n" ++ text_of m.content));
  }

  -- The message at the place that findIndex gives.
  unfoldable pub into_first_user : Text → List ChatMessage → List ChatMessage
  into_first_user text [] = []
  into_first_user text (m ∷ ms) =
      if message_is_user m then prefixed text m ∷ ms else m ∷ into_first_user text ms

  abbrev pub others : List ChatMessage → List ChatMessage
  others messages = filter (λ m. not (message_is_system m)) messages

  unfoldable pub merge_system_into_first_user : List ChatMessage → List ChatMessage
  unfolding into_first_user
  merge_system_into_first_user messages =
      if is_empty (preamble messages)
      then messages
      else if any message_is_user (others messages)
      then into_first_user (preamble messages) (others messages)
      else plain Role.user (preamble messages) ∷ others messages

  unfoldable pub with_default_prompt : Text → List ChatMessage → List ChatMessage
  unfolding is_space
  with_default_prompt prompt messages =
      if not (is_empty prompt) && not (any sets_prompt messages)
      then plain Role.system prompt ∷ messages
      else messages

  abbrev deliver : SystemPromptMode → List ChatMessage → List ChatMessage
  deliver SystemPromptMode.passthrough messages = messages
  deliver SystemPromptMode.merge messages = merge_system_into_first_user messages

  abbrev non_empty : Option (List Opaque) → Option (List Opaque)
  non_empty none = none
  non_empty (some []) = none
  non_empty (some (t ∷ ts)) = some (t ∷ ts)

  unfoldable pub build_chat_request_body : StreamChatParams → ChatRequestBody
  unfolding merge_system_into_first_user with_default_prompt
  build_chat_request_body p = record {
    model = (if p.model == "" then none else some p.model);
    messages = deliver p.system_prompt_mode (with_default_prompt p.system_prompt p.messages);
    stream = true;
    include_usage = true;
    tools = non_empty p.tools;
    tool_choice = p.tool_choice;
    temperature = p.temperature;
    top_p = p.top_p;
    max_tokens = p.max_tokens;
    stop = p.stop;
    seed = p.seed;
    presence_penalty = p.presence_penalty;
    frequency_penalty = p.frequency_penalty;
    response_format = p.response_format;
  }
