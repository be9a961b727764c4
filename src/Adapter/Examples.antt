-- ===== src/Adapter/Examples.antt =====
-- The theorems about what is sent to a model server, at concrete conversations.
use control_deck.Prelude.{true, false, ◌≡◌, refl, any, is_empty, none, List, [], ◌∷◌, All}
use control_deck.Types.{Text, Role, Part, ChatMessage, SystemPromptMode}
use control_deck.Routing.Complexity.{codes}
use control_deck.Adapter.{
  StreamChatParams, message_is_system, message_is_user, preamble, merge_system_into_first_user,
}
use control_deck.Adapter.Prompt.{merge_system_into_first_user-roles}
use control_deck.Samples.{says, hello}

abbrev no_text : List Part → Text
no_text _ = []

abbrev hello_params : StreamChatParams
hello_params = record {
  model = "big";
  messages = hello;
  system_prompt = codes "be brief";
  system_prompt_mode = SystemPromptMode.passthrough;
  tools = none;
  tool_choice = none;
  temperature = none;
  top_p = none;
  max_tokens = none;
  stop = none;
  seed = none;
  presence_penalty = none;
  frequency_penalty = none;
  response_format = none;
}

abbrev told : List ChatMessage
told = says Role.system (codes "rhyme") ∷ says Role.user (codes "hi") ∷ []

told-merged : merge_system_into_first_user no_text told ≡ says Role.user (codes "rhyme\n\nhi") ∷ []
unfolding merge_system_into_first_user
told-merged = refl

merge_system_into_first_user-roles_example :
    (is_empty (preamble no_text told) ≡ false
      → All (λ m. message_is_system m ≡ false) (merge_system_into_first_user no_text told)
        × (any message_is_user (merge_system_into_first_user no_text told) ≡ true))
    × (is_empty (preamble no_text told) ≡ true → merge_system_into_first_user no_text told ≡ told)
merge_system_into_first_user-roles_example = merge_system_into_first_user-roles no_text told
