-- ===== src/Adapter/Prompt.antt =====
-- Which instructions reach the model.
use control_deck.Prelude.{
  true, false, ◌≡◌, refl, inl, inr, is_empty, if◌then◌else◌, List, [], ◌∷◌, any, All, Bool-cases,
  arith,
}
use control_deck.Types.{Text, Role, Part, ChatMessage, SystemPromptMode}
use control_deck.Adapter.{
  StreamChatParams, message_is_system, message_is_user, plain, preamble, into_first_user, others,
  merge_system_into_first_user, sets_prompt, build_chat_request_body,
}

module _ (stringify : List Part → Text) where
  -- A system prompt of the caller's own is left alone: with `passthrough` its messages are sent as
  -- they are, and nothing is injected. Without one the configured prompt, if any, comes first.
  pub build_chat_request_body-prompt :
      (p : StreamChatParams)
      → p.system_prompt_mode ≡ SystemPromptMode.passthrough
      → (any sets_prompt p.messages ≡ true
          → (build_chat_request_body stringify p).messages ≡ p.messages)
        × (any sets_prompt p.messages ≡ false
            → (build_chat_request_body stringify p).messages ≡ (
                if is_empty p.system_prompt
                then p.messages
                else plain Role.system p.system_prompt ∷ p.messages))
  unfolding build_chat_request_body
  build_chat_request_body-prompt p mode = (λ own. ground arith, λ bare. ground arith)

  into_first_user-roles :
      (text : Text) (ms : List ChatMessage)
      → All (λ m. message_is_system m ≡ false) ms
      → All (λ m. message_is_system m ≡ false) (into_first_user stringify text ms)
  unfolding into_first_user
  into_first_user-roles text [] h = tt
  into_first_user-roles text (m ∷ ms) h = elim (Bool-cases (message_is_user m)) [
    | inl e ↦ rw e (h.0, h.1)
    | inr e ↦ rw e (h.0, into_first_user-roles text ms h.1)
  ]

  others-roles :
      (ms : List ChatMessage) → All (λ m. message_is_system m ≡ false) (others stringify ms)
  others-roles [] = tt
  others-roles (m ∷ ms) = elim (Bool-cases (message_is_system m)) [
    | inl e ↦ rw e (others-roles ms)
    | inr e ↦ rw e (e, others-roles ms)
  ]

  into_first_user-user :
      (text : Text) (ms : List ChatMessage)
      → any message_is_user ms ≡ true
      → any message_is_user (into_first_user stringify text ms) ≡ true
  unfolding into_first_user
  into_first_user-user text [] h = h
  into_first_user-user text (m ∷ ms) h = elim (Bool-cases (message_is_user m)) [
    | inl e ↦ rw e rw e refl
    | inr e ↦ rw e rw e (into_first_user-user text ms (ground arith))
  ]

  -- Merging leaves no system message when there is anything to merge, and the messages then have one of
  -- the user; when there is nothing to merge, it changes nothing.
  pub merge_system_into_first_user-roles :
      (ms : List ChatMessage)
      → (is_empty (preamble stringify ms) ≡ false
          → All (λ m. message_is_system m ≡ false) (merge_system_into_first_user stringify ms)
            × (any message_is_user (merge_system_into_first_user stringify ms) ≡ true))
        × (is_empty (preamble stringify ms) ≡ true → merge_system_into_first_user stringify ms ≡ ms)
  unfolding merge_system_into_first_user
  merge_system_into_first_user-roles ms = (
    λ some_text. elim (Bool-cases (any message_is_user (others stringify ms))) [
      | inl e ↦ rw some_text rw e (
        into_first_user-roles (preamble stringify ms) (others stringify ms) (others-roles ms),
        into_first_user-user (preamble stringify ms) (others stringify ms) e,
      )
      | inr e ↦ rw some_text rw e ((refl, others-roles ms), refl)
    ],
    λ no_text. rw no_text refl,
  )
