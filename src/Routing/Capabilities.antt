-- ===== src/Routing/Capabilities.antt =====
-- server/src/routing/capabilities.ts
use text.Mathlib.Text.{starts_with}
use control_deck.Prelude.{
  Bool, false, ◌||◌, ◌==◌, if◌then◌else◌, Option, none, some, List, [], ◌∷◌, ◌++◌, any, all, filter,
  is_empty, not,
}
use control_deck.Types.{
  Capability, same_capability, ModelConfig, Part, Content, ChatMessage, ChatCompletionRequest,
  Opaque,
}

pub data Endpoint : Type 0 where
  chat embeddings : Endpoint

unfoldable pub is_image_part : Part → Bool
is_image_part part =
    part.kind == "image_url" || (part.kind == "image" || starts_with part.kind "image_")

abbrev has_image_part : Content → Bool
has_image_part (Content.parts ps) = any is_image_part ps
has_image_part _ = false

unfoldable pub request_has_image : List ChatMessage → Bool
unfolding is_image_part
request_has_image messages = any (λ (m : ChatMessage). has_image_part m.content) messages

-- `Array.isArray(request.tools) && request.tools.length > 0`
abbrev pub has_tools : Option (List Opaque) → Bool
has_tools none = false
has_tools (some ts) = not (is_empty ts)

-- The set is read in its order of insertion.
unfoldable pub required_capabilities : ChatCompletionRequest → Endpoint → List Capability
unfolding request_has_image
required_capabilities request Endpoint.embeddings = Capability.embeddings ∷ []
required_capabilities request Endpoint.chat =
    Capability.chat
    ∷ ((if request_has_image request.messages then Capability.vision ∷ [] else [])
        ++ (if has_tools request.tools then Capability.tools ∷ [] else []))

-- `xs.includes(cap)`
abbrev pub includes : List Capability → Capability → Bool
includes xs cap = any (same_capability cap) xs

unfoldable pub has_all_capabilities : ModelConfig → List Capability → Bool
has_all_capabilities model required = all (includes model.capabilities) required

unfoldable pub filter_by_capabilities : List ModelConfig → List Capability → List ModelConfig
unfolding has_all_capabilities
filter_by_capabilities candidates required =
    filter (λ model. has_all_capabilities model required) candidates
