-- ===== src/Types/Instances.antt =====
-- Equality tests on the enumerations of `Defs`.
use control_deck.Prelude.{Bool, true, false, ◌≡◌, ◌↔◌, arith}
use control_deck.Types.Defs.{Capability, ModelClass, Role, RequestStatus}

abbrev pub same_capability : Capability → Capability → Bool
same_capability Capability.chat Capability.chat = true
same_capability Capability.vision Capability.vision = true
same_capability Capability.tools Capability.tools = true
same_capability Capability.embeddings Capability.embeddings = true
same_capability _ _ = false

abbrev pub same_class : ModelClass → ModelClass → Bool
same_class ModelClass.large ModelClass.large = true
same_class ModelClass.fast ModelClass.fast = true
same_class ModelClass.vision ModelClass.vision = true
same_class ModelClass.embedding ModelClass.embedding = true
same_class _ _ = false

pub same_capability_iff : (a b : Capability) → (same_capability a b ≡ true) ↔ (a ≡ b)
same_capability_iff a b = ground arith

pub same_class_iff : (a b : ModelClass) → (same_class a b ≡ true) ↔ (a ≡ b)
same_class_iff a b = ground arith

-- `role === "system" || role === "developer"`.
abbrev pub is_system : Role → Bool
is_system Role.system = true
is_system Role.developer = true
is_system _ = false

abbrev pub is_user : Role → Bool
is_user Role.user = true
is_user _ = false

abbrev pub is_queued : RequestStatus → Bool
is_queued RequestStatus.queued = true
is_queued _ = false

abbrev pub is_streaming : RequestStatus → Bool
is_streaming RequestStatus.streaming = true
is_streaming _ = false

abbrev pub is_completed : RequestStatus → Bool
is_completed RequestStatus.completed = true
is_completed _ = false
