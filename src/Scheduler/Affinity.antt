-- ===== src/Scheduler/Affinity.antt =====
-- server/src/scheduler/affinity.ts: which replica holds a conversation's cache.
use control_deck.Prelude.{
  ℕ, ◌+◌, String, Bool, ◌&&◌, ◌||◌, not, ◌==◌, if◌then◌else◌, ltb, or_else, is_empty, Option, none,
  some, List, [], ◌∷◌, ◌++◌, map, find, filter, any, delete, upsert, take, length,
}
use control_deck.Types.{Text, Part, Content, ChatMessage, Role, is_system, is_user, CallerIdentity}
use control_deck.Routing.Complexity.{codes, join}
use control_deck.Database.{AffinityRow, ReplicaRow, Db}

abbrev part_text : Part → Text
part_text part = or_else part.text []

abbrev pub content_text : Content → Text
content_text (Content.string s) = s
content_text (Content.parts ps) = join (codes " ") (map part_text ps)
content_text Content.null = []

abbrev pub role_name : Role → Text
role_name Role.system = codes "system"
role_name Role.developer = codes "developer"
role_name Role.user = codes "user"
role_name Role.assistant = codes "assistant"
role_name Role.tool = codes "tool"

abbrev pub is_opening : ChatMessage → Bool
is_opening m = is_system m.role || is_user m.role

unfoldable pub opening : List ChatMessage → List ChatMessage
opening messages = take 2 (filter is_opening messages)

abbrev pub entry : ChatMessage → Text
entry m = role_name m.role ++ (codes ":" ++ content_text m.content)

-- What is hashed: the caller, the model and the opening messages.
abbrev pub material : CallerIdentity → String → List ChatMessage → Text
material identity model_id opened =
    join (codes " ") (codes identity.oid ∷ codes model_id ∷ map entry opened)

-- `digest` is the first 40 hexadecimal digits of SHA-256, of node:crypto.
unfoldable pub affinity_key_for :
    (Text → String) → CallerIdentity → String → List ChatMessage → Option String
unfolding opening
affinity_key_for digest identity model_id messages =
    if is_empty (opening messages)
    then none
    else some (digest (material identity model_id (opening messages)))

abbrev pub key_is : String → AffinityRow → Bool
key_is key a = a.affinity_key == key

-- `last_used_at > now() - ttl`
abbrev pub is_valid : String → String → ℕ → ℕ → AffinityRow → Bool
is_valid key model_id ttl_ms now a =
    key_is key a && (a.model_id == model_id && ltb now (a.last_used_at + ttl_ms))

unfoldable pub lookup_affinity : Db → String → String → ℕ → ℕ → Option String
lookup_affinity db key model_id ttl_ms now =
    elim (find (is_valid key model_id ttl_ms now) db.replica_affinity) [
      | none ↦ none
      | some a ↦ some a.replica_id
    ]

abbrev pub use_replica : String → String → ℕ → AffinityRow → AffinityRow
use_replica model_id replica_id now a = record a {
  replica_id = replica_id;
  model_id = model_id;
  last_used_at = now;
}

unfoldable pub record_affinity : Db → String → String → String → ℕ → Db
record_affinity db key model_id replica_id now = record db {
  replica_affinity =
      upsert (key_is key) (use_replica model_id replica_id now)
        (record {
          affinity_key = key;
          model_id = model_id;
          replica_id = replica_id;
          last_used_at = now;
        })
        db.replica_affinity;
}

abbrev pub is_dropped : List ReplicaRow → ℕ → ℕ → AffinityRow → Bool
is_dropped replicas ttl_ms now a =
    ltb (a.last_used_at + ttl_ms) now
    || not (any (λ (r : ReplicaRow). r.id == a.replica_id) replicas)

unfoldable pub sweep_affinities : Db → ℕ → ℕ → Db × ℕ
sweep_affinities db ttl_ms now =
    let dropped = is_dropped db.replicas ttl_ms now in
    (
      record db { replica_affinity = delete dropped db.replica_affinity },
      length (filter dropped db.replica_affinity),
    )
