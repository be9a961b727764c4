-- ===== src/Registry/Gitops.antt =====
-- server/src/registry/gitops.ts: the models that a deployment configures, their checks, and the
-- table `model_registry` made to match them.
pub mod Checks
pub mod Sync
mod Examples
use Prim.Native.String.{◌++◌ as append}
use control_deck.Prelude.{
  ℕ, String, Bool, true, false, not, ◌==◌, if◌then◌else◌, is_empty, Option, none, some, or_else,
  List, [], ◌∷◌, map, find, any, filter, delete, upsert, length,
}
use control_deck.Prelude.Fraction.{Fraction, of_nat}
use control_deck.Types.{Text, Capability, CostBasis, ModelClass, SystemPromptMode}
use control_deck.Database.{ModelRegistryRow, OverrideRow, CostConfigRow, ReplicaRow, Db}
use control_deck.Scheduler.Queue.{truthy}

-- `capabilities` is empty where the file has no array.
pub record GitOpsModel : Type 0 where
  pub id : String
  pub name : Option String
  pub class_label : Option String
  pub model_class : ModelClass
  pub capabilities : List Capability
  pub min_replicas : Option ℕ
  pub max_replicas : Option ℕ
  pub system_prompt : Option Text
  pub cost_value : Option Fraction
  pub cost_basis : Option CostBasis
  pub endpoint_url : Option String
  pub upstream_model : Option String
  pub backend_ref : Option String
  pub port : Option ℕ
  pub system_prompt_mode : Option SystemPromptMode
  pub first_token_timeout_ms : Option ℕ

pub data ConfigFile : Type 0 where
  absent : ConfigFile
  malformed : ConfigFile
  holds : List GitOpsModel → ConfigFile

pub data ConfigError : Type 0 where
  missing_id : ConfigError
  no_capabilities : (id : String) → ConfigError
  unknown_backend self_reference chained : (id backend_ref : String) → ConfigError

pub data ReadConfig : Type 0 where
  no_config : ReadConfig
  unreadable : ReadConfig
  rejected : ConfigError → ReadConfig
  accepted : List GitOpsModel → ReadConfig

abbrev pub drop_empty : Option String → Option String
drop_empty none = none
drop_empty (some r) = if r == "" then none else some r

abbrev pub normalise : GitOpsModel → GitOpsModel
normalise m = record m { backend_ref = drop_empty m.backend_ref }

abbrev pub model_is : String → GitOpsModel → Bool
model_is id m = m.id == id

abbrev pub chain_error : String → String → Option GitOpsModel → Option ConfigError
chain_error id ref none = some (ConfigError.unknown_backend id ref)
chain_error id ref (some target) = elim target.backend_ref [
  | none ↦ none
  | some further ↦ some (ConfigError.chained id ref)
]

abbrev pub reference_error : List GitOpsModel → String → Option String → Option ConfigError
reference_error models id none = none
reference_error models id (some ref) =
    if not (any (model_is ref) models)
    then some (ConfigError.unknown_backend id ref)
    else if ref == id
    then some (ConfigError.self_reference id ref)
    else chain_error id ref (find (model_is ref) models)

unfoldable pub model_error : List GitOpsModel → GitOpsModel → Option ConfigError
model_error models m =
    if m.id == ""
    then some ConfigError.missing_id
    else if is_empty m.capabilities
    then some (ConfigError.no_capabilities m.id)
    else reference_error models m.id m.backend_ref

abbrev pub or_next : Option ConfigError → Option ConfigError → Option ConfigError
or_next none next = next
or_next (some e) next = some e

-- The error that is thrown first.
unfoldable pub first_error : List GitOpsModel → List GitOpsModel → Option ConfigError
first_error models [] = none
first_error models (m ∷ ms) = or_next (model_error models m) (first_error models ms)

abbrev pub checked : List GitOpsModel → Option ConfigError → ReadConfig
checked models none = ReadConfig.accepted models
checked models (some e) = ReadConfig.rejected e

unfoldable pub read_models_config : ConfigFile → ReadConfig
unfolding first_error model_error
read_models_config ConfigFile.absent = ReadConfig.no_config
read_models_config ConfigFile.malformed = ReadConfig.unreadable
read_models_config (ConfigFile.holds given) =
    let models = map normalise given in checked models (first_error models models)

pub record SyncResult : Type 0 where
  pub upserted : ℕ
  pub removed : List String

abbrev class_name : ModelClass → String
class_name ModelClass.fast = "fast"
class_name ModelClass.large = "large"
class_name ModelClass.vision = "vision"
class_name ModelClass.embedding = "embedding"

abbrev in_cluster : Option String → String → String
in_cluster none host = host
in_cluster (some namespace) host = append host (append "." (append namespace ".svc.cluster.local"))

-- `namespace` is the variable POD_NAMESPACE.
abbrev default_endpoint : Option String → String → String
default_endpoint namespace id = append "http://" (in_cluster (truthy namespace) id)

abbrev pub row_of : Option String → GitOpsModel → ModelRegistryRow
row_of namespace m = record {
  id = m.id;
  name = or_else m.name m.id;
  class_label = or_else m.class_label (class_name m.model_class);
  model_class = m.model_class;
  capabilities = m.capabilities;
  min_replicas = or_else m.min_replicas 1;
  max_replicas = or_else m.max_replicas 1;
  system_prompt = or_else m.system_prompt [];
  cost_value = or_else m.cost_value (of_nat 0);
  cost_basis = or_else m.cost_basis CostBasis.per_1k_tokens;
  endpoint_url = or_else m.endpoint_url (default_endpoint namespace (or_else m.backend_ref m.id));
  upstream_model = some (or_else m.upstream_model m.id);
  system_prompt_mode = some (or_else m.system_prompt_mode SystemPromptMode.passthrough);
  backend_model_id = m.backend_ref;
  port = some (or_else m.port 8080);
  first_token_timeout_ms = m.first_token_timeout_ms;
}

-- ON CONFLICT (id) DO UPDATE: every column but the key.
abbrev pub overwrite : ModelRegistryRow → ModelRegistryRow → ModelRegistryRow
overwrite new old = record new { id = old.id }

abbrev pub registry_is : String → ModelRegistryRow → Bool
registry_is id r = r.id == id

abbrev pub upsert_model :
    Option String → GitOpsModel → List ModelRegistryRow → List ModelRegistryRow
upsert_model namespace m rows =
    upsert (registry_is m.id) (overwrite (row_of namespace m)) (row_of namespace m) rows

abbrev pub upsert_models :
    Option String → List GitOpsModel → List ModelRegistryRow → List ModelRegistryRow
upsert_models namespace [] rows = rows
upsert_models namespace (m ∷ ms) rows = upsert_models namespace ms (upsert_model namespace m rows)

abbrev pub is_configured : List GitOpsModel → String → Bool
is_configured models id = any (model_is id) models

abbrev pub listed : String → List String → Bool
listed id ids = any (λ (x : String). x == id) ids

-- The deletion of models, with the rows of the tables that refer to one of them.
abbrev pub remove_models : Db → List ModelRegistryRow → List String → Db
remove_models db kept removed = record db {
  model_registry = kept;
  model_registry_overrides =
      delete (λ (r : OverrideRow). listed r.model_id removed) db.model_registry_overrides;
  model_cost_config =
      delete (λ (r : CostConfigRow). listed r.model_id removed) db.model_cost_config;
  replicas = delete (λ (r : ReplicaRow). listed r.model_id removed) db.replicas;
}

-- One transaction.
unfoldable pub sync_models_from_config : Option String → Db → List GitOpsModel → Db × SyncResult
sync_models_from_config namespace db models =
    let rows = upsert_models namespace models db.model_registry in
    let is_gone : ModelRegistryRow → Bool = λ r. not (is_configured models r.id) in
    let removed = map (λ (r : ModelRegistryRow). r.id) (filter is_gone rows) in
    (
      remove_models db (delete is_gone rows) removed,
      record { upserted = length models; removed = removed },
    )

-- What a router finds at its start; `threw` holds no error of a check for a file that is no JSON.
pub data Synced : Type 0 where
  no_file : Synced
  threw : Option ConfigError → Synced
  synced : SyncResult → Synced

abbrev pub sync_read : Option String → Db → ReadConfig → Db × Synced
sync_read namespace db ReadConfig.no_config = (db, Synced.no_file)
sync_read namespace db ReadConfig.unreadable = (db, Synced.threw none)
sync_read namespace db (ReadConfig.rejected e) = (db, Synced.threw (some e))
sync_read namespace db (ReadConfig.accepted models) =
    let (db', result) = sync_models_from_config namespace db models in (db', Synced.synced result)

unfoldable pub sync_models_from_config_file : Option String → Db → ConfigFile → Db × Synced
unfolding read_models_config sync_models_from_config
sync_models_from_config_file namespace db file = sync_read namespace db (read_models_config file)
