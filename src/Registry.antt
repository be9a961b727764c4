-- ===== src/Registry.antt =====
-- server/src/registry/merge.ts and index.ts: the models, as configured and as overridden.
-- `collate` is the database's order of texts.
pub mod Laws
pub mod Gitops
pub mod Upstream
pub mod Examples
use control_deck.Prelude.{
  ℕ, String, Bool, true, false, ◌==◌, ◌||◌, if◌then◌else◌, Option, none, some, or_else, List, map,
  find, any, upsert, sort_by, by,
}
use control_deck.Types.{ModelConfig, SystemPromptMode, ConfigSource}
use control_deck.Database.{ModelRegistryRow, OverrideFields, OverrideRow, Db}
use control_deck.Scheduler.Queue.{truthy}

abbrev pub no_fields : OverrideFields
no_fields = record {
  name = none;
  class_label = none;
  min_replicas = none;
  max_replicas = none;
  system_prompt = none;
  cost_value = none;
  cost_basis = none;
}

abbrev given {ℓ} : {A : Type ℓ} → Option A → Bool
given none = false
given (some _) = true

-- Object.keys(override).length > 0
abbrev pub has_fields : OverrideFields → Bool
has_fields o =
    given o.name
    || (given o.class_label
        || (given o.min_replicas
            || (given o.max_replicas
                || (given o.system_prompt || (given o.cost_value || given o.cost_basis)))))

abbrev merged : ModelRegistryRow → OverrideFields → ModelConfig
merged base o = record {
  id = base.id;
  name = or_else o.name base.name;
  class_label = or_else o.class_label base.class_label;
  model_class = base.model_class;
  capabilities = base.capabilities;
  min_replicas = or_else o.min_replicas base.min_replicas;
  max_replicas = or_else o.max_replicas base.max_replicas;
  system_prompt = or_else o.system_prompt base.system_prompt;
  cost_value = or_else o.cost_value base.cost_value;
  cost_basis = or_else o.cost_basis base.cost_basis;
  endpoint_url = base.endpoint_url;
  upstream_model = or_else (truthy base.upstream_model) base.id;
  backend_model_id = or_else (truthy base.backend_model_id) base.id;
  system_prompt_mode = or_else base.system_prompt_mode SystemPromptMode.passthrough;
  port = or_else base.port 8080;
  first_token_timeout_ms = base.first_token_timeout_ms;
  config_source = (if has_fields o then ConfigSource.override else ConfigSource.gitops);
  has_override = has_fields o;
}

unfoldable pub merge_model_config : ModelRegistryRow → Option OverrideFields → ModelConfig
merge_model_config base override = merged base (or_else override no_fields)

abbrev pub model_is : String → ModelRegistryRow → Bool
model_is id m = m.id == id

abbrev pub override_is : String → OverrideRow → Bool
override_is id o = o.model_id == id

abbrev pub fields_of : Option OverrideRow → Option OverrideFields
fields_of none = none
fields_of (some o) = some o.fields

unfoldable pub fetch_override : Db → String → Option OverrideFields
fetch_override db model_id = fields_of (find (override_is model_id) db.model_registry_overrides)

abbrev pub config_in : Db → ModelRegistryRow → ModelConfig
config_in db row = merge_model_config row (fetch_override db row.id)

unfoldable pub list_models : (String → String → Bool) → Db → List ModelConfig
unfolding merge_model_config fetch_override sort_by
list_models collate db =
    map (config_in db) (sort_by (by (λ (r : ModelRegistryRow). r.id) collate) db.model_registry)

abbrev pub with_override : Option OverrideFields → Option ModelRegistryRow → Option ModelConfig
with_override override none = none
with_override override (some row) = some (merge_model_config row override)

unfoldable pub get_model : Db → String → Option ModelConfig
unfolding merge_model_config fetch_override
get_model db model_id =
    with_override (fetch_override db model_id) (find (model_is model_id) db.model_registry)

abbrev pub first_given {ℓ} : {A : Type ℓ} → Option A → Option A → Option A
first_given (some a) old = some a
first_given none old = old

-- JSONB's `old || new`: a key of the new object replaces that of the old one.
abbrev pub over : OverrideFields → OverrideFields → OverrideFields
over old new = record {
  name = first_given new.name old.name;
  class_label = first_given new.class_label old.class_label;
  min_replicas = first_given new.min_replicas old.min_replicas;
  max_replicas = first_given new.max_replicas old.max_replicas;
  system_prompt = first_given new.system_prompt old.system_prompt;
  cost_value = first_given new.cost_value old.cost_value;
  cost_basis = first_given new.cost_basis old.cost_basis;
}

-- `none` is the error of the foreign key when there is no such model.
unfoldable pub set_model_override :
    Db → String → OverrideFields → String → ℕ → Option (Db × Option ModelConfig)
unfolding get_model
set_model_override db model_id fields updated_by now =
    let db' = record db {
      model_registry_overrides =
          upsert (override_is model_id)
            (λ (o : OverrideRow). record o {
              fields = over o.fields fields;
              updated_by = some updated_by;
              updated_at = now;
            })
            (record {
              model_id = model_id;
              fields = fields;
              updated_by = some updated_by;
              updated_at = now;
            })
            db.model_registry_overrides;
    } in
    if any (model_is model_id) db.model_registry then some (db', get_model db' model_id) else none
