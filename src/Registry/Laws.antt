-- ===== src/Registry/Laws.antt =====
-- What an override changes, and that the list of models agrees with the single lookup.
use control_deck.Prelude.{
  String, Bool, ◌≡◌, ◌≢◌, ◌↔◌, sym, ap, subst, ◌∙◌, none, some, or_else, List, map, find, by,
  sort_by, Mem, Option-cases, inl, inr, find_sound, find-ne-none, mem-map, mem-of-mem_map,
  mem-sort_by, HasDistinctKeys, same_row, eq_refl, eq_iff, arith,
}
use control_deck.Types.{ModelConfig}
use control_deck.Database.{ModelRegistryRow, OverrideFields, OverrideRow, Db}
use control_deck.Registry.{
  merge_model_config, model_is, fetch_override, config_in, list_models, with_override, get_model,
}

pub model_key : ModelRegistryRow → String
model_key r = r.id

override_key : OverrideRow → String
override_key o = o.model_id

find-own :
    (t : List ModelRegistryRow) (r : ModelRegistryRow)
    → HasDistinctKeys model_key t
    → Mem r t
    → find (model_is r.id) t ≡ some r
unfolding model_key
find-own t r distinct m = elim (Option-cases (find (model_is r.id) t)) [
  | inl e ↦ absurd (find-ne-none (model_is r.id) t r m (eq_refl r.id) e)
  | inr (x, e) ↦
      let (named, listed) = find_sound (model_is r.id) t x e in
      e
      ∙ ap (λ (y : ModelRegistryRow). some y)
          (same_row model_key t x r distinct listed m (ground (arith, eq_iff x.id r.id)))
]

get_model_of :
    (db : Db) (id : String) (r : ModelRegistryRow)
    → find (model_is id) db.model_registry ≡ some r
    → get_model db id ≡ some (config_in db r)
unfolding get_model
get_model_of db id r e =
    let (named, _) = find_sound (model_is id) db.model_registry r e in
    let same : r.id ≡ id = ground (arith, eq_iff r.id id) in
    ap (with_override (fetch_override db id)) e
    ∙ ap (λ (k : String). some (merge_model_config r (fetch_override db k))) (sym same)

get_model-none :
    (db : Db) (id : String) → find (model_is id) db.model_registry ≡ none → get_model db id ≡ none
unfolding get_model
get_model-none db id e = ap (with_override (fetch_override db id)) e

none-ne-some {ℓ} : {A : Type ℓ} {a : A} → none ≢ some a
none-ne-some e = cc

some_inj {ℓ} : {A : Type ℓ} {a b : A} → some a ≡ some b → a ≡ b
some_inj e = cc

-- The list of models holds exactly the configurations that a lookup by id gives, overrides merged in.
-- Model ids are distinct.
pub list_models-get_model :
    (collate : String → String → Bool) (db : Db) (m : ModelConfig)
    → HasDistinctKeys model_key db.model_registry
    → Mem m (list_models collate db) ↔ ((id : String) × (get_model db id ≡ some m))
unfolding list_models
list_models-get_model collate db m distinct =
    let order = by (λ (r : ModelRegistryRow). r.id) collate in
    (
      λ listed.
          let (r, row, same) =
            mem-of-mem_map (config_in db) (sort_by order db.model_registry) m listed in
          (
            r.id,
            get_model_of db r.id r (
                  find-own db.model_registry r distinct
                    ((mem-sort_by order r db.model_registry).1 row))
                ∙ ap (λ (c : ModelConfig). some c) same,
          ),
      λ (id, got). elim (Option-cases (find (model_is id) db.model_registry)) [
        | inl e ↦ absurd (none-ne-some (sym (get_model-none db id e) ∙ got))
        | inr (r, e) ↦
            let (_, row) = find_sound (model_is id) db.model_registry r e in
            subst
              (λ (c : ModelConfig). Mem c (map (config_in db) (sort_by order db.model_registry)))
              (some_inj (sym (get_model_of db id r e) ∙ got))
              (mem-map (config_in db) (sort_by order db.model_registry) r
                ((mem-sort_by order r db.model_registry).0 row))
      ],
    )

-- The configuration `after` is `before` with the fields that the override gives, and every other
-- field as it was.
pub record Patched (before after : ModelConfig) (new : OverrideFields) : Type 0 where
  pub id : after.id ≡ before.id
  pub name : after.name ≡ or_else new.name before.name
  pub class_label : after.class_label ≡ or_else new.class_label before.class_label
  pub min_replicas : after.min_replicas ≡ or_else new.min_replicas before.min_replicas
  pub max_replicas : after.max_replicas ≡ or_else new.max_replicas before.max_replicas
  pub system_prompt : after.system_prompt ≡ or_else new.system_prompt before.system_prompt
  pub cost_value : after.cost_value ≡ or_else new.cost_value before.cost_value
  pub cost_basis : after.cost_basis ≡ or_else new.cost_basis before.cost_basis
  pub model_class : after.model_class ≡ before.model_class
  pub capabilities : after.capabilities ≡ before.capabilities
  pub endpoint_url : after.endpoint_url ≡ before.endpoint_url
  pub upstream_model : after.upstream_model ≡ before.upstream_model
  pub backend_model_id : after.backend_model_id ≡ before.backend_model_id
  pub system_prompt_mode : after.system_prompt_mode ≡ before.system_prompt_mode
  pub port : after.port ≡ before.port
  pub first_token_timeout_ms : after.first_token_timeout_ms ≡ before.first_token_timeout_ms
