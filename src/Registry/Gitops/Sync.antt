-- ===== src/Registry/Gitops/Sync.antt =====
-- The registry after a synchronisation.
use mathlib.Core.Option
use control_deck.Prelude.{
  String, Bool, true, false, not, ◌==◌, ◌≡◌, refl, ap, ◌∙◌, if_both, if◌then◌else◌, is_some, Option,
  none, some, List, [], ◌∷◌, map, find, delete, filter, any_sound, mem-of-mem_filter,
  mem-of-mem_map, has_key, eq_refl, subst, find-upsert_other, Bool-cases, inl, inr, eq_iff, arith,
}
use control_deck.Database.{OverrideFields, ModelRegistryRow, OverrideRow, Db}
use control_deck.Registry.{fields_of, fetch_override, with_override, merge_model_config, get_model}
use control_deck.Registry.Gitops.{
  GitOpsModel, model_is, row_of, overwrite, registry_is, upsert_model, upsert_models, is_configured,
  listed, sync_models_from_config,
}

abbrev registry_key : ModelRegistryRow → String
registry_key r = r.id

-- The last model of the configuration under an id: it is the one that a repeated id leaves.
abbrev or_first : Option GitOpsModel → Option GitOpsModel → Option GitOpsModel
or_first (some m) other = some m
or_first none other = other

abbrev pub last_named : String → List GitOpsModel → Option GitOpsModel
last_named id [] = none
last_named id (m ∷ ms) = or_first (last_named id ms) (if model_is id m then some m else none)

-- What a lookup finds in the registry, where `before` is what it found.
abbrev row_after :
    Option String → Option ModelRegistryRow → Option GitOpsModel → Option ModelRegistryRow
row_after namespace before none = before
row_after namespace before (some m) = some (row_of namespace m)

module _ (namespace : Option String) where
  find-upsert_own :
      (m : GitOpsModel) (rows : List ModelRegistryRow)
      → find (registry_is m.id) (upsert_model namespace m rows) ≡ some (row_of namespace m)
  find-upsert_own m [] = rw (eq_refl m.id) refl
  find-upsert_own m (r ∷ rows) = elim (Bool-cases (registry_is m.id r)) [
    | inl e ↦
        rw e
          (rw e (ap (λ k. some (record (row_of namespace m) { id = k })) ((eq_iff r.id m.id).0 e)))
    | inr e ↦ rw (e, e) (find-upsert_own m rows)
  ]

  find-upsert_model :
      (id : String) (m : GitOpsModel) (rows : List ModelRegistryRow)
      → find (registry_is id) (upsert_model namespace m rows)
        ≡ (if model_is id m then some (row_of namespace m) else find (registry_is id) rows)
  find-upsert_model id m rows = elim (Bool-cases (model_is id m)) [
    | inl e ↦ rw e (
        subst
          (λ k. find (registry_is k) (upsert_model namespace m rows) ≡ some (row_of namespace m))
          ((eq_iff m.id id).0 e) (find-upsert_own m rows))
    | inr e ↦ rw e (
        find-upsert_other registry_key (overwrite (row_of namespace m)) (row_of namespace m) m.id id
          rows refl (λ r. refl) (λ q. let h = (eq_iff m.id id).1 q in cc))
  ]

  row_after-if :
      (b : Bool) (m : GitOpsModel) (before : Option ModelRegistryRow) (o : Option GitOpsModel)
      → row_after namespace (if b then some (row_of namespace m) else before) o
        ≡ row_after namespace before (or_first o (if b then some m else none))
  row_after-if b m before (some x) = refl
  row_after-if true m before none = refl
  row_after-if false m before none = refl

  find-upsert_models :
      (id : String) (ms : List GitOpsModel) (rows : List ModelRegistryRow)
      → find (registry_is id) (upsert_models namespace ms rows)
        ≡ row_after namespace (find (registry_is id) rows) (last_named id ms)
  find-upsert_models id [] rows = refl
  find-upsert_models id (m ∷ ms) rows =
      find-upsert_models id ms (upsert_model namespace m rows)
      ∙ ap (λ o. row_after namespace o (last_named id ms)) (find-upsert_model id m rows)
      ∙ row_after-if (model_is id m) m (find (registry_is id) rows) (last_named id ms)

-- A deletion that looks at the key alone.
module _ {A : Type 0} (key : A → String) (gone : String → Bool) where
  find-delete :
      (id : String) (rows : List A)
      → find (has_key key id) (delete (λ r. gone (key r)) rows)
        ≡ (if gone id then none else find (has_key key id) rows)
  find-delete id [] = if_both (λ o. none ≡ o) (gone id) none none refl refl
  find-delete id (r ∷ rows) = elim (Bool-cases (has_key key id r)) [
    | inl e ↦
        let same : gone (key r) ≡ gone id = ap gone ((eq_iff (key r) id).0 e) in
        elim (Bool-cases (gone id)) [
          | inl h ↦ rw (same, h) (find-delete id rows ∙ rw h refl)
          | inr h ↦ rw (same, h) (rw e refl)
        ]
    | inr e ↦ elim (Bool-cases (gone (key r))) [
      | inl h ↦ rw (h, e) (find-delete id rows)
      | inr h ↦ rw h (rw e (find-delete id rows))
    ]
  ]

is_configured-last_named :
    (id : String) (ms : List GitOpsModel) → is_configured ms id ≡ is_some (last_named id ms)
is_configured-last_named id [] = refl
is_configured-last_named id (m ∷ ms) = ground (arith, is_configured-last_named id ms)

only_if_configured :
    (namespace : Option String) (before : Option ModelRegistryRow) (b : Bool)
    (o : Option GitOpsModel)
    → b ≡ is_some o
    → (if not b then none else row_after namespace before o) ≡ Option.map (row_of namespace) o
only_if_configured namespace before b none e = rw e refl
only_if_configured namespace before b (some m) e = rw e refl

-- A synchronisation leaves in the registry exactly the models of the configuration, each as
-- configured by its last entry: a lookup finds the row of that entry, and nothing for an id that is
-- not configured.
sync_models_from_config-matches :
    (namespace : Option String) (db : Db) (models : List GitOpsModel) (id : String)
    → find (registry_is id) (sync_models_from_config namespace db models).0.model_registry
      ≡ Option.map (row_of namespace) (last_named id models)
unfolding sync_models_from_config
sync_models_from_config-matches namespace db models id =
    find-delete registry_key (λ k. not (is_configured models k)) id
      (upsert_models namespace models db.model_registry)
    ∙ ap (λ o. if not (is_configured models id) then none else o)
        (find-upsert_models namespace id models db.model_registry)
    ∙ only_if_configured namespace (find (registry_is id) db.model_registry)
        (is_configured models id) (last_named id models) (is_configured-last_named id models)

-- The ids that a synchronisation removes are none of the configuration.
configured-stays :
    (models : List GitOpsModel) (id : String) (rows : List ModelRegistryRow)
    → is_configured models id ≡ true
    → listed id (
        map
          (λ (r : ModelRegistryRow). r.id)
          (filter (λ (r : ModelRegistryRow). not (is_configured models r.id)) rows))
      ≡ false
configured-stays models id rows here =
    let gone : List String =
      map (λ (r : ModelRegistryRow). r.id)
        (filter (λ (r : ModelRegistryRow). not (is_configured models r.id)) rows) in
    elim (Bool-cases (listed id gone)) [
      | inr e ↦ e
      | inl e ↦
          let (x, among, named) = any_sound (λ (x : String). x == id) gone e in
          let (r, kept, is_x) =
            mem-of-mem_map (λ (r : ModelRegistryRow). r.id)
              (filter (λ (r : ModelRegistryRow). not (is_configured models r.id)) rows) x among in
          let (out, _) =
            mem-of-mem_filter (λ (r : ModelRegistryRow). not (is_configured models r.id)) rows r
              kept in
          let same : r.id ≡ id = is_x ∙ (eq_iff x id).0 named in
          let stays : not (is_configured models r.id) ≡ false = rw (same, here) refl in cc
    ]

keeps_overrides :
    (namespace : Option String) (db : Db) (models : List GitOpsModel) (id : String)
    → is_configured models id ≡ true
    → fetch_override (sync_models_from_config namespace db models).0 id ≡ fetch_override db id
unfolding sync_models_from_config fetch_override
keeps_overrides namespace db models id here =
    let rows = upsert_models namespace models db.model_registry in
    let gone : List String =
      map (λ (r : ModelRegistryRow). r.id)
        (filter (λ (r : ModelRegistryRow). not (is_configured models r.id)) rows) in
    ap fields_of (
      find-delete (λ (r : OverrideRow). r.model_id) (λ k. listed k gone) id
        db.model_registry_overrides
      ∙ rw (configured-stays models id rows here) refl)

with_override-map :
    (namespace : Option String) (before after : Option OverrideFields) (o : Option GitOpsModel)
    → (is_some o ≡ true → after ≡ before)
    → with_override after (Option.map (row_of namespace) o)
      ≡ Option.map (λ m. merge_model_config (row_of namespace m) before) o
with_override-map namespace before after none kept = refl
with_override-map namespace before after (some m) kept =
    ap (λ o. some (merge_model_config (row_of namespace m) o)) (kept refl)

-- What the router knows of a model after a synchronisation is its last entry in the configuration,
-- with the override that it had before on top; it knows nothing of an id that is not configured.
pub sync_models_from_config-get_model :
    (namespace : Option String) (db : Db) (models : List GitOpsModel) (id : String)
    → get_model (sync_models_from_config namespace db models).0 id
      ≡ Option.map
          (λ m. merge_model_config (row_of namespace m) (fetch_override db id))
          (last_named id models)
unfolding get_model
sync_models_from_config-get_model namespace db models id =
    let after = (sync_models_from_config namespace db models).0 in
    ap (with_override (fetch_override after id))
      (sync_models_from_config-matches namespace db models id)
    ∙ with_override-map namespace (fetch_override db id) (fetch_override after id)
        (last_named id models)
        (λ found.
          keeps_overrides namespace db models id (is_configured-last_named id models ∙ found))
