-- ===== src/Registry/Gitops/Checks.antt =====
-- What the checks of the configured models promise to the router.
use control_deck.Prelude.{
  String, ◌==◌, ◌≡◌, ◌≢◌, refl, ap, subst, is_empty, Option, none, some, or_else, List, [], ◌∷◌,
  map, find, All, Mem, of_All, find_sound, Bool-cases, Option-cases, inl, inr, eq_iff, arith,
}
use control_deck.Registry.Gitops.{
  GitOpsModel, ConfigFile, ConfigError, ReadConfig, normalise, model_is, reference_error,
  chain_error, model_error, first_error, checked, read_models_config,
}

-- A model that can be routed to: a name, a capability, and a workload of the same file that serves
-- it, which is no reference to another.
pub record IsRoutable (models : List GitOpsModel) (m : GitOpsModel) : Type 0 where
  pub named : m.id ≢ ""
  pub capable : m.capabilities ≢ []
  pub owner : GitOpsModel
  pub owner_listed : Mem owner models
  pub serves : owner.id ≡ or_else m.backend_ref m.id
  pub owns : owner.backend_ref ≡ none

first_error-none :
    (models ms : List GitOpsModel)
    → first_error models ms ≡ none
    → All (λ m. model_error models m ≡ none) ms
unfolding first_error
first_error-none models [] e = tt
first_error-none models (m ∷ ms) e = elim (Option-cases (model_error models m)) [
  | inl h ↦ (h, first_error-none models ms (rw h at e))
  | inr (err, h) ↦ let stopped = rw h at e in cc
]

-- Where the model that a reference names is, if the checks have nothing against it.
chain-owner :
    (models : List GitOpsModel) (id ref : String) (o : Option GitOpsModel)
    → find (model_is ref) models ≡ o
    → chain_error id ref o ≡ none
    → (owner : GitOpsModel) × Mem owner models × (owner.id ≡ ref) × (owner.backend_ref ≡ none)
chain-owner models id ref none found e = cc
chain-owner models id ref (some target) found e =
    let (named, listed) = find_sound (model_is ref) models target found in
    elim (Option-cases target.backend_ref) [
      | inl h ↦ (target, listed, (eq_iff target.id ref).0 named, h)
      | inr (further, h) ↦ let stopped = rw h at e in cc
    ]

reference-owner :
    (models : List GitOpsModel) (m : GitOpsModel) (ref : Option String)
    → Mem m models
    → m.backend_ref ≡ ref
    → reference_error models m.id ref ≡ none
    → (owner : GitOpsModel) × Mem owner models
      × (owner.id ≡ or_else ref m.id)
      × (owner.backend_ref ≡ none)
reference-owner models m none listed on e = (m, listed, refl, on)
reference-owner models m (some ref) listed on e =
    chain-owner models m.id ref (find (model_is ref) models) refl (ground arith)

model_error-none :
    (models : List GitOpsModel) (m : GitOpsModel)
    → Mem m models
    → model_error models m ≡ none
    → IsRoutable models m
unfolding model_error
model_error-none models m listed e = elim (Bool-cases (m.id == "")) [
  | inl h ↦ let stopped = rw h at e in cc
  | inr unnamed ↦ elim (Bool-cases (is_empty m.capabilities)) [
    | inl h ↦ let stopped = rw (unnamed, h) at e in cc
    | inr some_capability ↦
        let passed : reference_error models m.id m.backend_ref ≡ none =
          rw (unnamed, some_capability) at e in
        let (owner, owner_listed, serves, owns) =
          reference-owner models m m.backend_ref listed refl passed in
        record {
          named = λ q. let h = (eq_iff m.id "").1 q in cc;
          capable = λ q. let h = ap is_empty q in cc;
          owner = owner;
          owner_listed = owner_listed;
          serves = serves;
          owns = owns;
        }
  ]
]

checked-accepted :
    (models accepted : List GitOpsModel) (e : Option ConfigError)
    → checked models e ≡ ReadConfig.accepted accepted
    → (e ≡ none) × (models ≡ accepted)
checked-accepted models accepted none h = (refl, cc)
checked-accepted models accepted (some err) h = cc

-- Every model of a configuration that is accepted has a name and a capability, and is served by a
-- model of the same configuration which has its own workload: no reference is left open, and none
-- leads to another reference.
pub read_models_config-IsRoutable :
    (file : ConfigFile) (models : List GitOpsModel) (m : GitOpsModel)
    → read_models_config file ≡ ReadConfig.accepted models
    → Mem m models
    → IsRoutable models m
unfolding read_models_config
read_models_config-IsRoutable ConfigFile.absent models m e listed = cc
read_models_config-IsRoutable ConfigFile.malformed models m e listed = cc
read_models_config-IsRoutable (ConfigFile.holds given) models m e listed =
    let read = map normalise given in
    let (clean, same) = checked-accepted read models (first_error read read) e in
    let listed' : Mem m read = rw same listed in
    let routable =
      model_error-none read m listed' (
        of_All (λ x. model_error read x ≡ none) read m (first_error-none read read clean)
          listed') in
    subst (λ ms. IsRoutable ms m) same routable
