-- ===== src/Routing/Select/Laws.antt =====
-- What a selection means: the model it names, and when each error is returned.
use control_deck.Prelude.{
  String, Bool, true, false, ◌≡◌, refl, sym, ◌∙◌, ◌↔◌, inl, inr, ◌==◌, some, List, [], ◌∷◌, find,
  All, Mem, Memᴰ, find_sound, all_sound, all_of_All, any_sound, any_of_mem, All-map,
  mem-of-mem_filter, Option-cases, or_else, subst, eq_iff, arith,
}
use control_deck.Types.{
  Capability, ModelClass, same_capability, same_capability_iff, ModelConfig, ChatCompletionRequest,
}
use control_deck.Routing.Capabilities.{
  Endpoint, required_capabilities, includes, has_all_capabilities, filter_by_capabilities,
}
use control_deck.Routing.Select.{
  SelectModelResult, Reason, named_model, of_class, select_explicit, pick_by_class, choose,
  select_auto, select_model,
}

-- The model declares every capability required.
abbrev pub Supports : ModelConfig → List Capability → Type 0
Supports m required = All (λ cap. Mem cap m.capabilities) required

pub includes_sound : (xs : List Capability) (cap : Capability) → includes xs cap ≡ true → Mem cap xs
includes_sound xs cap e =
    let (x, m, h) = any_sound (same_capability cap) xs e in
    subst (λ y. Mem y xs) (sym ((same_capability_iff cap x).0 h)) m

pub includes_of_mem :
    (xs : List Capability) (cap : Capability) → Mem cap xs → includes xs cap ≡ true
includes_of_mem xs cap m =
    any_of_mem (same_capability cap) xs cap m ((same_capability_iff cap cap).1 refl)

-- The test that the code makes of a model is the declared meaning.
pub has_all_capabilities_iff :
    (m : ModelConfig) (required : List Capability)
    → (has_all_capabilities m required ≡ true) ↔ Supports m required
unfolding has_all_capabilities
has_all_capabilities_iff m required = (
  λ e. All-map _ _ (includes_sound m.capabilities) required (all_sound _ required e),
  λ h. all_of_All _ required (All-map _ _ (includes_of_mem m.capabilities) required h),
)

or_else-find-mem :
    (p : ModelConfig → Bool) (xs : List ModelConfig) (d : ModelConfig)
    → Mem d xs
    → Mem (or_else (find p xs) d) xs
or_else-find-mem p xs d h = elim (Option-cases (find p xs)) [
  | inl e ↦ rw e h
  | inr (m, e) ↦ rw e ((find_sound p xs m e).1)
]

pub pick_by_class-mem :
    (first : ModelConfig) (rest : List ModelConfig) (complex : Bool)
    → Mem (pick_by_class first rest complex) (first ∷ rest)
unfolding pick_by_class
pick_by_class-mem first rest true =
    or_else-find-mem (of_class ModelClass.large) (first ∷ rest) _
      (or_else-find-mem (of_class ModelClass.fast) (first ∷ rest) first (Memᴰ.head refl))
pick_by_class-mem first rest false =
    or_else-find-mem (of_class ModelClass.fast) (first ∷ rest) first (Memᴰ.head refl)

-- A selected model is a candidate and supports what the request needs.
abbrev pub IsServed : List ModelConfig → List Capability → String → Type 0
IsServed candidates required model_id =
    (m : ModelConfig) × Mem m candidates × (m.id ≡ model_id) × Supports m required

select_explicit-found :
    (model_id : String) (candidates : List ModelConfig) (required : List Capability)
    (m : ModelConfig)
    → find (λ (m : ModelConfig). m.id == model_id) candidates ≡ some m
    → {id : String} {reason : Reason}
    → select_explicit model_id candidates required ≡ SelectModelResult.ok id reason
    → IsServed candidates required id × (id ≡ model_id) × (reason ≡ Reason.explicit_override)
unfolding select_explicit
select_explicit-found model_id candidates required m found {id} {reason} e =
    let (same, listed) = find_sound _ candidates m found in
    let named : m.id ≡ model_id = (eq_iff m.id model_id).0 same in
    let able : has_all_capabilities m required ≡ true = ground arith in
    let got : m.id ≡ id = ground arith in
    ((m, listed, got, (has_all_capabilities_iff m required).0 able), sym got ∙ named, ground arith)

select_explicit_sound :
    (model_id : String) (candidates : List ModelConfig) (required : List Capability) {id : String}
    {reason : Reason}
    → select_explicit model_id candidates required ≡ SelectModelResult.ok id reason
    → IsServed candidates required id × (id ≡ model_id) × (reason ≡ Reason.explicit_override)
unfolding select_explicit
select_explicit_sound model_id candidates required {id} {reason} e =
    elim (Option-cases (find (λ (m : ModelConfig). m.id == model_id) candidates)) [
      | inl missing ↦ absurd (ground arith)
      | inr (m, found) ↦ select_explicit-found model_id candidates required m found e
    ]

choose_sound :
    (eligible : List ModelConfig) (required : List Capability) (complex : Bool) {id : String}
    {reason : Reason}
    → choose eligible required complex ≡ SelectModelResult.ok id reason
    → (m : ModelConfig) × Mem m eligible × (m.id ≡ id)
unfolding choose
choose_sound [] required complex e = cc
choose_sound (first ∷ rest) required complex e =
    (pick_by_class first rest complex, pick_by_class-mem first rest complex, ground arith)

select_auto_sound :
    (request : ChatCompletionRequest) (candidates : List ModelConfig) (required : List Capability)
    {id : String} {reason : Reason}
    → select_auto request candidates required ≡ SelectModelResult.ok id reason
    → IsServed candidates required id
unfolding select_auto
select_auto_sound request candidates required e =
    let (m, listed, named) =
      choose_sound (filter_by_capabilities candidates required) required _ e in
    let (able, known) = mem-of-mem_filter _ candidates m listed in
    (m, known, named, (has_all_capabilities_iff m required).0 able)

-- Whatever model is selected, it is one of the candidates, and it declares every capability that
-- the request needs.
pub select_model-IsServed :
    (request : ChatCompletionRequest) (candidates : List ModelConfig) (endpoint : Endpoint)
    {id : String} {reason : Reason}
    → select_model request candidates endpoint ≡ SelectModelResult.ok id reason
    → IsServed candidates (required_capabilities request endpoint) id
unfolding select_model
select_model-IsServed request candidates endpoint e =
    elim (Option-cases (named_model request.model)) [
      | inl auto ↦ select_auto_sound request candidates _ (rw (auto, select_model) at e)
      | inr (n, named) ↦ (select_explicit_sound n candidates _ (rw (named, select_model) at e)).0
    ]
