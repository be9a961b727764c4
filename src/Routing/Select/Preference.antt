-- ===== src/Routing/Select/Preference.antt =====
-- Which class of model the router prefers.
use control_deck.Prelude.{
  mem-of-mem_filter, Mem, Memᴰ, some, refl, sym, subst, ◌∙◌, String, Bool, true, false, ◌≡◌, ◌≢◌,
  ◌⊎◌, inl, inr, none, List, [], ◌∷◌, find, All, find_sound, find-none, mem-filter, Option-cases,
  if◌then◌else◌, arith, All-of_mem, of_All, All-map,
}
use control_deck.Types.{Capability, ModelClass, same_class_iff, ModelConfig, ChatCompletionRequest}
use control_deck.Routing.Capabilities.{
  has_all_capabilities, Endpoint, required_capabilities, filter_by_capabilities,
}
use control_deck.Routing.Complexity.{compute_complexity_signals, is_complex}
use control_deck.Routing.Select.{
  SelectModelResult, Reason, named_model, of_class, reason_of, pick_by_class, choose, select_auto,
  select_model,
}
use control_deck.Routing.Select.Laws.{Supports, has_all_capabilities_iff}
use control_deck.Routing.Select.Errors.{select_model-auto}

-- The class that the signals ask for.
abbrev pub preferred : Bool → ModelClass
preferred complex = if complex then ModelClass.large else ModelClass.fast

-- No model of the list is of the class.
abbrev pub Lacks : ModelClass → List ModelConfig → Type 0
Lacks c models = All (λ (m : ModelConfig). m.model_class ≢ c) models

-- No candidate of the class has the capabilities.
abbrev pub NoneCapable : ModelClass → List ModelConfig → List Capability → Type 0
NoneCapable c candidates required =
    All (λ (m : ModelConfig). Supports m required → m.model_class ≢ c) candidates

-- The answer is the id of a capable candidate. It is of the class that the signals ask for, or there
-- is no capable one of that class, and then it is a fast one if a large one was asked for, as far as
-- there is one. The reason tells whether it is a large one.
pub record IsPreferred (candidates : List ModelConfig) (required : List Capability) (complex : Bool)
    (id : String) (reason : Reason) : Type 0 where
  pub model : ModelConfig
  pub listed : Mem model candidates
  pub capable : Supports model required
  pub named : model.id ≡ id
  pub class :
      (model.model_class ≡ preferred complex)
      ⊎ (NoneCapable (preferred complex) candidates required
          × (complex ≡ true
              → (model.model_class ≡ ModelClass.fast)
                ⊎ NoneCapable ModelClass.fast candidates required))
  pub large : model.model_class ≡ ModelClass.large → reason ≡ Reason.complexity_large
  pub not_large : model.model_class ≢ ModelClass.large → reason ≡ Reason.complexity_fast

not_of_class : (c : ModelClass) (m : ModelConfig) → of_class c m ≡ false → m.model_class ≢ c
not_of_class c m e h = let e' = (same_class_iff m.model_class c).1 h in cc

find-of_class :
    (c : ModelClass) (models : List ModelConfig) (m : ModelConfig)
    → find (of_class c) models ≡ some m
    → Mem m models × (m.model_class ≡ c)
find-of_class c models m e =
    let (is_it, listed) = find_sound (of_class c) models m e in
    (listed, (same_class_iff m.model_class c).0 is_it)

Lacks-find :
    (c : ModelClass) (models : List ModelConfig) → find (of_class c) models ≡ none → Lacks c models
Lacks-find c models e = All-map _ _ (not_of_class c) models (find-none (of_class c) models e)

pick_by_class-preferred :
    (first : ModelConfig) (rest : List ModelConfig) (complex : Bool)
    → let m = pick_by_class first rest complex in
      Mem m (first ∷ rest)
      × ((m.model_class ≡ preferred complex)
          ⊎ (Lacks (preferred complex) (first ∷ rest)
              × (complex ≡ true
                  → (m.model_class ≡ ModelClass.fast) ⊎ Lacks ModelClass.fast (first ∷ rest))))
unfolding pick_by_class
pick_by_class-preferred first rest true =
    elim (Option-cases (find (of_class ModelClass.large) (first ∷ rest))) [
      | inr (m, e) ↦
          let (l, c) = find-of_class ModelClass.large (first ∷ rest) m e in rw e (l, inl c)
      | inl e ↦ elim (Option-cases (find (of_class ModelClass.fast) (first ∷ rest))) [
        | inr (m, e') ↦
            let (l, c) = find-of_class ModelClass.fast (first ∷ rest) m e' in
            rw (e, e') (l, inr (Lacks-find ModelClass.large (first ∷ rest) e, λ _. inl c))
        | inl e' ↦
            rw (e, e')
              (
                Memᴰ.head refl,
                inr (
                  Lacks-find ModelClass.large (first ∷ rest) e,
                  λ _. inr (Lacks-find ModelClass.fast (first ∷ rest) e'),
                ),
              )
      ]
    ]
pick_by_class-preferred first rest false =
    elim (Option-cases (find (of_class ModelClass.fast) (first ∷ rest))) [
      | inr (m, e) ↦
          let (l, c) = find-of_class ModelClass.fast (first ∷ rest) m e in rw e (l, inl c)
      | inl e ↦ rw e (Memᴰ.head refl, inr (Lacks-find ModelClass.fast (first ∷ rest) e, λ t. cc))
    ]

reason_of-large : (c : ModelClass) → c ≡ ModelClass.large → reason_of c ≡ Reason.complexity_large
reason_of-large c e = rw e refl

reason_of-not_large : (c : ModelClass) → c ≢ ModelClass.large → reason_of c ≡ Reason.complexity_fast
reason_of-not_large ModelClass.large ne = absurd (ne refl)
reason_of-not_large ModelClass.fast ne = refl
reason_of-not_large ModelClass.vision ne = refl
reason_of-not_large ModelClass.embedding ne = refl

module _ (candidates : List ModelConfig) (required : List Capability) where
  Lacks-capable :
      (c : ModelClass)
      → Lacks c (filter_by_capabilities candidates required)
      → NoneCapable c candidates required
  unfolding filter_by_capabilities
  Lacks-capable c absent = All-of_mem _ candidates (λ m listed able.
      of_All _ (filter_by_capabilities candidates required) m absent
        (mem-filter _ candidates m listed ((has_all_capabilities_iff m required).1 able)))

  choose-IsPreferred :
      (eligible : List ModelConfig) (complex : Bool) {id : String} {reason : Reason}
      → eligible ≡ filter_by_capabilities candidates required
      → choose eligible required complex ≡ SelectModelResult.ok id reason
      → IsPreferred candidates required complex id reason
  unfolding choose filter_by_capabilities
  choose-IsPreferred [] complex same e = cc
  choose-IsPreferred (first ∷ rest) complex {id} {reason} same e =
      let m = pick_by_class first rest complex in
      let (listed, class) = pick_by_class-preferred first rest complex in
      let id_same : m.id ≡ id = ground arith in
      let why : reason_of m.model_class ≡ reason = ground arith in
      let (able, known) =
        mem-of-mem_filter (λ c. has_all_capabilities c required) candidates m
          (subst (λ (l : List ModelConfig). Mem m l) same listed) in
      let none_capable : (c : ModelClass)
          → Lacks c (first ∷ rest)
          → NoneCapable c candidates required =
        λ c absent. Lacks-capable c (subst (λ (l : List ModelConfig). Lacks c l) same absent) in
      record {
        model = m;
        listed = known;
        capable = (has_all_capabilities_iff m required).0 able;
        named = id_same;
        class = elim class [
          | inl c ↦ inl c
          | inr (absent, next) ↦ inr (
            none_capable (preferred complex) absent,
            λ on. elim (next on) [
              | inl c ↦ inl c
              | inr gone ↦ inr (none_capable ModelClass.fast gone)
            ],
          )
        ];
        large = λ l. sym why ∙ reason_of-large m.model_class l;
        not_large = λ n. sym why ∙ reason_of-not_large m.model_class n;
      }

-- A request that leaves the choice to the router, and that gets a model, gets a capable candidate of
-- the class that its signals ask for: large when it is complex and fast when it is not. Another
-- class is taken only when no capable candidate has that one; for a complex request it is fast then,
-- unless no capable candidate is fast. The reason tells whether the model is a large one.
pub select_model-IsPreferred :
    (request : ChatCompletionRequest) (candidates : List ModelConfig) (endpoint : Endpoint)
    {id : String} {reason : Reason}
    → named_model request.model ≡ none
    → select_model request candidates endpoint ≡ SelectModelResult.ok id reason
    → IsPreferred candidates
        (required_capabilities request endpoint)
        (is_complex (compute_complexity_signals request))
        id
        reason
unfolding select_auto
select_model-IsPreferred request candidates endpoint {id} {reason} auto e =
    let required = required_capabilities request endpoint in
    choose-IsPreferred candidates required (filter_by_capabilities candidates required)
      (is_complex (compute_complexity_signals request)) refl
      (rw (select_model-auto request candidates endpoint auto) at e)
