-- ===== src/Routing/Select/Errors.antt =====
-- When a selection fails, and that an explicit choice is never replaced.
use control_deck.Prelude.{
  String, Bool, true, ◌≡◌, refl, ◌≢◌, ◌↔◌, inl, inr, ◌==◌, none, some, List, [], ◌∷◌, find, filter,
  not, All, Mem, find_sound, mem-of-mem_filter, mem-filter, filter-nil_iff_none, Option-cases,
  Bool-cases, eq_iff, arith,
}
use control_deck.Types.{Capability, ModelConfig, ChatCompletionRequest}
use control_deck.Routing.Capabilities.{
  Endpoint, required_capabilities, includes, has_all_capabilities, filter_by_capabilities,
}
use control_deck.Routing.Select.{
  SelectModelResult, Reason, named_model, select_explicit, choose, select_auto, select_model,
}
use control_deck.Routing.Select.Laws.{
  Supports, has_all_capabilities_iff, includes_sound, includes_of_mem,
}

abbrev id_is : String → ModelConfig → Bool
id_is n m = m.id == n

find-id-none_iff :
    (n : String) (candidates : List ModelConfig)
    → (find (id_is n) candidates ≡ none) ↔ All (λ (m : ModelConfig). m.id ≢ n) candidates
find-id-none_iff n [] = (λ _. tt, λ _. refl)
find-id-none_iff n (m ∷ ms) = ground (arith, eq_iff m.id n, find-id-none_iff n ms)

select_model-explicit :
    (request : ChatCompletionRequest) (candidates : List ModelConfig) (endpoint : Endpoint)
    (n : String)
    → named_model request.model ≡ some n
    → select_model request candidates endpoint
      ≡ select_explicit n candidates (required_capabilities request endpoint)
unfolding select_model
select_model-explicit request candidates endpoint n e = rw (e, select_model)

pub select_model-auto :
    (request : ChatCompletionRequest) (candidates : List ModelConfig) (endpoint : Endpoint)
    → named_model request.model ≡ none
    → select_model request candidates endpoint
      ≡ select_auto request candidates (required_capabilities request endpoint)
unfolding select_model
select_model-auto request candidates endpoint e = rw (e, select_model)

-- What an explicit choice may come to.
pub data ExplicitOutcome (n : String) (candidates : List ModelConfig) (required : List Capability)
    : SelectModelResult → Type 0 where
  taken :
      (m : ModelConfig)
      → find (id_is n) candidates ≡ some m
      → Supports m required
      → ExplicitOutcome n candidates required (SelectModelResult.ok n Reason.explicit_override)
  unknown :
      All (λ (m : ModelConfig). m.id ≢ n) candidates
      → ExplicitOutcome n candidates required (SelectModelResult.model_not_found n)
  incapable :
      (m : ModelConfig) (missing : List Capability)
      → find (id_is n) candidates ≡ some m
      → ¬ Supports m required
      → ((cap : Capability) → Mem cap missing ↔ Mem cap required × ¬ Mem cap m.capabilities)
      → ExplicitOutcome n candidates required (SelectModelResult.lacks n missing)

abbrev lacking : ModelConfig → Capability → Bool
lacking m cap = not (includes m.capabilities cap)

missing_iff :
    (m : ModelConfig) (required : List Capability) (cap : Capability)
    → Mem cap (filter (lacking m) required) ↔ Mem cap required × ¬ Mem cap m.capabilities
missing_iff m required cap = (
  λ h.
      let (lack, needed) = mem-of-mem_filter (lacking m) required cap h in
      (needed, λ k. let e = includes_of_mem m.capabilities cap k in ground arith),
  λ h. mem-filter (lacking m) required cap h.0 (absent h.1),
)
  where
    absent : ¬ Mem cap m.capabilities → lacking m cap ≡ true
    absent k = elim (Bool-cases (includes m.capabilities cap)) [
      | inl e ↦ absurd (k (includes_sound m.capabilities cap e))
      | inr e ↦ rw e refl
    ]

known_outcome :
    (n : String) (candidates : List ModelConfig) (required : List Capability) (m : ModelConfig)
    → find (id_is n) candidates ≡ some m
    → ExplicitOutcome n candidates required (select_explicit n candidates required)
unfolding select_explicit
known_outcome n candidates required m found =
    let named : m.id ≡ n = (eq_iff m.id n).0 (find_sound (id_is n) candidates m found).0 in
    elim (Bool-cases (has_all_capabilities m required)) [
      | inl able ↦
          rw (found, select_explicit, able, named)
            (taken m found ((has_all_capabilities_iff m required).0 able))
      | inr unable ↦
          rw (found, select_explicit, unable)
            (incapable m (filter (lacking m) required) found
              (λ h. let e = (has_all_capabilities_iff m required).1 h in ground arith)
              (missing_iff m required))
    ]

-- A request that names a model gets that model or an error, never another model. It gets the model
-- when the first candidate of that id supports all that is required; it is told that the model is
-- unknown when no candidate has the id; otherwise the error lists exactly the required
-- capabilities that the model lacks.
pub select_model-ExplicitOutcome :
    (request : ChatCompletionRequest) (candidates : List ModelConfig) (endpoint : Endpoint)
    (n : String)
    → named_model request.model ≡ some n
    → ExplicitOutcome n candidates
        (required_capabilities request endpoint)
        (select_model request candidates endpoint)
unfolding select_explicit
select_model-ExplicitOutcome request candidates endpoint n e =
    rw (select_model-explicit request candidates endpoint n e)
      (elim (Option-cases (find (id_is n) candidates)) [
        | inl missing ↦
            rw (missing, select_explicit) (unknown ((find-id-none_iff n candidates).0 missing))
        | inr (m, found) ↦ known_outcome n candidates _ m found
      ])

choose-none_iff :
    (eligible : List ModelConfig) (required r : List Capability) (complex : Bool)
    → (choose eligible required complex ≡ SelectModelResult.none_eligible r)
      ↔ (eligible ≡ []) × (r ≡ required)
unfolding choose
choose-none_iff [] required r complex = ground arith
choose-none_iff (m ∷ ms) required r complex = ground arith

filter-nil_iff :
    (candidates : List ModelConfig) (required : List Capability)
    → (filter_by_capabilities candidates required ≡ [])
      ↔ All (λ m. ¬ Supports m required) candidates
unfolding filter_by_capabilities
filter-nil_iff candidates required =
    filter-nil_iff_none (λ m. has_all_capabilities m required) (λ m. Supports m required)
      (λ m. has_all_capabilities_iff m required) candidates

-- A request that leaves the choice to the router is refused exactly when no candidate supports all
-- that it needs, and the error then lists all that it needs.
pub select_model-none_eligible_iff :
    (request : ChatCompletionRequest) (candidates : List ModelConfig) (endpoint : Endpoint)
    (r : List Capability)
    → named_model request.model ≡ none
    → (select_model request candidates endpoint ≡ SelectModelResult.none_eligible r)
      ↔ All (λ m. ¬ Supports m (required_capabilities request endpoint)) candidates
        × (r ≡ required_capabilities request endpoint)
unfolding select_auto
select_model-none_eligible_iff request candidates endpoint r e =
    let required = required_capabilities request endpoint in
    let kept = filter-nil_iff candidates required in
    let chosen = choose-none_iff (filter_by_capabilities candidates required) required r _ in
    rw (select_model-auto request candidates endpoint e)
      (λ h. (kept.0 (chosen.0 h).0, (chosen.0 h).1), λ h. chosen.1 (kept.1 h.0, h.1))
