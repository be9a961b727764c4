-- ===== src/Audit/Scope/Laws.antt =====
-- What a switch does to the requests that it applies to, and to the others.
use control_deck.Prelude.{
  Option, none, some, sym, ◌==◌, ◌≢◌, ◌⊎◌, String, Bool, true, false, ◌≡◌, ◌↔◌, subst, refl, ap,
  ◌∙◌, ◌&&◌, ◌||◌, List, [], ◌∷◌, any, upsert, delete, All, Bool-cases, inl, inr, eq_iff, arith,
}
use control_deck.Database.{ScopeType, LoggingScopeRow, Db}
use control_deck.Audit.Scope.{
  IsContentLoggingEnabledInput, same_type, given, applies, switches_on, is_content_logging_enabled,
  same_scope, key_of_scope, enable, set_logging_scope,
}

same_type_iff : (a b : ScopeType) → (same_type a b ≡ true) ↔ (a ≡ b)
same_type_iff a b = ground arith

or_left_comm : (a b c : Bool) → (a || (b || c)) ≡ (b || (a || c))
or_left_comm true true c = refl
or_left_comm true false c = refl
or_left_comm false b c = refl

same_scope_sound :
    (kind : ScopeType) (key : String) (row : LoggingScopeRow)
    → same_scope kind key row ≡ true
    → (row.scope_type ≡ kind) × (row.scope_key ≡ key)
same_scope_sound kind key row h =
    ((same_type_iff row.scope_type kind).0 (ground arith), ground (arith, eq_iff row.scope_key key))

-- The primary key of audit_logging_config.
abbrev pub HasDistinctScopes : List LoggingScopeRow → Type 0
HasDistinctScopes [] = Unit
HasDistinctScopes (x ∷ xs) =
    All (λ y. same_scope x.scope_type x.scope_key y ≡ false) xs × HasDistinctScopes xs

module _ (input : IsContentLoggingEnabledInput) (kind : ScopeType) (key : String) where
  abbrev without : List LoggingScopeRow → List LoggingScopeRow
  without rows = delete (same_scope kind key) rows

  delete-absent :
      (rows : List LoggingScopeRow)
      → All (λ y. same_scope kind key y ≡ false) rows
      → without rows ≡ rows
  delete-absent [] h = refl
  delete-absent (x ∷ xs) h =
      rw h.0 (ap (λ (t : List LoggingScopeRow). x ∷ t) (delete-absent xs h.1))

  switch-upsert :
      (enabled : Bool) (rows : List LoggingScopeRow)
      → HasDistinctScopes rows
      → any (switches_on input) (
          upsert
            (same_scope kind key)
            (enable enabled)
            (record { scope_type = kind; scope_key = key; enabled = enabled })
            rows)
        ≡ (enabled && applies input kind key || any (switches_on input) (without rows))
  switch-upsert enabled [] h = refl
  switch-upsert enabled (x ∷ xs) h = elim (Bool-cases (same_scope kind key x)) [
    | inl e ↦
        let (kind_same, key_same) = same_scope_sound kind key x e in
        let gone : without xs ≡ xs = delete-absent xs (
          subst (λ k. All (λ y. same_scope k key y ≡ false) xs) kind_same
            (subst (λ k. All (λ y. same_scope x.scope_type k y ≡ false) xs) key_same h.0)) in
        rw e rw gone rw kind_same rw key_same refl
    | inr e ↦ rw e (
        ap (λ b. switches_on input x || b) (switch-upsert enabled xs h.1)
        ∙ or_left_comm (switches_on input x) (enabled && applies input kind key)
            (any (switches_on input) (without xs)))
  ]

-- Whom a switch is set for: everyone, or the requests of one team, model or key, which is not empty.
-- The key given for the switch of everyone does not matter.
pub data Covers (input : IsContentLoggingEnabledInput) : ScopeType → String → Type 0 where
  everyone : (k : String) → Covers input ScopeType.global k
  of_team : (k : String) → input.team ≡ some k → k ≢ "" → Covers input ScopeType.team k
  of_model : (k : String) → input.model_id ≡ some k → k ≢ "" → Covers input ScopeType.model k
  of_key : (k : String) → input.api_key ≡ some k → k ≢ "" → Covers input ScopeType.key k

given_sound : (o : Option String) (k : String) → given o k ≡ true → (o ≡ some k) × (k ≢ "")
given_sound none k e = cc
given_sound (some v) k e = elim (Bool-cases (v == "")) [
  | inl blank ↦ let stopped = rw blank at e in cc
  | inr filled ↦
      let same : k ≡ v = (eq_iff k v).0 (rw filled at e) in
      (ap some (sym same), λ q. let v_blank = (eq_iff v "").1 (sym same ∙ q) in cc)
]

given_complete : (o : Option String) (k : String) → o ≡ some k → k ≢ "" → given o k ≡ true
given_complete o k e filled = rw e (elim (Bool-cases (k == "")) [
  | inl blank ↦ absurd (filled ((eq_iff k "").0 blank))
  | inr h ↦ rw (h, (eq_iff k k).1 refl) refl
])

applies_iff :
    (input : IsContentLoggingEnabledInput) (kind : ScopeType) (k : String)
    → (applies input kind (key_of_scope kind k) ≡ true) ↔ Covers input kind k
applies_iff input ScopeType.global k = (λ _. Covers.everyone k, λ _. refl)
applies_iff input ScopeType.team k = (
  λ h. let (e, filled) = given_sound input.team k h in Covers.of_team k e filled,
  λ c. elim c [ of_team k e filled ↦ given_complete input.team k e filled ],
)
applies_iff input ScopeType.model k = (
  λ h. let (e, filled) = given_sound input.model_id k h in Covers.of_model k e filled,
  λ c. elim c [ of_model k e filled ↦ given_complete input.model_id k e filled ],
)
applies_iff input ScopeType.key k = (
  λ h. let (e, filled) = given_sound input.api_key k h in Covers.of_key k e filled,
  λ c. elim c [ of_key k e filled ↦ given_complete input.api_key k e filled ],
)

or_iff : (a b c : Bool) → ((a && b || c) ≡ true) ↔ (((a ≡ true) × (b ≡ true)) ⊎ (c ≡ true))
or_iff a b c = ground arith

-- After a switch is set, a request is logged exactly if the switch is on and set for everyone or for
-- the request's team, model or key, or if one of the other switches asks for it. There is one
-- switch per scope.
pub is_content_logging_enabled-set :
    (db : Db) (input : IsContentLoggingEnabledInput) (kind : ScopeType) (scope_key : String)
    (enabled : Bool)
    → HasDistinctScopes db.audit_logging_config
    → (is_content_logging_enabled (set_logging_scope db kind scope_key enabled) input ≡ true) ↔ (
        ((enabled ≡ true) × Covers input kind scope_key)
        ⊎ (any
              (switches_on input)
              (delete (same_scope kind (key_of_scope kind scope_key)) db.audit_logging_config)
            ≡ true))
unfolding is_content_logging_enabled set_logging_scope
is_content_logging_enabled-set db input kind scope_key enabled distinct =
    let key = key_of_scope kind scope_key in
    let e = switch-upsert input kind key enabled db.audit_logging_config distinct in
    let others = any (switches_on input) (delete (same_scope kind key) db.audit_logging_config) in
    let either = or_iff enabled (applies input kind key) others in
    let covers = applies_iff input kind scope_key in
    (
      λ h. elim (either.0 (sym e ∙ h)) [
        | inl (on, met) ↦ inl (on, covers.0 met)
        | inr other ↦ inr other
      ],
      λ d. e ∙ either.1 (elim d [ inl (on, c) ↦ inl (on, covers.1 c) | inr other ↦ inr other ]),
    )
