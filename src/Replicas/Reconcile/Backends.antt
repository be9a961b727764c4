-- ===== src/Replicas/Reconcile/Backends.antt =====
-- The backends that a pass probes: one for each name that a model has for its backend.
use control_deck.Prelude.{
  String, Bool, true, ◌==◌, ◌≡◌, ◌⊎◌, inl, inr, refl, subst, or_else, List, [], ◌∷◌, ◌++◌, any,
  find, All, Mem, Memᴰ, any_sound, find_sound, mem-map, of_All, Bool-cases, Option-cases,
  All-of_mem, eq_iff, eq_refl,
}
use control_deck.Types.{ModelConfig}
use control_deck.Replicas.Reconcile.{add_backend, collect_backends, backends_of}

abbrev Known : Type 0
Known = List (String × ModelConfig)

abbrev names : String → String × ModelConfig → Bool
names k b = b.0 == k

-- A model that carries the backend `k`, or that is served by it.
abbrev pub IsBackend : List ModelConfig → String → ModelConfig → Type 0
IsBackend models k b = Mem b models × ((b.id ≡ k) ⊎ (b.backend_model_id ≡ k))

any-append_left :
    {A : Type 0} (p : A → Bool) (xs ys : List A) → any p xs ≡ true → any p (xs ++ ys) ≡ true
any-append_left p [] ys h = cc
any-append_left p (x ∷ xs) ys h = elim (Bool-cases (p x)) [
  | inl e ↦ rw e refl
  | inr e ↦ rw e (any-append_left p xs ys (rw e at h))
]

any-append_last :
    {A : Type 0} (p : A → Bool) (xs : List A) (y : A) → p y ≡ true → any p (xs ++ (y ∷ [])) ≡ true
any-append_last p [] y h = rw h refl
any-append_last p (x ∷ xs) y h = elim (Bool-cases (p x)) [
  | inl e ↦ rw e refl
  | inr e ↦ rw e (any-append_last p xs y h)
]

All-append_last :
    {A : Type 0} (P : A → Type 0) (xs : List A) (y : A) → All P xs → P y → All P (xs ++ (y ∷ []))
All-append_last P [] y h k = (k, tt)
All-append_last P (x ∷ xs) y (h, hs) k = (h, All-append_last P xs y hs k)

module _ (models : List ModelConfig) where
  abbrev IsEntry : String × ModelConfig → Type 0
  IsEntry b = IsBackend models b.0 b.1

  -- The entry that is added for a model.
  owner-IsBackend :
      (m : ModelConfig)
      → Mem m models
      → IsBackend models m.backend_model_id
          (or_else (find (λ (o : ModelConfig). o.id == m.backend_model_id) models) m)
  owner-IsBackend m listed =
      elim (Option-cases (find (λ (o : ModelConfig). o.id == m.backend_model_id) models)) [
        | inl e ↦ rw e (listed, inr refl)
        | inr (o, e) ↦
            let (named, known) =
              find_sound (λ (o : ModelConfig). o.id == m.backend_model_id) models o e in
            rw e (known, inl ((eq_iff o.id m.backend_model_id).0 named))
      ]

  add_backend-entries :
      (known : Known) (m : ModelConfig)
      → Mem m models
      → All IsEntry known
      → All IsEntry (add_backend models known m)
  add_backend-entries known m listed h = elim (Bool-cases (any (names m.backend_model_id) known)) [
    | inl e ↦ rw e h
    | inr e ↦ rw e (All-append_last IsEntry known _ h (owner-IsBackend m listed))
  ]

  add_backend-keeps :
      (known : Known) (m : ModelConfig) (k : String)
      → any (names k) known ≡ true
      → any (names k) (add_backend models known m) ≡ true
  add_backend-keeps known m k h = elim (Bool-cases (any (names m.backend_model_id) known)) [
    | inl e ↦ rw e h
    | inr e ↦ rw e (any-append_left (names k) known _ h)
  ]

  add_backend-own :
      (known : Known) (m : ModelConfig)
      → any (names m.backend_model_id) (add_backend models known m) ≡ true
  add_backend-own known m = elim (Bool-cases (any (names m.backend_model_id) known)) [
    | inl e ↦ rw e e
    | inr e ↦ rw e (any-append_last (names m.backend_model_id) known _ (eq_refl m.backend_model_id))
  ]

  collect_backends-entries :
      (ms : List ModelConfig) (known : Known)
      → All (λ m. Mem m models) ms
      → All IsEntry known
      → All IsEntry (collect_backends models ms known)
  collect_backends-entries [] known l h = h
  collect_backends-entries (m ∷ ms) known (l, ls) h =
      collect_backends-entries ms (add_backend models known m) ls (add_backend-entries known m l h)

  collect_backends-keeps :
      (ms : List ModelConfig) (known : Known) (k : String)
      → any (names k) known ≡ true
      → any (names k) (collect_backends models ms known) ≡ true
  collect_backends-keeps [] known k h = h
  collect_backends-keeps (m ∷ ms) known k h =
      collect_backends-keeps ms (add_backend models known m) k (add_backend-keeps known m k h)

  collect_backends-own :
      (ms : List ModelConfig) (known : Known) (m : ModelConfig)
      → Mem m ms
      → any (names m.backend_model_id) (collect_backends models ms known) ≡ true
  collect_backends-own [] known m l = elim l [ ]
  collect_backends-own (x ∷ ms) known m (Memᴰ.head e) =
      collect_backends-keeps ms (add_backend models known x) m.backend_model_id
        (rw e (add_backend-own known x))
  collect_backends-own (x ∷ ms) known m (Memᴰ.tail l) =
      collect_backends-own ms (add_backend models known x) m l

  -- Every model has its backend among those that are probed.
  pub backends_of_complete :
      (m : ModelConfig)
      → Mem m models
      → (b : ModelConfig) × Mem b (backends_of models) × IsBackend models m.backend_model_id b
  backends_of_complete m listed =
      let known = collect_backends models models [] in
      let (b, in_known, named) =
        any_sound (names m.backend_model_id) known (collect_backends-own models [] m listed) in
      let entry =
        of_All IsEntry known b
          (collect_backends-entries models [] (All-of_mem _ models (λ x l. l)) tt) in_known in
      (
        b.1,
        mem-map (λ (b : String × ModelConfig). b.1) known b in_known,
        subst (λ k. IsBackend models k b.1) ((eq_iff b.0 m.backend_model_id).0 named) entry,
      )
