-- ===== src/Http/ToolCalls/Laws.antt =====
-- The calls that are put together are those that were streamed.
use control_deck.Prelude.{
  ℕ, Bool, true, false, ◌≡◌, refl, sym, ap, ◌∙◌, subst, eqb, if◌then◌else◌, ◌||◌, List, [], ◌∷◌,
  ◌++◌, map, any, upsert, append-nil, append_assoc, All, Mem, of_All, All-upsert, Bool-cases, inl,
  inr, sort_by, IsSorted, sort_by-IsSorted, mem-sort_by, IsPreorder, by-IsPreorder, leb-IsPreorder,
  arith,
}
use control_deck.Types.{Text}
use control_deck.Http.ToolCalls.{
  ToolCallDelta, ToolCall, blank, extend, index_of, entry_is, extend_entry, collect, lower_index,
  assemble_tool_calls,
}

-- The argument text of call `i`: its fragments in the order in which they came.
abbrev pub fragments : ℕ → List ToolCallDelta → Text
fragments i [] = []
fragments i (d ∷ ds) = if eqb (index_of d) i then d.arguments ++ fragments i ds else fragments i ds

abbrev pub is_for : ℕ → ToolCallDelta → Bool
is_for i d = eqb (index_of d) i

abbrev pub HasDistinctIndices : List (ℕ × ToolCall) → Type 0
HasDistinctIndices [] = Unit
HasDistinctIndices (e ∷ es) = All (λ x. entry_is e.0 x ≡ false) es × HasDistinctIndices es

module _ (i : ℕ) (f : ℕ × ToolCall → ℕ × ToolCall) (new : ℕ × ToolCall)
    (keeps : (x : ℕ × ToolCall) → (f x).0 ≡ x.0) (named : new.0 ≡ i) where
  HasDistinctIndices-upsert :
      (es : List (ℕ × ToolCall))
      → HasDistinctIndices es
      → HasDistinctIndices (upsert (entry_is i) f new es)
  HasDistinctIndices-upsert [] h = (tt, tt)
  HasDistinctIndices-upsert (e ∷ es) h = elim (Bool-cases (entry_is i e)) [
    | inl k ↦ rw k (rw (keeps e) h.0, h.1)
    | inr k ↦ rw k (
      All-upsert (λ x. entry_is e.0 x ≡ false) (entry_is i) f new (λ x m. rw (keeps x) m) es
          (λ _. ground (arith, named)) h.0,
      HasDistinctIndices-upsert es h.1,
    )
  ]

  module _ (P Q : ℕ × ToolCall → Type 0)
      (hit : (x : ℕ × ToolCall) → entry_is i x ≡ true → P x → Q (f x))
      (miss : (x : ℕ × ToolCall) → entry_is i x ≡ false → P x → Q x) where
    All-miss : (es : List (ℕ × ToolCall)) → All (λ x. entry_is i x ≡ false) es → All P es → All Q es
    All-miss [] m h = tt
    All-miss (e ∷ es) m h = (miss e m.0 h.0, All-miss es m.1 h.1)

    All-upsert_at :
        (es : List (ℕ × ToolCall))
        → (any (entry_is i) es ≡ false → Q new)
        → HasDistinctIndices es
        → All P es
        → All Q (upsert (entry_is i) f new es)
    All-upsert_at [] fresh d h = (fresh refl, tt)
    All-upsert_at (e ∷ es) fresh d h = elim (Bool-cases (entry_is i e)) [
      | inl k ↦
          let at : e.0 ≡ i = ground arith in
          rw k
            (hit e k h.0, All-miss es (subst (λ j. All (λ x. entry_is j x ≡ false) es) at d.0) h.1)
      | inr k ↦ rw k (miss e k h.0, All-upsert_at es (λ a. fresh (rw (k, a) refl)) d.1 h.1)
    ]

any-upsert_at :
    (i j : ℕ) (f : ℕ × ToolCall → ℕ × ToolCall) (new : ℕ × ToolCall)
    → ((x : ℕ × ToolCall) → (f x).0 ≡ x.0)
    → new.0 ≡ i
    → (es : List (ℕ × ToolCall))
    → any (entry_is j) (upsert (entry_is i) f new es) ≡ (eqb i j || any (entry_is j) es)
any-upsert_at i j f new keeps named [] = rw named refl
any-upsert_at i j f new keeps named (e ∷ es) = elim (Bool-cases (entry_is i e)) [
  | inl k ↦ let at : e.0 ≡ i = ground arith in rw k rw (keeps e) rw at (ground arith)
  | inr k ↦ rw k (ground (arith, any-upsert_at i j f new keeps named es))
]

fragments-snoc :
    (i : ℕ) (ds : List ToolCallDelta) (d : ToolCallDelta)
    → fragments i (ds ++ (d ∷ []))
      ≡ fragments i ds ++ (if eqb (index_of d) i then d.arguments else [])
fragments-snoc i [] d = elim (Bool-cases (eqb (index_of d) i)) [
  | inl e ↦ rw e (append-nil d.arguments)
  | inr e ↦ rw e refl
]
fragments-snoc i (x ∷ ds) d = elim (Bool-cases (eqb (index_of x) i)) [
  | inl e ↦ rw e (
      ap (λ (t : Text). x.arguments ++ t) (fragments-snoc i ds d)
      ∙ sym (
          append_assoc x.arguments (fragments i ds)
            (if eqb (index_of d) i then d.arguments else [])))
  | inr e ↦ rw e (fragments-snoc i ds d)
]

any-snoc :
    (i : ℕ) (ds : List ToolCallDelta) (d : ToolCallDelta)
    → any (is_for i) (ds ++ (d ∷ [])) ≡ (eqb (index_of d) i || any (is_for i) ds)
any-snoc i [] d = refl
any-snoc i (x ∷ ds) d = ground (arith, any-snoc i ds d)

fragments-none : (i : ℕ) (ds : List ToolCallDelta) → any (is_for i) ds ≡ false → fragments i ds ≡ []
fragments-none i [] h = refl
fragments-none i (d ∷ ds) h = elim (Bool-cases (eqb (index_of d) i)) [
  | inl e ↦ absurd (ground arith)
  | inr e ↦ rw e (fragments-none i ds (ground arith))
]

-- The entries after the deltas `seen`: one per index that occurs, with the argument text so far.
pub record Collected (seen : List ToolCallDelta) (entries : List (ℕ × ToolCall)) : Type 0 where
  pub distinct : HasDistinctIndices entries
  pub exact : All (λ (e : ℕ × ToolCall). e.1.arguments ≡ fragments e.0 seen) entries
  pub covers : (i : ℕ) → any (entry_is i) entries ≡ any (is_for i) seen

Collected-step :
    (seen : List ToolCallDelta) (d : ToolCallDelta) (entries : List (ℕ × ToolCall))
    → Collected seen entries
    → Collected
        (seen ++ (d ∷ []))
        (upsert (entry_is (index_of d)) (extend_entry d) (index_of d, extend d blank) entries)
Collected-step seen d entries h =
    let i = index_of d in
    let new : ℕ × ToolCall = (index_of d, extend d blank) in
    record {
      distinct =
          HasDistinctIndices-upsert i (extend_entry d) new (λ x. refl) refl entries h.distinct;
      exact =
          All-upsert_at i (extend_entry d) new (λ x. refl) refl
            (λ e. e.1.arguments ≡ fragments e.0 seen)
            (λ e. e.1.arguments ≡ fragments e.0 (seen ++ (d ∷ [])))
            (λ x at so_far.
              let here : eqb (index_of d) x.0 ≡ true = ground arith in
              rw (fragments-snoc x.0 seen d, here) (ap (λ (t : Text). t ++ d.arguments) so_far))
            (λ x other so_far.
              let elsewhere : eqb (index_of d) x.0 ≡ false = ground arith in
              rw (fragments-snoc x.0 seen d, elsewhere)
                (so_far ∙ sym (append-nil (fragments x.0 seen))))
            entries
            (λ absent.
              let here : eqb i i ≡ true = ground arith in
              rw (fragments-snoc i seen d, here, fragments-none i seen (sym (h.covers i) ∙ absent))
                refl)
            h.distinct h.exact;
      covers = λ j.
          any-upsert_at i j (extend_entry d) new (λ x. refl) refl entries
          ∙ ap (λ b. eqb i j || b) (h.covers j)
          ∙ sym (any-snoc j seen d);
    }

collect-Collected :
    (seen ds : List ToolCallDelta) (entries : List (ℕ × ToolCall))
    → Collected seen entries
    → Collected (seen ++ ds) (collect ds entries)
unfolding collect
collect-Collected seen [] entries h = rw (append-nil seen) h
collect-Collected seen (d ∷ ds) entries h = rw (← append_assoc seen (d ∷ []) ds) (
    collect-Collected (seen ++ (d ∷ [])) ds
      (upsert (entry_is (index_of d)) (extend_entry d) (index_of d, extend d blank) entries)
      (Collected-step seen d entries h))

lower_index-IsPreorder : IsPreorder lower_index
lower_index-IsPreorder = by-IsPreorder (λ (e : ℕ × ToolCall). e.0) leb-IsPreorder

-- The calls that a caller is given are one per index that occurs among the fragments, in the order of
-- the indices, and the arguments of each are all its fragments in the order in which they came.
pub assemble_tool_calls-Collected :
    (deltas : List ToolCallDelta)
    → (entries : List (ℕ × ToolCall)) × Collected deltas entries
      × (assemble_tool_calls deltas ≡ map (λ (e : ℕ × ToolCall). e.1) (sort_by lower_index entries))
      × IsSorted lower_index (sort_by lower_index entries)
      × ((e : ℕ × ToolCall)
          → Mem e (sort_by lower_index entries)
          → e.1.arguments ≡ fragments e.0 deltas)
unfolding assemble_tool_calls
assemble_tool_calls-Collected deltas =
    let entries = collect deltas [] in
    let whole : Collected deltas entries =
      collect-Collected [] deltas [] (record { distinct = tt; exact = tt; covers = λ i. refl }) in
    (
      entries,
      whole,
      refl,
      sort_by-IsSorted lower_index lower_index-IsPreorder entries,
      λ e m.
          of_All (λ (x : ℕ × ToolCall). x.1.arguments ≡ fragments x.0 deltas) entries e whole.exact
            ((mem-sort_by lower_index e entries).1 m),
    )
