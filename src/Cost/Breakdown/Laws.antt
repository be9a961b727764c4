-- ===== src/Cost/Breakdown/Laws.antt =====
-- The groups of a breakdown add up.
use control_deck.Prelude.{
  ℕ, ◌+◌, String, Bool, true, false, ◌==◌, ◌≡◌, refl, sym, ap, ◌∙◌, if◌then◌else◌, any, filter,
  length, map, sum_by, sort_by, insert, List, [], ◌∷◌, Bool-cases, inl, inr, eq_iff, arith,
}
use control_deck.Database.{RequestRow, Db}
use control_deck.Cost.Breakdown.{
  CostBreakdownGroupBy, CostBreakdownEntry, GetCostBreakdownInput, key_of, is_in_window,
  distinct_keys, tokens_used, group_of, entry_for, dearer_first, get_cost_breakdown,
}

module _ {A : Type 0} (f : A → ℕ) (le : A → A → Bool) where
  sum_by-insert : (e : A) (xs : List A) → sum_by f (insert le e xs) ≡ f e + sum_by f xs
  unfolding insert
  sum_by-insert e [] = refl
  sum_by-insert e (x ∷ xs) = ground (arith, sum_by-insert e xs)

  sum_by-sort_by : (xs : List A) → sum_by f (sort_by le xs) ≡ sum_by f xs
  unfolding sort_by
  sum_by-sort_by [] = refl
  sum_by-sort_by (x ∷ xs) = sum_by-insert x (sort_by le xs) ∙ ap (λ n. f x + n) (sum_by-sort_by xs)

abbrev is_among : String → List String → Bool
is_among key keys = any (λ (k : String). k == key) keys

-- `n` for each time that a key is among the keys.
abbrev share : String → ℕ → List String → ℕ
share key n [] = 0
share key n (k ∷ keys) = (if key == k then n else 0) + share key n keys

share-absent :
    (key : String) (n : ℕ) (keys : List String) → is_among key keys ≡ false → share key n keys ≡ 0
share-absent key n [] e = refl
share-absent key n (k ∷ keys) e =
    let rest = share-absent key n keys (ground arith) in
    ground (arith, rest, eq_iff key k, eq_iff k key)

module _ (group : CostBreakdownGroupBy) where
  share-once :
      (key : String) (n : ℕ) (rows : List RequestRow)
      → is_among key (distinct_keys group rows) ≡ true
      → share key n (distinct_keys group rows) ≡ n
  share-once key n [] e = cc
  share-once key n (r ∷ rows) e =
      elim (Bool-cases (is_among (key_of group r) (distinct_keys group rows))) [
        | inl known ↦ rw known (share-once key n rows (rw known at e))
        | inr new ↦ elim (Bool-cases (key == key_of group r)) [
          | inl mine ↦
              let same : key ≡ key_of group r = (eq_iff key (key_of group r)).0 mine in
              let absent : is_among key (distinct_keys group rows) ≡ false = rw same new in
              rw new (rw mine (omega (arith, share-absent key n (distinct_keys group rows) absent)))
          | inr other ↦
              let apart : (key_of group r == key) ≡ false =
                ground (arith, eq_iff key (key_of group r), eq_iff (key_of group r) key) in
              let rest = share-once key n rows (rw apart at (rw new at e)) in
              rw new (rw other (omega (arith, rest)))
        ]
      ]

  module _ (g : RequestRow → ℕ) where
    -- A sum over the groups of some keys.
    abbrev sum_of_groups : List RequestRow → List String → ℕ
    sum_of_groups rows [] = 0
    sum_of_groups rows (k ∷ keys) = sum_by g (group_of group rows k) + sum_of_groups rows keys

    sum_of_groups-cons :
        (r : RequestRow) (rows : List RequestRow) (keys : List String)
        → sum_of_groups (r ∷ rows) keys
          ≡ share (key_of group r) (g r) keys + sum_of_groups rows keys
    sum_of_groups-cons r rows [] = refl
    sum_of_groups-cons r rows (k ∷ keys) = elim (Bool-cases (key_of group r == k)) [
      | inl e ↦ rw e (omega (arith, sum_of_groups-cons r rows keys))
      | inr e ↦ rw e (omega (arith, sum_of_groups-cons r rows keys))
    ]

    group-absent :
        (key : String) (rows : List RequestRow)
        → is_among key (distinct_keys group rows) ≡ false
        → sum_by g (group_of group rows key) ≡ 0
    group-absent key [] e = refl
    group-absent key (r ∷ rows) e =
        elim (Bool-cases (is_among (key_of group r) (distinct_keys group rows))) [
          | inl known ↦
              let absent : is_among key (distinct_keys group rows) ≡ false = rw known at e in
              elim (Bool-cases (key_of group r == key)) [
                | inl mine ↦
                    let same : key_of group r ≡ key = (eq_iff (key_of group r) key).0 mine in
                    let clash : is_among key (distinct_keys group rows) ≡ true = rw same at known in
                    cc
                | inr other ↦ rw other (group-absent key rows absent)
              ]
          | inr new ↦ elim (Bool-cases (key_of group r == key)) [
            | inl mine ↦ let clash = rw mine at (rw new at e) in cc
            | inr other ↦ rw other (group-absent key rows (rw other at (rw new at e)))
          ]
        ]

    sum_of_groups-total :
        (rows : List RequestRow) → sum_of_groups rows (distinct_keys group rows) ≡ sum_by g rows
    sum_of_groups-total [] = refl
    sum_of_groups-total (r ∷ rows) =
        let keys = distinct_keys group rows in
        let whole = sum_of_groups-total rows in
        elim (Bool-cases (is_among (key_of group r) keys)) [
          | inl known ↦ rw known (
              omega (
                arith,
                sum_of_groups-cons r rows keys,
                share-once (key_of group r) (g r) rows known,
                whole,
              ))
          | inr new ↦
              let own : share (key_of group r) (g r) (key_of group r ∷ keys)
                  ≡ g r + share (key_of group r) (g r) keys =
                rw ((eq_iff (key_of group r) (key_of group r)).1 refl) refl in
              rw new (
                omega (
                  arith,
                  sum_of_groups-cons r rows (key_of group r ∷ keys),
                  own,
                  share-absent (key_of group r) (g r) keys new,
                  group-absent (key_of group r) rows new,
                  whole,
                ))
        ]

-- A sum over the entries, whatever their order.
sum_by-entries :
    (group : CostBreakdownGroupBy) (rows : List RequestRow) (f : CostBreakdownEntry → ℕ)
    (g : RequestRow → ℕ)
    → ((key : String) → f (entry_for group rows key) ≡ sum_by g (group_of group rows key))
    → (keys : List String)
    → sum_by f (map (entry_for group rows) keys) ≡ sum_of_groups group g rows keys
sum_by-entries group rows f g same [] = refl
sum_by-entries group rows f g same (k ∷ keys) =
    omega (arith, same k, sum_by-entries group rows f g same keys)

length-sum : (rows : List RequestRow) → length rows ≡ sum_by (λ (r : RequestRow). 1) rows
length-sum [] = refl
length-sum (r ∷ rows) = omega (arith, length-sum rows)

-- The entries of a breakdown add up to the completed requests of its window and to their tokens: each
-- request is in one entry, and none is left out.
pub get_cost_breakdown-adds_up :
    (db : Db) (input : GetCostBreakdownInput)
    → let rows = filter (is_in_window input) db.requests in
      let entries = get_cost_breakdown db input in
      (sum_by (λ (e : CostBreakdownEntry). e.requests) entries ≡ length rows)
      × (sum_by (λ (e : CostBreakdownEntry). e.tokens) entries ≡ sum_by tokens_used rows)
unfolding get_cost_breakdown
get_cost_breakdown-adds_up db input =
    let rows = filter (is_in_window input) db.requests in
    let group = input.group_by in
    let keys = distinct_keys group rows in
    (
      sum_by-sort_by (λ (e : CostBreakdownEntry). e.requests) dearer_first
            (map (entry_for group rows) keys)
          ∙ sum_by-entries group rows (λ (e : CostBreakdownEntry). e.requests) (λ _. 1)
              (λ key. length-sum (group_of group rows key)) keys
          ∙ sum_of_groups-total group (λ _. 1) rows
          ∙ sym (length-sum rows),
      sum_by-sort_by (λ (e : CostBreakdownEntry). e.tokens) dearer_first
            (map (entry_for group rows) keys)
          ∙ sum_by-entries group rows (λ (e : CostBreakdownEntry). e.tokens) tokens_used
              (λ key. refl) keys
          ∙ sum_of_groups-total group tokens_used rows,
    )
