-- ===== src/Prelude/Order.antt =====
-- The least row of a table in a total order: ORDER BY … LIMIT 1.
use mathlib.Core.Path.{◌≡◌, refl, ap, subst, ◌∙◌}
use mathlib.Core.Logic.{◌⊎◌, inl, inr}
use mathlib.Core.Bool.{Bool, true, false, not, ◌&&◌, ◌||◌}
use mathlib.Core.Option.{Option, none, some}
use mathlib.Core.List.{List, [], ◌∷◌, Memᴰ}
use native.Mathlib.Omega.{arith}
use control_deck.Prelude.Tests.{leb, if◌then◌else◌, Bool-cases, Option-cases}
use control_deck.Prelude.Lists.{All, Mem}

-- A total preorder, given by its test.
pub record IsPreorder {ℓ} {A : Type ℓ} (le : A → A → Bool) : Type ℓ where
  pub total : (a b : A) → (le a b ≡ true) ⊎ (le b a ≡ true)
  pub trans : (a b c : A) → le a b ≡ true → le b c ≡ true → le a c ≡ true

module _ {ℓ} {A : Type ℓ} (le : A → A → Bool) where
  -- The earlier of two rows wins a tie.
  abbrev better : A → Option A → A
  better x none = x
  better x (some y) = if le x y then x else y

  unfoldable pub first_by : List A → Option A
  first_by [] = none
  first_by (x ∷ xs) = some (better x (first_by xs))

  pub first_by-none : (xs : List A) → first_by xs ≡ none → xs ≡ []
  unfolding first_by
  first_by-none [] e = refl
  first_by-none (x ∷ xs) e = cc

  pub first_by-mem : (xs : List A) (m : A) → first_by xs ≡ some m → Mem m xs
  unfolding first_by
  first_by-mem [] m e = cc
  first_by-mem (x ∷ xs) m e = elim (Option-cases (first_by xs)) [
    | inl h ↦ Memᴰ.head (ground arith)
    | inr (y, h) ↦ elim (Bool-cases (le x y)) [
      | inl k ↦ Memᴰ.head (ground arith)
      | inr k ↦ Memᴰ.tail (first_by-mem xs m (ground arith))
    ]
  ]

  module _ (order : IsPreorder le) where
    le_refl : (x : A) → le x x ≡ true
    le_refl x = elim (order.total x x) [ inl h ↦ h | inr h ↦ h ]

    not_first : (x y : A) → le x y ≡ false → le y x ≡ true
    not_first x y h = elim (order.total x y) [ inl k ↦ cc | inr k ↦ k ]

    All-le :
        (x y : A) (xs : List A)
        → le x y ≡ true
        → All (λ z. le y z ≡ true) xs
        → All (λ z. le x z ≡ true) xs
    All-le x y [] h k = tt
    All-le x y (z ∷ zs) h k = (order.trans x y z h k.0, All-le x y zs h k.1)

    -- The row chosen is at or before every row.
    pub first_by-least : (xs : List A) (m : A) → first_by xs ≡ some m → All (λ x. le m x ≡ true) xs
    unfolding first_by
    first_by-least [] m e = tt
    first_by-least (x ∷ xs) m e = elim (Option-cases (first_by xs)) [
      | inl h ↦
          let same : x ≡ m = ground arith in
          (subst (λ v. le v x ≡ true) same (le_refl x), rw (first_by-none xs h) tt)
      | inr (y, h) ↦ elim (Bool-cases (le x y)) [
        | inl k ↦
            let same : x ≡ m = ground arith in
            (
              subst (λ v. le v x ≡ true) same (le_refl x),
              subst (λ v. All (λ z. le v z ≡ true) xs) same
                  (All-le x y xs k (first_by-least xs y h)),
            )
        | inr k ↦
            let same : y ≡ m = ground arith in
            (
              subst (λ v. le v x ≡ true) same (not_first x y k),
              first_by-least xs m (h ∙ ap some same),
            )
      ]
    ]

-- ORDER BY le, le'.
abbrev pub lex {ℓ} : {A : Type ℓ} → (A → A → Bool) → (A → A → Bool) → A → A → Bool
lex le le' a b = le a b && (not (le b a) || le' a b)

-- ORDER BY f, in the order `le` of its values.
abbrev pub by {ℓ κ} : {A : Type ℓ} {B : Type κ} → (A → B) → (B → B → Bool) → A → A → Bool
by f le a b = le (f a) (f b)

pub by-IsPreorder {ℓ κ} :
    {A : Type ℓ} {B : Type κ} (f : A → B) {le : B → B → Bool} → IsPreorder le → IsPreorder (by f le)
by-IsPreorder f order = record {
  total = λ a b. order.total (f a) (f b);
  trans = λ a b c. order.trans (f a) (f b) (f c);
}

pub lex-IsPreorder {ℓ} :
    {A : Type ℓ} {le le' : A → A → Bool} → IsPreorder le → IsPreorder le' → IsPreorder (lex le le')
lex-IsPreorder o o' = record {
  total = λ a b. ground (arith, o.total a b, o'.total a b);
  trans = λ a b c h k. ground (arith, o.trans a b c, o.trans c a b, o.trans b c a, o'.trans a b c);
}

pub leb-IsPreorder : IsPreorder leb
leb-IsPreorder = record { total = λ a b. ground arith; trans = λ a b c h k. ground arith }

-- DESC NULLS FIRST.
abbrev pub nulls_first {ℓ} : {A : Type ℓ} → (A → A → Bool) → Option A → Option A → Bool
nulls_first le none b = true
nulls_first le (some a) none = false
nulls_first le (some a) (some b) = le b a

pub nulls_first-IsPreorder {ℓ} :
    {A : Type ℓ} {le : A → A → Bool} → IsPreorder le → IsPreorder (nulls_first le)
nulls_first-IsPreorder {A} {le} o = record { total = total; trans = trans }
  where
    total : (a b : Option A) → (nulls_first le a b ≡ true) ⊎ (nulls_first le b a ≡ true)
    total none b = inl refl
    total (some a) none = inr refl
    total (some a) (some b) = o.total b a

    trans :
        (a b c : Option A)
        → nulls_first le a b ≡ true
        → nulls_first le b c ≡ true
        → nulls_first le a c ≡ true
    trans none b c h k = refl
    trans (some a) none c h k = cc
    trans (some a) (some b) none h k = cc
    trans (some a) (some b) (some c) h k = o.trans c b a k h
