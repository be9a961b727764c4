-- ===== src/Prelude/Sort.antt =====
-- ORDER BY: a list in an order, with the same elements.
use mathlib.Core.Path.{◌≡◌, refl}
use mathlib.Core.Logic.{◌↔◌, inl, inr}
use mathlib.Core.Bool.{Bool, true, false}
use mathlib.Core.List.{List, [], ◌∷◌, Memᴰ}
use control_deck.Prelude.Tests.{if◌then◌else◌, Bool-cases}
use control_deck.Prelude.Lists.{All, Mem}
use control_deck.Prelude.Rows.{All-of_mem, of_All, All-map}
use control_deck.Prelude.Order.{IsPreorder}

module _ {ℓ} {A : Type ℓ} (le : A → A → Bool) where
  unfoldable pub insert : A → List A → List A
  insert e [] = e ∷ []
  insert e (x ∷ xs) = if le e x then e ∷ (x ∷ xs) else x ∷ insert e xs

  unfoldable pub sort_by : List A → List A
  unfolding insert
  sort_by [] = []
  sort_by (e ∷ es) = insert e (sort_by es)

  -- Each element is before all those after it.
  abbrev pub IsSorted : List A → Type ℓ
  IsSorted [] = Unit
  IsSorted (e ∷ es) = All (λ x. le e x ≡ true) es × IsSorted es

  All-insert {κ} : (P : A → Type κ) (e : A) (es : List A) → P e → All P es → All P (insert e es)
  unfolding insert
  All-insert P e [] h hs = (h, tt)
  All-insert P e (x ∷ xs) h hs = elim (Bool-cases (le e x)) [
    | inl k ↦ rw k (h, hs)
    | inr k ↦ rw k (hs.0, All-insert P e xs h hs.1)
  ]

  module _ (order : IsPreorder le) where
    swapped : (a b : A) → le a b ≡ false → le b a ≡ true
    swapped a b h = elim (order.total a b) [ inl k ↦ cc | inr k ↦ k ]

    insert-IsSorted : (e : A) (es : List A) → IsSorted es → IsSorted (insert e es)
    unfolding insert
    insert-IsSorted e [] h = (tt, tt)
    insert-IsSorted e (x ∷ xs) h = elim (Bool-cases (le e x)) [
      | inl k ↦ rw k (
        (
          k,
          All-map (λ y. le x y ≡ true) (λ y. le e y ≡ true) (λ y m. order.trans e x y k m) xs h.0,
        ),
        h,
      )
      | inr k ↦
          rw k (All-insert (λ y. le x y ≡ true) e xs (swapped e x k) h.0, insert-IsSorted e xs h.1)
    ]

    pub sort_by-IsSorted : (es : List A) → IsSorted (sort_by es)
    unfolding sort_by
    sort_by-IsSorted [] = tt
    sort_by-IsSorted (e ∷ es) = insert-IsSorted e (sort_by es) (sort_by-IsSorted es)

  mem-under :
      (y e x : A) (xs ys : List A)
      → (Mem y (e ∷ xs) → Mem y ys)
      → Mem y (e ∷ (x ∷ xs))
      → Mem y (x ∷ ys)
  mem-under y e x xs ys ih (Memᴰ.head q) = Memᴰ.tail (ih (Memᴰ.head q))
  mem-under y e x xs ys ih (Memᴰ.tail (Memᴰ.head q)) = Memᴰ.head q
  mem-under y e x xs ys ih (Memᴰ.tail (Memᴰ.tail m)) = Memᴰ.tail (ih (Memᴰ.tail m))

  mem-insert : (y e : A) (es : List A) → Mem y (e ∷ es) ↔ Mem y (insert e es)
  unfolding insert
  mem-insert y e es = (
    to es,
    of_All (λ z. Mem z (e ∷ es)) (insert e es) y
        (All-insert (λ z. Mem z (e ∷ es)) e es (Memᴰ.head refl)
          (All-of_mem (λ z. Mem z (e ∷ es)) es (λ x m. Memᴰ.tail m))),
  )
    where
      to : (es : List A) → Mem y (e ∷ es) → Mem y (insert e es)
      to [] m = m
      to (x ∷ xs) m = elim (Bool-cases (le e x)) [
        | inl k ↦ rw k m
        | inr k ↦ rw k (mem-under y e x xs (insert e xs) (to xs) m)
      ]

  mem-cons : (y e : A) (xs ys : List A) → (Mem y xs → Mem y ys) → Mem y (e ∷ xs) → Mem y (e ∷ ys)
  mem-cons y e xs ys f (Memᴰ.head q) = Memᴰ.head q
  mem-cons y e xs ys f (Memᴰ.tail m) = Memᴰ.tail (f m)

  pub mem-sort_by : (y : A) (es : List A) → Mem y es ↔ Mem y (sort_by es)
  unfolding sort_by
  mem-sort_by y [] = (λ m. m, λ m. m)
  mem-sort_by y (e ∷ es) = (
    λ m. (mem-insert y e (sort_by es)).0 (mem-cons y e es (sort_by es) (mem-sort_by y es).0 m),
    λ m. mem-cons y e (sort_by es) es (mem-sort_by y es).1 ((mem-insert y e (sort_by es)).1 m),
  )
