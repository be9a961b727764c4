-- ===== src/Prelude/Rows.antt =====
-- What the queries of `Lists` find, keep and change.
use Prim.Native.Nat.{◌≤◌}
use mathlib.Core.Path.{◌≡◌, refl, sym, ap}
use mathlib.Core.Logic.{◌≢◌, ◌↔◌, inl, inr}
use mathlib.Core.Bool.{Bool, true, false}
use mathlib.Core.Option.{none, some}
use mathlib.Core.List.{List, [], ◌∷◌, Memᴰ, map}
use native.Mathlib.Omega.{arith}
use control_deck.Prelude.Tests.{Bool-cases, if◌then◌else◌}
use control_deck.Prelude.Lists.{length, find, filter, update, delete, upsert, any, all, All, Mem}

module _ {ℓ} {A : Type ℓ} (p : A → Bool) where
  pub find_sound : (xs : List A) (x : A) → find p xs ≡ some x → (p x ≡ true) × Mem x xs
  find_sound [] x e = cc
  find_sound (y ∷ ys) x e = elim (Bool-cases (p y)) [
    | inl h ↦ let same : y ≡ x = ground arith in (rw (← same) h, Memᴰ.head (sym same))
    | inr h ↦ let (q, m) = find_sound ys x (ground arith) in (q, Memᴰ.tail m)
  ]

  pub find-none : (xs : List A) → find p xs ≡ none → All (λ x. p x ≡ false) xs
  find-none [] e = tt
  find-none (y ∷ ys) e = (ground arith, find-none ys (ground arith))

  pub find-ne-none : (xs : List A) (x : A) → Mem x xs → p x ≡ true → find p xs ≢ none
  find-ne-none [] x m h = elim m [ ]
  find-ne-none (y ∷ ys) x (Memᴰ.head e) h = rw (← e, h) (λ k. cc)
  find-ne-none (y ∷ ys) x (Memᴰ.tail m) h = ground (arith, find-ne-none ys x m h)

  kept_cases :
      (x y : A) (zs ys : List A)
      → p y ≡ true
      → (Mem x zs → (p x ≡ true) × Mem x ys)
      → Mem x (y ∷ zs)
      → (p x ≡ true) × Mem x (y ∷ ys)
  kept_cases x y zs ys h ih (Memᴰ.head e) = (rw e h, Memᴰ.head e)
  kept_cases x y zs ys h ih (Memᴰ.tail m) = let (q, k) = ih m in (q, Memᴰ.tail k)

  pub mem-of-mem_filter : (xs : List A) (x : A) → Mem x (filter p xs) → (p x ≡ true) × Mem x xs
  mem-of-mem_filter [] x m = elim m [ ]
  mem-of-mem_filter (y ∷ ys) x m = elim (Bool-cases (p y)) [
    | inl h ↦ kept_cases x y (filter p ys) ys h (mem-of-mem_filter ys x) (rw h at m)
    | inr h ↦ let (q, k) = mem-of-mem_filter ys x (rw h at m) in (q, Memᴰ.tail k)
  ]

  pub mem-filter : (xs : List A) (x : A) → Mem x xs → p x ≡ true → Mem x (filter p xs)
  mem-filter [] x m h = elim m [ ]
  mem-filter (y ∷ ys) x (Memᴰ.head e) h = rw (← e, h) (Memᴰ.head refl)
  mem-filter (y ∷ ys) x (Memᴰ.tail m) h = elim (Bool-cases (p y)) [
    | inl k ↦ rw k (Memᴰ.tail (mem-filter ys x m h))
    | inr k ↦ rw k (mem-filter ys x m h)
  ]

  pub filter-eq-nil_iff : (xs : List A) → (filter p xs ≡ []) ↔ All (λ x. p x ≡ false) xs
  filter-eq-nil_iff [] = (λ _. tt, λ _. refl)
  filter-eq-nil_iff (x ∷ xs) = ground (arith, filter-eq-nil_iff xs)

  pub length-filter-le : (xs : List A) → length (filter p xs) ≤ length xs
  length-filter-le [] = omega arith
  length-filter-le (x ∷ xs) = ground (arith, length-filter-le xs)

  pub length-update : (f : A → A) (xs : List A) → length (update p f xs) ≡ length xs
  length-update f [] = refl
  length-update f (x ∷ xs) = ground (arith, length-update f xs)

module _ {ℓ κ} {A : Type ℓ} (P : A → Type κ) where
  pub All-update :
      (p : A → Bool) (f : A → A) (xs : List A)
      → ((x : A) → Mem x xs → p x ≡ true → P x → P (f x))
      → All P xs
      → All P (update p f xs)
  All-update p f [] step h = tt
  All-update p f (x ∷ xs) step (h, hs) =
      let rest = All-update p f xs (λ y m. step y (Memᴰ.tail m)) hs in
      elim (Bool-cases (p x)) [
        | inl e ↦ rw e (step x (Memᴰ.head refl) e h, rest)
        | inr e ↦ rw e (h, rest)
      ]

  pub All-delete : (p : A → Bool) (xs : List A) → All P xs → All P (delete p xs)
  All-delete p [] h = tt
  All-delete p (x ∷ xs) (h, hs) = elim (Bool-cases (p x)) [
    | inl e ↦ rw e (All-delete p xs hs)
    | inr e ↦ rw e (h, All-delete p xs hs)
  ]

  pub of_All : (xs : List A) (x : A) → All P xs → Mem x xs → P x
  of_All [] x h m = elim m [ ]
  of_All (y ∷ ys) x h (Memᴰ.head e) = rw e h.0
  of_All (y ∷ ys) x h (Memᴰ.tail m) = of_All ys x h.1 m

  pub All-of_mem : (xs : List A) → ((x : A) → Mem x xs → P x) → All P xs
  All-of_mem [] h = tt
  All-of_mem (x ∷ xs) h = (h x (Memᴰ.head refl), All-of_mem xs (λ y m. h y (Memᴰ.tail m)))

module _ {ℓ} {A : Type ℓ} (p : A → Bool) where
  pub any_sound : (xs : List A) → any p xs ≡ true → (x : A) × Mem x xs × (p x ≡ true)
  any_sound [] e = cc
  any_sound (y ∷ ys) e = elim (Bool-cases (p y)) [
    | inl h ↦ (y, Memᴰ.head refl, h)
    | inr h ↦ let (x, m, q) = any_sound ys (ground arith) in (x, Memᴰ.tail m, q)
  ]

  pub any_of_mem : (xs : List A) (x : A) → Mem x xs → p x ≡ true → any p xs ≡ true
  any_of_mem [] x m h = elim m [ ]
  any_of_mem (y ∷ ys) x (Memᴰ.head e) h = rw (← e, h) refl
  any_of_mem (y ∷ ys) x (Memᴰ.tail m) h = ground (arith, any_of_mem ys x m h)

  pub all_sound : (xs : List A) → all p xs ≡ true → All (λ x. p x ≡ true) xs
  all_sound [] e = tt
  all_sound (y ∷ ys) e = (ground arith, all_sound ys (ground arith))

  pub all_of_All : (xs : List A) → All (λ x. p x ≡ true) xs → all p xs ≡ true
  all_of_All [] h = refl
  all_of_All (y ∷ ys) h = ground (arith, all_of_All ys h.1)

module _ {ℓ κ λ'} {A : Type ℓ} (P : A → Type κ) (Q : A → Type λ') where
  pub All-map : ((x : A) → P x → Q x) → (xs : List A) → All P xs → All Q xs
  All-map f [] h = tt
  All-map f (x ∷ xs) h = (f x h.0, All-map f xs h.1)

-- Where the test `p` decides `P`, nothing is kept exactly when no row has `P`.
module _ {ℓ κ} {A : Type ℓ} (p : A → Bool) (P : A → Type κ)
    (decides : (x : A) → (p x ≡ true) ↔ P x) where
  pub not_iff : (x : A) → (p x ≡ false) ↔ ¬ P x
  not_iff x = (
    λ e h. let e' = (decides x).1 h in cc,
    λ k. elim (Bool-cases (p x)) [ inl e ↦ absurd (k ((decides x).0 e)) | inr e ↦ e ],
  )

  pub filter-nil_iff_none : (xs : List A) → (filter p xs ≡ []) ↔ All (λ x. ¬ P x) xs
  filter-nil_iff_none xs =
      let kept = filter-eq-nil_iff p xs in
      (
        λ e. All-map _ _ (λ x. (not_iff x).0) xs (kept.0 e),
        λ h. kept.1 (All-map _ _ (λ x. (not_iff x).1) xs h),
      )

module _ {ℓ} {A : Type ℓ} (p : A → Bool) (f : A → A) where
  pub mem-update : (xs : List A) (x : A) → Mem x xs → Mem (if p x then f x else x) (update p f xs)
  mem-update [] x m = elim m [ ]
  mem-update (y ∷ ys) x (Memᴰ.head e) = Memᴰ.head (ap (λ z. if p z then f z else z) e)
  mem-update (y ∷ ys) x (Memᴰ.tail m) = Memᴰ.tail (mem-update ys x m)

  -- An UPDATE that takes every row out of its own WHERE: afterwards no row is in it, and a second
  -- UPDATE of those rows changes nothing.
  module _ (leaves : (x : A) → p x ≡ true → p (f x) ≡ false) where
    pub any-update : (xs : List A) → any p (update p f xs) ≡ false
    any-update [] = refl
    any-update (x ∷ xs) = elim (Bool-cases (p x)) [
      | inl e ↦ rw (e, leaves x e) (any-update xs)
      | inr e ↦ rw (e, e) (any-update xs)
    ]

    pub update-update : (g : A → A) (xs : List A) → update p g (update p f xs) ≡ update p f xs
    update-update g [] = refl
    update-update g (x ∷ xs) = elim (Bool-cases (p x)) [
      | inl e ↦ rw (e, leaves x e) (ap (λ l. f x ∷ l) (update-update g xs))
      | inr e ↦ rw (e, e) (ap (λ l. x ∷ l) (update-update g xs))
    ]

module _ {ℓ κ} {A : Type ℓ} {B : Type κ} (f : A → B) where
  pub mem-map : (xs : List A) (x : A) → Mem x xs → Mem (f x) (map f xs)
  mem-map [] x m = elim m [ ]
  mem-map (y ∷ ys) x (Memᴰ.head e) = Memᴰ.head (ap f e)
  mem-map (y ∷ ys) x (Memᴰ.tail m) = Memᴰ.tail (mem-map ys x m)

  pub mem-of-mem_map : (xs : List A) (b : B) → Mem b (map f xs) → (x : A) × Mem x xs × (f x ≡ b)
  mem-of-mem_map [] b m = elim m [ ]
  mem-of-mem_map (y ∷ ys) b (Memᴰ.head e) = (y, Memᴰ.head refl, sym e)
  mem-of-mem_map (y ∷ ys) b (Memᴰ.tail m) =
      let (x, n, e) = mem-of-mem_map ys b m in (x, Memᴰ.tail n, e)

module _ {ℓ κ} {A : Type ℓ} (P : A → Type κ) where
  pub All-upsert :
      (p : A → Bool) (f : A → A) (new : A)
      → ((x : A) → P x → P (f x))
      → (xs : List A) → (any p xs ≡ false → P new)
      → All P xs
      → All P (upsert p f new xs)
  All-upsert p f new step [] h all = (h refl, tt)
  All-upsert p f new step (x ∷ xs) h all = elim (Bool-cases (p x)) [
    | inl e ↦ rw e (step x all.0, all.1)
    | inr e ↦ rw e (all.0, All-upsert p f new step xs (λ k. h (rw (e, k) refl)) all.1)
  ]

module _ {ℓ} {A : Type ℓ} (p : A → Bool) where
  pub delete-All : (xs : List A) → All (λ x. p x ≡ false) (delete p xs)
  delete-All [] = tt
  delete-All (x ∷ xs) = elim (Bool-cases (p x)) [
    | inl e ↦ rw e (delete-All xs)
    | inr e ↦ rw e (e, delete-All xs)
  ]

  pub any-upsert :
      (q : A → Bool) (f : A → A) (new : A)
      → ((x : A) → q (f x) ≡ q x)
      → (xs : List A) → any q (upsert p f new xs) ≡ false
      → any q xs ≡ false
  any-upsert q f new same [] h = refl
  any-upsert q f new same (x ∷ xs) h = elim (Bool-cases (p x)) [
    | inl e ↦ ground (arith, same x)
    | inr e ↦ ground (arith, any-upsert q f new same xs)
  ]
