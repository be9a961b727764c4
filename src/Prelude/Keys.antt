-- ===== src/Prelude/Keys.antt =====
-- Tables with a primary key: what an UPDATE of one row changes.
use Prim.Native.Nat.{ℕ, ◌+◌}
use Prim.Native.String.{String}
use mathlib.Core.Path.{◌≡◌, refl, sym, ap, ◌∙◌, subst}
use mathlib.Core.Logic.{◌≢◌, inl, inr}
use mathlib.Core.Bool.{Bool, false}
use mathlib.Core.Option
use mathlib.Core.Option.{Option, none, some}
use mathlib.Core.List.{List, [], ◌∷◌, ◌++◌, Memᴰ}
use native.Mathlib.Omega.{arith}
use text.Mathlib.TextEquality.{eq_iff}
use text.Mathlib.TextPositions.{eq_refl}
use control_deck.Prelude.Tests.{◌==◌, if◌then◌else◌, Bool-cases}
use control_deck.Prelude.Lists.{update, upsert, find, sum_by, All, Mem}
use control_deck.Prelude.Rows.{of_All, All-update}

-- The table `t'` is `t` with one row `x` replaced by `y`.
pub record Replaced {ℓ} {A : Type ℓ} (x y : A) (t t' : List A) : Type ℓ where
  pub above : List A
  pub below : List A
  pub old : t ≡ above ++ (x ∷ below)
  pub new : t' ≡ above ++ (y ∷ below)

pub Replaced-cons {ℓ} :
    {A : Type ℓ} {x y : A} {t t' : List A} (z : A)
    → Replaced x y t t'
    → Replaced x y (z ∷ t) (z ∷ t')
Replaced-cons z r = record {
  above = z ∷ r.above;
  below = r.below;
  old = ap (λ l. z ∷ l) r.old;
  new = ap (λ l. z ∷ l) r.new;
}

sum_by-append {ℓ} :
    {A : Type ℓ} (g : A → ℕ) (xs ys : List A) → sum_by g (xs ++ ys) ≡ sum_by g xs + sum_by g ys
sum_by-append g [] ys = omega arith
sum_by-append g (x ∷ xs) ys = omega (arith, sum_by-append g xs ys)

-- A sum over the table moves by what the row moves.
pub Replaced-sum {ℓ} :
    {A : Type ℓ} (g : A → ℕ) {x y : A} {t t' : List A}
    → Replaced x y t t'
    → sum_by g t' + g x ≡ sum_by g t + g y
Replaced-sum g {x} {y} r =
    rw (r.old, r.new)
      (omega (arith, sum_by-append g r.above (x ∷ r.below), sum_by-append g r.above (y ∷ r.below)))

module _ {ℓ κ} {A : Type ℓ} (P : A → Type κ) {x y : A} where
  All-middle :
      (above below : List A)
      → (P x → P y)
      → All P (above ++ (x ∷ below))
      → All P (above ++ (y ∷ below))
  All-middle [] below f h = (f h.0, h.1)
  All-middle (z ∷ above) below f h = (h.0, All-middle above below f h.1)

  -- What holds of every row still does, if it passes from the old row to the new one.
  pub All-Replaced : {t t' : List A} → Replaced x y t t' → (P x → P y) → All P t → All P t'
  All-Replaced r f h = rw r.new (All-middle r.above r.below f (rw r.old at h))

module _ {ℓ} {A : Type ℓ} (key : A → String) where
  abbrev pub has_key : String → A → Bool
  has_key k x = key x == k

  -- No two rows share a key.
  abbrev pub HasDistinctKeys : List A → Type 0
  HasDistinctKeys [] = Unit
  HasDistinctKeys (x ∷ xs) = All (λ y. key y ≢ key x) xs × HasDistinctKeys xs

  pub same_row :
      (t : List A) (x y : A) → HasDistinctKeys t → Mem x t → Mem y t → key x ≡ key y → x ≡ y
  same_row [] x y d m n e = elim m [ ]
  same_row (z ∷ t) x y d (Memᴰ.head p) (Memᴰ.head q) e = p ∙ sym q
  same_row (z ∷ t) x y d (Memᴰ.head p) (Memᴰ.tail n) e =
      absurd (of_All _ t y d.0 n (sym e ∙ ap key p))
  same_row (z ∷ t) x y d (Memᴰ.tail m) (Memᴰ.head q) e = absurd (of_All _ t x d.0 m (e ∙ ap key q))
  same_row (z ∷ t) x y d (Memᴰ.tail m) (Memᴰ.tail n) e = same_row t x y d.1 m n e

  -- An UPDATE whose key no row has changes nothing.
  pub update-absent :
      (f : A → A) (k : String) (t : List A) → All (λ y. key y ≢ k) t → update (has_key k) f t ≡ t
  update-absent f k [] h = refl
  update-absent f k (x ∷ t) h = ground (arith, eq_iff (key x) k, update-absent f k t h.1)

  ne_key : (x z : A) → key x ≢ key z → has_key (key x) z ≡ false
  ne_key x z h = elim (Bool-cases (key z == key x)) [
    | inl e ↦ absurd (h (sym ((eq_iff (key z) (key x)).0 e)))
    | inr e ↦ e
  ]

  update-head :
      (f : A → A) (x : A) (t : List A)
      → All (λ y. key y ≢ key x) t
      → Replaced x (f x) (x ∷ t) (update (has_key (key x)) f (x ∷ t))
  update-head f x t h = record {
    above = [];
    below = t;
    old = refl;
    new = rw (eq_refl (key x), update-absent f (key x) t h) refl;
  }

  pub update-Replaced :
      (f : A → A) (x : A) (t : List A)
      → HasDistinctKeys t
      → Mem x t
      → Replaced x (f x) t (update (has_key (key x)) f t)
  update-Replaced f x [] d m = elim m [ ]
  update-Replaced f x (z ∷ t) d (Memᴰ.head p) =
      let here = update-head f x t (subst (λ w. All (λ y. key y ≢ key w) t) (sym p) d.0) in
      subst (λ w. Replaced x (f x) (w ∷ t) (update (has_key (key x)) f (w ∷ t))) p here
  update-Replaced f x (z ∷ t) d (Memᴰ.tail m) =
      rw (ne_key x z (of_All _ t x d.0 m)) (Replaced-cons z (update-Replaced f x t d.1 m))

  All-key-update :
      (p : A → Bool) (f : A → A) (t : List A) (k : String)
      → ((x : A) → key (f x) ≡ key x)
      → All (λ y. key y ≢ k) t
      → All (λ y. key y ≢ k) (update p f t)
  All-key-update p f t k same h =
      All-update (λ y. key y ≢ k) p f t (λ x _ _ ne e. ne (sym (same x) ∙ e)) h

  pub HasDistinctKeys-update :
      (p : A → Bool) (f : A → A) (t : List A)
      → ((x : A) → key (f x) ≡ key x)
      → HasDistinctKeys t
      → HasDistinctKeys (update p f t)
  HasDistinctKeys-update p f [] same d = tt
  HasDistinctKeys-update p f (x ∷ t) same d =
      let keeps : key (if p x then f x else x) ≡ key x = elim (Bool-cases (p x)) [
        | inl e ↦ rw e (same x)
        | inr e ↦ rw e refl
      ] in
      (
        subst (λ k. All (λ y. key y ≢ k) (update p f t)) (sym keeps)
            (All-key-update p f t (key x) same d.0),
        HasDistinctKeys-update p f t same d.1,
      )

  HasDistinctKeys-middle :
      (above below : List A) (x y : A)
      → key y ≡ key x
      → HasDistinctKeys (above ++ (x ∷ below))
      → HasDistinctKeys (above ++ (y ∷ below))
  HasDistinctKeys-middle [] below x y e d =
      (subst (λ k. All (λ z. key z ≢ k) below) (sym e) d.0, d.1)
  HasDistinctKeys-middle (z ∷ above) below x y e d = (
    All-middle (λ w. key w ≢ key z) above below (λ ne same. ne (sym e ∙ same)) d.0,
    HasDistinctKeys-middle above below x y e d.1,
  )

  pub HasDistinctKeys-Replaced :
      {x y : A} {t t' : List A}
      → Replaced x y t t'
      → key y ≡ key x
      → HasDistinctKeys t
      → HasDistinctKeys t'
  HasDistinctKeys-Replaced {x} {y} r e d =
      rw r.new (HasDistinctKeys-middle r.above r.below x y e (rw r.old at d))

  -- The row that a key names, after an UPDATE that keeps keys.
  pub find-update :
      (p : A → Bool) (f : A → A) (k : String) (t : List A)
      → ((x : A) → key (f x) ≡ key x)
      → find (has_key k) (update p f t)
        ≡ Option.map (λ x. if p x then f x else x) (find (has_key k) t)
  find-update p f k [] same = refl
  find-update p f k (x ∷ t) same =
      let keeps : key (if p x then f x else x) ≡ key x = elim (Bool-cases (p x)) [
        | inl e ↦ rw e (same x)
        | inr e ↦ rw e refl
      ] in
      rw keeps (elim (Bool-cases (key x == k)) [
        | inl h ↦ rw h refl
        | inr h ↦ rw h (find-update p f k t same)
      ])

  abbrev settled : A → (A → A) → Option A → A
  settled new f none = new
  settled new f (some x) = f x

  -- The row that a key names, after an upsert of the same key and of another.
  pub find-upsert_self :
      (f : A → A) (new : A) (k : String) (t : List A)
      → key new ≡ k
      → ((x : A) → key (f x) ≡ key x)
      → find (has_key k) (upsert (has_key k) f new t) ≡ some (settled new f (find (has_key k) t))
  find-upsert_self f new k [] named same = rw (named, eq_refl k) refl
  find-upsert_self f new k (x ∷ t) named same = elim (Bool-cases (key x == k)) [
    | inl e ↦ rw (e, same x, e) refl
    | inr e ↦ rw (e, e) (find-upsert_self f new k t named same)
  ]

  pub find-upsert_other :
      (f : A → A) (new : A) (k j : String) (t : List A)
      → key new ≡ k
      → ((x : A) → key (f x) ≡ key x)
      → k ≢ j
      → find (has_key j) (upsert (has_key k) f new t) ≡ find (has_key j) t
  find-upsert_other f new k j [] named same ne =
      let other : (key new == j) ≡ false = elim (Bool-cases (key new == j)) [
        | inl e ↦ absurd (ne (sym named ∙ (eq_iff (key new) j).0 e))
        | inr e ↦ e
      ] in
      rw other refl
  find-upsert_other f new k j (x ∷ t) named same ne = elim (Bool-cases (key x == k)) [
    | inl e ↦
        let other : (key x == j) ≡ false = elim (Bool-cases (key x == j)) [
          | inl h ↦ absurd (ne (sym ((eq_iff (key x) k).0 e) ∙ (eq_iff (key x) j).0 h))
          | inr h ↦ h
        ] in
        rw (e, same x, other) refl
    | inr e ↦ rw e (
        ap (λ (o : Option A). if key x == j then some x else o)
          (find-upsert_other f new k j t named same ne))
  ]
