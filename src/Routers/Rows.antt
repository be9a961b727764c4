-- ===== src/Routers/Rows.antt =====
-- Lists of rows under an UPDATE or a DELETE that does not treat every row alike, and the slots that
-- handlers hold.
use control_deck.Prelude.{
  ℕ, ◌+◌, String, Bool, true, false, ◌≡◌, ◌≢◌, refl, sym, ap, subst, if◌then◌else◌, List, [], ◌∷◌,
  ◌++◌, All, Mem, Memᴰ, All-delete, of_All, update, delete, Bool-cases, inl, inr, HasDistinctKeys,
  Replaced, eq_iff, arith,
}
use control_deck.Routers.{Holder, holder_key, holder_is}
use control_deck.Routers.Pool.{one_if}
use control_deck.Http.Chat.Slots.{mem-middle}

module _ {ℓ κ λ'} {A : Type ℓ} (P : A → Type κ) (Q : A → Type λ') where
  pub All-update_both :
      (p : A → Bool) (f : A → A) (xs : List A)
      → ((x : A) → Mem x xs → P x → Q (if p x then f x else x))
      → All P xs
      → All Q (update p f xs)
  All-update_both p f [] step h = tt
  All-update_both p f (x ∷ xs) step (h, hs) =
      (step x (Memᴰ.head refl) h, All-update_both p f xs (λ y m. step y (Memᴰ.tail m)) hs)

  All-with :
      {R : A → Type ℓ} (xs : List A) → ((x : A) → R x → P x → Q x) → All R xs → All P xs → All Q xs
  All-with [] step r h = tt
  All-with (x ∷ xs) step (r, rs) (h, hs) = (step x r h, All-with xs step rs hs)

module _ {A : Type 0} (P Q : A → Type 0) (key : A → String) where
  All-middle_both :
      (x y : A) (above below : List A)
      → (P x → Q y)
      → ((z : A) → key z ≢ key x → P z → Q z)
      → HasDistinctKeys key (above ++ (x ∷ below))
      → All P (above ++ (x ∷ below))
      → All Q (above ++ (y ∷ below))
  All-middle_both x y [] below here other (ne, d) (h, hs) = (here h, All-with P Q below other ne hs)
  All-middle_both x y (a ∷ above) below here other (ne, d) (h, hs) = (
    other a
        (λ e.
          of_All (λ w. key w ≢ key a) (above ++ (x ∷ below)) x ne (mem-middle x above below)
            (sym e))
        h,
    All-middle_both x y above below here other d hs,
  )

  -- What holds of every row still does after one of them is replaced, if it passes from the old row
  -- to the new one, and from every row of another key to itself.
  pub All-Replaced_both :
      {x y : A} {t t' : List A}
      → Replaced x y t t'
      → (P x → Q y)
      → ((z : A) → key z ≢ key x → P z → Q z)
      → HasDistinctKeys key t
      → All P t
      → All Q t'
  All-Replaced_both {x} {y} r here other d h =
      rw r.new (All-middle_both x y r.above r.below here other (rw r.old at d) (rw r.old at h))

-- The slots of replica `k` that are held.
abbrev pub held_by : List Holder → String → ℕ
held_by [] k = 0
held_by (h ∷ hs) k = one_if h.replica_id k + held_by hs k

pub held_by-update :
    (p : Holder → Bool) (f : Holder → Holder) (hs : List Holder) (k : String)
    → ((h : Holder) → (f h).replica_id ≡ h.replica_id)
    → held_by (update p f hs) k ≡ held_by hs k
held_by-update p f [] k same = refl
held_by-update p f (h ∷ hs) k same = elim (Bool-cases (p h)) [
  | inl e ↦ rw (e, same h, held_by-update p f hs k same) refl
  | inr e ↦ rw (e, held_by-update p f hs k same) refl
]

delete-absent :
    (id : String) (hs : List Holder)
    → All (λ (h : Holder). h.request_id ≢ id) hs
    → delete (holder_is id) hs ≡ hs
delete-absent id [] a = refl
delete-absent id (h ∷ hs) a = ground (arith, eq_iff h.request_id id, delete-absent id hs a.1)

held_by-delete_first :
    (z : Holder) (hs : List Holder) (k : String)
    → All (λ (w : Holder). w.request_id ≢ z.request_id) hs
    → held_by (z ∷ hs) k
      ≡ one_if z.replica_id k + held_by (delete (holder_is z.request_id) (z ∷ hs)) k
held_by-delete_first z hs k ne =
    let mine : holder_is z.request_id z ≡ true = (eq_iff z.request_id z.request_id).1 refl in
    let gone : delete (holder_is z.request_id) (z ∷ hs) ≡ hs =
      rw mine (delete-absent z.request_id hs ne) in
    ap (λ l. one_if z.replica_id k + held_by l k) (sym gone)

pub held_by-delete :
    (h : Holder) (hs : List Holder) (k : String)
    → HasDistinctKeys holder_key hs
    → Mem h hs
    → held_by hs k ≡ one_if h.replica_id k + held_by (delete (holder_is h.request_id) hs) k
held_by-delete h [] k d m = elim m [ ]
held_by-delete h (z ∷ hs) k (ne, d) (Memᴰ.head e) =
    subst
      (λ (w : Holder).
        held_by (z ∷ hs) k
        ≡ one_if w.replica_id k + held_by (delete (holder_is w.request_id) (z ∷ hs)) k)
      (sym e) (held_by-delete_first z hs k ne)
held_by-delete h (z ∷ hs) k (ne, d) (Memᴰ.tail m) =
    let apart = of_All (λ (w : Holder). w.request_id ≢ z.request_id) hs h ne m in
    let other : holder_is h.request_id z ≡ false =
      ground (arith, eq_iff z.request_id h.request_id) in
    rw other (omega (arith, held_by-delete h hs k d m))

pub HasDistinctKeys-delete :
    {A : Type 0} (key : A → String) (p : A → Bool) (xs : List A)
    → HasDistinctKeys key xs
    → HasDistinctKeys key (delete p xs)
HasDistinctKeys-delete key p [] d = tt
HasDistinctKeys-delete key p (x ∷ xs) (ne, d) = elim (Bool-cases (p x)) [
  | inl e ↦ rw e (HasDistinctKeys-delete key p xs d)
  | inr e ↦ rw e (All-delete (λ y. key y ≢ key x) p xs ne, HasDistinctKeys-delete key p xs d)
]
