-- ===== src/Http/Chat/Slots.antt =====
-- Taking a slot of a replica and giving it back.
use control_deck.Prelude.{
  ◌+◌, ◌-◌, ◌<◌, ◌≤◌, String, ◌≡◌, refl, ◌∙◌, subst, List, [], ◌∷◌, ◌++◌, Mem, Memᴰ, update,
  Replaced, Replaced-sum, All-Replaced, HasDistinctKeys-Replaced, update-Replaced, arith,
}
use control_deck.Database.{ReplicaRow}
use control_deck.Scheduler.Queue.{replica_is}
use control_deck.Scheduler.Placement.Laws.{replica_key}
use control_deck.Scheduler.Placement.Capacity.{IsWithinCapacity, total_in_flight}

pub mem-middle {ℓ} : {A : Type ℓ} (y : A) (above below : List A) → Mem y (above ++ (y ∷ below))
mem-middle y [] below = Memᴰ.head refl
mem-middle y (x ∷ above) below = Memᴰ.tail (mem-middle y above below)

pub Replaced-mem {ℓ} : {A : Type ℓ} {x y : A} {t t' : List A} → Replaced x y t t' → Mem y t'
Replaced-mem {y = y} {t' = t'} r = rw r.new (mem-middle y r.above r.below)

pub Replaced-mem_old {ℓ} : {A : Type ℓ} {x y : A} {t t' : List A} → Replaced x y t t' → Mem x t
Replaced-mem_old {x = x} {t = t} r = rw r.old (mem-middle x r.above r.below)

-- The tables while a request holds a slot of the replica: the replica is among them, in use, and all
-- are within their ceilings.
pub record Holds (replica_id : String) (replicas : List ReplicaRow) : Type 0 where
  pub row : ReplicaRow
  pub named : row.id ≡ replica_id
  pub listed : Mem row replicas
  pub busy : 0 < row.in_flight
  pub ok : IsWithinCapacity replicas

-- A slot that is given back: one less in use, and none over its ceiling.
pub record GivesBack (before after : List ReplicaRow) : Type 0 where
  pub one_less : total_in_flight after + 1 ≡ total_in_flight before
  pub ok : IsWithinCapacity after

module _ (replica_id : String) (f : ReplicaRow → ReplicaRow) (replicas : List ReplicaRow)
    (same : (r : ReplicaRow) → (f r).id ≡ r.id)
    (less : (r : ReplicaRow) → (f r).in_flight ≡ r.in_flight - 1)
    (ceiling : (r : ReplicaRow) → (f r).max_concurrency ≡ r.max_concurrency)
    (h : Holds replica_id replicas) where
  updated : Replaced h.row (f h.row) replicas (update (replica_is replica_id) f replicas)
  updated =
      subst (λ k. Replaced h.row (f h.row) replicas (update (replica_is k) f replicas)) h.named
        (update-Replaced replica_key f h.row replicas h.ok.distinct h.listed)

  pub update-GivesBack : GivesBack replicas (update (replica_is replica_id) f replicas)
  update-GivesBack = record {
    one_less =
        omega (arith, Replaced-sum (λ (x : ReplicaRow). x.in_flight) updated, less h.row, h.busy);
    ok = record {
      distinct = HasDistinctKeys-Replaced replica_key updated (same h.row) h.ok.distinct;
      bounded =
          All-Replaced (λ (x : ReplicaRow). x.in_flight ≤ x.max_concurrency) updated
            (λ b. omega (arith, less h.row, ceiling h.row)) h.ok.bounded;
    };
  }

  -- With another request on the replica, a slot of it is still in use.
  pub update-Holds :
      1 < h.row.in_flight → Holds replica_id (update (replica_is replica_id) f replicas)
  update-Holds more = record {
    row = f h.row;
    named = same h.row ∙ h.named;
    listed = Replaced-mem updated;
    busy = omega (arith, less h.row);
    ok = update-GivesBack.ok;
  }
