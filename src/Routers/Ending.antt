-- ===== src/Routers/Ending.antt =====
-- What one step makes of the slots: nothing, or one slot given back.
use control_deck.Prelude.{
  ◌+◌, ◌-◌, String, Bool, ◌≡◌, ◌≢◌, refl, sym, ap, ◌∙◌, if◌then◌else◌, List, Mem, All-map,
  All-delete, update, delete, Bool-cases, inl, inr, HasDistinctKeys-update, eq_iff, arith,
}
use control_deck.Database.{RequestRow, ReplicaRow, Db}
use control_deck.Scheduler.Queue.{request_is, replica_is, update_requests}
use control_deck.Scheduler.Placement.Laws.{replica_key}
use control_deck.Routers.{Holder, System, holder_key, holder_is, drop_holder}
use control_deck.Routers.Pool.{Pool, PoolStep, one_if, give, idle}
use control_deck.Routers.Rows.{All-update_both, held_by, held_by-delete, HasDistinctKeys-delete}
use control_deck.Routers.Invariant.{Slot, Runs, IsSound, Runs-update, update_requests-IsSound}

-- The slots that the handlers hold, which is all that the pool sees.
abbrev pub view : System → Pool
view s k = held_by s.holders k

-- A system that is sound, and a step or no step of the pool on the way to it.
pub record Refines (ceiling : Pool) (s t : System) : Type 0 where
  pub sound : IsSound ceiling t
  pub step : PoolStep ceiling (view s) (view t)

pub one_if_self : (k : String) → one_if k k ≡ 1
one_if_self k = rw ((eq_iff k k).1 refl) refl

pub one_if_other : (k j : String) → k ≢ j → one_if k j ≡ 0
one_if_other k j ne = ground (arith, eq_iff k j)

module _ (ceiling : Pool) (s : System) (ok : IsSound ceiling s) where
  pub still_holds : {t : System} → t.holders ≡ s.holders → IsSound ceiling t → Refines ceiling s t
  still_holds same sound = record { sound = sound; step = idle (λ j. ap (λ l. held_by l j) same) }

  pub quiet_step :
      (p : RequestRow → Bool) (f : RequestRow → RequestRow)
      → ((r : RequestRow) → (f r).id ≡ r.id)
      → ((r : RequestRow) → (f r).replica_id ≡ r.replica_id)
      → Refines ceiling s (record s { db = update_requests s.db p f })
  quiet_step p f keeps stays =
      still_holds refl (update_requests-IsSound p f keeps ceiling s stays ok)

  -- The end of a handler: its row keeps its replica, which has one request less.
  module _ (h : Holder) (listed : Mem h s.holders) (f : ReplicaRow → ReplicaRow)
      (same : (r : ReplicaRow) → (f r).id ≡ r.id)
      (less : (r : ReplicaRow) → (f r).in_flight ≡ r.in_flight - 1)
      (fixed : (r : ReplicaRow) → (f r).max_concurrency ≡ r.max_concurrency)
      (g : RequestRow → RequestRow) (keeps : (r : RequestRow) → (g r).id ≡ r.id)
      (stays : (r : RequestRow) → (g r).replica_id ≡ r.replica_id) where
    rest : List Holder
    rest = delete (holder_is h.request_id) s.holders

    held_after : (k : String) → held_by s.holders k ≡ one_if h.replica_id k + held_by rest k
    unfolding rest
    held_after k = held_by-delete h s.holders k ok.apart listed

    Slot-released :
        (r : ReplicaRow)
        → Slot ceiling s.holders r
        → Slot ceiling rest (if replica_is h.replica_id r then f r else r)
    Slot-released r slot = elim (Bool-cases (replica_is h.replica_id r)) [
      | inl e ↦
          let mine : r.id ≡ h.replica_id = (eq_iff r.id h.replica_id).0 e in
          let one : one_if h.replica_id r.id ≡ 1 = rw mine (one_if_self h.replica_id) in
          rw e (record {
            named = rw (same r) slot.named;
            counted = rw (same r) (omega (arith, less r, slot.counted, held_after r.id, one));
            within = omega (arith, less r, fixed r, slot.within);
            fixed = fixed r ∙ slot.fixed ∙ ap ceiling (sym (same r));
          })
      | inr e ↦
          let other : one_if h.replica_id r.id ≡ 0 =
            one_if_other h.replica_id r.id
              (λ q. let e' = (eq_iff r.id h.replica_id).1 (sym q) in cc) in
          rw e (record {
            named = slot.named;
            counted = omega (arith, slot.counted, held_after r.id, other);
            within = slot.within;
            fixed = slot.fixed;
          })
    ]

    pub ended :
        (db : Db) (closing : List Holder)
        → db.replicas ≡ update (replica_is h.replica_id) f s.db.replicas
        → db.requests ≡ update (request_is h.request_id) g s.db.requests
        → Refines ceiling s (drop_holder s db h.request_id closing)
    unfolding rest
    ended db closing replicas requests = record {
      sound = record {
        distinct = rw replicas (
            HasDistinctKeys-update replica_key (replica_is h.replica_id) f s.db.replicas same
              ok.distinct);
        slots = rw replicas (
            All-update_both (Slot ceiling s.holders) (Slot ceiling rest) (replica_is h.replica_id) f
              s.db.replicas (λ r _. Slot-released r) ok.slots);
        apart = HasDistinctKeys-delete holder_key (holder_is h.request_id) s.holders ok.apart;
        runs = rw requests (
            All-delete (Runs (update (request_is h.request_id) g s.db.requests))
              (holder_is h.request_id) s.holders
              (All-map (Runs s.db.requests)
                (Runs (update (request_is h.request_id) g s.db.requests))
                (λ x.
                  Runs-update (request_is h.request_id) g keeps s.db.requests x
                    (λ r _ _ on. stays r ∙ on))
                s.holders ok.runs));
      };
      step = give h.replica_id held_after;
    }
