-- ===== src/Routers/Placing.antt =====
-- What a placement makes of the slots: one more is held, below its ceiling.
use control_deck.Prelude.{
  ℕ, ◌<◌, String, Bool, false, ◌≡◌, ◌≢◌, refl, sym, ap, ◌∙◌, subst, Option, some, ◌∷◌, All, of_All,
  find, IsPreorder, HasDistinctKeys-Replaced, arith,
}
use control_deck.Types.{Replica}
use control_deck.Database.{RequestRow, ReplicaRow, Db}
use control_deck.Scheduler.Settings.{Settings}
use control_deck.Scheduler.Keda.{KedaClient}
use control_deck.Scheduler.Queue.{request_is, truthy}
use control_deck.Scheduler.Placement.{bump}
use control_deck.Scheduler.Placement.Laws.{replica_key}
use control_deck.Scheduler.Placement.Outcome.{Placement}
use control_deck.Http.Chat.Slots.{Replaced-mem_old}
use control_deck.Routers.{Holder, System}
use control_deck.Routers.Pool.{Pool, one_if, take}
use control_deck.Routers.Rows.{All-Replaced_both}
use control_deck.Routers.Invariant.{Slot, Runs, IsSound}
use control_deck.Routers.Ending.{view, Refines, one_if_self, one_if_other}

module _ (collate : String → String → Bool) (settings : Settings) (keda : KedaClient)
    (order : IsPreorder collate) (ceiling : Pool) (s : System) (ok : IsSound ceiling s) where
  -- One more handler on the replica of row `x`.
  Slot-taken :
      (h : Holder) (x : ReplicaRow) (now : ℕ)
      → h.replica_id ≡ x.id
      → x.in_flight < x.max_concurrency
      → Slot ceiling s.holders x
      → Slot ceiling (h ∷ s.holders) (bump now x)
  Slot-taken h x now on room slot =
      let one : one_if h.replica_id x.id ≡ 1 = rw on (one_if_self x.id) in
      record {
        named = slot.named;
        counted = omega (arith, slot.counted, one);
        within = omega arith;
        fixed = slot.fixed;
      }

  Slot-kept :
      (h : Holder) (x z : ReplicaRow)
      → h.replica_id ≡ x.id
      → z.id ≢ x.id
      → Slot ceiling s.holders z
      → Slot ceiling (h ∷ s.holders) z
  Slot-kept h x z on ne slot =
      let none_of : one_if h.replica_id z.id ≡ 0 =
        one_if_other h.replica_id z.id (λ e. ne (sym e ∙ on)) in
      record {
        named = slot.named;
        counted = omega (arith, slot.counted, none_of);
        within = slot.within;
        fixed = slot.fixed;
      }

  pub placed_step :
      (id model_id : String) (key : Option String) (locked : String → Bool) (now : ℕ)
      (row : RequestRow) (db : Db) (replica : Replica) (hit : Bool)
      → find (request_is id) s.db.requests ≡ some row
      → All (λ (h : Holder). h.request_id ≢ id) s.holders
      → Placement collate locked settings keda s.db model_id key now db replica hit
      → Refines ceiling s (record s {
        db = db;
        holders =
            record { request_id = id; replica_id = replica.id; started = false; failing = false }
            ∷ s.holders;
      })
  placed_step id model_id key locked now row db replica hit found fresh p =
      let h : Holder = record {
        request_id = id;
        replica_id = replica.id;
        started = false;
        failing = false;
      } in
      let on : h.replica_id ≡ p.row.id = ap (λ (r : Replica). r.id) p.returned in
      let listed = Replaced-mem_old p.claimed in
      let slot = of_All (Slot ceiling s.holders) s.db.replicas p.row ok.slots listed in
      record {
        sound = record {
          distinct = HasDistinctKeys-Replaced replica_key p.claimed refl ok.distinct;
          slots =
              All-Replaced_both (Slot ceiling s.holders) (Slot ceiling (h ∷ s.holders)) replica_key
                p.claimed (Slot-taken h p.row now on p.can_take.has_room)
                (λ z. Slot-kept h p.row z on) ok.distinct ok.slots;
          apart = (fresh, ok.apart);
          runs = (
            record {
              row = row;
              found = ap (find (request_is id)) p.requests ∙ found;
              on = λ b. cc;
              named = subst (λ k. truthy (some k) ≡ some k) (sym on) slot.named;
            },
            subst (λ rows. All (Runs rows) s.holders) (sym p.requests) ok.runs,
          );
        };
        step =
            take replica.id
              (subst (λ k. view s k < ceiling k) (sym on)
                (omega (arith, slot.counted, slot.fixed, p.can_take.has_room)))
              (λ j. refl);
      }
