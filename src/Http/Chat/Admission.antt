-- ===== src/Http/Chat/Admission.antt =====
-- A request that is served holds one slot more.
use control_deck.Prelude.{
  ℕ, ◌+◌, suc, String, Bool, ◌≡◌, refl, sym, ap, ◌∙◌, subst, Option, some, List, All, of_All,
  IsPreorder, arith,
}
use control_deck.Types.{Replica}
use control_deck.Database.{ReplicaRow, Db}
use control_deck.Scheduler.Queue.{truthy}
use control_deck.Scheduler.Placement.{bump, PlaceRequestResult, placed, place_request}
use control_deck.Scheduler.Placement.Outcome.{Placement, place_request-Placement}
use control_deck.Scheduler.Placement.Capacity.{
  IsWithinCapacity, total_in_flight, Placement-IsWithinCapacity,
}
use control_deck.Http.Wait.{Waited, served}
use control_deck.Http.Wait.Laws.{Ending, in_time, too_late, before_try}
use control_deck.Http.Chat.{Env}
use control_deck.Http.Chat.Slots.{Holds, Replaced-mem, Replaced-mem_old}

-- No replica has the empty text for its id, which the code takes for none.
abbrev pub HasNames : List ReplicaRow → Type 0
HasNames replicas = All (λ r. truthy (some r.id) ≡ some r.id) replicas

Placement-Holds :
    (env : Env) (locked : String → Bool) (db db' : Db) (model_id : String) (key : Option String)
    (now : ℕ) (replica : Replica) (hit : Bool)
    → Placement env.collate locked env.settings env.keda db model_id key now db' replica hit
    → IsWithinCapacity db.replicas
    → HasNames db.replicas
    → Holds replica.id db'.replicas
      × (total_in_flight db'.replicas ≡ total_in_flight db.replicas + 1)
      × (truthy (some replica.id) ≡ some replica.id)
Placement-Holds env locked db db' model_id key now replica hit p ok names =
    let (ok', one_more) =
      Placement-IsWithinCapacity env.collate locked env.settings env.keda db model_id key now db'
        replica hit p ok in
    let id_same : p.row.id ≡ replica.id = ap (λ (r : Replica). r.id) (sym p.returned) in
    (
      record {
        row = bump now p.row;
        named = id_same;
        listed = Replaced-mem p.claimed;
        busy = omega arith;
        ok = ok';
      },
      one_more,
      subst (λ k. truthy (some k) ≡ some k) id_same
          (of_All _ db.replicas p.row names (Replaced-mem_old p.claimed)),
    )

-- A request that is served: it holds a slot of the replica, one more than before.
pub record Admitted (replica_id : String) (db db' : Db) : Type 0 where
  pub holds : Holds replica_id db'.replicas
  pub one_more : total_in_flight db'.replicas ≡ total_in_flight db.replicas + 1
  pub named : truthy (some replica_id) ≡ some replica_id
  pub requests : db'.requests ≡ db.requests

module _ (env : Env) (order : IsPreorder env.collate)
    (quiet : (n : ℕ) (db : Db) → env.world.others n db ≡ db) where
  pub before_quiet :
      (model_id request_id : String) (key : Option String) (n : ℕ) (db : Db)
      → before_try env.collate env.settings env.keda env.world model_id request_id key n db ≡ db
  before_quiet model_id request_id key ℕ.zero db = refl
  before_quiet model_id request_id key (suc n) db =
      quiet n (before_try env.collate env.settings env.keda env.world model_id request_id key n db)
      ∙ before_quiet model_id request_id key n db

  pub Ending-Admitted :
      (model_id request_id : String) (key : Option String) (deadline : ℕ) (db : Db)
      → IsWithinCapacity db.replicas
      → HasNames db.replicas
      → (w : Option (Db × Waited))
      → Ending env.collate env.settings env.keda env.world model_id request_id key deadline db w
      → (db' : Db) (replica_id url : String) (hit : Bool)
      → w ≡ some (db', served replica_id url hit)
      → Admitted replica_id db db'
  Ending-Admitted model_id request_id key deadline db ok names _ (too_late n t late) db'' id url
        hit' w =
      cc
  Ending-Admitted model_id request_id key deadline db ok names _
        (in_time n t db' replica hit early e) db'' id url hit' w =
      let locked = env.world.locked n in
      let same = before_quiet model_id request_id key (suc n) db in
      let at_once : place_request env.collate locked env.settings env.keda db model_id key t
          ≡ (db', placed replica hit) =
        subst
          (λ (d : Db).
            place_request env.collate locked env.settings env.keda d model_id key t
            ≡ (db', placed replica hit))
          same e in
      let placement : Placement env.collate locked env.settings env.keda db model_id key t db'
          replica hit =
        subst
          (λ (d : Db).
            Placement env.collate locked env.settings env.keda db model_id key t d replica hit)
          (ap (λ (o : Db × PlaceRequestResult). o.0) at_once)
          (place_request-Placement env.collate locked env.settings env.keda order db model_id key t
            ok.distinct replica hit (ap (λ (o : Db × PlaceRequestResult). o.1) at_once)) in
      let (holds, one_more, named) =
        Placement-Holds env locked db db' model_id key t replica hit placement ok names in
      let same_id : replica.id ≡ id = cc in
      let same_db : db' ≡ db'' = cc in
      subst (λ (k : String). Admitted k db db'') same_id
        (subst (λ (d : Db). Admitted replica.id db d) same_db
          (record {
            holds = holds;
            one_more = one_more;
            named = named;
            requests = placement.requests;
          }))
