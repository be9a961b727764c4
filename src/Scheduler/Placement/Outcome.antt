-- ===== src/Scheduler/Placement/Outcome.antt =====
-- The outcome of a placement: the one row that changes, and why it was chosen.
use control_deck.Prelude.{
  ℕ, String, Bool, true, false, ◌≡◌, refl, subst, ◌∙◌, inl, inr, Option, none, some, filter, All,
  Option-cases, mem-filter, of_All, All-of_mem, first_by-least, IsPreorder, lex-IsPreorder,
  by-IsPreorder, leb-IsPreorder, nulls_first-IsPreorder, Replaced, HasDistinctKeys, update-Replaced,
  arith,
}
use control_deck.Prelude.Fraction.{le_frac-IsPreorder}
use control_deck.Types.{Replica}
use control_deck.Database.{ReplicaRow, Db}
use control_deck.Scheduler.Settings.{Settings}
use control_deck.Scheduler.Keda.{KedaClient, request_scale_up}
use control_deck.Scheduler.Affinity.{lookup_affinity, record_affinity}
use control_deck.Scheduler.Placement.{
  PlaceRequestResult, placed, needs_queue, is_free, before, fresh_throughput, bump, claim,
  to_replica, scale_on_first, remember, affine_replica, least_loaded, place_affine, place_general,
  place_request,
}
use control_deck.Scheduler.Placement.Laws.{
  replica_key, CanTake, is_free_iff, least_loaded-mem, affine_replica_sound,
}

module _ (collate : String → String → Bool) (locked : String → Bool) (settings : Settings)
    (keda : KedaClient) where
  -- A replica was claimed for a request.
  pub record Placement (db : Db) (model_id : String) (key : Option String) (now : ℕ) (db' : Db)
      (replica : Replica) (affinity_hit : Bool) : Type 0 where
    pub row : ReplicaRow
    pub can_take : CanTake locked model_id row
    pub returned : replica ≡ to_replica (bump now row)
    -- Its row alone changes, and by one request more.
    pub claimed : Replaced row (bump now row) db.replicas db'.replicas
    pub requests : db'.requests ≡ db.requests
    -- With no affinity it comes first in the order of placement among all that could take the
    -- request.
    pub least :
        affinity_hit ≡ false
        → All
            (λ r.
              CanTake locked model_id r
              → before collate settings.throughput_fresh_ms now row r ≡ true)
            db.replicas
    -- With affinity it is the replica recorded for the conversation.
    pub affine :
        affinity_hit ≡ true
        → (k : String) × (key ≡ some k)
          × (lookup_affinity db k model_id settings.affinity_ttl_ms now ≡ some row.id)

  before-IsPreorder :
      IsPreorder collate → (now : ℕ) → IsPreorder (before collate settings.throughput_fresh_ms now)
  before-IsPreorder order now =
      lex-IsPreorder (by-IsPreorder (λ (r : ReplicaRow). r.in_flight) leb-IsPreorder) (
        lex-IsPreorder
          (by-IsPreorder (fresh_throughput settings.throughput_fresh_ms now)
            (nulls_first-IsPreorder le_frac-IsPreorder))
          (lex-IsPreorder (by-IsPreorder (λ (r : ReplicaRow). r.load_pct) le_frac-IsPreorder)
            (by-IsPreorder (λ (r : ReplicaRow). r.id) order)))

  least_loaded-least :
      IsPreorder collate
      → (db : Db) (model_id : String) (now : ℕ) (row : ReplicaRow)
      → least_loaded collate locked settings keda db model_id now ≡ some row
      → All
          (λ r.
            CanTake locked model_id r
            → before collate settings.throughput_fresh_ms now row r ≡ true)
          db.replicas
  unfolding least_loaded
  least_loaded-least order db model_id now row e =
      let least = first_by-least _ (before-IsPreorder order now) _ row e in
      All-of_mem _ db.replicas (λ r listed free.
        of_All _ (filter (is_free locked model_id) db.replicas) r least (
          mem-filter (is_free locked model_id) db.replicas r listed
            ((is_free_iff locked model_id r).1 free)))

  remember-replicas :
      (key : Option String) (db : Db) (model_id : String) (row : ReplicaRow) (now : ℕ)
      → ((remember collate locked settings keda key db model_id row now).replicas ≡ db.replicas)
        × ((remember collate locked settings keda key db model_id row now).requests ≡ db.requests)
  unfolding record_affinity
  remember-replicas none db model_id row now = (refl, refl)
  remember-replicas (some key) db model_id row now = (ground arith, ground arith)

  scale_on_first-replicas :
      (db : Db) (row : ReplicaRow) (model_id : String) (now : ℕ)
      → ((scale_on_first keda db row model_id now).replicas ≡ db.replicas)
        × ((scale_on_first keda db row model_id now).requests ≡ db.requests)
  unfolding request_scale_up
  scale_on_first-replicas db row model_id now = (ground arith, ground arith)

  place_affine-Placement :
      (db : Db) (model_id : String) (key : Option String) (now : ℕ) (row : ReplicaRow)
      → HasDistinctKeys replica_key db.replicas
      → affine_replica collate locked settings keda db model_id key now ≡ some row
      → Placement db model_id key now
          (place_affine collate locked settings keda db model_id key row now).0
          (to_replica (bump now row))
          true
  unfolding place_affine
  place_affine-Placement db model_id key now row distinct e =
      let (can_take, listed, held) =
        affine_replica_sound collate locked settings keda db model_id key now row e in
      let scaled = scale_on_first keda (claim db row now) row model_id now in
      let kept = remember-replicas key scaled model_id row now in
      let kept' = scale_on_first-replicas (claim db row now) row model_id now in
      record {
        row = row;
        can_take = can_take;
        returned = refl;
        claimed =
            rw (kept.0, kept'.0)
              (update-Replaced replica_key (bump now) row db.replicas distinct listed);
        requests = kept.1 ∙ kept'.1;
        least = λ no_hit. cc;
        affine = λ _. held;
      }

  place_general-Placement :
      IsPreorder collate
      → (db : Db) (model_id : String) (key : Option String) (now : ℕ) (row : ReplicaRow)
      → HasDistinctKeys replica_key db.replicas
      → least_loaded collate locked settings keda db model_id now ≡ some row
      → Placement db model_id key now
          (place_general collate locked settings keda db model_id key row now).0
          (to_replica (bump now row))
          false
  unfolding place_general
  place_general-Placement order db model_id key now row distinct e =
      let (can_take, listed) =
        least_loaded-mem collate locked settings keda db model_id now row e in
      let remembered =
        remember collate locked settings keda key (claim db row now) model_id row now in
      let kept = remember-replicas key (claim db row now) model_id row now in
      let kept' = scale_on_first-replicas remembered row model_id now in
      record {
        row = row;
        can_take = can_take;
        returned = refl;
        claimed =
            rw (kept'.0, kept.0)
              (update-Replaced replica_key (bump now) row db.replicas distinct listed);
        requests = kept'.1 ∙ kept.1;
        least = λ _. least_loaded-least order db model_id now row e;
        affine = λ hit. cc;
      }

  -- The three ways through `placeRequest`.
  pub data PathTaken (db : Db) (model_id : String) (key : Option String) (now : ℕ)
      : Db × PlaceRequestResult → Type 0 where
    by_affinity :
        (row : ReplicaRow)
        → affine_replica collate locked settings keda db model_id key now ≡ some row
        → PathTaken db model_id key now
            (place_affine collate locked settings keda db model_id key row now)
    by_load :
        (row : ReplicaRow)
        → affine_replica collate locked settings keda db model_id key now ≡ none
        → least_loaded collate locked settings keda db model_id now ≡ some row
        → PathTaken db model_id key now
            (place_general collate locked settings keda db model_id key row now)
    refused :
        affine_replica collate locked settings keda db model_id key now ≡ none
        → least_loaded collate locked settings keda db model_id now ≡ none
        → PathTaken db model_id key now (db, needs_queue)

  pub path_taken :
      (db : Db) (model_id : String) (key : Option String) (now : ℕ)
      → PathTaken db model_id key now
          (place_request collate locked settings keda db model_id key now)
  unfolding place_request
  path_taken db model_id key now =
      elim (Option-cases (affine_replica collate locked settings keda db model_id key now)) [
        | inr (row, e) ↦ rw (e, place_request) (by_affinity row e)
        | inl e ↦ elim (Option-cases (least_loaded collate locked settings keda db model_id now)) [
          | inr (row, h) ↦ rw (e, place_request, h) (by_load row e h)
          | inl h ↦ rw (e, place_request, h) (refused e h)
        ]
      ]

  module _ (order : IsPreorder collate) (db : Db) (model_id : String) (key : Option String)
      (now : ℕ) (distinct : HasDistinctKeys replica_key db.replicas) where
    as_returned :
        (db' : Db) (row : ReplicaRow) (replica : Replica) (hit hit' : Bool)
        → placed (to_replica (bump now row)) hit ≡ placed replica hit'
        → Placement db model_id key now db' (to_replica (bump now row)) hit
        → Placement db model_id key now db' replica hit'
    as_returned db' row replica hit hit' e p =
        let same : to_replica (bump now row) ≡ replica = cc in
        let same' : hit ≡ hit' = cc in
        subst (λ r. Placement db model_id key now db' r hit') same
          (subst (λ b. Placement db model_id key now db' (to_replica (bump now row)) b) same' p)

    PathTaken-Placement :
        (out : Db × PlaceRequestResult) (replica : Replica) (hit : Bool)
        → PathTaken db model_id key now out
        → out.1 ≡ placed replica hit
        → Placement db model_id key now out.0 replica hit
    unfolding place_affine place_general
    PathTaken-Placement out replica hit (by_affinity row e) h =
        as_returned out.0 row replica true hit h
          (place_affine-Placement db model_id key now row distinct e)
    PathTaken-Placement out replica hit (by_load row e l) h =
        as_returned out.0 row replica false hit h
          (place_general-Placement order db model_id key now row distinct l)
    PathTaken-Placement out replica hit (refused e l) h = cc

    -- When a replica is returned, exactly one row of `replicas` changes, and it takes one request
    -- more. It serves the model, is ready, was below its ceiling, and no other transaction held it.
    -- Without affinity it comes first, by load, then recent throughput, then load percentage, then
    -- id, among all replicas that could take the request; with affinity it is the replica that is
    -- recorded for the conversation. No request row changes. Replica ids are distinct, and the
    -- database's order of texts is a total preorder.
    pub place_request-Placement :
        (replica : Replica) (hit : Bool)
        → (place_request collate locked settings keda db model_id key now).1 ≡ placed replica hit
        → Placement db model_id key now
            (place_request collate locked settings keda db model_id key now).0
            replica
            hit
    place_request-Placement replica hit h =
        PathTaken-Placement _ replica hit (path_taken db model_id key now) h
