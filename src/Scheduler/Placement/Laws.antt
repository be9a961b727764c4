-- ===== src/Scheduler/Placement/Laws.antt =====
-- What a placement changes, and which replica it chooses.
use control_deck.Prelude.{
  ℕ, ◌<◌, String, Bool, true, false, ◌≡◌, refl, ◌↔◌, inl, inr, ◌&&◌, Option, none, some, find,
  filter, All, Mem, Option-cases, find_sound, mem-of-mem_filter, filter-nil_iff_none, first_by-none,
  first_by-mem, arith, eq_iff,
}
use control_deck.Types.{ReplicaStatus}
use control_deck.Database.{ReplicaRow, Db}
use control_deck.Scheduler.Settings.{Settings}
use control_deck.Scheduler.Keda.{KedaClient}
use control_deck.Scheduler.Affinity.{lookup_affinity}
use control_deck.Scheduler.Placement.{is_free, is_ready, the_replica, affine_replica, least_loaded}

abbrev pub replica_key : ReplicaRow → String
replica_key r = r.id

-- The replica may take a request for the model: it serves it, is ready, has room, and no other
-- transaction holds its row.
pub record CanTake (locked : String → Bool) (model_id : String) (r : ReplicaRow) : Type 0 where
  pub serves : r.model_id ≡ model_id
  pub is_up : r.status ≡ ReplicaStatus.ready
  pub has_room : r.in_flight < r.max_concurrency
  pub unlocked : locked r.id ≡ false

is_ready_iff : (s : ReplicaStatus) → (is_ready s ≡ true) ↔ (s ≡ ReplicaStatus.ready)
is_ready_iff s = ground arith

pub is_free_iff :
    (locked : String → Bool) (model_id : String) (r : ReplicaRow)
    → (is_free locked model_id r ≡ true) ↔ CanTake locked model_id r
is_free_iff locked model_id r = (
  λ e. ground (arith, eq_iff r.model_id model_id, is_ready_iff r.status),
  λ h. ground (arith, eq_iff r.model_id model_id, is_ready_iff r.status),
)

module _ (collate : String → String → Bool) (locked : String → Bool) (settings : Settings)
    (keda : KedaClient) where
  pub least_loaded-mem :
      (db : Db) (model_id : String) (now : ℕ) (row : ReplicaRow)
      → least_loaded collate locked settings keda db model_id now ≡ some row
      → CanTake locked model_id row × Mem row db.replicas
  unfolding least_loaded
  least_loaded-mem db model_id now row e =
      let (free, listed) =
        mem-of-mem_filter (is_free locked model_id) db.replicas row (first_by-mem _ _ row e) in
      ((is_free_iff locked model_id row).0 free, listed)

  pub least_loaded-none_iff :
      (db : Db) (model_id : String) (now : ℕ)
      → (least_loaded collate locked settings keda db model_id now ≡ none)
        ↔ All (λ r. ¬ CanTake locked model_id r) db.replicas
  unfolding least_loaded
  least_loaded-none_iff db model_id now =
      let free = filter (is_free locked model_id) db.replicas in
      let none_free =
        filter-nil_iff_none (is_free locked model_id) (CanTake locked model_id)
          (is_free_iff locked model_id) db.replicas in
      (λ e. none_free.0 (first_by-none _ free e), λ h. rw (none_free.1 h) refl)

  -- The conversation's replica, and the key that it was found by.
  pub affine_replica_sound :
      (db : Db) (model_id : String) (key : Option String) (now : ℕ) (row : ReplicaRow)
      → affine_replica collate locked settings keda db model_id key now ≡ some row
      → CanTake locked model_id row
        × Mem row db.replicas
        × ((k : String) × (key ≡ some k)
            × (lookup_affinity db k model_id settings.affinity_ttl_ms now ≡ some row.id))
  unfolding affine_replica
  affine_replica_sound db model_id none now row e = cc
  affine_replica_sound db model_id (some k) now row e =
      elim (Option-cases (lookup_affinity db k model_id settings.affinity_ttl_ms now)) [
        | inl missing ↦ absurd (ground arith)
        | inr (target, held) ↦
            let found : find (λ r. the_replica target r && is_free locked model_id r) db.replicas
                ≡ some row =
              ground arith in
            let (both, listed) = find_sound _ db.replicas row found in
            let same : row.id ≡ target = (eq_iff row.id target).0 (ground arith) in
            (
              (is_free_iff locked model_id row).0 (ground arith),
              listed,
              (k, refl, rw (held, same) refl),
            )
      ]
