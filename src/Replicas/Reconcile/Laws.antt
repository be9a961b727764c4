-- ===== src/Replicas/Reconcile/Laws.antt =====
-- What a pass leaves of the scheduler's counters, and which replicas it keeps.
use control_deck.Prelude.{
  ℕ, String, Bool, true, false, ◌==◌, ◌≡◌, refl, some, if_both, Bool-cases, ◌⊎◌, inl, inr, Option,
  or_else, List, [], ◌∷◌, any, delete, length, All, Mem, All-map, All-delete, All-of_mem,
  All-upsert, any-upsert, delete-All, arith,
}
use control_deck.Types.{ModelConfig}
use control_deck.Database.{ReplicaRow, Db}
use control_deck.Scheduler.Queue.{replica_is}
use control_deck.Registry.{model_is, list_models}
use control_deck.Replicas.Reconcile.{
  Answer, Candidate, Sample, Pass, ProbeResult, discovered_row, refreshed_row, record_replica,
  sample_of, probe_replica, new_pass, record_probe, record_probes, reconcile_backends,
  known_candidates, backends_of, is_unseen, reconcile_replicas, prune,
}
use control_deck.Replicas.Reconcile.Backends.{IsBackend, backends_of_complete}
use control_deck.Replicas.Reconcile.Coverage.{reconcile_backends-IsCovered, prune-kept}

-- A row that was in the table, with its use and its throughput as they were, or a new one, with no
-- use yet.
abbrev pub HasOrigin : List ReplicaRow → ReplicaRow → Type 0
HasOrigin old r =
    ((o : ReplicaRow) × Mem o old
      × (o.id ≡ r.id)
      × (o.in_flight ≡ r.in_flight)
      × (o.tokens_per_sec ≡ r.tokens_per_sec))
    ⊎ ((any (replica_is r.id) old ≡ false) × (r.in_flight ≡ 0))

-- During a pass no row of the old table is lost.
record Tracks (old replicas : List ReplicaRow) : Type 0 where
  origins : All (HasOrigin old) replicas
  complete : (id : String) → any (replica_is id) replicas ≡ false → any (replica_is id) old ≡ false

module _ (discover : ModelConfig → Option (List Candidate))
    (sampled : ModelConfig → String → Option Sample) (answer : String → Answer) (now : ℕ)
    (old : List ReplicaRow) where
  record_replica-Tracks :
      (model_id : String) (c : Candidate) (sample : Option Sample) (p : ProbeResult)
      (replicas : List ReplicaRow)
      → Tracks old replicas
      → Tracks old (record_replica model_id c sample p now replicas)
  unfolding record_replica
  record_replica-Tracks model_id c sample p replicas h = record {
    origins =
        All-upsert (HasOrigin old) (replica_is c.id) (refreshed_row model_id c sample p now)
          (discovered_row model_id c sample p now)
          (λ r o. elim o [ inl was ↦ inl was | inr new ↦ inr new ]) replicas
          (λ absent. inr (h.complete c.id absent, refl)) h.origins;
    complete = λ id absent. h.complete id (
        any-upsert (replica_is c.id) (replica_is id) (refreshed_row model_id c sample p now)
          (discovered_row model_id c sample p now) (λ x. refl) replicas absent);
  }

  record_probe-Tracks :
      (model : ModelConfig) (c : Candidate) (pass : Pass)
      → Tracks old pass.db.replicas
      → Tracks old (record_probe discover sampled answer now model c pass).db.replicas
  unfolding record_probe
  record_probe-Tracks model c pass h =
      let tracks : Pass → Type 0 = λ x. Tracks old x.db.replicas in
      if_both tracks pass.failed _ _ h (
        if_both tracks (any (model_is model.backend_model_id) pass.db.model_registry) _ _
          (record_replica-Tracks model.backend_model_id c
            (sample_of discover sampled answer now model c) (probe_replica (answer c.endpoint_url))
            pass.db.replicas h)
          h)

  record_probes-Tracks :
      (model : ModelConfig) (cs : List Candidate) (pass : Pass)
      → Tracks old pass.db.replicas
      → Tracks old (record_probes discover sampled answer now model cs pass).db.replicas
  record_probes-Tracks model [] pass h = h
  record_probes-Tracks model (c ∷ cs) pass h =
      record_probes-Tracks model cs (record_probe discover sampled answer now model c pass)
        (record_probe-Tracks model c pass h)

  reconcile_backends-Tracks :
      (ms : List ModelConfig) (pass : Pass)
      → Tracks old pass.db.replicas
      → Tracks old (reconcile_backends discover sampled answer now ms pass).db.replicas
  reconcile_backends-Tracks [] pass h = h
  reconcile_backends-Tracks (m ∷ ms) pass h =
      let cs = or_else (discover m) (known_candidates pass.db m.backend_model_id) in
      reconcile_backends-Tracks ms (record_probes discover sampled answer now m cs pass)
        (record_probes-Tracks m cs pass h)

module _ (discover : ModelConfig → Option (List Candidate))
    (sampled : ModelConfig → String → Option Sample) (answer : String → Answer) (now : ℕ)
    (collate : String → String → Bool) (db : Db) where
  -- A pass leaves the scheduler's counters alone: a replica that it keeps has the use and the
  -- throughput that it had, and a replica that it adds has no use yet and was not in the table. Unless
  -- it throws, which is when a backend is no model of the registry, it keeps no replica that it has
  -- not seen, and every model has a backend of which each replica that is discovered is in the
  -- table after it: the model that it names, or one that names the same.
  pub reconcile_replicas-HasOrigin :
      let pass = reconcile_replicas discover sampled answer now collate db in
      All (HasOrigin db.replicas) pass.db.replicas
      × (pass.failed ≡ false
          → All (λ (r : ReplicaRow). any (λ id. id == r.id) pass.seen ≡ true) pass.db.replicas
            × ((m : ModelConfig)
                → Mem m (list_models collate db)
                → (b : ModelConfig) × IsBackend (list_models collate db) m.backend_model_id b
                  × ((cs : List Candidate) (c : Candidate)
                      → discover b ≡ some cs
                      → Mem c cs
                      → any (replica_is c.id) pass.db.replicas ≡ true)))
  unfolding reconcile_replicas
  reconcile_replicas-HasOrigin =
      let models = list_models collate db in
      let start = new_pass discover sampled answer now db (length models) in
      let last = reconcile_backends discover sampled answer now (backends_of models) start in
      let unseen = is_unseen discover sampled answer now last.seen in
      let tracks =
        reconcile_backends-Tracks discover sampled answer now db.replicas (backends_of models) start
          (record {
            origins =
                All-of_mem (HasOrigin db.replicas) db.replicas
                  (λ r m. inl (r, m, refl, refl, refl));
            complete = λ id absent. absent;
          }) in
      let done : (prune discover sampled answer now last).failed ≡ false → last.failed ≡ false =
        λ h. elim (Bool-cases last.failed) [ inl e ↦ let stopped = rw e at h in cc | inr e ↦ e ] in
      (
        if_both (λ (x : Pass). All (HasOrigin db.replicas) x.db.replicas) last.failed _ _
            tracks.origins
            (All-delete (HasOrigin db.replicas) unseen last.db.replicas tracks.origins),
        λ h. (
          rw (done h) (
              All-map _ _ (λ (r : ReplicaRow) h. ground arith) (delete unseen last.db.replicas)
                (delete-All unseen last.db.replicas)),
          λ m listed.
              let (b, probed, is_backend) = backends_of_complete models m listed in
              (
                b,
                is_backend,
                λ cs c found in_cs. prune-kept discover sampled answer now c last (
                    reconcile_backends-IsCovered discover sampled answer now b c cs
                      (backends_of models) start probed found in_cs (done h)),
              ),
        ),
      )
