-- ===== src/Replicas/Reconcile/Coverage.antt =====
-- What a pass probes stays in the table, unless the pass throws.
use control_deck.Prelude.{
  ℕ, String, Bool, true, false, ◌==◌, ◌≡◌, refl, sym, subst, Option, some, or_else, List, [], ◌∷◌,
  any, upsert, delete, Mem, Memᴰ, if_both, Bool-cases, inl, inr, any-upsert, eq_refl, eq_iff, arith,
}
use control_deck.Types.{ModelConfig}
use control_deck.Database.{ReplicaRow}
use control_deck.Scheduler.Queue.{replica_is}
use control_deck.Registry.{model_is}
use control_deck.Replicas.Reconcile.{
  Answer, Candidate, Sample, Pass, ProbeResult, discovered_row, refreshed_row, record_replica,
  sample_of, probe_replica, record_probe, record_probes, reconcile_backends, known_candidates,
  is_unseen, prune,
}

any-upsert_self :
    {A : Type 0} (p : A → Bool) (f : A → A) (new : A)
    → p new ≡ true
    → ((x : A) → p (f x) ≡ p x)
    → (xs : List A) → any p (upsert p f new xs) ≡ true
any-upsert_self p f new own same [] = rw own refl
any-upsert_self p f new own same (x ∷ xs) = elim (Bool-cases (p x)) [
  | inl e ↦ rw (e, same x, e) refl
  | inr e ↦ rw (e, e, any-upsert_self p f new own same xs) refl
]

any-delete_other :
    {A : Type 0} (p q : A → Bool)
    → ((x : A) → q x ≡ true → p x ≡ false)
    → (xs : List A) → any q xs ≡ true
    → any q (delete p xs) ≡ true
any-delete_other p q stays [] h = h
any-delete_other p q stays (x ∷ xs) h = elim (Bool-cases (q x)) [
  | inl e ↦ rw (stays x e, e) refl
  | inr e ↦
      let rest = any-delete_other p q stays xs (rw e at h) in
      elim (Bool-cases (p x)) [ inl d ↦ rw d rest | inr d ↦ rw (d, e) rest ]
]

-- The pass has seen the replica, and the replica is in the table.
pub record IsCovered (c : Candidate) (pass : Pass) : Type 0 where
  pub seen : any (λ id. id == c.id) pass.seen ≡ true
  pub kept : any (replica_is c.id) pass.db.replicas ≡ true

module _ (discover : ModelConfig → Option (List Candidate))
    (sampled : ModelConfig → String → Option Sample) (answer : String → Answer) (now : ℕ) where
  record_replica-keeps :
      (model_id id : String) (c : Candidate) (sample : Option Sample) (p : ProbeResult)
      (replicas : List ReplicaRow)
      → any (replica_is id) replicas ≡ true
      → any (replica_is id) (record_replica model_id c sample p now replicas) ≡ true
  unfolding record_replica
  record_replica-keeps model_id id c sample p replicas h =
      elim (Bool-cases (any (replica_is id) (record_replica model_id c sample p now replicas))) [
        | inl e ↦ e
        | inr e ↦
            let gone =
              any-upsert (replica_is c.id) (replica_is id) (refreshed_row model_id c sample p now)
                (discovered_row model_id c sample p now) (λ x. refl) replicas e in
            cc
      ]

  module _ (model : ModelConfig) where
    record_probe-keeps :
        (c d : Candidate) (pass : Pass)
        → IsCovered c pass
        → IsCovered c (record_probe discover sampled answer now model d pass)
    unfolding record_probe
    record_probe-keeps c d pass h =
        let p = probe_replica (answer d.endpoint_url) in
        let later : any (λ id. id == c.id) (d.id ∷ pass.seen) ≡ true = ground (arith, h.seen) in
        if_both (IsCovered c) pass.failed _ _ h (
          if_both (IsCovered c) (any (model_is model.backend_model_id) pass.db.model_registry) _ _
            (record {
              seen = later;
              kept =
                  record_replica-keeps model.backend_model_id c.id d
                    (sample_of discover sampled answer now model d) p pass.db.replicas h.kept;
            })
            (record { seen = later; kept = h.kept }))

    -- A pass that has not thrown had not thrown before.
    record_probe-done :
        (c : Candidate) (pass : Pass)
        → (record_probe discover sampled answer now model c pass).failed ≡ false
        → pass.failed ≡ false
    unfolding record_probe
    record_probe-done c pass h = elim (Bool-cases pass.failed) [
      | inl e ↦ let stopped = rw e at h in cc
      | inr e ↦ e
    ]

    record_probe-IsCovered :
        (c : Candidate) (pass : Pass)
        → (record_probe discover sampled answer now model c pass).failed ≡ false
        → IsCovered c (record_probe discover sampled answer now model c pass)
    unfolding record_probe record_replica
    record_probe-IsCovered c pass h =
        let p = probe_replica (answer c.endpoint_url) in
        let open_yet = record_probe-done c pass h in
        elim (Bool-cases (any (model_is model.backend_model_id) pass.db.model_registry)) [
          | inr e ↦ let stopped = rw (open_yet, e) at h in cc
          | inl e ↦
              rw (open_yet, e)
                (record {
                  seen = rw (eq_refl c.id) refl;
                  kept =
                      any-upsert_self (replica_is c.id)
                        (refreshed_row model.backend_model_id c
                          (sample_of discover sampled answer now model c) p now)
                        (discovered_row model.backend_model_id c
                          (sample_of discover sampled answer now model c) p now)
                        (eq_refl c.id) (λ x. refl) pass.db.replicas;
                })
        ]

    record_probes-keeps :
        (c : Candidate) (cs : List Candidate) (pass : Pass)
        → IsCovered c pass
        → IsCovered c (record_probes discover sampled answer now model cs pass)
    record_probes-keeps c [] pass h = h
    record_probes-keeps c (d ∷ cs) pass h =
        record_probes-keeps c cs (record_probe discover sampled answer now model d pass)
          (record_probe-keeps c d pass h)

    record_probes-done :
        (cs : List Candidate) (pass : Pass)
        → (record_probes discover sampled answer now model cs pass).failed ≡ false
        → pass.failed ≡ false
    record_probes-done [] pass h = h
    record_probes-done (c ∷ cs) pass h =
        record_probe-done c pass
          (record_probes-done cs (record_probe discover sampled answer now model c pass) h)

    record_probes-IsCovered :
        (c : Candidate) (cs : List Candidate) (pass : Pass)
        → Mem c cs
        → (record_probes discover sampled answer now model cs pass).failed ≡ false
        → IsCovered c (record_probes discover sampled answer now model cs pass)
    record_probes-IsCovered c [] pass m h = elim m [ ]
    record_probes-IsCovered c (d ∷ cs) pass (Memᴰ.head e) h =
        let next = record_probe discover sampled answer now model d pass in
        record_probes-keeps c cs next (
          subst (λ (x : Candidate). IsCovered x next) (sym e)
            (record_probe-IsCovered d pass (record_probes-done cs next h)))
    record_probes-IsCovered c (d ∷ cs) pass (Memᴰ.tail m) h =
        record_probes-IsCovered c cs (record_probe discover sampled answer now model d pass) m h

  reconcile_backends-keeps :
      (c : Candidate) (ms : List ModelConfig) (pass : Pass)
      → IsCovered c pass
      → IsCovered c (reconcile_backends discover sampled answer now ms pass)
  reconcile_backends-keeps c [] pass h = h
  reconcile_backends-keeps c (m ∷ ms) pass h =
      let cs = or_else (discover m) (known_candidates pass.db m.backend_model_id) in
      reconcile_backends-keeps c ms (record_probes discover sampled answer now m cs pass)
        (record_probes-keeps m c cs pass h)

  reconcile_backends-done :
      (ms : List ModelConfig) (pass : Pass)
      → (reconcile_backends discover sampled answer now ms pass).failed ≡ false
      → pass.failed ≡ false
  reconcile_backends-done [] pass h = h
  reconcile_backends-done (m ∷ ms) pass h =
      let cs = or_else (discover m) (known_candidates pass.db m.backend_model_id) in
      record_probes-done m cs pass
        (reconcile_backends-done ms (record_probes discover sampled answer now m cs pass) h)

  -- Every replica that is discovered for a backend.
  pub reconcile_backends-IsCovered :
      (m : ModelConfig) (c : Candidate) (cs : List Candidate) (ms : List ModelConfig) (pass : Pass)
      → Mem m ms
      → discover m ≡ some cs
      → Mem c cs
      → (reconcile_backends discover sampled answer now ms pass).failed ≡ false
      → IsCovered c (reconcile_backends discover sampled answer now ms pass)
  reconcile_backends-IsCovered m c cs [] pass listed found in_cs h = elim listed [ ]
  reconcile_backends-IsCovered m c cs (x ∷ ms) pass (Memᴰ.head e) found in_cs h =
      let all = or_else (discover x) (known_candidates pass.db x.backend_model_id) in
      let next = record_probes discover sampled answer now x all pass in
      let in_all : Mem c all = rw (← e, found) in_cs in
      reconcile_backends-keeps c ms next
        (record_probes-IsCovered x c all pass in_all (reconcile_backends-done ms next h))
  reconcile_backends-IsCovered m c cs (x ∷ ms) pass (Memᴰ.tail listed) found in_cs h =
      reconcile_backends-IsCovered m c cs ms
        (record_probes discover sampled answer now x
          (or_else (discover x) (known_candidates pass.db x.backend_model_id)) pass)
        listed found in_cs h

  -- The last statement drops no replica that was seen.
  pub prune-kept :
      (c : Candidate) (pass : Pass)
      → IsCovered c pass
      → any (replica_is c.id) (prune discover sampled answer now pass).db.replicas ≡ true
  prune-kept c pass h =
      if_both (λ (x : Pass). any (replica_is c.id) x.db.replicas ≡ true) pass.failed _ _ h.kept
        (any-delete_other (is_unseen discover sampled answer now pass.seen) (replica_is c.id)
          (λ r mine. seen_row r mine) pass.db.replicas h.kept)
    where
      seen_row :
          (r : ReplicaRow)
          → replica_is c.id r ≡ true
          → is_unseen discover sampled answer now pass.seen r ≡ false
      seen_row r mine = let same : r.id ≡ c.id = (eq_iff r.id c.id).0 mine in rw (same, h.seen) refl
