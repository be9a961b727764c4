-- ===== src/Replicas/Reconcile.antt =====
-- server/src/replicas/reconcile.ts: the table of replicas is brought in step with the backends.
--
-- What the network says is a parameter: `discover` lists a model's replicas, or fails; `sampled` is
-- what metrics-server reports for a replica; `answer` is a backend's answer to a probe.
pub mod Backends
pub mod Coverage
pub mod Laws
use control_deck.Prelude.{
  ℕ, suc, ◌+◌, ◌-◌, ◌*◌, ◌/◌, String, Bool, true, false, not, ◌==◌, if◌then◌else◌, eqb, ltb, leb,
  Option, none, some, or_else, List, [], ◌∷◌, ◌++◌, map, any, find, filter, delete, upsert, length,
}
use control_deck.Prelude.Fraction.{Fraction, of_nat, den, le_frac}
use control_deck.Types.{ReplicaStatus, ModelConfig}
use control_deck.Database.{ReplicaRow, Db}
use control_deck.Scheduler.Queue.{replica_is}
use control_deck.Registry.{model_is, list_models}

pub data ProbeStatus : Type 0 where
  ready loading error : ProbeStatus

pub record ProbeResult : Type 0 where
  pub status : ProbeStatus
  pub max_concurrency : Option ℕ

-- No answer, or a status with the number that the body gives as maxConcurrency.
pub data Answer : Type 0 where
  unreachable : Answer
  answered : (status : ℕ) (reported : Option Fraction) → Answer

abbrev ceiling_of : Option Fraction → Option ℕ
ceiling_of none = none
ceiling_of (some f) = if leb (den f) f.num then some (f.num / den f) else none

abbrev is_ok : ℕ → Bool
is_ok status = if leb 200 status then ltb status 300 else false

unfoldable pub probe_replica : Answer → ProbeResult
probe_replica Answer.unreachable = record { status = ProbeStatus.error; max_concurrency = none }
probe_replica (Answer.answered status reported) = record {
  status =
      (if is_ok status
        then ProbeStatus.ready
        else if eqb status 503
        then ProbeStatus.loading
        else ProbeStatus.error);
  max_concurrency = ceiling_of reported;
}

pub record Candidate : Type 0 where
  pub id : String
  pub endpoint_url : String
  pub restart_count : Option ℕ

pub record Sample : Type 0 where
  pub cpu_millicores : ℕ
  pub memory_bytes : ℕ

pub record ReconcileSummary : Type 0 where
  pub models : ℕ
  pub ready : ℕ
  pub loading : ℕ
  pub error : ℕ
  pub removed : ℕ

-- The state of one pass: the tables, seenIds and the summary, and whether it has thrown: the foreign key
-- of replicas.model_id refuses a backend that is no model of the registry. The check of the names that
-- a backend serves is in Registry.Upstream; it writes no table.
pub record Pass : Type 0 where
  pub db : Db
  pub seen : List String
  pub summary : ReconcileSummary
  pub failed : Bool

-- `backends`, in the order of insertion.
abbrev pub add_backend :
    List ModelConfig → List (String × ModelConfig) → ModelConfig → List (String × ModelConfig)
add_backend models known m =
    if any (λ (b : String × ModelConfig). b.0 == m.backend_model_id) known
    then known
    else known
      ++ ((
        m.backend_model_id,
        or_else (find (λ (o : ModelConfig). o.id == m.backend_model_id) models) m,
      )
          ∷ [])

abbrev pub collect_backends :
    List ModelConfig → List ModelConfig → List (String × ModelConfig) → List (String × ModelConfig)
collect_backends models [] known = known
collect_backends models (m ∷ ms) known = collect_backends models ms (add_backend models known m)

abbrev pub backends_of : List ModelConfig → List ModelConfig
backends_of models = map (λ (b : String × ModelConfig). b.1) (collect_backends models models [])

abbrev pub replica_status : ProbeStatus → ReplicaStatus
replica_status ProbeStatus.ready = ReplicaStatus.ready
replica_status ProbeStatus.loading = ReplicaStatus.loading
replica_status ProbeStatus.error = ReplicaStatus.error

abbrev count : ProbeStatus → ReconcileSummary → ReconcileSummary
count ProbeStatus.ready s = record s { ready = s.ready + 1 }
count ProbeStatus.loading s = record s { loading = s.loading + 1 }
count ProbeStatus.error s = record s { error = s.error + 1 }

-- LEAST(100, in_flight / ceiling * 100)
abbrev pub load_of : ℕ → ℕ → Fraction
load_of in_flight ceiling =
    let pct : Fraction = record { num = in_flight * 100; pred_den = ceiling - 1 } in
    if ltb 0 ceiling then (if le_frac (of_nat 100) pct then of_nat 100 else pct) else of_nat 0

-- COALESCE of two columns that may be NULL.
abbrev pub newer_of {ℓ} : {A : Type ℓ} → Option A → Option A → Option A
newer_of (some a) old = some a
newer_of none old = old

abbrev cpu_of : Option Sample → Option ℕ
cpu_of none = none
cpu_of (some s) = some s.cpu_millicores

abbrev memory_of : Option Sample → Option ℕ
memory_of none = none
memory_of (some s) = some s.memory_bytes

module _ (model_id : String) (c : Candidate) (sample : Option Sample) (p : ProbeResult)
    (now : ℕ) where
  abbrev pub discovered_row : ReplicaRow
  discovered_row = record {
    id = c.id;
    model_id = model_id;
    status = replica_status p.status;
    in_flight = 0;
    load_pct = of_nat 0;
    tokens_per_sec = none;
    tokens_per_sec_at = none;
    max_concurrency = or_else p.max_concurrency 1;
    endpoint_url = c.endpoint_url;
    last_seen_at = some now;
    cpu_millicores = cpu_of sample;
    memory_bytes = memory_of sample;
    restart_count = or_else c.restart_count 0;
    updated_at = now;
  }

  abbrev pub refreshed_row : ReplicaRow → ReplicaRow
  refreshed_row r = record r {
    model_id = model_id;
    status = replica_status p.status;
    endpoint_url = c.endpoint_url;
    cpu_millicores = newer_of (cpu_of sample) r.cpu_millicores;
    memory_bytes = newer_of (memory_of sample) r.memory_bytes;
    restart_count = or_else c.restart_count r.restart_count;
    max_concurrency = or_else p.max_concurrency r.max_concurrency;
    last_seen_at = some now;
    load_pct = load_of r.in_flight (or_else p.max_concurrency r.max_concurrency);
    updated_at = now;
  }

  -- INSERT INTO replicas … ON CONFLICT (id) DO UPDATE
  unfoldable pub record_replica : List ReplicaRow → List ReplicaRow
  record_replica replicas = upsert (replica_is c.id) refreshed_row discovered_row replicas

-- The replicas of the table, when the list of pods could not be had.
abbrev pub known_candidates : Db → String → List Candidate
known_candidates db model_id =
    map
      (λ (r : ReplicaRow). record {
        id = r.id;
        endpoint_url = r.endpoint_url;
        restart_count = none;
      })
      (filter (λ (r : ReplicaRow). r.model_id == model_id) db.replicas)

module _ (discover : ModelConfig → Option (List Candidate))
    (sampled : ModelConfig → String → Option Sample) (answer : String → Answer) (now : ℕ) where
  abbrev pub sample_of : ModelConfig → Candidate → Option Sample
  sample_of model c = elim (discover model) [ none ↦ none | some _ ↦ sampled model c.id ]

  -- seenIds.push and the count, and then the statement.
  abbrev pub write_probe : ModelConfig → Candidate → ProbeResult → Pass → Pass
  write_probe model c p pass =
      let noted = record pass { seen = c.id ∷ pass.seen; summary = count p.status pass.summary } in
      if any (model_is model.backend_model_id) pass.db.model_registry
      then record noted {
        db = record pass.db {
          replicas =
              record_replica model.backend_model_id c (sample_of model c) p now pass.db.replicas;
        };
      }
      else record noted { failed = true }

  -- Nothing is done after an error.
  unfoldable pub record_probe : ModelConfig → Candidate → Pass → Pass
  unfolding probe_replica record_replica
  record_probe model c pass =
      if pass.failed then pass else write_probe model c (probe_replica (answer c.endpoint_url)) pass

  abbrev pub record_probes : ModelConfig → List Candidate → Pass → Pass
  record_probes model [] pass = pass
  record_probes model (c ∷ cs) pass = record_probes model cs (record_probe model c pass)

  abbrev pub reconcile_backends : List ModelConfig → Pass → Pass
  reconcile_backends [] pass = pass
  reconcile_backends (m ∷ ms) pass =
      reconcile_backends ms
        (record_probes m (or_else (discover m) (known_candidates pass.db m.backend_model_id)) pass)

  abbrev pub is_unseen : List String → ReplicaRow → Bool
  is_unseen seen r = not (any (λ id. id == r.id) seen)

  -- DELETE FROM replicas WHERE NOT (id = ANY(seen))
  abbrev pub pruned : Pass → Pass
  pruned pass = record pass {
    db = record pass.db { replicas = delete (is_unseen pass.seen) pass.db.replicas };
    summary = record pass.summary {
      removed = length (filter (is_unseen pass.seen) pass.db.replicas);
    };
  }

  abbrev pub prune : Pass → Pass
  prune pass = if pass.failed then pass else pruned pass

  abbrev pub new_pass : Db → ℕ → Pass
  new_pass db n = record {
    db = db;
    seen = [];
    summary = record { models = n; ready = 0; loading = 0; error = 0; removed = 0 };
    failed = false;
  }

  unfoldable pub reconcile_replicas : (String → String → Bool) → Db → Pass
  unfolding list_models record_probe
  reconcile_replicas collate db =
      let models = list_models collate db in
      prune (reconcile_backends (backends_of models) (new_pass db (length models)))
