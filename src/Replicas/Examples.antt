-- ===== src/Replicas/Examples.antt =====
-- The theorems about the reconciliation at a concrete fleet.
use control_deck.Prelude.{
  Mem, false, String, true, ◌≡◌, ◌==◌, refl, Option, none, some, List, [], ◌∷◌, any, map, All,
}
use control_deck.Types.{ModelConfig}
use control_deck.Database.{ReplicaRow}
use control_deck.Registry.Examples.{one_model}
use control_deck.Replicas.Reconcile.{Answer, Candidate, Sample, reconcile_replicas}
use control_deck.Registry.{list_models}
use control_deck.Scheduler.Queue.{replica_is}
use control_deck.Replicas.Reconcile.Backends.{IsBackend}
use control_deck.Replicas.Reconcile.Laws.{HasOrigin, reconcile_replicas-HasOrigin}
use control_deck.Samples.{by_length}

-- The pod r2 stays, r3 is new, and r1 is gone.
abbrev pods : ModelConfig → Option (List Candidate)
pods _ = some (
    record { id = "r2"; endpoint_url = "http://r2"; restart_count = none }
    ∷ record { id = "r3"; endpoint_url = "http://r3"; restart_count = some 1 }
    ∷ [])

abbrev unsampled : ModelConfig → String → Option Sample
unsampled _ _ = none

abbrev healthy : String → Answer
healthy _ = Answer.answered 200 none

ids_after :
    map
      (λ (r : ReplicaRow). r.id)
      (reconcile_replicas pods unsampled healthy 9000 by_length one_model).db.replicas
    ≡ "r2" ∷ "r3" ∷ []
unfolding reconcile_replicas
ids_after = refl

reconcile_replicas-HasOrigin_example :
    let pass = reconcile_replicas pods unsampled healthy 9000 by_length one_model in
    All (HasOrigin one_model.replicas) pass.db.replicas
    × (pass.failed ≡ false
        → All (λ (r : ReplicaRow). any (λ id. id == r.id) pass.seen ≡ true) pass.db.replicas
          × ((m : ModelConfig)
              → Mem m (list_models by_length one_model)
              → (b : ModelConfig) × IsBackend (list_models by_length one_model) m.backend_model_id b
                × ((cs : List Candidate) (c : Candidate)
                    → pods b ≡ some cs
                    → Mem c cs
                    → any (replica_is c.id) pass.db.replicas ≡ true)))
reconcile_replicas-HasOrigin_example =
    reconcile_replicas-HasOrigin pods unsampled healthy 9000 by_length one_model
