-- ===== src/Replicas/Discovery/Examples.antt =====
-- Addresses and ids of replicas.
use control_deck.Prelude.{◌≡◌, refl, some, [], ◌∷◌}
use control_deck.Routing.Complexity.{codes, lower_case, is_space, is_digit}
use control_deck.Http.Stream.{trim}
use control_deck.Replicas.Discovery.{replica_endpoints_for, slug_of, replica_id_for}

two_addresses :
    replica_endpoints_for (some (codes "http://a/, http://b// ,")) (codes "http://m")
    ≡ codes "http://a" ∷ codes "http://b" ∷ []
unfolding replica_endpoints_for trim is_space
two_addresses = refl

-- Two ports of a host with a long name have one id.
ports_share_id :
    replica_id_for
      (λ _. some (codes "model-server.inference.svc.cluster.local", codes "8081"))
      (codes "big")
      (codes "one")
    ≡ replica_id_for
        (λ _. some (codes "model-server.inference.svc.cluster.local", codes "8082"))
        (codes "big")
        (codes "two")
unfolding replica_id_for slug_of lower_case is_digit
ports_share_id = refl
