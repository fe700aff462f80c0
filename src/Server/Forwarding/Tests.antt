-- ===== src/Server/Forwarding/Tests.antt =====
-- Two replicas on two nodes.
use roder.Prelude.{string_eq, ◌≡◌, refl, String, true, false, none, some, List, [], ◌∷◌, ok, ◌==◌}
use roder.K8s.Coordination.{RoderPod}
use roder.Server.Forwarding.{Replica, here, sent, is_on, min_by_name, forward_action_from_target}
use roder.Server.Forwarding.Executor.{forward_action_from_target-sent}

abbrev peer : String → String → RoderPod
peer name node = record {
  name = name;
  uid = "u";
  node = node;
  ip = "10.0.0.1";
  ready = true;
  tls_fingerprint = none;
}

abbrev self : Replica
self = record { ha = true; pod_name = "roder-a"; pod_node_name = some "n1" }

abbrev both : List RoderPod
both = peer "roder-a" "n1" ∷ peer "roder-b" "n2" ∷ []

goes_to_other : forward_action_from_target self false "n1" (ok both) ≡ sent (peer "roder-b" "n2")
unfolding forward_action_from_target min_by_name
goes_to_other = refl

forward_action_from_target-sent_example :
    (false ≡ false)
    × (is_on "n1" self.pod_node_name ≡ true)
    × (true ≡ true)
    × (◌==◌ {A = String} "roder-b" "roder-a" ≡ false)
    × (forward_action_from_target
          (record { ha = true; pod_name = "roder-b"; pod_node_name = some "n2" })
          true
          "n1"
          (ok [])
        ≡ here)
forward_action_from_target-sent_example =
    forward_action_from_target-sent self false "n1" (ok both) (peer "roder-b" "n2") (ok [])
      goes_to_other
