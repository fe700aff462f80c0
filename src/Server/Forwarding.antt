-- ===== src/Server/Forwarding.antt =====
-- src/server/ha.rs: which replica runs an action on a node, in `forward_action_from_target`. The request
-- that is sent and its answer are not modelled.
pub mod Executor
mod Tests
use roder.Prelude.{
  String, Bool, true, false, not, ◌&&◌, Option, none, some, List, [], ◌∷◌, Result, ok, err, filter,
  ◌==◌, string_eq, if◌then◌else◌,
}
use roder.Prelude.Sorting.{str_le}
use roder.K8s.Errors.{KubeError}
use roder.K8s.Coordination.{RoderPod}

-- What becomes of the request: it is run here, refused, or sent to a replica.
pub data Forward : Type 0 where
  here : Forward
  conflict : Forward
  coordination_error : KubeError → Forward
  sent : RoderPod → Forward

-- This replica: whether it runs with others, its pod, and the node of it.
pub record Replica : Type 0 where
  pub ha : Bool
  pub pod_name : String
  pub pod_node_name : Option String

abbrev pub is_executor : String → String → RoderPod → Bool
is_executor target own peer = peer.ready && (not (peer.node == target) && not (peer.name == own))

abbrev pub smaller : RoderPod → Option RoderPod → Option RoderPod
smaller p none = some p
smaller p (some q) = if str_le p.name q.name then some p else some q

-- `min_by(|a, b| a.name.cmp(&b.name))`: the first of the least.
unfoldable pub min_by_name : List RoderPod → Option RoderPod
min_by_name [] = none
min_by_name (p ∷ ps) = smaller p (min_by_name ps)

abbrev pub send_to : Option RoderPod → Forward
send_to none = conflict
send_to (some peer) = sent peer

abbrev pub choose : String → String → Result (List RoderPod) KubeError → Forward
choose target own (err e) = coordination_error e
choose target own (ok peers) = send_to (min_by_name (filter (is_executor target own) peers))

abbrev pub is_on : String → Option String → Bool
is_on target none = false
is_on target (some node) = node == target

-- `internal` tells that another replica has sent the request.
unfoldable pub forward_action_from_target :
    Replica → Bool → String → Result (List RoderPod) KubeError → Forward
forward_action_from_target self internal target peers =
    if not self.ha
    then here
    else if not (is_on target self.pod_node_name)
    then here
    else if internal
    then conflict
    else choose target self.pod_name peers
