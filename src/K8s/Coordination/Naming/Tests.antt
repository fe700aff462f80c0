-- ===== src/K8s/Coordination/Naming/Tests.antt =====
-- The name of the lease of one node.
use roder.Prelude.{◌≤◌, length}
use roder.Prelude.Texts.{codes}
use roder.K8s.Coordination.Naming.{lease_name, IsName, lease_name-IsName}

lease_name-IsName_example :
    IsName (lease_name (λ t. t) (codes "prod") (codes "Node_1"))
    × (length (lease_name (λ t. t) (codes "prod") (codes "Node_1")) ≤ 248)
lease_name-IsName_example = lease_name-IsName (λ t. t) (codes "prod") (codes "Node_1")
