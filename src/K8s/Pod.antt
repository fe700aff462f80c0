-- ===== src/K8s/Pod.antt =====
-- The fields of a Kubernetes pod that the backend reads (the types are those of k8s-openapi).
use roder.Prelude.{ℕ, String, Option, List}

pub record OwnerReference : Type 0 where
  pub kind : String

pub record ObjectMeta : Type 0 where
  pub name : Option String
  pub namespace : Option String
  pub uid : Option String
  pub deletion_timestamp : Option String
  pub owner_references : Option (List OwnerReference)
  pub annotations : Option (List (String × String))

pub record Volume : Type 0 where
  pub empty_dir : Option String

pub record PodSpec : Type 0 where
  pub node_name : Option String
  pub volumes : Option (List Volume)

pub record ContainerState : Type 0 where
  pub waiting_reason : Option (Option String)
  pub terminated_reason : Option (Option String)

pub record ContainerStatus : Type 0 where
  pub restart_count : ℕ
  pub state : Option ContainerState

pub record PodCondition : Type 0 where
  pub type : String
  pub status : String

pub record PodStatus : Type 0 where
  pub conditions : Option (List PodCondition)
  pub pod_ip : Option String
  pub phase : Option String
  pub reason : Option String
  pub container_statuses : Option (List ContainerStatus)
  pub init_container_statuses : Option (List ContainerStatus)

pub record Pod : Type 0 where
  pub metadata : ObjectMeta
  pub spec : Option PodSpec
  pub status : Option PodStatus
