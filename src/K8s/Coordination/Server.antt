-- ===== src/K8s/Coordination/Server.antt =====
-- The API server as the lease's clients see it: one lease, the pods, and a revision that grows with
-- each write. Writes are checked against the resource version, which is what Kubernetes documents.
use roder.Prelude.{ℕ, ◌≤◌, ◌<◌, ◌≡◌, ◌⊎◌, Option, none, some, List, Result, ok, err, unwrap_or}
use roder.K8s.Errors.{KubeError}
use roder.K8s.Pod.{Pod}
use roder.K8s.Coordination.{Lease, LeaseSpec, SpecPatch}

-- The merge of a patch: a field that the patch has not keeps its value.
abbrev pub or_keep : Option ℕ → Option ℕ → Option ℕ
or_keep none old = old
or_keep (some new) old = some new

abbrev no_spec : LeaseSpec
no_spec = record {
  holder_identity = none;
  lease_duration_seconds = none;
  acquire_time = none;
  renew_time = none;
  lease_transitions = none;
}

abbrev pub merge_spec : SpecPatch → LeaseSpec → LeaseSpec
merge_spec p s = record {
  holder_identity = unwrap_or p.holder_identity s.holder_identity;
  lease_duration_seconds = or_keep p.lease_duration_seconds s.lease_duration_seconds;
  acquire_time = or_keep p.acquire_time s.acquire_time;
  renew_time = or_keep p.renew_time s.renew_time;
  lease_transitions = or_keep p.lease_transitions s.lease_transitions;
}

unfoldable pub merge : SpecPatch → Lease → Lease
merge p l = record l { spec = some (merge_spec p (unwrap_or l.spec no_spec)) }

pub record LeaseApi : Type 1 where
  pub World : Type 0
  pub get_opt : World → Result (Option Lease) KubeError × World
  pub list_pods : World → Result (List Pod) KubeError × World
  pub create : Lease → World → Result (Unit {0}) KubeError × World
  -- the resource version that the patch carries, and the patch of the spec
  pub patch : ℕ → SpecPatch → World → Result (Unit {0}) KubeError × World
  -- what is stored
  pub stored : World → Option Lease
  pub listed : World → List Pod
  pub revision : World → ℕ

module _ (A : LeaseApi) where
  open A use {World, stored, listed, revision}

  -- The lease is as before, and so are the pods.
  pub record Same (v w : World) : Type 0 where
    pub lease : stored w ≡ stored v
    pub pods : listed w ≡ listed v
    pub later : revision v ≤ revision w

  -- The lease has been written, with a version of its own.
  pub record Wrote (l : Lease) (v w : World) : Type 0 where
    pub lease : stored w ≡ some (record l { resource_version = revision w })
    pub pods : listed w ≡ listed v
    pub later : revision v < revision w

abbrev pub Failed : {B : Type 0} → Result B KubeError → Type 0
Failed (ok b) = ⊥
Failed (err e) = Unit

-- What the server promises. A write may be done and its answer be lost, so an error says nothing.
pub record IsOptimistic (A : LeaseApi) : Type 0 where
  pub version-le :
      (w : A.World) (l : Lease) → A.stored w ≡ some l → l.resource_version ≤ A.revision w
  pub get_opt-Same : (w : A.World) → Same A w (A.get_opt w).1
  pub get_opt-stored : (w : A.World) (o : Option Lease) → (A.get_opt w).0 ≡ ok o → o ≡ A.stored w
  pub list_pods-Same : (w : A.World) → Same A w (A.list_pods w).1
  pub list_pods-listed : (w : A.World) (ps : List Pod) → (A.list_pods w).0 ≡ ok ps → ps ≡ A.listed w
  pub create-cases :
      (l : Lease) (w : A.World)
      → (Same A w (A.create l w).1 × Failed (A.create l w).0)
        ⊎ ((A.stored w ≡ none) × Wrote A l w (A.create l w).1)
  pub patch-cases :
      (version : ℕ) (p : SpecPatch) (w : A.World)
      → (Same A w (A.patch version p w).1 × Failed (A.patch version p w).0)
        ⊎ ((l : Lease) × (A.stored w ≡ some l)
            × (l.resource_version ≡ version)
            × Wrote A (merge p l) w (A.patch version p w).1)

-- A server that is reached and that refuses only a write of another version.
pub record IsReached (A : LeaseApi) : Type 0 where
  pub get_opt-ok : (w : A.World) → (A.get_opt w).0 ≡ ok (A.stored w)
  pub list_pods-ok : (w : A.World) → (A.list_pods w).0 ≡ ok (A.listed w)
  pub create-ok : (l : Lease) (w : A.World) → A.stored w ≡ none → (A.create l w).0 ≡ ok tt
  pub patch-ok :
      (p : SpecPatch) (l : Lease) (w : A.World)
      → A.stored w ≡ some l
      → (A.patch l.resource_version p w).0 ≡ ok tt
