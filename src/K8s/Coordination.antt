-- ===== src/K8s/Coordination.antt =====
-- crates/k8s/src/coordination.rs: the lease that keeps two replicas from working on one node. The
-- operations run between their awaits, so each is a machine that is resumed with the answer of the
-- API server; a resource version is a token that the server always gives. Times are numbers.
pub mod Server
pub mod Tasks
pub mod Effects
pub mod Invariant
pub mod Exclusion
mod Tests
pub mod Acquire
pub mod Renewals
pub mod Naming
use roder.Prelude.{
  ℕ, zero, suc, ◌+◌, String, Bool, true, false, not, ◌&&◌, Option, none, some, List, [], ◌∷◌, any,
  ◌==◌, string_eq, nat_beq, leb, if◌then◌else◌, Result, ok, err, unwrap_or, is_some,
}
use roder.Prelude.Maps.{find}
use roder.Prelude.Texts.{split_once}
use roder.K8s.Errors.{KubeError, api}
use roder.K8s.Pod.{Pod, PodCondition, PodSpec, PodStatus}

abbrev pub lease_duration_secs : ℕ
lease_duration_secs = 45

pub record RoderPod : Type 0 where
  pub name : String
  pub uid : String
  pub node : String
  pub ip : String
  pub ready : Bool
  pub tls_fingerprint : Option String

abbrev has_ready : Option (List PodCondition) → Bool
has_ready none = false
has_ready (some cs) = any (λ c. c.type == "Ready" && c.status == "True") cs

abbrev is_running : Option String → Bool
is_running none = false
is_running (some phase) = phase == "Running"

abbrev annotation : String → Option (List (String × String)) → Option String
annotation key none = none
annotation key (some annotations) = find key annotations

abbrev node_name_of : Option PodSpec → Option String
node_name_of none = none
node_name_of (some spec) = spec.node_name

-- The closure of `filter_map` in `pods`: the fields that a pod must have, in the source's order.
abbrev roder_pod_of :
    Pod
    → PodStatus
    → Option String
    → Option String
    → Option String
    → Option String
    → Option RoderPod
roder_pod_of pod status (some name) (some uid) (some node) (some ip) = some (record {
  name = name;
  uid = uid;
  node = node;
  ip = ip;
  ready =
      not (is_some pod.metadata.deletion_timestamp)
      && (is_running status.phase && has_ready status.conditions);
  tls_fingerprint = annotation "roder.io/tls-fingerprint" pod.metadata.annotations;
})
roder_pod_of pod status _ _ _ _ = none

unfoldable pub roder_pod : Pod → Option RoderPod
roder_pod pod = elim pod.status [
  | none ↦ none
  | some status ↦
      roder_pod_of pod status pod.metadata.name pod.metadata.uid (node_name_of pod.spec)
        status.pod_ip
]

unfoldable pub pods : List Pod → List RoderPod
pods [] = []
pods (p ∷ ps) = let rest = pods ps in elim (roder_pod p) [ none ↦ rest | some r ↦ r ∷ rest ]

unfoldable pub holder_pod_exists : String → List RoderPod → Bool
holder_pod_exists holder ps = elim (split_once b'/' holder) [
  | none ↦ true
  | some part ↦ any (λ pod. pod.name == part.0 && pod.uid == part.1) ps
]

pub record LeaseSpec : Type 0 where
  pub holder_identity : Option String
  pub lease_duration_seconds : Option ℕ
  pub acquire_time : Option ℕ
  pub renew_time : Option ℕ
  pub lease_transitions : Option ℕ

pub record Lease : Type 0 where
  pub resource_version : ℕ
  pub target : Option String
  pub spec : Option LeaseSpec

-- `lease.spec.as_ref().and_then(|spec| spec.holder_identity.as_deref())`
abbrev pub spec_holder : Option LeaseSpec → Option String
spec_holder none = none
spec_holder (some spec) = spec.holder_identity

unfoldable pub holder_of : Lease → Option String
holder_of lease = spec_holder lease.spec

abbrev pub is_held_by : Option String → String → Bool
is_held_by none holder = false
is_held_by (some h) holder = h == holder

-- The version is the server's to give.
unfoldable pub new_lease : ℕ → String → String → Lease
new_lease now target holder = record {
  resource_version = 0;
  target = some target;
  spec = some (record {
    holder_identity = some holder;
    lease_duration_seconds = some lease_duration_secs;
    acquire_time = some now;
    renew_time = some now;
    lease_transitions = some 0;
  });
}

-- A merge patch of the spec: each field is left alone, or set, or (the holder) removed.
pub record SpecPatch : Type 0 where
  pub holder_identity : Option (Option String)
  pub lease_duration_seconds : Option ℕ
  pub acquire_time : Option ℕ
  pub renew_time : Option ℕ
  pub lease_transitions : Option ℕ

abbrev spec_transitions : Option LeaseSpec → ℕ
spec_transitions none = 0
spec_transitions (some spec) = unwrap_or spec.lease_transitions 0

unfoldable pub take_over : ℕ → String → Lease → SpecPatch
take_over now holder lease = record {
  holder_identity = some (some holder);
  lease_duration_seconds = some lease_duration_secs;
  acquire_time = some now;
  renew_time = some now;
  lease_transitions =
      some (spec_transitions lease.spec + (if is_held_by (holder_of lease) holder then 0 else 1));
}

unfoldable pub renewal : ℕ → SpecPatch
renewal now = record {
  holder_identity = none;
  lease_duration_seconds = none;
  acquire_time = none;
  renew_time = some now;
  lease_transitions = none;
}

abbrev pub give_up : SpecPatch
give_up = record {
  holder_identity = some none;
  lease_duration_seconds = none;
  acquire_time = none;
  renew_time = none;
  lease_transitions = none;
}

pub data AcquireError : Type 0 where
  busy : AcquireError
  kubernetes : KubeError → AcquireError

-- `acquire` before each of its calls, with the rounds left after this one.
pub data Acquiring : Type 0 where
  fetching : ℕ → Acquiring
  checking : ℕ → Lease → String → Acquiring
  writing : ℕ → Option Lease → Acquiring

-- What follows the answer to a call: another call, or the end.
pub data Next : Type 0 where
  going_on : Acquiring → Next
  ended : Result (Unit {0}) AcquireError → Next

-- Four rounds.
abbrev pub begin : Acquiring
begin = fetching 3

abbrev found_holder : ℕ → Lease → Option String → Next
found_holder left lease none = going_on (writing left (some lease))
found_holder left lease (some holder) = going_on (checking left lease holder)

unfoldable pub after_get : ℕ → Result (Option Lease) KubeError → Next
after_get left (err e) = ended (err (kubernetes e))
after_get left (ok none) = going_on (writing left none)
after_get left (ok (some lease)) = found_holder left lease (holder_of lease)

unfoldable pub after_list : ℕ → Lease → String → Result (List Pod) KubeError → Next
after_list left lease holder (err e) = ended (err (kubernetes e))
after_list left lease holder (ok ps) =
    if holder_pod_exists holder (pods ps)
    then ended (err busy)
    else going_on (writing left (some lease))

-- The next round, after a conflict.
abbrev pub next_round : ℕ → Next
next_round zero = ended (err busy)
next_round (suc left) = going_on (fetching left)

abbrev pub is_conflict : KubeError → Bool
is_conflict (api code _) = nat_beq code 409
is_conflict _ = false

unfoldable pub after_write : ℕ → Result (Unit {0}) KubeError → Next
after_write left (ok done) = ended (ok tt)
after_write left (err e) = if is_conflict e then next_round left else ended (err (kubernetes e))

-- `renew` before each of its calls; `idle` is the `select!` of the renewal task.
pub data Renewing : Type 0 where
  idle : Renewing
  reading : Renewing
  stamping : Lease → Renewing

-- A held lease: how often in a row its renewal failed, and whether the cancel flag that was handed to
-- `cancel_on_loss` has been set.
pub record Holding : Type 0 where
  pub failures : ℕ
  pub cancelled : Bool
  pub renewing : Renewing

abbrev pub held : Holding
held = record { failures = 0; cancelled = false; renewing = idle }

-- The arm of `interval.tick()` after `renew` returned; `cancelled` is the flag that is handed over right after
-- the lease was acquired, before the first renewal.
unfoldable pub renewed : Bool → Holding → Holding
renewed true h = record h { failures = 0; renewing = idle }
renewed false h = record {
  failures = h.failures + 1;
  cancelled = if leb 3 (h.failures + 1) then true else h.cancelled;
  renewing = idle;
}

-- `release`, after the renewal task has ended, before each of its calls.
pub data Releasing : Type 0 where
  looking : Releasing
  clearing : Lease → Releasing
