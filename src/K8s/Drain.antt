-- ===== src/K8s/Drain.antt =====
-- crates/k8s/src/backend/drain.rs: which pods a drain evicts, waits for, skips or is blocked by. The
-- drain itself is in Run, its parameters (the API server and the clock) in Cluster.
pub mod Blockers
pub mod Cluster
pub mod Reboot
pub mod Removal
pub mod Run
mod Tests
use roder.Prelude.{
  ℕ, String, Bool, true, false, not, ◌&&◌, ◌||◌, Option, none, some, List, [], ◌∷◌, ◌++◌, any,
  filter, length, is_some, is_empty, unwrap_or, ◌==◌, string_eq, if◌then◌else◌,
}
use roder.Prelude.Maps.{find}
use roder.Prelude.Sorting.{sort}
use roder.Core.Drain.{DrainOptions, DrainBlocker}
use roder.K8s.Pod.{Pod, OwnerReference, Volume}

pub record PodIdentity : Type 0 where
  pub namespace : String
  pub name : String
  pub uid : Option String

-- `PodIdentity::from`
unfoldable pub identity : Pod → PodIdentity
identity pod = record {
  namespace = unwrap_or pod.metadata.namespace "";
  name = unwrap_or pod.metadata.name "";
  uid = pod.metadata.uid;
}

abbrev option_is : Option String → String → Bool
option_is none s = false
option_is (some t) s = t == s

unfoldable pub matches : PodIdentity → Pod → Bool
matches i pod = elim i.uid [
  | some uid ↦ option_is pod.metadata.uid uid
  | none ↦
      unwrap_or pod.metadata.namespace "" == i.namespace && unwrap_or pod.metadata.name "" == i.name
]

abbrev names : List Pod → List String
names [] = []
names (pod ∷ pods) = elim pod.metadata.name [ none ↦ names pods | some name ↦ name ∷ names pods ]

unfoldable pub remaining_terminating_pods : List Pod → List PodIdentity → List String
unfolding matches
remaining_terminating_pods pods terminating =
    sort (names (filter (λ pod. any (λ i. matches i pod) terminating) pods))

abbrev owns_daemonset : Option (List OwnerReference) → Bool
owns_daemonset none = false
owns_daemonset (some refs) = any (λ owner. owner.kind == "DaemonSet") refs

unfoldable pub is_daemonset : Pod → Bool
is_daemonset pod = owns_daemonset pod.metadata.owner_references

abbrev has_mirror : Option (List (String × String)) → Bool
has_mirror none = false
has_mirror (some annotations) = any (λ a. a.0 == "kubernetes.io/config.mirror") annotations

unfoldable pub is_mirror : Pod → Bool
is_mirror pod = has_mirror pod.metadata.annotations

abbrev phase_is_terminal : Option String → Bool
phase_is_terminal none = false
phase_is_terminal (some phase) = phase == "Succeeded" || phase == "Failed"

unfoldable pub is_terminal : Pod → Bool
is_terminal pod = elim pod.status [ none ↦ false | some status ↦ phase_is_terminal status.phase ]

unfoldable pub is_waitable_terminating : Pod → Bool
is_waitable_terminating pod =
    is_some pod.metadata.deletion_timestamp
    && (not (is_daemonset pod) && (not (is_mirror pod) && not (is_terminal pod)))

unfoldable pub is_evictable : Pod → Bool
is_evictable pod =
    if is_some pod.metadata.deletion_timestamp
    then false
    else if is_mirror pod
    then false
    else if is_daemonset pod
    then false
    else not (is_terminal pod)

unfoldable pub skipped_pod_count : List Pod → ℕ
skipped_pod_count pods = length (filter (λ pod. not (is_evictable pod)) pods)

-- `owner_references.is_none_or(Vec::is_empty)`
abbrev pub is_unmanaged : Option (List OwnerReference) → Bool
is_unmanaged none = true
is_unmanaged (some refs) = is_empty refs

abbrev any_empty_dir : Option (List Volume) → Bool
any_empty_dir none = false
any_empty_dir (some volumes) = any (λ v. is_some v.empty_dir) volumes

unfoldable pub uses_empty_dir : Pod → Bool
uses_empty_dir pod = elim pod.spec [ none ↦ false | some spec ↦ any_empty_dir spec.volumes ]

abbrev pub daemonset_blocker : String → DrainBlocker
daemonset_blocker name = record {
  pod = name;
  reason = "DaemonSet-managed pod";
  clearable_by = "ignore_daemonsets";
}

abbrev pub unmanaged_blocker : String → DrainBlocker
unmanaged_blocker name = record { pod = name; reason = "unmanaged pod"; clearable_by = "force" }

abbrev pub empty_dir_blocker : String → DrainBlocker
empty_dir_blocker name = record {
  pod = name;
  reason = "uses emptyDir storage";
  clearable_by = "delete_emptydir_data";
}

abbrev pub push_if : Bool → DrainBlocker → List DrainBlocker
push_if true b = b ∷ []
push_if false b = []

unfoldable pub drain_blockers : Pod → DrainOptions → List DrainBlocker
drain_blockers pod options =
    let name = unwrap_or pod.metadata.name "unknown pod" in
    if is_terminal pod || (is_mirror pod || is_some pod.metadata.deletion_timestamp)
    then []
    else if is_daemonset pod
    then (if options.ignore_daemonsets then [] else daemonset_blocker name ∷ [])
    else push_if (is_unmanaged pod.metadata.owner_references && not options.force)
        (unmanaged_blocker name)
      ++ push_if (not options.delete_emptydir_data && uses_empty_dir pod) (empty_dir_blocker name)
