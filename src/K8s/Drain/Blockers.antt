-- ===== src/K8s/Drain/Blockers.antt =====
-- The blockers of a drain (crates/k8s/src/backend/drain.rs): when a pod blocks the drain, and that
-- the option a blocker names does clear it.
use roder.Prelude.{
  ◌+◌, String, ◌≡◌, ◌↔◌, ◌⊎◌, true, false, ◌||◌, List, [], filter, length, length-filter-not, All,
  ◌==◌, string_eq, arith,
}
use roder.Core.Drain.{DrainOptions}
use roder.K8s.Pod.{Pod}
use roder.K8s.Drain.{is_evictable, is_unmanaged, uses_empty_dir, drain_blockers, skipped_pod_count}

-- What the drain would lose by removing an evictable pod, and the user has not agreed to.
abbrev pub Agreed : Pod → DrainOptions → Type 0
Agreed pod options =
    ((is_unmanaged pod.metadata.owner_references ≡ false) ⊎ (options.force ≡ true))
    × ((uses_empty_dir pod ≡ false) ⊎ (options.delete_emptydir_data ≡ true))

-- A pod that would be evicted does not block the drain exactly when it has an owner or `force` is
-- given, and it uses no emptyDir volume or `delete_emptydir_data` is given.
pub drain_blockers-evictable :
    (pod : Pod) (options : DrainOptions)
    → is_evictable pod ≡ true
    → (drain_blockers pod options ≡ []) ↔ Agreed pod options
unfolding drain_blockers is_evictable
drain_blockers-evictable pod options h = ground (arith, h)

-- The options with the one of this name given as well.
abbrev pub enable : String → DrainOptions → DrainOptions
enable clearable_by o = record o {
  ignore_daemonsets = o.ignore_daemonsets || clearable_by == "ignore_daemonsets";
  force = o.force || clearable_by == "force";
  delete_emptydir_data = o.delete_emptydir_data || clearable_by == "delete_emptydir_data";
}

-- With the option that a blocker of the pod names given, no blocker of the pod names it any more.
pub enable-drain_blockers :
    (pod : Pod) (options : DrainOptions)
    → All
        (λ b.
          All
            (λ c. (c.clearable_by == b.clearable_by) ≡ false)
            (drain_blockers pod (enable b.clearable_by options)))
        (drain_blockers pod options)
unfolding drain_blockers
enable-drain_blockers pod options = ground arith

pub skipped-evictable :
    (pods : List Pod) → length (filter is_evictable pods) + skipped_pod_count pods ≡ length pods
unfolding skipped_pod_count
skipped-evictable pods = length-filter-not is_evictable pods
