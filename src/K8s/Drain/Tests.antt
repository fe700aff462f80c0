-- ===== src/K8s/Drain/Tests.antt =====
-- A small cluster with a clock, and drains of its nodes.
use roder.Prelude.{
  ap, ℕ, zero, suc, ◌+◌, ◌-◌, ◌*◌, ◌≤◌, ◌≡◌, ◌≢◌, ◌↔◌, refl, String, Bool, true, false, Option,
  none, some, List, [], ◌∷◌, filter, not, ltb, if◌then◌else◌, Result, ok, err, All, ◌==◌, string_eq,
  unwrap_or, arith, inl, inr, Bool-cases, length, nat_beq,
}
use roder.Core.Drain.{DrainOptions, DrainSummary, cordoned, started, evicted}
use roder.K8s.Errors.{KubeError, api, classify_kube_error, classify_status}
use roder.K8s.Pod.{Pod}
use roder.K8s.Drain.{
  is_evictable, drain_blockers, skipped_pod_count, is_waitable_terminating, is_daemonset, is_mirror,
  is_terminal, uses_empty_dir,
}
use roder.K8s.Drain.Blockers.{Agreed, drain_blockers-evictable}
use roder.K8s.Drain.Cluster.{Cluster, IsMonotonic}
use roder.K8s.Drain.Removal.{
  before_deadline, pause, remove_pod, attempt, back_off, judge, round, removal_loop,
}
use roder.K8s.Drain.Run.{
  evict_all, drain_pods, drain, with_cordon, with_pods, with_deadline, deadline_of, after_evictions,
  conclude, wait_loop, wait_round, check_remaining, list_in_time, evict_one, settle, first,
}
use roder.K8s.Drain.Run.Outcomes.{Counts, outcomes_of, evict_all-Counts}
use roder.K8s.Drain.Run.Endings.{drain-ends}
use roder.K8s.Drain.Run.Safety.{drain_pods-AllAgreed, AllAgreed}

-- The pods of the node, the clock, and how many evictions a disruption budget will refuse.
record Small : Type 0 where
  pods : List Pod
  clock : ℕ
  refusals : ℕ

abbrev remove_named : String → Small → Small
remove_named name w = record w {
  pods = filter (λ pod. not (unwrap_or pod.metadata.name "" == name)) w.pods;
  clock = w.clock + 1;
}

abbrev evict : String → Small → Result (Unit {0}) KubeError × Small
evict name w = elim w.refusals [
  | zero ↦ (ok tt, remove_named name w)
  | suc n ↦ (err (api 429 "disruption budget"), record w { refusals = n; clock = w.clock + 5 })
]

abbrev limited : (A : Type 0) → ℕ → (Small → A × Small) → Small → Option A × Small
limited A d f w = let r = f w in (if ltb (w.clock + d) r.1.clock then none else some r.0, r.1)

abbrev small : Cluster
small = record {
  World = Small;
  load_cancel = λ w. (false, w);
  now = λ w. (w.clock, w);
  checked_add = λ t seconds. some (t + 1000 * seconds);
  sleep = λ d w. record w { clock = w.clock + d };
  timeout = limited;
  patch_unschedulable = λ node value w. (ok tt, w);
  list_pods = λ node w. (ok w.pods, w);
  delete_pod = λ ns name grace w. (ok tt, remove_named name w);
  evict_pod = λ ns name grace w. evict name w;
}

evict-le : (name : String) (w : Small) → w.clock ≤ (evict name w).1.clock
evict-le name w = ground arith

deadline-le :
    (t seconds d : ℕ)
    → ◌≡◌ {A = Option ℕ} (some (t + 1000 * seconds)) (some d)
    → d ≤ t + 1000 * seconds
deadline-le t seconds d e = ground (arith, e)

abbrev small_time : IsMonotonic small
small_time = record {
  time = λ w. w.clock;
  now_lem = λ w. refl;
  checked_add-le = λ t seconds d e. deadline-le t seconds d e;
  load_cancel-le = λ w. omega arith;
  sleep-le = λ d w. omega arith;
  delete_pod-le = λ ns name grace w. omega arith;
  evict_pod-le = λ ns name grace w. evict-le name w;
  list_pods-le = λ name w. omega arith;
  timeout-le = λ A d f h w. h w;
}

abbrev web : Pod
web = record {
  metadata = record {
    name = some "web-1";
    namespace = some "shop";
    uid = some "u1";
    deletion_timestamp = none;
    owner_references = some (record { kind = "ReplicaSet" } ∷ []);
    annotations = none;
  };
  spec = none;
  status = none;
}

abbrev agent : Pod
agent = record {
  metadata = record web.metadata {
    name = some "agent";
    uid = some "u2";
    owner_references = some (record { kind = "DaemonSet" } ∷ []);
  };
  spec = none;
  status = none;
}

abbrev bare : Pod
bare = record {
  metadata = record web.metadata { name = some "bare"; uid = some "u3"; owner_references = none };
  spec = none;
  status = none;
}

abbrev ten_seconds : DrainOptions
ten_seconds = record {
  force = false;
  delete_emptydir_data = false;
  ignore_daemonsets = true;
  disable_eviction = false;
  grace_period = none;
  timeout_secs = 10;
}

abbrev node : Small
node = record { pods = web ∷ agent ∷ []; clock = 100; refusals = 1 }

-- The budget refuses the first eviction; the second comes after a pause of two seconds.
drain_of_node :
    ((drain small 4 "n1" ten_seconds node).0
      ≡ some (ok (record { evicted = 1; skipped = 1; failed = [] })))
    × ((drain small 4 "n1" ten_seconds node).1.world.clock ≡ 2106)
unfolding drain roder.Core.Drain.validate with_cordon with_pods with_deadline deadline_of drain_pods
    drain_blockers is_terminal is_mirror is_daemonset uses_empty_dir evict_all is_evictable
    evict_one settle removal_loop round attempt back_off before_deadline judge pause remove_pod
    after_evictions check_remaining conclude list_in_time wait_loop wait_round
    roder.K8s.Drain.identity is_waitable_terminating roder.K8s.Drain.matches
    roder.K8s.Drain.remaining_terminating_pods skipped_pod_count classify_kube_error classify_status
    roder.Prelude.Sorting.insert_sorted roder.Prelude.Sorting.sort roder.Prelude.Sorting.sort_by
drain_of_node = (refl, refl)

drain-ends_example : (drain small 10001 "n1" ten_seconds node).0 ≢ none
drain-ends_example =
    drain-ends small small_time 10001 "n1" ten_seconds node (omega arith) (omega arith)

bare_evictable : is_evictable bare ≡ true
unfolding is_evictable is_mirror is_daemonset is_terminal
bare_evictable = refl

drain_blockers-evictable_example : (drain_blockers bare ten_seconds ≡ []) ↔ Agreed bare ten_seconds
drain_blockers-evictable_example = drain_blockers-evictable bare ten_seconds bare_evictable

evict_all-Counts_example :
    Counts small 4 ten_seconds
      (some 10100)
      (outcomes_of small 4 ten_seconds (some 10100) (web ∷ []) node)
      (web ∷ [])
      (first small [] node)
      (evict_all small 4 ten_seconds (some 10100) 1 (web ∷ []) (first small [] node))
evict_all-Counts_example =
    evict_all-Counts small 4 ten_seconds (some 10100) 1 (web ∷ []) (first small [] node)

abbrev after_drain : Small
after_drain =
    (drain_pods small 4 "n1" ten_seconds (some 10100) (web ∷ agent ∷ [])
      (first small [] node)).1.world

clock_after : after_drain.clock ≡ 2106
unfolding drain_pods drain_blockers is_terminal is_mirror is_daemonset uses_empty_dir evict_all
    is_evictable evict_one settle removal_loop round attempt back_off before_deadline judge pause
    remove_pod after_evictions check_remaining conclude list_in_time wait_loop wait_round
    roder.K8s.Drain.identity is_waitable_terminating roder.K8s.Drain.matches
    roder.K8s.Drain.remaining_terminating_pods skipped_pod_count classify_kube_error classify_status
    roder.Prelude.Sorting.insert_sorted roder.Prelude.Sorting.sort roder.Prelude.Sorting.sort_by
clock_after = refl

world_changes : after_drain ≢ node
world_changes e = absurd (omega (arith, clock_after, ap (λ (w : Small). w.clock) e))

drain_pods-AllAgreed_example : AllAgreed ten_seconds (web ∷ agent ∷ [])
drain_pods-AllAgreed_example =
    drain_pods-AllAgreed small 4 "n1" ten_seconds (some 10100) (web ∷ agent ∷ [])
      (first small [] node) world_changes
