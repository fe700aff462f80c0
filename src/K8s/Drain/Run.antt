-- ===== src/K8s/Drain/Run.antt =====
-- `DrainSession::drain` of crates/k8s/src/backend/drain.rs, over the removal of one pod. The wait for
-- terminating pods takes fuel as the removal does.
pub mod Counting
pub mod Endings
pub mod Outcomes
pub mod Safety
use roder.Prelude.{
  ℕ, zero, suc, ◌+◌, ◌-◌, ◌*◌, min, String, Bool, true, false, not, Option, none, some, List, [],
  ◌∷◌, ◌++◌, filter, flat_map, length, is_empty, map, unwrap_or, ltb, nat_beq, str_eq,
  if◌then◌else◌, Result, ok, err, str_append,
}
use roder.Core.Drain.{
  DrainSummary, DrainOptions, DrainBlocker, DrainEventKind, started, cordoned, evicted,
  evict_failed, blocked, waiting_termination, validate,
}
use roder.K8s.Errors.{KubeError, text, classify_kube_error, not_found, retryable, permanent}
use roder.K8s.Pod.{Pod}
use roder.K8s.Drain.{
  PodIdentity, identity, remaining_terminating_pods, is_waitable_terminating, is_evictable,
  skipped_pod_count, drain_blockers,
}
use roder.K8s.Drain.Cluster.{Cluster}
use roder.K8s.Drain.Removal.{
  retry_delay, pause, before_deadline, removal_loop, Outcome, removed, refused, stopped, exhausted,
}

-- How a stage of the drain ends: it goes on, or it was cancelled, or a loop's fuel ran out.
pub data Stage : Type 0 where
  completed : Stage
  was_cancelled : Stage
  ran_out : Stage

-- How the wait for terminating pods ends: the summary stands, or the time was not enough, or the
-- API failed, or the fuel ran out.
pub data Wait : Type 0 where
  settled : Wait
  too_late : Wait
  failed_with : String → Wait
  wait_exhausted : Wait

-- One round of the wait: its end, or another round.
pub data WaitRound : Type 0 where
  wait_over : Wait → WaitRound
  wait_again : WaitRound

module _ (C : Cluster) where
  open C use {World, load_cancel, now, timeout}

  -- What the drain has done so far.
  pub record Progress : Type 0 where
    pub summary : DrainSummary
    pub terminating : List PodIdentity
    pub events : List DrainEventKind
    pub world : World

  abbrev pub send : DrainEventKind → Progress → Progress
  send event p = record p { events = p.events ++ event ∷ [] }

  abbrev pub reason_of : String → String
  reason_of last_err =
      if str_eq last_err ""
      then "drain deadline elapsed before pod removal was accepted"
      else last_err

  abbrev pub record_eviction : Pod → ℕ → Progress → Progress
  record_eviction pod total p =
      let done = p.summary.evicted + 1 in
      record p {
        summary = record p.summary { evicted = done };
        terminating = p.terminating ++ identity pod ∷ [];
        events = p.events ++ evicted (unwrap_or pod.metadata.name "") done total ∷ [];
      }

  abbrev pub record_failure : Pod → String → Progress → Progress
  record_failure pod reason p =
      let pod_name = unwrap_or pod.metadata.name "" in
      record p {
        summary = record p.summary {
          failed = p.summary.failed ++ str_append pod_name (str_append ": " reason) ∷ [];
        };
        events = p.events ++ evict_failed pod_name reason ∷ [];
      }

  unfoldable pub settle : Pod → ℕ → Outcome → Progress → Stage × Progress
  settle pod total removed p = (completed, record_eviction pod total p)
  settle pod total (refused last_err) p = (completed, record_failure pod (reason_of last_err) p)
  settle pod total stopped p = (was_cancelled, p)
  settle pod total exhausted p = (ran_out, p)

  -- One pod of `for pod in evictable`.
  unfoldable pub evict_one : ℕ → DrainOptions → Option ℕ → ℕ → Pod → Progress → Stage × Progress
  evict_one fuel options deadline total pod p =
      let (c, w1) = load_cancel p.world in
      if c
      then (was_cancelled, record p { world = w1 })
      else let (o, w2) =
          removal_loop C fuel (unwrap_or pod.metadata.namespace "") (unwrap_or pod.metadata.name "")
            options deadline "" w1 in
        settle pod total o (record p { world = w2 })

  unfoldable pub evict_all :
      ℕ → DrainOptions → Option ℕ → ℕ → List Pod → Progress → Stage × Progress
  evict_all fuel options deadline total [] p = (completed, p)
  evict_all fuel options deadline total (pod ∷ pods) p =
      let (stage, p1) = evict_one fuel options deadline total pod p in
      elim stage [
        | completed ↦ evict_all fuel options deadline total pods p1
        | was_cancelled ↦ (was_cancelled, p1)
        | ran_out ↦ (ran_out, p1)
      ]

  -- The listing of a round; nothing if the deadline passed meanwhile.
  unfoldable pub list_in_time :
      String → Option ℕ → World → Option (Result (List Pod) KubeError) × World
  list_in_time node none w = let (r, w1) = C.list_pods node w in (some r, w1)
  list_in_time node (some deadline) w =
      let (t, w1) = now w in timeout _ (deadline - t) (C.list_pods node) w1

  unfoldable pub check_remaining :
      Option ℕ → Option (Result (List Pod) KubeError) → Progress → WaitRound × Progress
  unfolding pause
  check_remaining deadline none p = (wait_over too_late, p)
  check_remaining deadline (some (err e)) p = (wait_over (failed_with (text e)), p)
  check_remaining deadline (some (ok pods)) p =
      let remaining = remaining_terminating_pods pods p.terminating in
      if is_empty remaining
      then (wait_over settled, p)
      else let (c, w) = load_cancel (pause C deadline p.world) in
        let p1 : Progress = record p {
          events = p.events ++ waiting_termination remaining ∷ [];
          world = w;
        } in
        (if c then wait_over settled else wait_again, p1)

  unfoldable pub wait_round : String → Option ℕ → Progress → WaitRound × Progress
  unfolding before_deadline list_in_time
  wait_round node deadline p =
      if is_empty p.terminating
      then (wait_over too_late, p)
      else let (in_time, w1) = before_deadline C deadline p.world in
        if not in_time
        then (wait_over too_late, record p { world = w1 })
        else let (c, w2) = load_cancel w1 in
          if c
          then (wait_over settled, record p { world = w2 })
          else let (r, w3) = list_in_time node deadline w2 in
            check_remaining deadline r (record p { world = w3 })

  unfoldable pub wait_loop : ℕ → String → Option ℕ → Progress → Wait × Progress
  wait_loop zero node deadline p = (wait_exhausted, p)
  wait_loop (suc fuel) node deadline p =
      let (r, p1) = wait_round node deadline p in
      elim r [ wait_over o ↦ (o, p1) | wait_again ↦ wait_loop fuel node deadline p1 ]

  -- `Instant::now().checked_add(..)`; no deadline for a timeout of zero.
  unfoldable pub deadline_of : DrainOptions → World → Result (Option ℕ) String × World
  deadline_of options w =
      if nat_beq options.timeout_secs 0
      then (ok none, w)
      else let (t, w1) = now w in
        (
          elim (C.checked_add t options.timeout_secs) [
            | none ↦ err "drain timeout exceeds the supported range"
            | some deadline ↦ ok (some deadline)
          ],
          w1,
        )

  -- The end of `drain`: nothing if a loop's fuel ran out.
  abbrev pub Ending : Type 0
  Ending = Option (Result DrainSummary String)

  unfoldable pub conclude : Wait × Progress → Ending × Progress
  conclude (settled, p) = (some (ok p.summary), p)
  conclude (failed_with e, p) = (some (err e), p)
  conclude (wait_exhausted, p) = (none, p)
  conclude (too_late, p) =
      let late : DrainSummary = record p.summary {
        failed = p.summary.failed ++ "timed out waiting for workload pods to terminate" ∷ [];
      } in
      (some (ok (if is_empty p.terminating then p.summary else late)), p)

  unfoldable pub after_evictions : ℕ → String → Option ℕ → Stage × Progress → Ending × Progress
  unfolding conclude
  after_evictions fuel node deadline (completed, p) = conclude (wait_loop fuel node deadline p)
  after_evictions fuel node deadline (was_cancelled, p) = (some (ok p.summary), p)
  after_evictions fuel node deadline (ran_out, p) = (none, p)

  -- The drain after the pods of the node have been listed and the deadline is set.
  unfoldable pub drain_pods :
      ℕ → String → DrainOptions → Option ℕ → List Pod → Progress → Ending × Progress
  unfolding after_evictions
  drain_pods fuel node options deadline pods p =
      let skipped : DrainSummary = record p.summary { skipped = skipped_pod_count pods } in
      let blockers = flat_map (λ pod. drain_blockers pod options) pods in
      if not (is_empty blockers)
      then (let summary : DrainSummary = record skipped {
        failed = map (λ b. str_append b.pod (str_append ": " b.reason)) blockers;
      } in
          (some (ok summary), send (blocked blockers) (record p { summary = summary })))
      else let evictable = filter is_evictable pods in
        let total = length evictable in
        let ready : Progress = send (started total) (record p {
          summary = skipped;
          terminating = map identity (filter is_waitable_terminating pods);
        }) in
        after_evictions fuel node deadline (evict_all fuel options deadline total evictable ready)

  abbrev pub first : List DrainEventKind → World → Progress
  first events w = record {
    summary = record { evicted = 0; skipped = 0; failed = [] };
    terminating = [];
    events = events;
    world = w;
  }

  -- The result of a call and the world after it, as the next step takes them.
  unfoldable pub with_deadline :
      ℕ → String → DrainOptions → List Pod → Result (Option ℕ) String × World → Ending × Progress
  with_deadline fuel node options pods (err e, w) = (some (err e), first (cordoned ∷ []) w)
  with_deadline fuel node options pods (ok deadline, w) =
      drain_pods fuel node options deadline pods (first (cordoned ∷ []) w)

  unfoldable pub with_pods :
      ℕ → String → DrainOptions → Result (List Pod) KubeError × World → Ending × Progress
  with_pods fuel node options (err e, w) = (some (err (text e)), first (cordoned ∷ []) w)
  with_pods fuel node options (ok pods, w) =
      with_deadline fuel node options pods (deadline_of options w)

  unfoldable pub with_cordon :
      ℕ → String → DrainOptions → Result (Unit {0}) KubeError × World → Ending × Progress
  with_cordon fuel node options (err e, w) = (some (err (text e)), first [] w)
  with_cordon fuel node options (ok done, w) = with_pods fuel node options (C.list_pods node w)

  unfoldable pub drain : ℕ → String → DrainOptions → World → Ending × Progress
  drain fuel node options w = elim (validate options) [
    | err message ↦ (some (err message), first [] w)
    | ok valid ↦ with_cordon fuel node options (C.patch_unschedulable node true w)
  ]
