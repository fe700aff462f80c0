-- ===== src/K8s/Drain/Run/Endings.antt =====
-- A drain with a timeout ends.
use roder.Prelude.{
  ◌≡◌, zero, Option-cases, suc, ◌*◌, ℕ, ◌-◌, ◌≤◌, ◌<◌, ◌≢◌, Option, none, some, List, [], ◌∷◌,
  Result, ok, err, arith, inl, inr, Bool-cases, unwrap_or,
}
use roder.Core.Drain.{validate, DrainOptions}
use roder.K8s.Errors.{KubeError}
use roder.K8s.Pod.{Pod}
use roder.K8s.Drain.Cluster.{Cluster, IsMonotonic}
use roder.K8s.Drain.Removal.{
  before_deadline, Outcome, removed, refused, stopped, exhausted, pause, removal_loop,
}
use roder.K8s.Drain.Removal.Termination.{
  before_deadline-lt, before_deadline-le, removal_loop-Ends, pause-le,
}
use roder.K8s.Drain.Run.{
  false, Ending, nat_beq, true, first, with_pods, with_cordon, with_deadline, drain, settled,
  too_late, wait_exhausted, failed_with, drain_blockers, flat_map, Wait, String, deadline_of,
  drain_pods, after_evictions, conclude, wait_loop, wait_round, list_in_time,
  remaining_terminating_pods, is_empty, Progress, Stage, completed, was_cancelled, ran_out, settle,
  evict_one, evict_all, wait_exhausted, WaitRound, wait_over, wait_again, check_remaining,
}

module _ (C : Cluster) (M : IsMonotonic C) where
  open C use {World, load_cancel, now}
  open M use {time}

  -- How the evictions end: they do end, and not before they began.
  abbrev Halts : World → Stage × Progress C → Type 0
  Halts w (stage, p) = (stage ≢ ran_out) × (time w ≤ time p.world)

  settle-Halts :
      (pod : Pod) (total : ℕ) (w : World) (o : Outcome) (p : Progress C)
      → (o ≢ exhausted)
      → time w ≤ time p.world
      → Halts w (settle C pod total o p)
  unfolding settle
  settle-Halts pod total w removed p n h = (cc, h)
  settle-Halts pod total w (refused e) p n h = (cc, h)
  settle-Halts pod total w stopped p n h = (cc, h)
  settle-Halts pod total w exhausted p n h = absurd (n (λ i. exhausted))

  evict_one-Halts :
      (fuel : ℕ) (o : DrainOptions) (d total : ℕ) (pod : Pod) (p : Progress C)
      → (d - time p.world) < fuel
      → Halts p.world (evict_one C fuel o (some d) total pod p)
  unfolding evict_one
  evict_one-Halts fuel o d total pod p h =
      let w = (load_cancel p.world).1 in
      let a = M.load_cancel-le p.world in
      let r =
        removal_loop C fuel (unwrap_or pod.metadata.namespace "") (unwrap_or pod.metadata.name "") o
          (some d) "" w in
      let e =
        removal_loop-Ends C M fuel (unwrap_or pod.metadata.namespace "")
          (unwrap_or pod.metadata.name "") o d "" w (omega (arith, a, h)) in
      elim (Bool-cases (load_cancel p.world).0) [
        | inl q ↦ rw q (cc, a)
        | inr q ↦ rw q (
            settle-Halts pod total p.world r.0 (record p { world = r.1 }) e.0
              (omega (arith, a, e.1)))
      ]

  pub evict_all-Halts :
      (fuel : ℕ) (o : DrainOptions) (d total : ℕ) (pods : List Pod) (p : Progress C)
      → (d - time p.world) < fuel
      → Halts p.world (evict_all C fuel o (some d) total pods p)
  unfolding evict_all
  evict_all-Halts fuel o d total [] p h = (cc, omega arith)
  evict_all-Halts fuel o d total (pod ∷ pods) p h =
      next (evict_one C fuel o (some d) total pod p) (evict_one-Halts fuel o d total pod p h) h
        (evict_all-Halts fuel o d total pods)
    where
      next :
          (r : Stage × Progress C)
          → Halts p.world r
          → (d - time p.world) < fuel
          → ((q : Progress C)
              → (d - time q.world) < fuel
              → Halts q.world (evict_all C fuel o (some d) total pods q))
          → Halts p.world (elim r.0 [
            | completed ↦ evict_all C fuel o (some d) total pods r.1
            | was_cancelled ↦ (was_cancelled, r.1)
            | ran_out ↦ (ran_out, r.1)
          ])
      next (completed, q) a h ih =
          let k = ih q (omega (arith, a.1, h)) in (k.0, omega (arith, a.1, k.1))
      next (was_cancelled, q) a h ih = a
      next (ran_out, q) a h ih = a

  -- A round of the wait that is to be repeated began before the deadline, and moved the clock on.
  abbrev Progresses : ℕ → World → WaitRound × Progress C → Type 0
  Progresses d w (wait_over o, p) = o ≢ wait_exhausted
  Progresses d w (wait_again, p) = (time w < d) × (time w < time p.world)

  check_remaining-Progresses :
      (d : ℕ) (r : Option (Result (List Pod) KubeError)) (w : World) (p : Progress C)
      → time w < d
      → time w ≤ time p.world
      → Progresses d w (check_remaining C (some d) r p)
  unfolding check_remaining
  check_remaining-Progresses d none w p l h = cc
  check_remaining-Progresses d (some (err e)) w p l h = cc
  check_remaining-Progresses d (some (ok pods)) w p l h =
      let a = pause-le C M d p.world in
      let b = M.load_cancel-le (pause C (some d) p.world) in
      elim (Bool-cases (is_empty (remaining_terminating_pods pods p.terminating))) [
        | inl e ↦ rw e (cc)
        | inr e ↦ elim (Bool-cases (load_cancel (pause C (some d) p.world)).0) [
          | inl c ↦ rw (e, c) (cc)
          | inr c ↦ rw (e, c) (l, omega (arith, a, b, l, h))
        ]
      ]

  list_in_time-le :
      (node : String) (d : ℕ) (w : World) → time w ≤ time (list_in_time C node (some d) w).1
  unfolding list_in_time
  list_in_time-le node d w =
      rw (M.now_lem w, list_in_time)
        (M.timeout-le _ (d - time w) (C.list_pods node) (M.list_pods-le node) w)

  wait_round-Progresses :
      (node : String) (d : ℕ) (p : Progress C) → Progresses d p.world (wait_round C node (some d) p)
  unfolding wait_round
  wait_round-Progresses node d p =
      let w1 = (before_deadline C (some d) p.world).1 in
      let w2 = (load_cancel w1).1 in
      let r = list_in_time C node (some d) w2 in
      let a = before_deadline-le C M (some d) p.world in
      let b = M.load_cancel-le w1 in
      let c = list_in_time-le node d w2 in
      elim (Bool-cases (is_empty p.terminating)) [
        | inl e ↦ rw e (cc)
        | inr e ↦ elim (Bool-cases (before_deadline C (some d) p.world).0) [
          | inr q ↦ rw (e, q) (cc)
          | inl q ↦ elim (Bool-cases (load_cancel w1).0) [
            | inl k ↦ rw (e, q, k) (cc)
            | inr k ↦
                rw (e, q, k)
                  (check_remaining-Progresses d r.0 p.world (record p { world = r.1 })
                    (before_deadline-lt C M d p.world q) (omega (arith, a, b, c)))
          ]
        ]
      ]

  abbrev Over : Wait × Progress C → Type 0
  Over r = r.0 ≢ wait_exhausted

  -- With more fuel than there are milliseconds to the deadline, the wait for terminating pods ends.
  pub wait_loop-ends :
      (fuel : ℕ) (node : String) (d : ℕ) (p : Progress C)
      → (d - time p.world) < fuel
      → (wait_loop C fuel node (some d) p).0 ≢ wait_exhausted
  unfolding wait_loop
  wait_loop-ends zero node d p h = absurd (omega (arith, h))
  wait_loop-ends (suc fuel) node d p h =
      next (wait_round C node (some d) p) (wait_round-Progresses node d p) h
        (wait_loop-ends fuel node d)
    where
      next :
          (r : WaitRound × Progress C)
          → Progresses d p.world r
          → (d - time p.world) < suc fuel
          → ((q : Progress C)
              → (d - time q.world) < fuel
              → (wait_loop C fuel node (some d) q).0 ≢ wait_exhausted)
          → Over (elim r.0 [
            | wait_over o ↦ (o, r.1)
            | wait_again ↦ wait_loop C fuel node (some d) r.1
          ])
      next (wait_over o, q) a h ih = a
      next (wait_again, q) a h ih = ih q (omega (arith, a.0, a.1, h))

  abbrev IsOver : Ending C × Progress C → Type 0
  IsOver r = r.0 ≢ none

  conclude-ends : (r : Wait × Progress C) → (r.0 ≢ wait_exhausted) → (conclude C r).0 ≢ none
  unfolding conclude
  conclude-ends (settled, p) n = cc
  conclude-ends (failed_with e, p) n = cc
  conclude-ends (wait_exhausted, p) n = absurd (n (λ i. wait_exhausted))
  conclude-ends (too_late, p) n = cc

  after_evictions-ends :
      (fuel : ℕ) (node : String) (d : ℕ) (w : World) (r : Stage × Progress C)
      → (d - time w) < fuel
      → Halts w r
      → (after_evictions C fuel node (some d) r).0 ≢ none
  unfolding after_evictions
  after_evictions-ends fuel node d w (completed, p) h k =
      conclude-ends (wait_loop C fuel node (some d) p)
        (wait_loop-ends fuel node d p (omega (arith, h, k.1)))
  after_evictions-ends fuel node d w (was_cancelled, p) h k = cc
  after_evictions-ends fuel node d w (ran_out, p) h k = absurd (k.0 (λ i. ran_out))

  drain_pods-ends :
      (fuel : ℕ) (node : String) (o : DrainOptions) (d : ℕ) (pods : List Pod) (p : Progress C)
      → (d - time p.world) < fuel
      → (drain_pods C fuel node o (some d) pods p).0 ≢ none
  unfolding drain_pods
  drain_pods-ends fuel node o d pods p h =
      elim (Bool-cases (is_empty (flat_map (λ pod. drain_blockers pod o) pods))) [
        | inl e ↦
            rw e (after_evictions-ends fuel node d p.world _ h (evict_all-Halts fuel o d _ _ _ h))
        | inr e ↦ rw e (cc)
      ]

  -- A deadline that leaves less time than there is fuel.
  abbrev LeavesFuel : ℕ → Result (Option ℕ) String × World → Type 0
  LeavesFuel fuel (err e, w) = Unit
  LeavesFuel fuel (ok none, w) = ⊥
  LeavesFuel fuel (ok (some d), w) = (d - time w) < fuel

  deadline_of-LeavesFuel :
      (fuel : ℕ) (o : DrainOptions) (w : World)
      → 0 < o.timeout_secs
      → 1000 * o.timeout_secs < fuel
      → LeavesFuel fuel (deadline_of C o w)
  unfolding deadline_of
  deadline_of-LeavesFuel fuel o w n h =
      let z : nat_beq o.timeout_secs 0 ≡ false = ground (arith, n) in
      elim (Option-cases (C.checked_add (time w) o.timeout_secs)) [
        | inl e ↦ rw (z, M.now_lem w, e) tt
        | inr (d, e) ↦
            rw (z, M.now_lem w, e) (omega (arith, M.checked_add-le (time w) o.timeout_secs d e, h))
      ]

  with_deadline-ends :
      (fuel : ℕ) (node : String) (o : DrainOptions) (pods : List Pod)
      (r : Result (Option ℕ) String × World)
      → LeavesFuel fuel r
      → (with_deadline C fuel node o pods r).0 ≢ none
  unfolding with_deadline
  with_deadline-ends fuel node o pods (err e, w) h = cc
  with_deadline-ends fuel node o pods (ok none, w) h = absurd h
  with_deadline-ends fuel node o pods (ok (some d), w) h = drain_pods-ends fuel node o d pods _ h

  with_pods-ends :
      (fuel : ℕ) (node : String) (o : DrainOptions) (r : Result (List Pod) KubeError × World)
      → 0 < o.timeout_secs
      → 1000 * o.timeout_secs < fuel
      → (with_pods C fuel node o r).0 ≢ none
  unfolding with_pods
  with_pods-ends fuel node o (err e, w) n h = cc
  with_pods-ends fuel node o (ok pods, w) n h =
      with_deadline-ends fuel node o pods _ (deadline_of-LeavesFuel fuel o w n h)

  with_cordon-ends :
      (fuel : ℕ) (node : String) (o : DrainOptions) (r : Result (Unit {0}) KubeError × World)
      → 0 < o.timeout_secs
      → 1000 * o.timeout_secs < fuel
      → (with_cordon C fuel node o r).0 ≢ none
  unfolding with_cordon
  with_cordon-ends fuel node o (err e, w) n h = cc
  with_cordon-ends fuel node o (ok done, w) n h = with_pods-ends fuel node o _ n h

  -- On a monotonic clock, a drain with a timeout ends, with a summary or an error: rounds of its
  -- loops as many as the timeout has milliseconds, and one more, are enough.
  pub drain-ends :
      (fuel : ℕ) (node : String) (o : DrainOptions) (w : World)
      → 0 < o.timeout_secs
      → 1000 * o.timeout_secs < fuel
      → (drain C fuel node o w).0 ≢ none
  unfolding drain
  drain-ends fuel node o w n h = by_validity (validate o)
    where
      by_validity :
          (v : Result (Unit {0}) String)
          → IsOver (elim v [
            | err message ↦ (some (err message), first C [] w)
            | ok valid ↦ with_cordon C fuel node o (C.patch_unschedulable node true w)
          ])
      by_validity (err message) = cc
      by_validity (ok valid) = with_cordon-ends fuel node o _ n h
