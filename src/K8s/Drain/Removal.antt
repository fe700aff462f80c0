-- ===== src/K8s/Drain/Removal.antt =====
-- `DrainSession::remove_pod` and the loop round it (crates/k8s/src/backend/drain.rs). Time is in
-- milliseconds. The loop may run for ever (without a timeout it may), so it takes fuel, and
-- `exhausted` says that it ran out.
pub mod Termination
use roder.Prelude.{
  ℕ, zero, suc, ◌+◌, ◌-◌, ◌*◌, min, String, Bool, true, false, not, Option, none, some, List, [],
  ◌∷◌, ◌++◌, filter, flat_map, length, is_empty, map, unwrap_or, ltb, nat_beq, str_eq,
  if◌then◌else◌, Result, ok, err, str_append,
}
use roder.Core.Drain.{
  DrainSummary, DrainOptions, DrainBlocker, DrainEventKind, started, cordoned, evicted,
  evict_failed, blocked, waiting_termination, validate,
}
use roder.K8s.Errors.{KubeError, text, classify_kube_error, not_found, retryable, permanent}
use roder.K8s.Pod.{Pod}
use roder.K8s.Drain.{
  PodIdentity, identity, remaining_terminating_pods, is_waitable_terminating, is_evictable,
  skipped_pod_count, drain_blockers,
}
use roder.K8s.Drain.Cluster.{Cluster}

-- `RETRY_DELAY`
abbrev pub retry_delay : ℕ
retry_delay = 2000

-- How the removal of one pod ends.
pub data Outcome : Type 0 where
  removed : Outcome
  refused : String → Outcome
  stopped : Outcome
  exhausted : Outcome

-- One round of the removal loop: an end, or another try after the error of this one.
pub data Round : Type 0 where
  over : Outcome → Round
  retry : String → Round

module _ (C : Cluster) where
  open C use {World, load_cancel, now, sleep, timeout}

  -- `deadline.is_none_or(|deadline| Instant::now() < deadline)`
  unfoldable pub before_deadline : Option ℕ → World → Bool × World
  before_deadline none w = (true, w)
  before_deadline (some deadline) w = let (t, w1) = now w in (ltb t deadline, w1)

  unfoldable pub pause : Option ℕ → World → World
  pause none w = sleep retry_delay w
  pause (some deadline) w = let (t, w1) = now w in sleep (min retry_delay (deadline - t)) w1

  unfoldable pub remove_pod :
      String → String → DrainOptions → World → Result (Unit {0}) KubeError × World
  remove_pod ns name options =
      if options.disable_eviction
      then C.delete_pod ns name options.grace_period
      else C.evict_pod ns name options.grace_period

  unfoldable pub attempt :
      String
      → String
      → DrainOptions
      → Option ℕ
      → World
      → Option (Result (Unit {0}) KubeError) × World
  attempt ns name options none w = let (r, w1) = remove_pod ns name options w in (some r, w1)
  attempt ns name options (some deadline) w =
      let (t, w1) = now w in timeout _ (deadline - t) (remove_pod ns name options) w1

  -- After a retryable error: cancelled before or after the pause, or another try.
  unfoldable pub back_off : Option ℕ → String → World → Round × World
  unfolding pause
  back_off deadline last_err w =
      let (c, w1) = load_cancel w in
      if c
      then (over stopped, w1)
      else let (c', w2) = load_cancel (pause deadline w1) in
        if c' then (over stopped, w2) else (retry last_err, w2)

  unfoldable pub judge : Option ℕ → Option (Result (Unit {0}) KubeError) → World → Round × World
  judge deadline none w = (over (refused "drain deadline elapsed while removing pod"), w)
  judge deadline (some (ok done)) w = (over removed, w)
  judge deadline (some (err e)) w = elim (classify_kube_error e) [
    | not_found ↦ (over removed, w)
    | permanent ↦ (over (refused (text e)), w)
    | retryable ↦ back_off deadline (text e) w
  ]

  unfoldable pub round : String → String → DrainOptions → Option ℕ → String → World → Round × World
  unfolding before_deadline attempt
  round ns name options deadline last_err w =
      let (in_time, w1) = before_deadline deadline w in
      if not in_time
      then (over (refused last_err), w1)
      else let (c, w2) = load_cancel w1 in
        if c
        then (over stopped, w2)
        else let (r, w3) = attempt ns name options deadline w2 in judge deadline r w3

  unfoldable pub removal_loop :
      ℕ → String → String → DrainOptions → Option ℕ → String → World → Outcome × World
  removal_loop zero ns name options deadline last_err w = (exhausted, w)
  removal_loop (suc fuel) ns name options deadline last_err w =
      let (r, w1) = round ns name options deadline last_err w in
      elim r [ over o ↦ (o, w1) | retry e ↦ removal_loop fuel ns name options deadline e w1 ]
