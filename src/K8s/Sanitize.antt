-- ===== src/K8s/Sanitize.antt =====
-- crates/k8s/src/backend/sanitize.rs and the options of crates/core/src/sweep.rs: the sweep of dead
-- pods and finished jobs. The API server, and the conversion of a job to JSON, are parameters.
pub mod Sweep
mod Tests
use roder.Prelude.{
  ℕ, suc, ◌+◌, String, str_append, Bool, true, false, not, ◌&&◌, ◌||◌, Option, none, some, List, [],
  ◌∷◌, ◌++◌, any, filter, length, ltb, nat_beq, ◌==◌, string_eq, is_some, unwrap_or, if◌then◌else◌,
  Result, ok, err,
}
use roder.Core.Conditions.{
  Object, JobLifecycle, complete, failed, failing, suspended, completing, running, job_lifecycle,
}
use roder.K8s.Errors.{KubeError, api, text}
use roder.K8s.Pod.{Pod, PodStatus, ContainerStatus, ContainerState, ObjectMeta}

pub record CleanupSummary : Type 0 where
  pub pods_deleted : ℕ
  pub jobs_deleted : ℕ
  pub forbidden : List String
  pub failed : List String

pub record SweepCounts : Type 0 where
  pub pods : ℕ
  pub jobs : ℕ

pub record SweepOptions : Type 0 where
  pub terminal_pods : Bool
  pub stuck_pods : Bool
  pub restarted_pods : Bool
  pub completed_jobs : Bool
  pub failed_jobs : Bool

unfoldable pub includes_pods : SweepOptions → Bool
includes_pods o = o.terminal_pods || (o.stuck_pods || o.restarted_pods)

unfoldable pub includes_jobs : SweepOptions → Bool
includes_jobs o = o.completed_jobs || o.failed_jobs

abbrev is_text : Option String → String → Bool
is_text none s = false
is_text (some t) s = t == s

abbrev status_is_terminal : Option PodStatus → Bool
status_is_terminal none = false
status_is_terminal (some s) =
    is_text s.reason "Evicted" || (is_text s.phase "Succeeded" || is_text s.phase "Failed")

unfoldable pub is_dead : Pod → Bool
is_dead pod = status_is_terminal pod.status

-- The container statuses, then those of the init containers.
abbrev status_containers : Option PodStatus → List ContainerStatus
status_containers none = []
status_containers (some s) =
    unwrap_or s.container_statuses [] ++ unwrap_or s.init_container_statuses []

unfoldable pub containers : Pod → List ContainerStatus
containers pod = status_containers pod.status

abbrev is_stuck_reason : Option String → Bool
is_stuck_reason r =
    is_text r "CrashLoopBackOff"
    || (is_text r "Error"
        || (is_text r "ImagePullBackOff"
            || (is_text r "ErrImagePull" || is_text r "ContainerStatusUnknown")))

-- A container that waits, and else one that has ended.
abbrev state_is_stuck : Option ContainerState → Bool
state_is_stuck none = false
state_is_stuck (some s) = elim s.waiting_reason [
  | some reason ↦ is_stuck_reason reason
  | none ↦ elim s.terminated_reason [ none ↦ false | some reason ↦ is_text reason "OOMKilled" ]
]

unfoldable pub is_stuck : ContainerStatus → Bool
is_stuck c = state_is_stuck c.state

unfoldable pub should_sweep_pod : SweepOptions → Pod → Bool
should_sweep_pod options pod =
    if is_some pod.metadata.deletion_timestamp
    then false
    else if options.terminal_pods && is_dead pod
    then true
    else if options.restarted_pods && any (λ c. ltb 0 c.restart_count) (containers pod)
    then true
    else options.stuck_pods && any is_stuck (containers pod)

-- The life cycle of a job, if it has a JSON value.
unfoldable pub should_sweep_job : SweepOptions → Option Object → Bool
should_sweep_job options none = false
should_sweep_job options (some o) = elim (job_lifecycle o) [
  | complete ↦ options.completed_jobs
  | failed ↦ options.failed_jobs
  | failing ↦ false
  | suspended ↦ false
  | completing ↦ false
  | running ↦ false
]

-- The API server as the sweep calls it: lists of a namespace or of all, and deletions.
pub record SweepApi : Type 1 where
  pub World : Type 0
  pub Job : Type 0
  pub job_metadata : Job → ObjectMeta
  pub to_value : Job → Option Object
  pub list_pods : Option String → World → Result (List Pod) KubeError × World
  pub list_jobs : Option String → World → Result (List Job) KubeError × World
  pub delete_pod : String → String → World → Result (Unit {0}) KubeError × World
  pub delete_job : String → String → World → Result (Unit {0}) KubeError × World

abbrev pub is_forbidden : KubeError → Bool
is_forbidden (api code _) = nat_beq code 403
is_forbidden _ = false

unfoldable pub record_delete_error :
    String → String → String → KubeError → CleanupSummary → CleanupSummary
record_delete_error kind namespace name error s =
    let message = str_append kind (
      str_append " "
        (str_append namespace (str_append "/" (str_append name (str_append ": " (text error)))))) in
    if is_forbidden error
    then record s { forbidden = s.forbidden ++ message ∷ [] }
    else record s { failed = s.failed ++ message ∷ [] }

unfoldable pub count_pod :
    String → String → Result (Unit {0}) KubeError → CleanupSummary → CleanupSummary
count_pod ns name (ok done) s = record s { pods_deleted = s.pods_deleted + 1 }
count_pod ns name (err e) s = record_delete_error "Pod" ns name e s

unfoldable pub count_job :
    String → String → Result (Unit {0}) KubeError → CleanupSummary → CleanupSummary
count_job ns name (ok done) s = record s { jobs_deleted = s.jobs_deleted + 1 }
count_job ns name (err e) s = record_delete_error "Job" ns name e s

abbrev pub nothing_yet : CleanupSummary
nothing_yet = record { pods_deleted = 0; jobs_deleted = 0; forbidden = []; failed = [] }

module _ (S : SweepApi) where
  open S use {World, Job}

  abbrev keep :
      {A : Type 0} → (A → Bool) → Result (List A) KubeError × World → Result (List A) String × World
  keep p (ok xs, w) = (ok (filter p xs), w)
  keep p (err e, w) = (err (text e), w)

  unfoldable pub pod_candidates :
      Option String → SweepOptions → World → Result (List Pod) String × World
  pod_candidates namespace options w =
      if includes_pods options
      then keep (should_sweep_pod options) (S.list_pods namespace w)
      else (ok [], w)

  unfoldable pub job_candidates :
      Option String → SweepOptions → World → Result (List Job) String × World
  job_candidates namespace options w =
      if includes_jobs options
      then keep (λ job. should_sweep_job options (S.to_value job)) (S.list_jobs namespace w)
      else (ok [], w)

  abbrev pub both :
      List Pod → Result (List Job) String × World → Result (List Pod × List Job) String × World
  both pods (ok jobs, w) = (ok (pods, jobs), w)
  both pods (err e, w) = (err e, w)

  abbrev pub then_jobs :
      Option String
      → SweepOptions
      → Result (List Pod) String × World
      → Result (List Pod × List Job) String × World
  then_jobs namespace options (ok pods, w) = both pods (job_candidates namespace options w)
  then_jobs namespace options (err e, w) = (err e, w)

  unfoldable pub sweep_candidates :
      Option String → SweepOptions → World → Result (List Pod × List Job) String × World
  sweep_candidates namespace options w =
      then_jobs namespace options (pod_candidates namespace options w)

  abbrev pub counts :
      Result (List Pod × List Job) String × World → Result SweepCounts String × World
  counts (ok (pods, jobs), w) = (ok (record { pods = length pods; jobs = length jobs }), w)
  counts (err e, w) = (err e, w)

  unfoldable pub sanitize_preview :
      Option String → SweepOptions → World → Result SweepCounts String × World
  sanitize_preview namespace options w = counts (sweep_candidates namespace options w)

  unfoldable pub delete_pods : List Pod → CleanupSummary × World → CleanupSummary × World
  delete_pods [] s = s
  delete_pods (pod ∷ pods) (s, w) =
      let name = unwrap_or pod.metadata.name "" in
      let ns = unwrap_or pod.metadata.namespace "" in
      let (r, w1) = S.delete_pod ns name w in delete_pods pods (count_pod ns name r s, w1)

  unfoldable pub delete_jobs : List Job → CleanupSummary × World → CleanupSummary × World
  delete_jobs [] s = s
  delete_jobs (job ∷ jobs) (s, w) =
      let name = unwrap_or (S.job_metadata job).name "" in
      let ns = unwrap_or (S.job_metadata job).namespace "" in
      let (r, w1) = S.delete_job ns name w in delete_jobs jobs (count_job ns name r s, w1)

  abbrev pub delete_all :
      Result (List Pod × List Job) String × World → Result CleanupSummary String × World
  delete_all (ok (pods, jobs), w) =
      let (s, w1) = delete_jobs jobs (delete_pods pods (nothing_yet, w)) in (ok s, w1)
  delete_all (err e, w) = (err e, w)

  unfoldable pub sanitize :
      Option String → SweepOptions → World → Result CleanupSummary String × World
  sanitize namespace options w = delete_all (sweep_candidates namespace options w)
