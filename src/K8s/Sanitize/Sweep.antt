-- ===== src/K8s/Sanitize/Sweep.antt =====
-- What a sweep selects, and what its summary says of it.
use roder.Prelude.{
  not, suc, ◌++◌, str_append, Bool, if◌then◌else◌, ◌==◌, nat_eq, ℕ, ◌+◌, String, ◌≡◌, true, false,
  some, List, [], ◌∷◌, length, Result, ok, err, arith, is_some,
}
use roder.Core.Conditions.{Object, job_lifecycle, is_terminal}
use roder.K8s.Errors.{KubeError, api, text}
use roder.K8s.Pod.{Pod}
use roder.K8s.Sanitize.{
  unwrap_or, CleanupSummary, SweepCounts, SweepOptions, includes_pods, includes_jobs,
  should_sweep_pod, should_sweep_job, SweepApi,
}

-- A pod is swept only when a category of pods is selected and it is not being deleted already.
pub should_sweep_pod-includes_pods :
    (options : SweepOptions) (pod : Pod)
    → should_sweep_pod options pod ≡ true
    → (includes_pods options ≡ true) × (is_some pod.metadata.deletion_timestamp ≡ false)
unfolding should_sweep_pod includes_pods
should_sweep_pod-includes_pods options pod h = (ground (arith, h), ground (arith, h))

-- A job is swept only when it is over: it failed and failed jobs are selected, or it is complete and
-- completed jobs are; then a category of jobs is selected.
pub should_sweep_job-is_terminal :
    (options : SweepOptions) (o : Object)
    → should_sweep_job options (some o) ≡ true
    → (is_terminal (job_lifecycle o) ≡ true) × (includes_jobs options ≡ true)
unfolding should_sweep_job includes_jobs is_terminal
should_sweep_job-is_terminal options o h = (ground (arith, h), ground (arith, h))

-- The answer of the API server to one deletion.
pub record Answer : Type 0 where
  pub namespace : String
  pub name : String
  pub result : Result (Unit {0}) KubeError

unfoldable pub accepted : List Answer → ℕ
accepted [] = 0
accepted (a ∷ rest) = elim a.result [ ok done ↦ suc (accepted rest) | err e ↦ accepted rest ]

-- An answer with the status 403.
abbrev denied : KubeError → Bool
denied (api code _) = code == 403
denied _ = false

abbrev is_told : Bool → KubeError → Bool
is_told true e = denied e
is_told false e = not (denied e)

abbrev line : String → Answer → KubeError → String
line kind a e = str_append kind (
    str_append " "
      (str_append a.namespace (str_append "/" (str_append a.name (str_append ": " (text e))))))

-- A line for each deletion that was refused, because it is forbidden or else.
unfoldable pub lines : Bool → String → List Answer → List String
lines forbidden kind [] = []
lines forbidden kind (a ∷ rest) =
    let more = lines forbidden kind rest in
    elim a.result [
      | ok done ↦ more
      | err e ↦ if is_told forbidden e then line kind a e ∷ more else more
    ]

-- What has been added to a summary.
abbrev Added : ℕ → ℕ → String → List Answer → CleanupSummary → CleanupSummary → Type 0
Added pods jobs kind answers s t =
    (t.pods_deleted ≡ s.pods_deleted + pods)
    × (t.jobs_deleted ≡ s.jobs_deleted + jobs)
    × (t.forbidden ≡ s.forbidden ++ lines true kind answers)
    × (t.failed ≡ s.failed ++ lines false kind answers)

abbrev answer_of : String → String → Result (Unit {0}) KubeError → Answer
answer_of ns name r = record { namespace = ns; name = name; result = r }

-- What the summary says of the answers to the deletions of pods and of jobs.
abbrev pub IsReport : List Answer → List Answer → CleanupSummary → Type 0
IsReport pods jobs s =
    (s.pods_deleted ≡ accepted pods)
    × (s.jobs_deleted ≡ accepted jobs)
    × (s.forbidden ≡ lines true "Pod" pods ++ lines true "Job" jobs)
    × (s.failed ≡ lines false "Pod" pods ++ lines false "Job" jobs)

-- A preview, the answers to the deletions, and the summary of the sweep.
abbrev pub Agree :
    Result SweepCounts String
    → Result (List Answer × List Answer) String
    → Result CleanupSummary String
    → Type 0
Agree (ok c) (ok a) (ok s) = (c.pods ≡ length a.0) × (c.jobs ≡ length a.1) × IsReport a.0 a.1 s
Agree (err e) (err f) (err g) = (e ≡ f) × (e ≡ g)
Agree _ _ _ = ⊥

module _ (S : SweepApi) where
  -- The deletions of pods, one after the other, and those of jobs.
  unfoldable pub pod_answers : List Pod → S.World → List Answer × S.World
  pod_answers [] w = ([], w)
  pod_answers (pod ∷ pods) w =
      let name = unwrap_or pod.metadata.name "" in
      let ns = unwrap_or pod.metadata.namespace "" in
      let r = S.delete_pod ns name w in
      let rest = pod_answers pods r.1 in (answer_of ns name r.0 ∷ rest.0, rest.1)

  unfoldable pub job_answers : List S.Job → S.World → List Answer × S.World
  job_answers [] w = ([], w)
  job_answers (job ∷ jobs) w =
      let name = unwrap_or (S.job_metadata job).name "" in
      let ns = unwrap_or (S.job_metadata job).namespace "" in
      let r = S.delete_job ns name w in
      let rest = job_answers jobs r.1 in (answer_of ns name r.0 ∷ rest.0, rest.1)

  abbrev pub answers :
      Result (List Pod × List S.Job) String × S.World → Result (List Answer × List Answer) String
  answers (ok (pods, jobs), w) = let p = pod_answers pods w in ok (p.0, (job_answers jobs p.1).0)
  answers (err e, w) = err e
