-- ===== src/K8s/Sanitize/Tests.antt =====
-- A namespace with a crashing pod, a finished job and an API server that forbids the first deletion.
use roder.Prelude.{◌≡◌, refl, Bool, true, false, none, some, [], ◌∷◌, ok, err}
use roder.Core.Conditions.{Object, present, absent, job_lifecycle}
use roder.K8s.Errors.{api}
use roder.K8s.Pod.{Pod}
use roder.K8s.Sanitize.{
  SweepOptions, SweepApi, should_sweep_pod, should_sweep_job, is_dead, containers, is_stuck,
}
use roder.Core.Conditions.{
  condition_is, current_condition, current_condition_from, status_generation_is_stale,
}

abbrev crashing : Pod
crashing = record {
  metadata = record {
    name = some "web-1";
    namespace = some "shop";
    uid = some "u1";
    deletion_timestamp = none;
    owner_references = none;
    annotations = none;
  };
  spec = none;
  status = some (record {
    phase = some "Running";
    conditions = none;
    pod_ip = none;
    reason = none;
    container_statuses = some (
        record {
          restart_count = 7;
          state = some (record {
            waiting_reason = some (some "CrashLoopBackOff");
            terminated_reason = none;
          });
        }
        ∷ []);
    init_container_statuses = none;
  });
}

abbrev finished : Object
finished = record {
  generation = absent;
  suspend = absent;
  status_observed_generation = absent;
  conditions = present (
      record { type = present "Complete"; status = present "True"; observed_generation = absent }
      ∷ []);
}

abbrev stuck_and_complete : SweepOptions
stuck_and_complete = record {
  terminal_pods = false;
  stuck_pods = true;
  restarted_pods = false;
  completed_jobs = true;
  failed_jobs = false;
}

-- The world is whether a deletion is allowed.
abbrev shop : SweepApi
shop = record {
  World = Bool;
  Job = Object;
  job_metadata = λ _. crashing.metadata;
  to_value = λ o. some o;
  list_pods = λ _ w. (ok (crashing ∷ []), w);
  list_jobs = λ _ w. (ok (finished ∷ []), w);
  delete_pod = λ _ _ w. (err (api 403 "forbidden"), true);
  delete_job = λ _ _ w. (ok tt, w);
}

crashing_is_swept : should_sweep_pod stuck_and_complete crashing ≡ true
unfolding should_sweep_pod is_dead containers is_stuck
crashing_is_swept = refl

finished_is_swept : should_sweep_job stuck_and_complete (some finished) ≡ true
unfolding should_sweep_job job_lifecycle condition_is current_condition current_condition_from
    status_generation_is_stale
finished_is_swept = refl
