-- ===== src/Core/Drain/Tests.antt =====
-- Inputs for the drain options.
use roder.Prelude.{◌≡◌, refl, true, false, some, ok, err}
use roder.Core.Drain.{DrainOptions, validate}

abbrev limits : DrainOptions
limits = record {
  force = true;
  delete_emptydir_data = false;
  ignore_daemonsets = true;
  disable_eviction = false;
  grace_period = some 86400;
  timeout_secs = 3600;
}

limits_accepted : validate limits ≡ ok tt
unfolding validate
limits_accepted = refl

timeout_refused :
    validate (record limits { timeout_secs = 3601; grace_period = some 86401 })
    ≡ err "timeout must not exceed 3600 seconds"
unfolding validate
timeout_refused = refl
