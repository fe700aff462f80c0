-- ===== src/Core/Conditions/Tests.antt =====
-- A job whose status is of its present generation.
use roder.Prelude.{pos, ◌≡◌, refl, true, false, some, [], ◌∷◌}
use roder.Core.Conditions.{
  present, absent, Condition, Object, read, is_absent, is_string, current_condition,
  current_condition_from, status_generation_is_stale, condition_is, is_terminal, job_lifecycle,
}
use roder.Core.Conditions.Current.{SpeaksFor, current_condition-SpeaksFor}

abbrev old : Condition
old = record {
  type = present "Failed";
  status = present "True";
  observed_generation = present (pos 1);
}

abbrev complete_now : Condition
complete_now = record {
  type = present "Complete";
  status = present "True";
  observed_generation = present (pos 2);
}

abbrev job : Object
job = record {
  generation = present (pos 2);
  suspend = absent;
  status_observed_generation = present (pos 2);
  conditions = present (old ∷ complete_now ∷ []);
}

completes : current_condition job "Complete" ≡ some complete_now
unfolding current_condition current_condition_from
completes = refl

-- The failure was that of the last generation.
job_over : is_terminal (job_lifecycle job) ≡ true
unfolding is_terminal job_lifecycle condition_is current_condition current_condition_from
    status_generation_is_stale
job_over = refl

current_condition-SpeaksFor_example :
    (is_string (read complete_now.type) "Complete" ≡ true)
    × SpeaksFor (read job.generation) complete_now
    × (is_absent complete_now.observed_generation ≡ true → status_generation_is_stale job ≡ false)
current_condition-SpeaksFor_example =
    current_condition-SpeaksFor job "Complete" complete_now completes
