-- ===== src/Server/DrainJobs/Tests.antt =====
-- One job through its life: the theorems at concrete registries.
use mathlib.Core.Bool.{false≢true}
use roder.Prelude.{
  ◌≢◌, ℕ, ◌≡◌, refl, ◌⊎◌, true, false, Option, none, some, List, [], ◌∷◌, length, if◌then◌else◌,
  ◌==◌, err, ==_iff, string_eq, nat_eq,
}
use roder.Prelude.Maps.{find, update}
use roder.Core.Drain.{DrainEvent, cordoned, started}
use roder.Server.Terminal.{is_terminal}
use roder.Server.DrainJobs.{
  DrainJobs, create_for, cancel, begin_non_cancellable, emit, subscribe, replay_after, active,
  expire, target_busy, accepted, not_found, not_cancellable,
}
use roder.Server.DrainJobs.Steps.{here, emits}
use roder.Server.DrainJobs.Invariant.{Inv, Reach-Inv}
use roder.Server.DrainJobs.Uniqueness.{IsUnique, Reach-IsUnique}
use roder.Server.DrainJobs.Cancellation.{cancel-begin, begin-cancel}
use roder.Server.DrainJobs.History.{Persists, Step-Continues}
use roder.Server.DrainJobs.Owners.{events_after, stranger_lem, replay-subscribe}
use roder.Server.DrainJobs.Samples.{
  logs, job, running, running-Reach, found, two, busy_job, progressed, progressed-Reach,
  progressed_found,
}

busy : create_for logs "bob" "nodes" "node-a" none 6 running ≡ err target_busy
unfolding create_for
busy = refl

Reach-Inv_example : Inv logs running
Reach-Inv_example = Reach-Inv logs none running running-Reach

Reach-IsUnique_example : IsUnique logs running
Reach-IsUnique_example = Reach-IsUnique logs none running running-Reach

-- The worker closes cancellation.
abbrev closed_job : DrainJobs (List DrainEvent)
closed_job = record running { entries = (0, record job { cancellable = false }) ∷ [] }

closes_first : begin_non_cancellable logs 0 running ≡ (true, closed_job)
unfolding begin_non_cancellable find update
closes_first = refl

too_late : cancel logs "alice" 0 closed_job ≡ (not_cancellable, closed_job)
unfolding cancel find
too_late = refl

cancel-begin_example :
    ((cancel logs "alice" 0 closed_job).1 ≡ closed_job)
    × ((cancel logs "alice" 0 closed_job).0 ≢ accepted)
cancel-begin_example =
    cancel-begin logs "alice" 0 running closed_job closed_job
      (Reach-Inv logs none running running-Reach) closes_first here

-- The owner cancels first.
abbrev cancelled_job : DrainJobs (List DrainEvent)
cancelled_job = record running { flags = λ j. if 0 == j then true else running.flags j }

cancels_first : cancel logs "alice" 0 running ≡ (accepted, cancelled_job)
unfolding cancel find
cancels_first = refl

begin-cancel_example : begin_non_cancellable logs 0 cancelled_job ≡ (false, cancelled_job)
begin-cancel_example =
    begin-cancel logs "alice" 0 running cancelled_job cancelled_job
      (Reach-Inv logs none running running-Reach) cancels_first here

Step-Continues_example :
    Persists logs (emit logs 0 cordoned running) 0 job
    ⊎ ((find 0 (emit logs 0 cordoned running).entries ≡ none) × (false ≡ true))
Step-Continues_example =
    Step-Continues logs none running (emit logs 0 cordoned running) 0 job running-Reach
      (emits 0 cordoned cordoned_goes_on refl) found
  where
    cordoned_goes_on : is_terminal cordoned ≡ false
    cordoned_goes_on = unfold is_terminal in refl

stranger_lem_example :
    (subscribe logs "bob" 0 progressed ≡ none)
    × ((after : Option ℕ) → replay_after logs "bob" 0 after progressed ≡ none)
    × (cancel logs "bob" 0 progressed ≡ (not_found, progressed))
    × (active logs "bob" progressed ≡ active logs "bob" (expire logs 0 progressed))
stranger_lem_example =
    stranger_lem logs "bob" 0 progressed busy_job (Reach-Inv logs none progressed progressed-Reach)
      progressed_found (λ p. false≢true ((==_iff "alice" "bob").1 p))

replay-subscribe_example :
    (subscribe logs "alice" 0 progressed ≡ some (two, 2, false))
    × (2 ≡ length two)
    × ((after : Option ℕ)
        → replay_after logs "alice" 0 after progressed ≡ some (events_after after two))
replay-subscribe_example =
    replay-subscribe logs 0 progressed busy_job (Reach-Inv logs none progressed progressed-Reach)
      progressed_found

replay_second :
    replay_after logs "alice" 0 (some 0) progressed
    ≡ some (record { seq = 1; kind = started 2 } ∷ [])
unfolding replay_after find
replay_second = refl
