-- ===== src/Server/DrainWorker/Tests.antt =====
-- A reboot after a drain.
use roder.Prelude.{
  List, ◌++◌, ◌⊎◌, Result, String, ◌≡◌, ◌↔◌, refl, Bool, true, false, none, some, [], ◌∷◌, ok,
}
use roder.Core.Drain.{DrainSummary, finished, node_ready, power_requested, cancelled}
use roder.Server.Terminal.{is_terminal}
use roder.Server.DrainWorker.{
  PowerPhase, Services, after_power, after_wait, after_reboot, power_off, end_job,
}
use roder.Server.DrainWorker.Endings.{Observed, end_job-is_terminal, end_job-power}

-- The world is whether the node is cordoned, and the requests to the power API.
abbrev services : Services
services = record {
  World = Bool × List String;
  begin = λ w. (true, w);
  uncordon = λ w. (ok tt, (false, w.1));
  power_action = λ action w. (ok tt, (w.0, w.1 ++ action ∷ []));
  wait_for_node_reboot = λ before w. (ok tt, w);
}

abbrev reboot : PowerPhase
reboot = record { action = "reboot"; was_cordoned = false; previous_boot_id = none }

abbrev clean : DrainSummary
clean = record { evicted = 2; skipped = 1; failed = [] }

abbrev drained : Result DrainSummary String
drained = ok clean

reboots : end_job services drained (some reboot) (true, []) ≡ record {
  kind = finished clean;
  events = power_requested "reboot" ∷ node_ready ∷ [];
  world = (false, "reboot" ∷ []);
}
unfolding end_job power_off after_power after_wait after_reboot
reboots = refl

end_job-is_terminal_example :
    (is_terminal (end_job services drained (some reboot) (true, [])).kind ≡ true)
    × (((end_job services drained (some reboot) (true, [])).kind ≡ cancelled)
        ↔ ((services.begin (true, [])).0 ≡ false))
end_job-is_terminal_example = end_job-is_terminal services drained (some reboot) (true, [])

abbrev requests : Observed services
requests = record {
  asked = λ w. w.1;
  begin-asked = λ w. refl;
  uncordon-asked = λ w. refl;
  wait-asked = λ before w. refl;
  power-asked = λ action w. refl;
}

end_job-power_example :
    ((end_job services drained (some reboot) (true, [])).world.1 ≡ [])
    ⊎ ((s : DrainSummary) × (p : PowerPhase) × (drained ≡ ok s)
        × (s.failed ≡ [])
        × (some reboot ≡ some p)
        × ((services.begin (true, [])).0 ≡ true)
        × ((end_job services drained (some reboot) (true, [])).world.1 ≡ [] ++ p.action ∷ []))
end_job-power_example = end_job-power services requests drained (some reboot) (true, [])
