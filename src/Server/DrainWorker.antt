-- ===== src/Server/DrainWorker.antt =====
-- The end of a drain job's worker in `spawn_drain_job` of src/server/api/drain.rs: what follows the
-- drain, up to the terminal event. The cluster, the power API and the registry as the worker finds
-- it are parameters; what others do meanwhile is part of the calls' effect on the world.
pub mod Endings
mod Tests
use roder.Prelude.{
  String, Bool, true, false, not, Option, none, some, List, [], ◌∷◌, ◌++◌, is_empty, ◌==◌,
  string_eq, if◌then◌else◌, Result, ok, err,
}
use roder.Core.Drain.{
  DrainSummary, DrainEventKind, power_requested, node_ready, finished, error, cancelled,
}

pub record PowerPhase : Type 0 where
  pub action : String
  pub was_cordoned : Bool
  pub previous_boot_id : Option String

pub record Services : Type 1 where
  pub World : Type 0
  -- `handle.begin_non_cancellable()`
  pub begin : World → Bool × World
  -- `session.cordon(&name, false)`
  pub uncordon : World → Result (Unit {0}) String × World
  pub power_action : String → World → Result (Unit {0}) String × World
  -- `session.wait_for_node_reboot` with its timeout
  pub wait_for_node_reboot : Option String → World → Result (Unit {0}) String × World

-- The terminal event, the events before it, and the world.
pub record Ended (World : Type 0) : Type 0 where
  pub kind : DrainEventKind
  pub events : List DrainEventKind
  pub world : World

module _ (S : Services) where
  open S use {World}

  abbrev pub ending : DrainEventKind → List DrainEventKind → World → Ended World
  ending kind events w = record { kind = kind; events = events; world = w }

  -- `if !power.was_cordoned { let _ = session.cordon(&name, false).await; }`
  unfoldable pub restore : PowerPhase → World → World
  restore p w = if not p.was_cordoned then (S.uncordon w).1 else w

  unfoldable pub restore_for : Option PowerPhase → World → World
  restore_for none w = w
  restore_for (some p) w = restore p w

  -- The node is ready again after its reboot.
  unfoldable pub after_reboot :
      PowerPhase → DrainSummary → List DrainEventKind → World → Ended World
  after_reboot p summary events w =
      if not p.was_cordoned
      then (let (r, w1) = S.uncordon w in
          elim r [
            | err e ↦ ending (error e) events w1
            | ok done ↦ ending (finished summary) events w1
          ])
      else ending (finished summary) events w

  unfoldable pub after_wait :
      PowerPhase
      → DrainSummary
      → List DrainEventKind
      → Result (Unit {0}) String × World
      → Ended World
  after_wait p summary events (ok done, w) = after_reboot p summary (events ++ node_ready ∷ []) w
  after_wait p summary events (err e, w) = ending (error e) events (restore p w)

  unfoldable pub after_power :
      PowerPhase
      → DrainSummary
      → List DrainEventKind
      → Result (Unit {0}) String × World
      → Ended World
  after_power p summary events (err e, w) = ending (error e) events (restore p w)
  after_power p summary events (ok done, w) =
      if p.action == "reboot"
      then after_wait p summary events (S.wait_for_node_reboot p.previous_boot_id w)
      else ending (finished summary) events w

  unfoldable pub power_off : Option PowerPhase → DrainSummary → World → Ended World
  power_off none summary w = ending (finished summary) [] w
  power_off (some p) summary w =
      after_power p summary (power_requested p.action ∷ []) (S.power_action p.action w)

  -- The future that `spawn_drain_job` gives to `finish_with`, after drain and pump have ended.
  unfoldable pub end_job : Result DrainSummary String → Option PowerPhase → World → Ended World
  end_job (ok summary) power w =
      let (closed, w1) = S.begin w in
      if not closed
      then ending cancelled [] w1
      else if is_empty summary.failed
      then power_off power summary w1
      else ending (finished summary) [] (restore_for power w1)
  end_job (err e) power w =
      let (closed, w1) = S.begin w in
      if not closed then ending cancelled [] w1 else ending (error e) [] (restore_for power w1)
