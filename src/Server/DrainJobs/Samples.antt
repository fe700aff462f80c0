-- ===== src/Server/DrainJobs/Samples.antt =====
-- Concrete registries, over a concrete channel.
use roder.Prelude.{
  ℕ, ◌≡◌, refl, false, none, some, List, [], ◌∷◌, ◌++◌, length, arith, if◌then◌else◌, ◌==◌, ok,
  string_eq, nat_eq,
}
use roder.Prelude.Maps.{find, insert, remove, update}
use roder.Core.Drain.{DrainEvent, cordoned, started}
use roder.Server.Broadcast.{Broadcast}
use roder.Server.Terminal.{is_terminal}
use roder.Server.DrainJobs.{Entry, DrainJobs, new, new_entry, create_for, emit}
use roder.Server.DrainJobs.Steps.{Reach, here, next, creates, emits}

-- A channel that never forgets.
abbrev pub logs : Broadcast DrainEvent
logs = record {
  Sender = List DrainEvent;
  Receiver = ℕ;
  channel = λ _. [];
  send = λ e s. s ++ e ∷ [];
  subscribe = λ s. length s;
  sent = λ s. s;
  position = λ r. r;
  sent-channel = λ _. refl;
  sent-send = λ e s. refl;
  position-subscribe = λ s. refl;
}

abbrev pub empty : DrainJobs (List DrainEvent)
empty = record {
  entries = [];
  next_id = 0;
  executor = none;
  flags = λ _. false;
  next_flag = 0;
  expiries = [];
}

pub empty-new : empty ≡ new logs none
unfolding new
empty-new = refl

abbrev pub job : Entry (List DrainEvent)
job = new_entry logs "alice" "nodes" "node-a" none 5 0

abbrev pub running : DrainJobs (List DrainEvent)
running = record {
  entries = (0, job) ∷ [];
  next_id = 1;
  executor = none;
  flags = λ j. if 0 == j then false else false;
  next_flag = 1;
  expiries = [];
}

pub created : create_for logs "alice" "nodes" "node-a" none 5 (new logs none) ≡ ok (0, running)
unfolding create_for new insert remove
created = refl

pub running-Reach : Reach logs (new logs none) running
unfolding new
running-Reach = next here (creates "alice" "nodes" "node-a" none 5 0 created (omega arith))

pub found : find 0 running.entries ≡ some job
unfolding find
found = refl

-- The buffer of a job with two events.
abbrev pub two : List DrainEvent
two = record { seq = 0; kind = cordoned } ∷ record { seq = 1; kind = started 2 } ∷ []

abbrev pub busy_job : Entry (List DrainEvent)
busy_job = record job { events = two; tx = two }

abbrev pub progressed : DrainJobs (List DrainEvent)
progressed = record running { entries = (0, busy_job) ∷ [] }

pub goes_on : (is_terminal cordoned ≡ false) × (is_terminal (started 2) ≡ false)
unfolding is_terminal
goes_on = (refl, refl)

pub emitted_two : progressed ≡ emit logs 0 (started 2) (emit logs 0 cordoned running)
unfolding emit update
emitted_two = refl

pub progressed-Reach : Reach logs (new logs none) progressed
progressed-Reach =
    next (next running-Reach (emits 0 cordoned goes_on.0 refl))
      (emits 0 (started 2) goes_on.1 emitted_two)

pub progressed_found : find 0 progressed.entries ≡ some busy_job
unfolding find
progressed_found = refl
