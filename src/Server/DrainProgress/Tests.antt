-- ===== src/Server/DrainProgress/Tests.antt =====
-- A stream that is opened after two events and follows a third.
use roder.Prelude.{
  ◌≡◌, ◌⊎◌, refl, true, false, none, some, [], ◌∷◌, ◌++◌, List, length, take, length, nat_eq,
}
use roder.Prelude.Maps.{find, update}
use roder.Core.Drain.{DrainEvent, node_ready, started}
use roder.Server.Terminal.{is_terminal}
use roder.Server.DrainJobs.{DrainJobs, subscribe, emit, replay_after}
use roder.Server.DrainJobs.Steps.{emits, Step}
use roder.Server.DrainJobs.Samples.{logs, progressed, busy_job, two, progressed-Reach}
use roder.Server.DrainProgress.{value, lagged, pop_pending, receive, start, again}
use roder.Server.DrainProgress.Session.{
  Session, open_session, next_value, moves, receives, Runs, here, next, Streams,
}
use roder.Server.DrainProgress.Lossless.{stream-Runs}

abbrev third : DrainEvent
third = record { seq = 2; kind = node_ready }

abbrev three : List DrainEvent
three = two ++ third ∷ []

abbrev further : DrainJobs (List DrainEvent)
further = record progressed { entries = (0, record busy_job { events = three; tx = three }) ∷ [] }

further-Step : Step logs progressed further
unfolding emit update is_terminal
further-Step = emits 0 node_ready refl refl

subscribed : subscribe logs "alice" 0 progressed ≡ some (two, 2, false)
unfolding subscribe find
subscribed = refl

abbrev opened : Session logs
opened = record {
  jobs = progressed;
  log = two;
  rx = 2;
  live = record { stop = false; last_seq = some 1; pending = [] };
  out = two;
  eof = false;
}

opened_lem : opened ≡ open_session logs progressed two 2 false
unfolding start
opened_lem = refl

abbrev ahead : Session logs
ahead = record opened { jobs = further; log = three }

abbrev caught_up : Session logs
caught_up = record ahead {
  rx = 3;
  live = record { stop = false; last_seq = some 2; pending = [] };
  out = three;
}

emits_third : Streams logs "alice" 0 opened ahead
unfolding find
emits_third = moves further further-Step refl

sends_third : Streams logs "alice" 0 ahead caught_up
unfolding pop_pending receive is_terminal
sends_third =
    receives (value third) 3 third (caught_up.live) refl refl refl (next_value third refl refl refl)
      refl refl

follows : Runs logs "alice" 0 (open_session logs progressed two 2 false) caught_up
unfolding start
follows = next (next here emits_third) sends_third

stream-Runs_example :
    (caught_up.out ≡ take (length caught_up.out) caught_up.log)
    × (false ≡ true → caught_up.out ≡ caught_up.log)
    × (false ≡ true → (caught_up.out ≡ caught_up.log) ⊎ (find 0 caught_up.jobs.entries ≡ none))
stream-Runs_example =
    stream-Runs logs none "alice" 0 progressed two 2 false caught_up progressed-Reach subscribed
      follows

-- A receiver that was moved on recovers what it missed.
recovers :
    receive logs progressed "alice" 0
      (record { stop = false; last_seq = some 0; pending = [] })
      (lagged 1)
    ≡ again (record {
      stop = false;
      last_seq = some 0;
      pending = record { seq = 1; kind = started 2 } ∷ [];
    })
unfolding receive replay_after find
recovers = refl
