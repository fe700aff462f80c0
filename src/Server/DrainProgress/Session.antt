-- ===== src/Server/DrainProgress/Session.antt =====
-- A stream beside the registry: every interleaving of the registry's steps, the channel's answers
-- and the client's reads.
use roder.Prelude.{
  ℕ, suc, ◌+◌, ◌≤◌, String, ◌≡◌, Bool, true, false, Option, none, some, List, [], ◌∷◌, ◌++◌, length,
  get_elem?, nat_eq,
}
use roder.Prelude.Maps.{find}
use roder.Core.Drain.{DrainEvent}
use roder.Server.Broadcast.{Broadcast}
use roder.Server.DrainJobs.{Entry, DrainJobs}
use roder.Server.DrainJobs.Steps.{Step}
use roder.Server.DrainProgress.{
  Received, value, lagged, shut, Live, yielded, again, over, pop_pending, receive, start,
}

module _ (B : Broadcast DrainEvent) where
  -- How `recv` of tokio's broadcast channel answers when `log` has been sent: with the value at the
  -- receiver's position, or by moving a receiver on that is too far behind; or that it is closed, when the
  -- sender is gone, which only the entry of the job has, and the receiver is behind the last value.
  pub data Receives (entry : Option (Entry B.Sender)) (log : List DrainEvent) (rx rx' : B.Receiver)
      (r : Received) : Type 0 where
    next_value :
        (ev : DrainEvent)
        → r ≡ value ev
        → get_elem? log (B.position rx) ≡ some ev
        → B.position rx' ≡ suc (B.position rx)
        → Receives entry log rx rx' r
    behind :
        (n : ℕ)
        → r ≡ lagged n
        → B.position rx' ≡ B.position rx + n
        → B.position rx' ≤ length log
        → Receives entry log rx rx' r
    closed :
        r ≡ shut
        → entry ≡ none
        → B.position rx ≡ length log
        → rx' ≡ rx
        → Receives entry log rx rx' r

  -- `log` is all that the job has ever emitted, and `out` what the client has been sent, before the event
  -- `eof` if he has been sent that.
  pub record Session : Type 0 where
    pub jobs : DrainJobs B.Sender
    pub log : List DrainEvent
    pub rx : B.Receiver
    pub live : Live
    pub out : List DrainEvent
    pub eof : Bool

  abbrev pub log_after : List DrainEvent → Option (Entry B.Sender) → List DrainEvent
  log_after log none = log
  log_after log (some e) = e.events

  pub data Streams (owner : String) (id : ℕ) (s t : Session) : Type 0 where
    moves :
        (jobs : DrainJobs B.Sender)
        → Step B s.jobs jobs
        → t ≡ record s { jobs = jobs; log = log_after s.log (find id jobs.entries) }
        → Streams owner id s t
    delivers :
        (ev : DrainEvent) (l : Live)
        → s.eof ≡ false
        → s.live.stop ≡ false
        → pop_pending s.live ≡ some (yielded ev l)
        → t ≡ record s { live = l; out = s.out ++ ev ∷ [] }
        → Streams owner id s t
    receives :
        (r : Received) (rx : B.Receiver) (ev : DrainEvent) (l : Live)
        → s.eof ≡ false
        → s.live.stop ≡ false
        → pop_pending s.live ≡ none
        → Receives (find id s.jobs.entries) s.log s.rx rx r
        → receive B s.jobs owner id s.live r ≡ yielded ev l
        → t ≡ record s { rx = rx; live = l; out = s.out ++ ev ∷ [] }
        → Streams owner id s t
    retries :
        (r : Received) (rx : B.Receiver) (l : Live)
        → s.eof ≡ false
        → s.live.stop ≡ false
        → pop_pending s.live ≡ none
        → Receives (find id s.jobs.entries) s.log s.rx rx r
        → receive B s.jobs owner id s.live r ≡ again l
        → t ≡ record s { rx = rx; live = l }
        → Streams owner id s t
    stops : s.eof ≡ false → s.live.stop ≡ true → t ≡ record s { eof = true } → Streams owner id s t
    ends :
        (r : Received) (rx : B.Receiver)
        → s.eof ≡ false
        → s.live.stop ≡ false
        → pop_pending s.live ≡ none
        → Receives (find id s.jobs.entries) s.log s.rx rx r
        → receive B s.jobs owner id s.live r ≡ over
        → t ≡ record s { eof = true }
        → Streams owner id s t

  pub data Runs (owner : String) (id : ℕ) (s : Session) : Session → Type 0 where
    here : Runs owner id s s
    next : {t u : Session} → Runs owner id s t → Streams owner id t u → Runs owner id s u

  -- `drain_progress` after a subscription: the replay is sent, and the live part starts, or the stream ends
  -- if the job is done.
  abbrev pub open_session : DrainJobs B.Sender → List DrainEvent → B.Receiver → Bool → Session
  open_session jobs replay rx done = record {
    jobs = jobs;
    log = replay;
    rx = rx;
    live = start replay;
    out = replay;
    eof = done;
  }
