-- ===== src/Server/DrainProgress.antt =====
-- `live_events` and `drain_progress` of src/server/api/drain.rs: a subscriber's stream of one job,
-- the buffer first and then the channel, until a terminal event.
pub mod Session
pub mod Buffers
pub mod Prefix
pub mod Lossless
mod Tests
use roder.Prelude.{
  ℕ, String, Bool, true, false, Option, none, some, List, [], ◌∷◌, ◌++◌, leb, if◌then◌else◌,
}
use roder.Core.Drain.{DrainEvent}
use roder.Server.Broadcast.{Broadcast}
use roder.Server.Terminal.{is_terminal}
use roder.Server.DrainJobs.{DrainJobs, replay_after}

-- What `rx.recv()` returns.
pub data Received : Type 0 where
  value : DrainEvent → Received
  lagged : ℕ → Received
  shut : Received

-- The state of the `unfold`, the receiver apart.
pub record Live : Type 0 where
  pub stop : Bool
  pub last_seq : Option ℕ
  pub pending : List DrainEvent

-- One round of the loop: an event for the client, another round, or the end of the stream.
pub data Round : Type 0 where
  yielded : DrainEvent → Live → Round
  again : Live → Round
  over : Round

-- `last_seq.is_some_and(|seq| ev.seq <= seq)`
abbrev pub covered : Option ℕ → ℕ → Bool
covered none n = false
covered (some seq) n = leb n seq

-- `replay.last().map(|event| event.seq)`
unfoldable pub seq_of_last : List DrainEvent → Option ℕ
seq_of_last [] = none
seq_of_last (e ∷ []) = some e.seq
seq_of_last (e ∷ d ∷ es) = seq_of_last (d ∷ es)

abbrev pub hand_out : DrainEvent → List DrainEvent → Round
hand_out ev rest =
    yielded ev (record { stop = is_terminal ev.kind; last_seq = some ev.seq; pending = rest })

-- The round when `pending` is not empty.
unfoldable pub pop_pending : Live → Option Round
pop_pending l = elim l.pending [ [] ↦ none | ev ∷ rest ↦ some (hand_out ev rest) ]

-- The round when `pending` is empty, with the answer of the channel.
unfoldable pub receive :
    (B : Broadcast DrainEvent) → DrainJobs B.Sender → String → ℕ → Live → Received → Round
receive B jobs owner id l (value ev) =
    if covered l.last_seq ev.seq then again l else hand_out ev l.pending
receive B jobs owner id l (lagged n) = elim (replay_after B owner id l.last_seq jobs) [
  | none ↦ over
  | some recovered ↦ again (record l { pending = l.pending ++ recovered })
]
receive B jobs owner id l shut = over

-- The start of the live part, after the client was sent `replay`.
unfoldable pub start : List DrainEvent → Live
unfolding seq_of_last
start replay = record { stop = false; last_seq = seq_of_last replay; pending = [] }
