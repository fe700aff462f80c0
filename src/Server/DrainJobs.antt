-- ===== src/Server/DrainJobs.antt =====
-- src/server/drain_jobs.rs: the registry of drain jobs. A lock is held for the whole of each
-- operation, so an operation is one step of the state. The cancel flags are shared with the
-- workers: an entry holds the address of its flag, and `flags` is the store. Lengths of buffers are
-- numbers that do not wrap; `next_id` wraps as the source's `fetch_add` does.
pub mod Steps
pub mod Changes
pub mod Invariant
pub mod Uniqueness
pub mod Cancellation
pub mod History
pub mod Ids
pub mod Owners
pub mod Samples
mod Tests
use roder.Prelude.{
  ℕ, ◌+◌, ◌%◌, ◌^◌, String, Bool, true, false, not, ◌&&◌, ◌||◌, Option, none, some, List, [], ◌∷◌,
  ◌++◌, length, any, filter, max_by_key, ltb, if◌then◌else◌, is_some, ◌==◌, nat_eq, string_eq,
  Result, ok, err,
}
use roder.Prelude.Maps.{find, insert, remove, update}
use roder.Core.Drain.{DrainEvent, DrainEventKind, ActiveDrainJob}
use roder.Server.Broadcast.{Broadcast}

-- Seconds that a finished job's buffer stays subscribable.
abbrev pub expiry : ℕ
expiry = 300

pub record Entry (Sender : Type 0) : Type 0 where
  pub owner : String
  pub target : String
  pub key : String
  pub power : Option String
  pub events : List DrainEvent
  pub tx : Sender
  pub cancel : ℕ
  pub cancellable : Bool
  pub done : Bool
  pub started_at : ℕ

-- The task that `finish` spawns: it sleeps until `due` and removes the job.
pub record Expiry : Type 0 where
  pub job : ℕ
  pub due : ℕ

pub record DrainJobs (Sender : Type 0) : Type 0 where
  pub entries : List (ℕ × Entry Sender)
  pub next_id : ℕ
  pub executor : Option String
  pub flags : ℕ → Bool
  pub next_flag : ℕ
  pub expiries : List Expiry

pub data CreateError : Type 0 where
  target_busy : CreateError

pub data CancelResult : Type 0 where
  accepted not_found not_cancellable : CancelResult

abbrev pub store_flag : ℕ → Bool → (ℕ → Bool) → ℕ → Bool
store_flag a b flags j = if a == j then b else flags j

-- `after.is_none_or(|seq| event.seq > seq)`
abbrev pub newer_than : Option ℕ → DrainEvent → Bool
newer_than none event = true
newer_than (some seq) event = ltb seq event.seq

module _ (B : Broadcast DrainEvent) where
  open B use {Sender, Receiver, channel, send}

  unfoldable pub new : Option String → DrainJobs Sender
  new executor = record {
    entries = [];
    next_id = 0;
    executor = executor;
    flags = λ _. false;
    next_flag = 0;
    expiries = [];
  }

  -- `!entry.done && entry.target == target`
  abbrev pub holds_target : String → ℕ × Entry Sender → Bool
  holds_target target (_, e) = not e.done && e.target == target

  -- The entry of a new job; the address of its flag is one that no other entry holds.
  abbrev pub new_entry : String → String → String → Option String → ℕ → ℕ → Entry Sender
  new_entry owner key target power now flag = record {
    owner = owner;
    target = target;
    key = key;
    power = power;
    events = [];
    tx = channel 256;
    cancel = flag;
    cancellable = true;
    done = false;
    started_at = now;
  }

  abbrev pub register : Entry Sender → DrainJobs Sender → DrainJobs Sender
  register e s = record s {
    entries = insert s.next_id e s.entries;
    next_id = (s.next_id + 1) % 2 ^ 64;
    flags = store_flag s.next_flag false s.flags;
    next_flag = s.next_flag + 1;
  }

  -- `now` is the wall clock in milliseconds. The result is the new job's handle, its id.
  unfoldable pub create_for :
      String
      → String
      → String
      → Option String
      → ℕ
      → DrainJobs Sender
      → Result (ℕ × DrainJobs Sender) CreateError
  create_for owner key target power now s =
      if any (holds_target target) s.entries
      then err target_busy
      else ok (s.next_id, register (new_entry owner key target power now s.next_flag) s)

  unfoldable pub create :
      String → String → ℕ → DrainJobs Sender → Result (ℕ × DrainJobs Sender) CreateError
  unfolding create_for
  create owner target now s = create_for owner "" target none now s

  -- `entry.owner == owner && !entry.done`
  abbrev pub is_active_of : String → ℕ × Entry Sender → Bool
  is_active_of owner (_, e) = e.owner == owner && not e.done

  abbrev pub describe : Option String → ℕ × Entry Sender → ActiveDrainJob
  describe executor (id, e) = record {
    job = id;
    executor = executor;
    started_at = e.started_at;
    key = e.key;
    name = e.target;
    power = e.power;
  }

  unfoldable pub active : String → DrainJobs Sender → Option ActiveDrainJob
  active owner s = elim (max_by_key (λ p. p.0) (filter (is_active_of owner) s.entries)) [
    | none ↦ none
    | some p ↦ some (describe s.executor p)
  ]

  -- The entry of a job if `owner` owns it.
  abbrev owned_entry : String → Option (Entry Sender) → Option (Entry Sender)
  owned_entry owner none = none
  owned_entry owner (some e) = if e.owner == owner then some e else none

  unfoldable pub subscribe :
      String → ℕ → DrainJobs Sender → Option (List DrainEvent × Receiver × Bool)
  subscribe owner id s = elim (owned_entry owner (find id s.entries)) [
    | none ↦ none
    | some e ↦ some (e.events, B.subscribe e.tx, e.done)
  ]

  unfoldable pub replay_after : String → ℕ → Option ℕ → DrainJobs Sender → Option (List DrainEvent)
  replay_after owner id after s = elim (owned_entry owner (find id s.entries)) [
    | none ↦ none
    | some e ↦ some (filter (newer_than after) e.events)
  ]

  unfoldable pub cancel : String → ℕ → DrainJobs Sender → CancelResult × DrainJobs Sender
  cancel owner id s = elim (owned_entry owner (find id s.entries)) [
    | none ↦ (not_found, s)
    | some e ↦
        if not e.cancellable
        then (not_cancellable, s)
        else (accepted, record s { flags = store_flag e.cancel true s.flags })
  ]

  -- What the renewal of a job's lease does with the flag that `cancel_on_loss` handed to it, after three
  -- failures in a row.
  unfoldable pub lose_lease : ℕ → DrainJobs Sender → DrainJobs Sender
  lose_lease flag s = record s { flags = store_flag flag true s.flags }

  -- `none` is the panic of `expect`.
  unfoldable pub cancel_flag : ℕ → DrainJobs Sender → Option ℕ
  cancel_flag id s = elim (find id s.entries) [ none ↦ none | some e ↦ some e.cancel ]

  unfoldable pub begin_non_cancellable : ℕ → DrainJobs Sender → Bool × DrainJobs Sender
  begin_non_cancellable id s = elim (find id s.entries) [
    | none ↦ (false, s)
    | some e ↦ if e.done || (not e.cancellable || s.flags e.cancel) then (false, s) else (
      true,
      record s { entries = update id (λ x. record x { cancellable = false }) s.entries },
    )
  ]

  abbrev pub push_event : DrainEventKind → Entry Sender → Entry Sender
  push_event kind e =
      let event : DrainEvent = record { seq = length e.events; kind = kind } in
      record e { events = e.events ++ event ∷ []; tx = send event e.tx }

  abbrev pub emit_entry : DrainEventKind → Entry Sender → Entry Sender
  emit_entry kind e = if e.done then e else push_event kind e

  unfoldable pub emit : ℕ → DrainEventKind → DrainJobs Sender → DrainJobs Sender
  emit id kind s = record s { entries = update id (emit_entry kind) s.entries }

  abbrev pub finish_entry : DrainEventKind → Entry Sender → Entry Sender
  finish_entry kind e = record (push_event kind e) { cancellable = false; done = true }

  -- `now` is the clock, in seconds, when the expiry task starts to sleep.
  unfoldable pub finish : ℕ → DrainEventKind → ℕ → DrainJobs Sender → DrainJobs Sender
  finish id kind now s = elim (find id s.entries) [
    | none ↦ s
    | some e ↦ if e.done then s else record s {
      entries = update id (finish_entry kind) s.entries;
      expiries = (record { job = id; due = now + expiry }) ∷ s.expiries;
    }
  ]

  -- The end of an expiry task: `entries.remove(&id)`.
  unfoldable pub expire : ℕ → DrainJobs Sender → DrainJobs Sender
  expire id s = record s { entries = remove id s.entries }
