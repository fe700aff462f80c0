-- ===== src/Server/DrainJobs/Steps.antt =====
-- The registry over time: one step is one operation by some request, worker, expiry task
-- or renewal of a lease.
use roder.Prelude.{ℕ, ◌+◌, ◌^◌, ◌≤◌, ◌<◌, String, ◌≡◌, true, false, Option, List, [], ◌∷◌, ok, ◌⊎◌}
use roder.Core.Drain.{DrainEvent, DrainEventKind}
use roder.Server.Broadcast.{Broadcast}
use roder.Server.Terminal.{is_terminal}
use roder.Server.DrainJobs.{
  Expiry, DrainJobs, create_for, cancel, lose_lease, begin_non_cancellable, emit, finish, expire,
}

-- Some expiry task of the job has slept long enough.
abbrev pub Due : ℕ → ℕ → List Expiry → Type 0
Due id now [] = ⊥
Due id now (x ∷ xs) = ((x.job ≡ id) × (x.due ≤ now)) ⊎ Due id now xs

module _ (B : Broadcast DrainEvent) where
  -- Workers emit kinds that end no job and finish with kinds that do (`debug_assert` of `finish`).
  -- Fewer than 2^64 - 1 jobs are created. A lease can be lost, and its job's flag set, at any time after the
  -- job was created, also when cancellation is closed.
  pub data Step (s : DrainJobs B.Sender) (t : DrainJobs B.Sender) : Type 0 where
    creates :
        (owner key target : String) (power : Option String) (now id : ℕ)
        → create_for B owner key target power now s ≡ ok (id, t)
        → s.next_id + 1 < 2 ^ 64
        → Step s t
    cancels : (owner : String) (id : ℕ) → t ≡ (cancel B owner id s).1 → Step s t
    loses : (flag : ℕ) → flag < s.next_flag → t ≡ lose_lease B flag s → Step s t
    closes : (id : ℕ) → t ≡ (begin_non_cancellable B id s).1 → Step s t
    emits :
        (id : ℕ) (kind : DrainEventKind)
        → is_terminal kind ≡ false
        → t ≡ emit B id kind s
        → Step s t
    finishes :
        (id : ℕ) (kind : DrainEventKind) (now : ℕ)
        → is_terminal kind ≡ true
        → t ≡ finish B id kind now s
        → Step s t
    expires : (id now : ℕ) → Due id now s.expiries → t ≡ expire B id s → Step s t

  pub data Reach (s : DrainJobs B.Sender) : DrainJobs B.Sender → Type 0 where
    here : Reach s s
    next : {t u : DrainJobs B.Sender} → Reach s t → Step t u → Reach s u
