-- ===== src/Server/DrainJobs/Owners.antt =====
-- What a caller can see: the buffers of his own jobs in full, and of other jobs nothing.
use native.Mathlib.Nat.{zero-add}
use roder.Prelude.{
  Bool-cases, Bool, ℕ, zero, suc, ◌+◌, ◌≤◌, ◌<◌, String, ◌≡◌, refl, ap, ◌∙◌, ◌≢◌, true, false,
  Option, none, some, List, [], ◌∷◌, drop, filter, max_by_key, length, arith, nat_eq, string_eq,
  ◌==◌, ==_iff, Option-cases, inl, inr, ◌⊎◌,
}
use roder.Prelude.Maps.{find, filter-remove, best-none, best-found, best-le}
use roder.Core.Drain.{DrainEvent}
use roder.Server.Broadcast.{Broadcast}
use roder.Server.DrainJobs.{
  Entry, DrainJobs, subscribe, replay_after, active, cancel, expire, newer_than, is_active_of,
  not_found, describe,
}
use roder.Server.DrainJobs.Invariant.{Inv, Numbered}

all_newer :
    (k n : ℕ) (es : List DrainEvent) → Numbered n es → k < n → filter (newer_than (some k)) es ≡ es
all_newer k n [] h q = refl
all_newer k n (e ∷ es) h q = ground (arith, all_newer k (suc n) es h.1)

all_new : (es : List DrainEvent) → filter (newer_than none) es ≡ es
all_new [] = refl
all_new (e ∷ es) = ap (◌∷◌ e) (all_new es)

-- Of a buffer numbered from `n`, the events newer than the one with number n + k.
drop-newer :
    (n k : ℕ) (es : List DrainEvent)
    → Numbered n es
    → filter (newer_than (some (n + k))) es ≡ drop (suc k) es
drop-newer n k [] h = refl
drop-newer n zero (e ∷ es) h = ground (arith, all_newer (n + 0) (suc n) es)
drop-newer n (suc k) (e ∷ es) h = ground (arith, drop-newer (suc n) k es h.1)

-- The events after the one numbered `after`.
abbrev pub events_after : Option ℕ → List DrainEvent → List DrainEvent
events_after none es = es
events_after (some k) es = drop (suc k) es

filter-newer :
    (after : Option ℕ) (es : List DrainEvent)
    → Numbered 0 es
    → filter (newer_than after) es ≡ events_after after es
filter-newer none es h = all_new es
filter-newer (some k) es h = rw zero-add at (drop-newer 0 k es h)

module _ (B : Broadcast DrainEvent) where
  -- To a caller who does not own a job a registry in which `Inv` holds answers as if the job were
  -- not there: no subscription, no replay, no cancellation (and no change), and the same active job.
  pub stranger_lem :
      (owner : String) (id : ℕ) (s : DrainJobs B.Sender) (e : Entry B.Sender)
      → Inv B s
      → find id s.entries ≡ some e
      → e.owner ≢ owner
      → (subscribe B owner id s ≡ none)
        × ((after : Option ℕ) → replay_after B owner id after s ≡ none)
        × (cancel B owner id s ≡ (not_found, s))
        × (active B owner s ≡ active B owner (expire B id s))
  unfolding subscribe replay_after cancel active expire
  stranger_lem owner id s e v found other =
      let no : (e.owner == owner) ≡ false = ground (arith, ==_iff e.owner owner) in
      (
        ground (arith, no, found),
        λ after. ground (arith, no, found),
        ground (arith, no, found),
        rw
            (
              filter-remove (is_active_of B owner) id e s.entries v.distinct found
                  (ground (arith, no)),
              active,
            )
            refl,
      )

  -- A subscription and a replay by the owner, in a registry in which `Inv` holds: the first hands
  -- out the whole buffer with a receiver placed behind it, the second the events after a number.
  pub replay-subscribe :
      (id : ℕ) (s : DrainJobs B.Sender) (e : Entry B.Sender)
      → Inv B s
      → find id s.entries ≡ some e
      → (subscribe B e.owner id s ≡ some (e.events, B.subscribe e.tx, e.done))
        × (B.position (B.subscribe e.tx) ≡ length e.events)
        × ((after : Option ℕ)
            → replay_after B e.owner id after s ≡ some (events_after after e.events))
  unfolding subscribe replay_after
  replay-subscribe id s e v found =
      let own : (e.owner == e.owner) ≡ true = (==_iff e.owner e.owner).1 refl in
      let x = v.sound id e found in
      (
        ground (arith, own, found),
        B.position-subscribe e.tx ∙ ap length x.broadcast,
        λ after. ground (arith, own, found, filter-newer after e.events x.numbered),
      )

  -- `active` in a registry in which `Inv` holds: the job that it describes is the caller's, is
  -- unfinished, and no other such job is newer; if it describes none, the caller has none.
  pub active_lem :
      (owner : String) (s : DrainJobs B.Sender)
      → Inv B s
      → ((active B owner s ≡ none)
          × ((k : ℕ) (d : Entry B.Sender)
              → find k s.entries ≡ some d
              → d.owner ≡ owner
              → d.done ≡ true))
        ⊎ ((id : ℕ) × (e : Entry B.Sender) × (active B owner s
              ≡ some (describe B s.executor (id, e)))
            × (find id s.entries ≡ some e)
            × (e.owner ≡ owner)
            × (e.done ≡ false)
            × ((k : ℕ) (d : Entry B.Sender)
                → find k s.entries ≡ some d
                → d.owner ≡ owner
                → d.done ≡ false
                → k ≤ id))
  unfolding active
  active_lem owner s v =
      let test = is_active_of B owner in
      elim (Option-cases (max_by_key (λ p. p.0) (filter test s.entries))) [
        | inl nothing ↦ inl (
          ground (arith, nothing),
          λ k d found own.
              let no = best-none (λ p. p.0) test k d s.entries nothing found in
              ground (arith, no, ==_iff d.owner owner, own),
        )
        | inr ((id, e), best) ↦
            let (found, mine) = best-found (λ p. p.0) test id e s.entries v.distinct best in
            inr (
              id,
              e,
              ground (arith, best),
              found,
              ground (arith, mine, ==_iff e.owner owner),
              ground (arith, mine),
              λ k d at own running.
                  best-le (λ p. p.0) test k d s.entries (id, e) best at
                    (ground (arith, own, running, ==_iff d.owner owner)),
            )
      ]

  -- Only the owner of a registered job gets a subscription.
  pub subscribe_inv :
      (owner : String) (id : ℕ) (s : DrainJobs B.Sender) (replay : List DrainEvent)
      (rx : B.Receiver) (done : Bool)
      → subscribe B owner id s ≡ some (replay, rx, done)
      → (e : Entry B.Sender) × (find id s.entries ≡ some e)
        × (e.owner ≡ owner)
        × (e.events ≡ replay)
        × (B.subscribe e.tx ≡ rx)
        × (e.done ≡ done)
  unfolding subscribe
  subscribe_inv owner id s replay rx done h = elim (Option-cases (find id s.entries)) [
    | inl gone ↦ absurd (ground (arith, gone))
    | inr (e, found) ↦ elim (Bool-cases (e.owner == owner)) [
      | inl own ↦ (
        e,
        found,
        (==_iff e.owner owner).0 own,
        ground (arith, found, own),
        ground (arith, found, own),
        ground (arith, found, own),
      )
      | inr other ↦ absurd (ground (arith, found, other))
    ]
  ]
