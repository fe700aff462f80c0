-- ===== src/Server/DrainJobs/Cancellation.antt =====
-- The race between a cancellation and the end of the drain.
use mathlib.Core.Bool.{false≢true}
use roder.Prelude.{
  ℕ, ◌≢◌, ◌<◌, String, ◌≡◌, refl, sym, ap, subst, ◌∙◌, true, false, arith, nat_eq, inl, inr,
}
use roder.Prelude.Maps.{
  find-update_inv, Everywhere, Everywhere-insert, Everywhere-update, Everywhere-remove,
}
use roder.Core.Drain.{DrainEvent}
use roder.Server.Broadcast.{Broadcast}
use roder.Server.DrainJobs.{DrainJobs, cancel, accepted, begin_non_cancellable}
use roder.Server.DrainJobs.Steps.{Reach, here, next}
use roder.Server.DrainJobs.Changes.{
  Change, Step-Change, begin-cases, cancel-cases, close_entry, same, registered, flagged, lost,
  closed, emitted, ended, removed,
}
use roder.Server.DrainJobs.Invariant.{Inv}

module _ (B : Broadcast DrainEvent) where
  -- Job `id` cannot be cancelled, if it is still registered.
  record IsClosed (id : ℕ) (s : DrainJobs B.Sender) : Type 0 where
    old : id < s.next_id
    barred : Everywhere (λ j e. id ≡ j → e.cancellable ≡ false) s.entries

  Change-IsClosed :
      (id : ℕ) (s t : DrainJobs B.Sender) → Change B s t → IsClosed id s → IsClosed id t
  Change-IsClosed i s t (same e) h = subst (IsClosed i) (sym e) h
  Change-IsClosed i s t (registered owner key target power now free small e) h =
      subst (IsClosed i) (sym e) (record {
        old = omega (arith, h.old);
        barred =
            Everywhere-insert _ s.next_id _ s.entries (λ q. absurd (omega (arith, h.old))) h.barred;
      })
  Change-IsClosed i s t (flagged id x found c e) h =
      subst (IsClosed i) (sym e) (record { old = h.old; barred = h.barred })
  Change-IsClosed i s t (lost flag small e) h =
      subst (IsClosed i) (sym e) (record { old = h.old; barred = h.barred })
  Change-IsClosed i s t (closed id x found d c f e) h = subst (IsClosed i) (sym e) (record {
    old = h.old;
    barred = Everywhere-update _ id _ s.entries (λ y _ _ _. refl) h.barred;
  })
  Change-IsClosed i s t (emitted id kind k e) h = subst (IsClosed i) (sym e) (record {
    old = h.old;
    barred = Everywhere-update _ id _ s.entries (λ y _ b q. ground (arith, b)) h.barred;
  })
  Change-IsClosed i s t (ended id kind now x found d k e) h = subst (IsClosed i) (sym e) (record {
    old = h.old;
    barred = Everywhere-update _ id _ s.entries (λ y _ _ _. refl) h.barred;
  })
  Change-IsClosed i s t (removed id now due e) h =
      subst (IsClosed i) (sym e)
        (record { old = h.old; barred = Everywhere-remove _ id s.entries h.barred })

  Reach-IsClosed : (id : ℕ) (s t : DrainJobs B.Sender) → Reach B s t → IsClosed id s → IsClosed id t
  Reach-IsClosed id s t here h = h
  Reach-IsClosed id s t (next {t = m} r st) h =
      Change-IsClosed id m t (Step-Change B st) (Reach-IsClosed id s m r h)

  begin-IsClosed :
      (id : ℕ) (s t : DrainJobs B.Sender)
      → Inv B s
      → begin_non_cancellable B id s ≡ (true, t)
      → IsClosed id t
  begin-IsClosed id s t v h = elim (begin-cases B id s) [
    | inl refused ↦ absurd (false≢true (ap (λ r. r.0) (sym refused ∙ h)))
    | inr (x, at, d, c, f, result) ↦ subst (IsClosed id) (ap (λ r. r.1) (sym result ∙ h)) (record {
      old = (v.sound id x at).fresh;
      barred = λ j y yj q.
          let (w, wj, y-w) = find-update_inv id j (close_entry B) s.entries y yj in
          ground (arith, q, y-w);
    })
  ]

  -- Once `begin_non_cancellable` has succeeded on a job, from a state in which `Inv` holds, `cancel` on that
  -- job, by any caller, is not accepted and changes nothing, in every later state.
  pub cancel-begin :
      (owner : String) (id : ℕ) (s t u : DrainJobs B.Sender)
      → Inv B s
      → begin_non_cancellable B id s ≡ (true, t)
      → Reach B t u
      → ((cancel B owner id u).1 ≡ u) × ((cancel B owner id u).0 ≢ accepted)
  cancel-begin owner id s t u v h r = elim (cancel-cases B owner id u) [
    | inl refused ↦ refused
    | inr (e, found, own, c, result) ↦
        let last = Reach-IsClosed id t u r (begin-IsClosed id s t v h) in
        absurd (false≢true (sym (last.barred id e found refl) ∙ c))
  ]

  -- The flag at `a` is set, and it is the flag of job `id` while that job is registered.
  record IsCancelled (id a : ℕ) (s : DrainJobs B.Sender) : Type 0 where
    old : id < s.next_id
    allocated : a < s.next_flag
    is_set : s.flags a ≡ true
    holder : Everywhere (λ j e. id ≡ j → e.cancel ≡ a) s.entries

  Change-IsCancelled :
      (id a : ℕ) (s t : DrainJobs B.Sender) → Change B s t → IsCancelled id a s → IsCancelled id a t
  Change-IsCancelled i a s t (same e) h = subst (IsCancelled i a) (sym e) h
  Change-IsCancelled i a s t (registered owner key target power now free small e) h =
      subst (IsCancelled i a) (sym e) (record {
        old = omega (arith, h.old);
        allocated = omega (arith, h.allocated);
        is_set = ground (arith, h.is_set, h.allocated);
        holder =
            Everywhere-insert _ s.next_id _ s.entries (λ q. absurd (omega (arith, h.old))) h.holder;
      })
  Change-IsCancelled i a s t (flagged id x found c e) h = subst (IsCancelled i a) (sym e) (record {
    old = h.old;
    allocated = h.allocated;
    is_set = ground (arith, h.is_set);
    holder = h.holder;
  })
  Change-IsCancelled i a s t (lost flag small e) h = subst (IsCancelled i a) (sym e) (record {
    old = h.old;
    allocated = h.allocated;
    is_set = ground (arith, h.is_set);
    holder = h.holder;
  })
  Change-IsCancelled i a s t (closed id x found d c f e) h =
      subst (IsCancelled i a) (sym e) (record {
        old = h.old;
        allocated = h.allocated;
        is_set = h.is_set;
        holder = Everywhere-update _ id _ s.entries (λ y _ b. b) h.holder;
      })
  Change-IsCancelled i a s t (emitted id kind k e) h = subst (IsCancelled i a) (sym e) (record {
    old = h.old;
    allocated = h.allocated;
    is_set = h.is_set;
    holder = Everywhere-update _ id _ s.entries (λ y _ b q. ground (arith, b)) h.holder;
  })
  Change-IsCancelled i a s t (ended id kind now x found d k e) h =
      subst (IsCancelled i a) (sym e) (record {
        old = h.old;
        allocated = h.allocated;
        is_set = h.is_set;
        holder = Everywhere-update _ id _ s.entries (λ y _ b. b) h.holder;
      })
  Change-IsCancelled i a s t (removed id now due e) h = subst (IsCancelled i a) (sym e) (record {
    old = h.old;
    allocated = h.allocated;
    is_set = h.is_set;
    holder = Everywhere-remove _ id s.entries h.holder;
  })

  Reach-IsCancelled :
      (id a : ℕ) (s t : DrainJobs B.Sender) → Reach B s t → IsCancelled id a s → IsCancelled id a t
  Reach-IsCancelled id a s t here h = h
  Reach-IsCancelled id a s t (next {t = m} r st) h =
      Change-IsCancelled id a m t (Step-Change B st) (Reach-IsCancelled id a s m r h)

  cancel-IsCancelled :
      (owner : String) (id : ℕ) (s t : DrainJobs B.Sender)
      → Inv B s
      → cancel B owner id s ≡ (accepted, t)
      → (a : ℕ) × IsCancelled id a t
  cancel-IsCancelled owner id s t v h = elim (cancel-cases B owner id s) [
    | inl (_, refused) ↦ absurd (refused (ap (λ r. r.0) h))
    | inr (e, found, own, c, result) ↦ (
      e.cancel,
      subst (IsCancelled id e.cancel) (ap (λ r. r.1) (sym result ∙ h)) (record {
        old = (v.sound id e found).fresh;
        allocated = (v.sound id e found).flag;
        is_set = ground arith;
        holder = λ j x xj id-j. ground (arith, found, xj, id-j);
      }),
    )
  ]

  -- Once a cancellation of a job has been accepted, from a state in which `Inv` holds,
  -- `begin_non_cancellable` on that job refuses, and changes nothing, in every later state.
  pub begin-cancel :
      (owner : String) (id : ℕ) (s t u : DrainJobs B.Sender)
      → Inv B s
      → cancel B owner id s ≡ (accepted, t)
      → Reach B t u
      → begin_non_cancellable B id u ≡ (false, u)
  begin-cancel owner id s t u v h r =
      let (a, first) = cancel-IsCancelled owner id s t v h in
      let last = Reach-IsCancelled id a t u r first in
      elim (begin-cases B id u) [
        | inl refused ↦ refused
        | inr (e, found, d, c, f, result) ↦
            absurd (false≢true (sym f ∙ ap u.flags (last.holder id e found refl) ∙ last.is_set))
      ]
