-- ===== src/Server/DrainJobs/History.antt =====
-- Buffers only grow, a finished one no more, and a job is dropped only after it has finished.
use mathlib.Core.Bool.{false≢true}
use mathlib.Core.List.{append-nil, append_assoc}
use roder.Prelude.{
  ℕ, ◌<◌, String, ◌≡◌, refl, sym, ap, subst, ◌∙◌, true, false, Option, none, some, List, [], ◌∷◌,
  ◌++◌, All, All-map, arith, nat_eq, ◌==◌, ==_iff, Bool-cases, inl, inr, ◌⊎◌,
}
use roder.Prelude.Maps.{
  find, update, find-update, find-insert, find-update_inv, find-insert_inv, find-remove,
  find-remove_inv,
}
use roder.Core.Drain.{DrainEvent, DrainEventKind}
use roder.Server.Broadcast.{Broadcast}
use roder.Server.DrainJobs.{Entry, Expiry, DrainJobs, new, new_entry, emit_entry, finish_entry}
use roder.Server.DrainJobs.Steps.{Due, Step, Reach, here, next}
use roder.Server.DrainJobs.Changes.{
  Change, Step-Change, same, registered, flagged, lost, closed, emitted, ended, removed,
}
use roder.Server.DrainJobs.Invariant.{Inv, Reach-Inv}

module _ (B : Broadcast DrainEvent) where
  -- `y` continues `x`: the same job, whose buffer has grown, or is unchanged once the job was done.
  pub record Continues (x y : Entry B.Sender) : Type 0 where
    pub owner : y.owner ≡ x.owner
    pub target : y.target ≡ x.target
    pub cancel : y.cancel ≡ x.cancel
    pub added : List DrainEvent
    pub events : y.events ≡ x.events ++ added
    pub stays_done : x.done ≡ true → y.done ≡ true
    pub frozen : x.done ≡ true → y.events ≡ x.events

  Continues-refl : (x : Entry B.Sender) → Continues x x
  Continues-refl x = record {
    owner = refl;
    target = refl;
    cancel = refl;
    added = [];
    events = sym (append-nil x.events);
    stays_done = λ h. h;
    frozen = λ h. refl;
  }

  Continues-trans : (x y z : Entry B.Sender) → Continues x y → Continues y z → Continues x z
  Continues-trans x y z p q = record {
    owner = q.owner ∙ p.owner;
    target = q.target ∙ p.target;
    cancel = q.cancel ∙ p.cancel;
    added = p.added ++ q.added;
    events = q.events ∙ ap (λ es. es ++ q.added) p.events ∙ append_assoc x.events p.added q.added;
    stays_done = λ h. q.stays_done (p.stays_done h);
    frozen = λ h. q.frozen (p.stays_done h) ∙ p.frozen h;
  }

  emit_entry-Continues :
      (kind : DrainEventKind) (x : Entry B.Sender) → Continues x (emit_entry B kind x)
  emit_entry-Continues kind x = elim (Bool-cases x.done) [
    | inl d ↦ simp d (Continues-refl x)
    | inr d ↦ simp d (record {
      owner = refl;
      target = refl;
      cancel = refl;
      added = _;
      events = refl;
      stays_done = λ h. absurd (false≢true (sym d ∙ h));
      frozen = λ h. absurd (false≢true (sym d ∙ h));
    })
  ]

  -- The jobs that an expiry task will remove are old, and done while they are registered.
  abbrev IsOver : ℕ → List (ℕ × Entry B.Sender) → Expiry → Type 0
  IsOver ids m x = (x.job < ids) × ((e : Entry B.Sender) → find x.job m ≡ some e → e.done ≡ true)

  abbrev pub Scheduled : DrainJobs B.Sender → Type 0
  Scheduled s = All (IsOver s.next_id s.entries) s.expiries

  Due-done :
      (s : DrainJobs B.Sender) (id now : ℕ) (xs : List Expiry)
      → All (IsOver s.next_id s.entries) xs
      → Due id now xs
      → (e : Entry B.Sender) → find id s.entries ≡ some e
      → e.done ≡ true
  Due-done s id now [] h d e f = absurd d
  Due-done s id now (x ∷ xs) h (inl (q, _)) e f = h.0.1 e (rw q f)
  Due-done s id now (x ∷ xs) h (inr d) e f = Due-done s id now xs h.1 d e f

  abbrev pub Persists : DrainJobs B.Sender → ℕ → Entry B.Sender → Type 0
  Persists t id x = (y : Entry B.Sender) × (find id t.entries ≡ some y) × Continues x y

  update-Persists :
      (s t : DrainJobs B.Sender) (k id : ℕ) (x : Entry B.Sender)
      (f : Entry B.Sender → Entry B.Sender)
      → t.entries ≡ update k f s.entries
      → find id s.entries ≡ some x
      → (k ≡ id → Continues x (f x))
      → Persists t id x
  update-Persists s t k id x f q found step = elim (Bool-cases (k == id)) [
    | inl hit ↦
        (f x, rw q (ground (arith, find-update k id f s.entries)), step ((==_iff k id).0 hit))
    | inr miss ↦ (x, rw q (ground (arith, find-update k id f s.entries)), Continues-refl x)
  ]

  kept :
      (s t : DrainJobs B.Sender) (id : ℕ) (x : Entry B.Sender)
      → t.entries ≡ s.entries
      → find id s.entries ≡ some x
      → Persists t id x
  kept s t id x q found = (x, rw q found, Continues-refl x)

  -- What a change does to the entry of one job.
  Change-Continues :
      (s t : DrainJobs B.Sender) (id : ℕ) (x : Entry B.Sender)
      → Change B s t
      → Inv B s
      → Scheduled s
      → find id s.entries ≡ some x
      → Persists t id x ⊎ ((find id t.entries ≡ none) × (x.done ≡ true))
  Change-Continues s t id x (same e) v h f = inl (kept s t id x (ap (λ r. r.entries) e) f)
  Change-Continues s t id x (registered owner key target power now free small e) v h f = inl (
    x,
    rw e (
        ground (
          arith,
          f,
          find-insert s.next_id id (new_entry B owner key target power now s.next_flag) s.entries,
          (v.sound id x f).fresh,
        )),
    Continues-refl x,
  )
  Change-Continues s t id x (flagged k y found c e) v h f =
      inl (kept s t id x (ap (λ r. r.entries) e) f)
  Change-Continues s t id x (lost flag small e) v h f =
      inl (kept s t id x (ap (λ r. r.entries) e) f)
  Change-Continues s t id x (closed k y found d c u e) v h f = inl (
      update-Persists s t k id x _ (ap (λ r. r.entries) e) f (λ _. record {
        owner = refl;
        target = refl;
        cancel = refl;
        added = [];
        events = sym (append-nil x.events);
        stays_done = λ q. q;
        frozen = λ q. refl;
      }))
  Change-Continues s t id x (emitted k kind n e) v h f =
      inl
        (update-Persists s t k id x _ (ap (λ r. r.entries) e) f (λ _. emit_entry-Continues kind x))
  Change-Continues s t id x (ended k kind now y found d n e) v h f = inl (
      update-Persists s t k id x _ (ap (λ r. r.entries) e) f (λ k-id.
        let running : x.done ≡ false = ground (arith, found, f, k-id, d) in
        record {
          owner = refl;
          target = refl;
          cancel = refl;
          added = _;
          events = refl;
          stays_done = λ q. refl;
          frozen = λ q. absurd (false≢true (sym running ∙ q));
        }))
  Change-Continues s t id x (removed k now due e) v h f = elim (Bool-cases (k == id)) [
    | inl hit ↦
        let k-id : k ≡ id = (==_iff k id).0 hit in
        inr (
          rw e (ground (arith, find-remove k id s.entries)),
          Due-done s k now s.expiries h due x (ground (arith, k-id, f)),
        )
    | inr miss ↦ inl (x, rw e (ground (arith, find-remove k id s.entries)), Continues-refl x)
  ]

  update-IsOver :
      (ids k : ℕ) (f : Entry B.Sender → Entry B.Sender) (m : List (ℕ × Entry B.Sender)) (x : Expiry)
      → ((e : Entry B.Sender) → e.done ≡ true → (f e).done ≡ true)
      → IsOver ids m x
      → IsOver ids (update k f m) x
  update-IsOver ids k f m x stays h = (
    h.0,
    λ e found.
        let (d, at, e-d) = find-update_inv k x.job f m e found in ground (arith, h.1 d at, stays d),
  )

  Change-Scheduled : (s t : DrainJobs B.Sender) → Change B s t → Inv B s → Scheduled s → Scheduled t
  Change-Scheduled s t (same e) v h = subst Scheduled (sym e) h
  Change-Scheduled s t (registered owner key target power now free small e) v h =
      subst Scheduled (sym e) (
        All-map _ _ s.expiries
          (λ x o. (
            omega (arith, o.0),
            λ d found. elim (find-insert_inv s.next_id x.job _ s.entries d found) [
              | inl (reused, _) ↦ absurd (omega (arith, o.0))
              | inr old ↦ o.1 d old
            ],
          ))
          h)
  Change-Scheduled s t (flagged k y found c e) v h = subst Scheduled (sym e) h
  Change-Scheduled s t (lost flag small e) v h = subst Scheduled (sym e) h
  Change-Scheduled s t (closed k y found d c u e) v h =
      subst Scheduled (sym e)
        (All-map _ _ s.expiries (λ x. update-IsOver s.next_id k _ s.entries x (λ z q. q)) h)
  Change-Scheduled s t (emitted k kind n e) v h = subst Scheduled (sym e) (
      All-map _ _ s.expiries
        (λ x. update-IsOver s.next_id k _ s.entries x (λ z q. ground (arith, q))) h)
  Change-Scheduled s t (ended k kind now y found d n e) v h = subst Scheduled (sym e) (
    (
      (v.sound k y found).fresh,
      λ z at.
          let (w, w-at, z-w) = find-update_inv k k (finish_entry B kind) s.entries z at in
          ground (arith, ==_iff k k),
    ),
    All-map _ _ s.expiries (λ x. update-IsOver s.next_id k _ s.entries x (λ z q. refl)) h,
  )
  Change-Scheduled s t (removed k now due e) v h = subst Scheduled (sym e) (
      All-map _ _ s.expiries
        (λ x o. (o.0, λ d found. o.1 d (find-remove_inv k x.job s.entries d found))) h)

  Reach-Scheduled :
      (executor : Option String) (s : DrainJobs B.Sender) → Reach B (new B executor) s → Scheduled s
  unfolding new
  Reach-Scheduled executor s here = tt
  Reach-Scheduled executor s (next {t = m} r st) =
      Change-Scheduled m s (Step-Change B st) (Reach-Inv B executor m r)
        (Reach-Scheduled executor m r)

  -- In a reachable registry a step leaves a registered job registered, with its owner, its target,
  -- its flag and its buffer, to which it may add events at the end unless the job was done; or it
  -- drops the job, and then the job was done.
  pub Step-Continues :
      (executor : Option String) (s t : DrainJobs B.Sender) (id : ℕ) (x : Entry B.Sender)
      → Reach B (new B executor) s
      → Step B s t
      → find id s.entries ≡ some x
      → Persists t id x ⊎ ((find id t.entries ≡ none) × (x.done ≡ true))
  Step-Continues executor s t id x r st found =
      Change-Continues s t id x (Step-Change B st) (Reach-Inv B executor s r)
        (Reach-Scheduled executor s r) found
