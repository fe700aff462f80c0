-- ===== src/Server/DrainJobs/Changes.antt =====
-- What a step of the registry can do to its state, with the guards that let it.
use roder.Prelude.{
  ℕ, ◌+◌, ◌^◌, ◌<◌, String, ◌≡◌, refl, sym, ap, subst, ◌∙◌, ◌||◌, true, false, not, Option, some,
  ◌∷◌, any, arith, ok, nat_eq, string_eq, ◌==◌, ==_iff, ◌≢◌, ◌⊎◌, Bool-cases, Option-cases, inl,
  inr,
}
use roder.Prelude.Maps.{find, update, remove}
use roder.Core.Drain.{DrainEvent, DrainEventKind}
use roder.Server.Broadcast.{Broadcast}
use roder.Server.Terminal.{is_terminal}
use roder.Server.DrainJobs.{
  Entry, DrainJobs, expiry, lose_lease, create_for, cancel, begin_non_cancellable, emit, finish,
  expire, holds_target, new_entry, register, store_flag, emit_entry, finish_entry, accepted,
}
use roder.Server.DrainJobs.Steps.{
  Due, Step, creates, cancels, loses, closes, emits, finishes, expires,
}

module _ (B : Broadcast DrainEvent) where
  abbrev pub close_entry : Entry B.Sender → Entry B.Sender
  close_entry e = record e { cancellable = false }

  pub data Change (s : DrainJobs B.Sender) (t : DrainJobs B.Sender) : Type 0 where
    same : t ≡ s → Change s t
    registered :
        (owner key target : String) (power : Option String) (now : ℕ)
        → any (holds_target B target) s.entries ≡ false
        → s.next_id + 1 < 2 ^ 64
        → t ≡ register B (new_entry B owner key target power now s.next_flag) s
        → Change s t
    flagged :
        (id : ℕ) (e : Entry B.Sender)
        → find id s.entries ≡ some e
        → e.cancellable ≡ true
        → t ≡ record s { flags = store_flag e.cancel true s.flags }
        → Change s t
    lost :
        (flag : ℕ)
        → flag < s.next_flag
        → t ≡ record s { flags = store_flag flag true s.flags }
        → Change s t
    closed :
        (id : ℕ) (e : Entry B.Sender)
        → find id s.entries ≡ some e
        → e.done ≡ false
        → e.cancellable ≡ true
        → s.flags e.cancel ≡ false
        → t ≡ record s { entries = update id close_entry s.entries }
        → Change s t
    emitted :
        (id : ℕ) (kind : DrainEventKind)
        → is_terminal kind ≡ false
        → t ≡ record s { entries = update id (emit_entry B kind) s.entries }
        → Change s t
    ended :
        (id : ℕ) (kind : DrainEventKind) (now : ℕ) (e : Entry B.Sender)
        → find id s.entries ≡ some e
        → e.done ≡ false
        → is_terminal kind ≡ true
        → t ≡ record s {
          entries = update id (finish_entry B kind) s.entries;
          expiries = (record { job = id; due = now + expiry }) ∷ s.expiries;
        }
        → Change s t
    removed :
        (id now : ℕ)
        → Due id now s.expiries
        → t ≡ record s { entries = remove id s.entries }
        → Change s t

  -- A new job found no unfinished job of its target.
  pub create_for_inv :
      (s t : DrainJobs B.Sender) (owner key target : String) (power : Option String) (now id : ℕ)
      → create_for B owner key target power now s ≡ ok (id, t)
      → (any (holds_target B target) s.entries ≡ false)
        × (id ≡ s.next_id)
        × (t ≡ register B (new_entry B owner key target power now s.next_flag) s)
  unfolding create_for
  create_for_inv s t owner key target power now id h =
      elim (Bool-cases (any (holds_target B target) s.entries)) [
        | inl e ↦ absurd (ground arith)
        | inr e ↦ (e, ground arith, ground arith)
      ]

  -- A cancellation is accepted from the owner of a job that can be cancelled, and sets its flag.
  pub cancel-cases :
      (owner : String) (id : ℕ) (s : DrainJobs B.Sender)
      → ((cancel B owner id s).1 ≡ s) × ((cancel B owner id s).0 ≢ accepted)
        ⊎ ((e : Entry B.Sender) × (find id s.entries ≡ some e)
            × (e.owner ≡ owner)
            × (e.cancellable ≡ true)
            × (cancel B owner id s
                ≡ (accepted, record s { flags = store_flag e.cancel true s.flags })))
  unfolding cancel
  cancel-cases owner id s = elim (Option-cases (find id s.entries)) [
    | inl missing ↦ rw (missing, cancel) (inl (refl, ground arith))
    | inr (e, found) ↦ elim (Bool-cases (e.owner == owner)) [
      | inr other ↦ rw (found, cancel) (rw other (inl (refl, ground arith)))
      | inl own ↦ elim (Bool-cases e.cancellable) [
        | inl c ↦ inr (e, found, (==_iff e.owner owner).0 own, c, ground (arith, found, own, c))
        | inr c ↦ inl (ground (arith, found, own, c), ground (arith, found, own, c))
      ]
    ]
  ]

  -- Cancellation is closed for a running job that was not cancelled, and for no other.
  pub begin-cases :
      (id : ℕ) (s : DrainJobs B.Sender)
      → (begin_non_cancellable B id s ≡ (false, s))
        ⊎ ((e : Entry B.Sender) × (find id s.entries ≡ some e)
            × (e.done ≡ false)
            × (e.cancellable ≡ true)
            × (s.flags e.cancel ≡ false)
            × (begin_non_cancellable B id s
                ≡ (true, record s { entries = update id close_entry s.entries })))
  unfolding begin_non_cancellable
  begin-cases id s = elim (Option-cases (find id s.entries)) [
    | inl missing ↦ inl (ground (arith, missing))
    | inr (e, found) ↦ elim (Bool-cases (e.done || (not e.cancellable || s.flags e.cancel))) [
      | inl refused ↦ inl (ground (arith, found, refused))
      | inr free ↦
          inr (e, found, ground arith, ground arith, ground arith, ground (arith, found, free))
    ]
  ]

  finish-Change :
      (s : DrainJobs B.Sender) (id : ℕ) (kind : DrainEventKind) (now : ℕ)
      → is_terminal kind ≡ true
      → Change s (finish B id kind now s)
  unfolding finish
  finish-Change s id kind now k = elim (Option-cases (find id s.entries)) [
    | inl missing ↦ same (ground (arith, missing))
    | inr (e, found) ↦ elim (Bool-cases e.done) [
      | inl d ↦ same (ground (arith, found, d))
      | inr d ↦ ended id kind now e found d k (ground (arith, found, d))
    ]
  ]

  -- Every step is one of these changes.
  pub Step-Change : {s t : DrainJobs B.Sender} → Step B s t → Change s t
  unfolding emit expire lose_lease
  Step-Change {s} {t} (creates owner key target power now id made small) =
      let (free, _, e) = create_for_inv s t owner key target power now id made in
      registered owner key target power now free small e
  Step-Change {s} {t} (cancels owner id e) = elim (cancel-cases owner id s) [
    | inl (unchanged, _) ↦ same (e ∙ unchanged)
    | inr (x, found, own, c, result) ↦ flagged id x found c (e ∙ ap (λ r. r.1) result)
  ]
  Step-Change (loses flag small e) = lost flag small e
  Step-Change {s} {t} (closes id e) = elim (begin-cases id s) [
    | inl refused ↦ same (e ∙ ap (λ r. r.1) refused)
    | inr (x, found, d, c, f, result) ↦ closed id x found d c f (e ∙ ap (λ r. r.1) result)
  ]
  Step-Change (emits id kind k e) = emitted id kind k e
  Step-Change {s} {t} (finishes id kind now k e) =
      subst (Change s) (sym e) (finish-Change s id kind now k)
  Step-Change (expires id now due e) = removed id now due e
