-- ===== src/Server/DrainJobs/Invariant.antt =====
-- What holds of the registry at all times.
use mathlib.Core.Bool.{false≢true}
use roder.Prelude.{
  ℕ, suc, ◌+◌, ◌^◌, ◌≤◌, ◌<◌, String, ◌≡◌, refl, sym, subst, ◌∙◌, Bool, true, false, Option, List,
  [], ◌∷◌, ◌++◌, length, All, All-append, arith, nat_eq, Bool-cases, inl, inr,
}
use roder.Prelude.Maps.{
  find, Distinct, Distinct-insert, Distinct-remove, Distinct-update, Everywhere, Everywhere-insert,
  Everywhere-remove, Everywhere-update,
}
use roder.Core.Drain.{DrainEvent, DrainEventKind}
use roder.Server.Broadcast.{Broadcast}
use roder.Server.Terminal.{is_terminal}
use roder.Server.DrainJobs.{
  Entry, DrainJobs, new, new_entry, register, push_event, emit_entry, finish_entry,
}
use roder.Server.DrainJobs.Steps.{Step, Reach, here, next}
use roder.Server.DrainJobs.Changes.{
  Change, Step-Change, close_entry, same, registered, flagged, lost, closed, emitted, ended,
  removed,
}

-- The sequence numbers count up from `n`.
abbrev pub Numbered : ℕ → List DrainEvent → Type 0
Numbered n [] = Unit
Numbered n (e ∷ es) = (e.seq ≡ n) × Numbered (suc n) es

Numbered-append :
    (n : ℕ) (es : List DrainEvent) (e : DrainEvent)
    → Numbered n es
    → e.seq ≡ n + length es
    → Numbered n (es ++ e ∷ [])
Numbered-append n [] e h q = (omega arith, tt)
Numbered-append n (x ∷ es) e h q = (h.0, Numbered-append (suc n) es e h.1 (omega arith))

abbrev pub Ongoing : List DrainEvent → Type 0
Ongoing = All (λ e. is_terminal e.kind ≡ false)

-- An unfinished job has no terminal event; a finished one has exactly one, the last.
pub data IsSealed (done : Bool) (events : List DrainEvent) : Type 0 where
  unfinished : done ≡ false → Ongoing events → IsSealed done events
  complete :
      (init : List DrainEvent) (last : DrainEvent)
      → done ≡ true
      → Ongoing init
      → is_terminal last.kind ≡ true
      → events ≡ init ++ last ∷ []
      → IsSealed done events

module _ (B : Broadcast DrainEvent) where
  pub record IsSound (ids flags id : ℕ) (e : Entry B.Sender) : Type 0 where
    pub fresh : id < ids
    pub flag : e.cancel < flags
    pub numbered : Numbered 0 e.events
    pub broadcast : B.sent e.tx ≡ e.events
    pub is_closed : e.done ≡ true → e.cancellable ≡ false
    pub is_sealed : IsSealed e.done e.events

  pub record Inv (s : DrainJobs B.Sender) : Type 0 where
    pub distinct : Distinct s.entries
    pub sound : Everywhere (IsSound s.next_id s.next_flag) s.entries

  new-Inv : (executor : Option String) → Inv (new B executor)
  unfolding new find
  new-Inv executor = record { distinct = tt; sound = λ k v h. absurd (cc h) }

  IsSound-mono :
      (ids flags ids' flags' id : ℕ) (e : Entry B.Sender)
      → ids ≤ ids'
      → flags ≤ flags'
      → IsSound ids flags id e
      → IsSound ids' flags' id e
  IsSound-mono ids flags ids' flags' id e h k v = record {
    fresh = omega arith;
    flag = omega arith;
    numbered = v.numbered;
    broadcast = v.broadcast;
    is_closed = v.is_closed;
    is_sealed = v.is_sealed;
  }

  register-Inv :
      (s : DrainJobs B.Sender) (owner key target : String) (power : Option String) (now : ℕ)
      → s.next_id + 1 < 2 ^ 64
      → Inv s
      → Inv (register B (new_entry B owner key target power now s.next_flag) s)
  register-Inv s owner key target power now small v = record {
    distinct = Distinct-insert s.next_id _ s.entries v.distinct;
    sound =
        Everywhere-insert _ s.next_id _ s.entries
          (record {
            fresh = omega arith;
            flag = omega arith;
            numbered = tt;
            broadcast = B.sent-channel 256;
            is_closed = λ e. cc;
            is_sealed = unfinished refl tt;
          })
          (λ k e f.
            IsSound-mono s.next_id s.next_flag _ _ k e (omega arith) (omega arith) (v.sound k e f));
  }

  push_event_facts :
      (kind : DrainEventKind) (e : Entry B.Sender)
      → Numbered 0 e.events
      → B.sent e.tx ≡ e.events
      → Numbered 0 (push_event B kind e).events
        × (B.sent (push_event B kind e).tx ≡ (push_event B kind e).events)
  push_event_facts kind e n b = (Numbered-append 0 e.events _ n (omega arith), rw (B.sent-send, b))

  IsSealed-Ongoing :
      (done : Bool) (events : List DrainEvent)
      → done ≡ false
      → IsSealed done events
      → Ongoing events
  IsSealed-Ongoing done events d (unfinished _ o) = o
  IsSealed-Ongoing done events d (complete init last e o l q) = absurd (false≢true (sym d ∙ e))

  emit_entry-IsSound :
      (ids flags id : ℕ) (kind : DrainEventKind) (e : Entry B.Sender)
      → is_terminal kind ≡ false
      → IsSound ids flags id e
      → IsSound ids flags id (emit_entry B kind e)
  emit_entry-IsSound ids flags id kind e k v = elim (Bool-cases e.done) [
    | inl d ↦ simp d v
    | inr d ↦
        let facts = push_event_facts kind e v.numbered v.broadcast in
        simp d (record {
          fresh = v.fresh;
          flag = v.flag;
          numbered = facts.0;
          broadcast = facts.1;
          is_closed = λ q. absurd (false≢true q);
          is_sealed =
              unfinished refl
                (All-append _ e.events _ (IsSealed-Ongoing e.done e.events d v.is_sealed) (k, tt));
        })
  ]

  finish_entry-IsSound :
      (ids flags id : ℕ) (kind : DrainEventKind) (e : Entry B.Sender)
      → is_terminal kind ≡ true
      → e.done ≡ false
      → IsSound ids flags id e
      → IsSound ids flags id (finish_entry B kind e)
  finish_entry-IsSound ids flags id kind e k d v =
      let facts = push_event_facts kind e v.numbered v.broadcast in
      record {
        fresh = v.fresh;
        flag = v.flag;
        numbered = facts.0;
        broadcast = facts.1;
        is_closed = λ _. refl;
        is_sealed =
            complete e.events _ refl (IsSealed-Ongoing e.done e.events d v.is_sealed) k refl;
      }

  close_entry-IsSound :
      (ids flags id : ℕ) (e : Entry B.Sender)
      → IsSound ids flags id e
      → IsSound ids flags id (close_entry B e)
  close_entry-IsSound ids flags id e v = record {
    fresh = v.fresh;
    flag = v.flag;
    numbered = v.numbered;
    broadcast = v.broadcast;
    is_closed = λ _. refl;
    is_sealed = v.is_sealed;
  }

  Change-Inv : (s t : DrainJobs B.Sender) → Change B s t → Inv s → Inv t
  Change-Inv s t (same e) v = subst Inv (sym e) v
  Change-Inv s t (registered owner key target power now _ small e) v =
      subst Inv (sym e) (register-Inv s owner key target power now small v)
  Change-Inv s t (flagged id x found c e) v =
      subst Inv (sym e) (record { distinct = v.distinct; sound = v.sound })
  Change-Inv s t (lost flag small e) v =
      subst Inv (sym e) (record { distinct = v.distinct; sound = v.sound })
  Change-Inv s t (closed id x found d c f e) v = subst Inv (sym e) (record {
    distinct = Distinct-update id _ s.entries v.distinct;
    sound = Everywhere-update _ id _ s.entries (λ y _ h. close_entry-IsSound _ _ id y h) v.sound;
  })
  Change-Inv s t (emitted id kind k e) v = subst Inv (sym e) (record {
    distinct = Distinct-update id _ s.entries v.distinct;
    sound =
        Everywhere-update _ id _ s.entries (λ y _ h. emit_entry-IsSound _ _ id kind y k h) v.sound;
  })
  Change-Inv s t (ended id kind now x found d k e) v = subst Inv (sym e) (record {
    distinct = Distinct-update id _ s.entries v.distinct;
    sound =
        Everywhere-update _ id _ s.entries
          (λ y at h. finish_entry-IsSound _ _ id kind y k (ground (arith, found, at)) h) v.sound;
  })
  Change-Inv s t (removed id now due e) v = subst Inv (sym e) (record {
    distinct = Distinct-remove id s.entries v.distinct;
    sound = Everywhere-remove _ id s.entries v.sound;
  })

  pub Step-Inv : {s t : DrainJobs B.Sender} → Step B s t → Inv s → Inv t
  Step-Inv {s} {t} st v = Change-Inv s t (Step-Change B st) v

  -- In every registry that requests, workers and expiry tasks reach from an empty one, in any order:
  -- ids are distinct and below the next id, flags are below the next flag, every buffer is numbered
  -- from 0 without gaps and has been broadcast in full, a finished job cannot be cancelled, and a
  -- buffer holds a terminal event exactly if its job is done, as its last.
  pub Reach-Inv :
      (executor : Option String) (s : DrainJobs B.Sender) → Reach B (new B executor) s → Inv s
  Reach-Inv executor s here = new-Inv executor
  Reach-Inv executor s (next r st) = Step-Inv st (Reach-Inv executor _ r)
