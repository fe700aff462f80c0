-- ===== src/Server/DrainJobs/Uniqueness.antt =====
-- No two unfinished jobs share a target, and no two jobs share a cancel flag.
use mathlib.Core.Bool.{false≢true}
use roder.Prelude.{
  ℕ, String, ◌≡◌, refl, sym, ap, subst, ◌∙◌, false, Option, some, any, arith, ==_iff, nat_eq,
  string_eq, inl, inr,
}
use roder.Prelude.Maps.{find, update, find-update_inv, any-find, find-insert_inv, find-remove_inv}
use roder.Core.Drain.{DrainEvent, DrainEventKind}
use roder.Server.Broadcast.{Broadcast}
use roder.Server.DrainJobs.{Entry, DrainJobs, new, holds_target, register, emit_entry}
use roder.Server.DrainJobs.Steps.{Reach, here, next}
use roder.Server.DrainJobs.Changes.{
  Change, Step-Change, same, registered, flagged, lost, closed, emitted, ended, removed,
}
use roder.Server.DrainJobs.Invariant.{Inv, Reach-Inv}

module _ (B : Broadcast DrainEvent) where
  -- Two entries that agree on the flag, or on the target while both are unfinished, are one.
  pub record IsUnique (s : DrainJobs B.Sender) : Type 0 where
    pub target :
        (i j : ℕ) (d e : Entry B.Sender)
        → find i s.entries ≡ some d
        → find j s.entries ≡ some e
        → d.done ≡ false
        → e.done ≡ false
        → d.target ≡ e.target
        → i ≡ j
    pub flag :
        (i j : ℕ) (d e : Entry B.Sender)
        → find i s.entries ≡ some d
        → find j s.entries ≡ some e
        → d.cancel ≡ e.cancel
        → i ≡ j

  -- An update that keeps target and flag, and makes no finished job unfinished.
  record Keeps (f : Entry B.Sender → Entry B.Sender) : Type 0 where
    target : (e : Entry B.Sender) → (f e).target ≡ e.target
    cancel : (e : Entry B.Sender) → (f e).cancel ≡ e.cancel
    done : (e : Entry B.Sender) → (f e).done ≡ false → e.done ≡ false

  update-IsUnique :
      (s t : DrainJobs B.Sender) (id : ℕ) (f : Entry B.Sender → Entry B.Sender)
      → Keeps f
      → t.entries ≡ update id f s.entries
      → IsUnique s
      → IsUnique t
  update-IsUnique s t id f k q u = record {
    target = λ i j d e di ej dd de same_target.
        let (d', d'i, d'-d) = find-update_inv id i f s.entries d (rw (← q) di) in
        let (e', e'j, e'-e) = find-update_inv id j f s.entries e (rw (← q) ej) in
        u.target i j d' e' d'i e'j (ground (arith, k.done d')) (ground (arith, k.done e'))
          (ground (arith, k.target d', k.target e'));
    flag = λ i j d e di ej same_flag.
        let (d', d'i, d'-d) = find-update_inv id i f s.entries d (rw (← q) di) in
        let (e', e'j, e'-e) = find-update_inv id j f s.entries e (rw (← q) ej) in
        u.flag i j d' e' d'i e'j (ground (arith, k.cancel d', k.cancel e'));
  }

  -- The new entry differs from every old one.
  other_target :
      (s : DrainJobs B.Sender) (target : String) (j : ℕ) (e : Entry B.Sender)
      → any (holds_target B target) s.entries ≡ false
      → find j s.entries ≡ some e
      → e.done ≡ false
      → e.target ≡ target
      → ⊥
  other_target s target j e free found d t =
      ground (arith, any-find (holds_target B target) j e s.entries, ==_iff e.target target)

  other_flag :
      (s : DrainJobs B.Sender) (j : ℕ) (e : Entry B.Sender)
      → Inv B s
      → find j s.entries ≡ some e
      → e.cancel ≡ s.next_flag
      → ⊥
  other_flag s j e v found f = absurd (omega (arith, (v.sound j e found).flag))

  register-IsUnique :
      (s : DrainJobs B.Sender) (x : Entry B.Sender)
      → any (holds_target B x.target) s.entries ≡ false
      → x.cancel ≡ s.next_flag
      → Inv B s
      → IsUnique s
      → IsUnique (register B x s)
  register-IsUnique s x free fresh v u = record {
    target = λ i j d e di ej dd de same_target.
        elim (find-insert_inv s.next_id i x s.entries d di) [
          | inl (k-i, x-d) ↦ elim (find-insert_inv s.next_id j x s.entries e ej) [
            | inl (k-j, x-e) ↦ sym k-i ∙ k-j
            | inr ej' ↦ absurd (other_target s x.target j e free ej' de (ground arith))
          ]
          | inr di' ↦ elim (find-insert_inv s.next_id j x s.entries e ej) [
            | inl (k-j, x-e) ↦ absurd (other_target s x.target i d free di' dd (ground arith))
            | inr ej' ↦ u.target i j d e di' ej' dd de same_target
          ]
        ];
    flag = λ i j d e di ej same_flag. elim (find-insert_inv s.next_id i x s.entries d di) [
      | inl (k-i, x-d) ↦ elim (find-insert_inv s.next_id j x s.entries e ej) [
        | inl (k-j, x-e) ↦ sym k-i ∙ k-j
        | inr ej' ↦ absurd (other_flag s j e v ej' (ground arith))
      ]
      | inr di' ↦ elim (find-insert_inv s.next_id j x s.entries e ej) [
        | inl (k-j, x-e) ↦ absurd (other_flag s i d v di' (ground arith))
        | inr ej' ↦ u.flag i j d e di' ej' same_flag
      ]
    ];
  }

  emit_entry-Keeps : (kind : DrainEventKind) → Keeps (emit_entry B kind)
  emit_entry-Keeps kind = record {
    target = λ e. ground arith;
    cancel = λ e. ground arith;
    done = λ e h. ground arith;
  }

  Change-IsUnique : (s t : DrainJobs B.Sender) → Change B s t → Inv B s → IsUnique s → IsUnique t
  Change-IsUnique s t (same e) v u = subst IsUnique (sym e) u
  Change-IsUnique s t (registered owner key target power now free small e) v u =
      subst IsUnique (sym e) (register-IsUnique s _ free refl v u)
  Change-IsUnique s t (flagged id x found c e) v u =
      subst IsUnique (sym e) (record { target = u.target; flag = u.flag })
  Change-IsUnique s t (lost flag small e) v u =
      subst IsUnique (sym e) (record { target = u.target; flag = u.flag })
  Change-IsUnique s t (closed id x found d c f e) v u =
      update-IsUnique s t id _ (record { target = λ y. refl; cancel = λ y. refl; done = λ y h. h })
        (ap (λ r. r.entries) e) u
  Change-IsUnique s t (emitted id kind k e) v u =
      update-IsUnique s t id _ (emit_entry-Keeps kind) (ap (λ r. r.entries) e) u
  Change-IsUnique s t (ended id kind now x found d k e) v u =
      update-IsUnique s t id _
        (record {
          target = λ y. refl;
          cancel = λ y. refl;
          done = λ y h. absurd (false≢true (sym h));
        })
        (ap (λ r. r.entries) e) u
  Change-IsUnique s t (removed id now due e) v u = subst IsUnique (sym e) (record {
    target = λ i j d x di xj.
        u.target i j d x (find-remove_inv id i s.entries d di)
          (find-remove_inv id j s.entries x xj);
    flag = λ i j d x di xj.
        u.flag i j d x (find-remove_inv id i s.entries d di) (find-remove_inv id j s.entries x xj);
  })

  new-IsUnique : (executor : Option String) → IsUnique (new B executor)
  unfolding new find
  new-IsUnique executor = record {
    target = λ i j d e h. absurd (cc h);
    flag = λ i j d e h. absurd (cc h);
  }

  -- In every reachable registry two unfinished jobs with one target are the same job, and so are two
  -- jobs that share a cancel flag.
  pub Reach-IsUnique :
      (executor : Option String) (s : DrainJobs B.Sender) → Reach B (new B executor) s → IsUnique s
  Reach-IsUnique executor s here = new-IsUnique executor
  Reach-IsUnique executor s (next {t = t} r st) =
      Change-IsUnique t s (Step-Change B st) (Reach-Inv B executor t r)
        (Reach-IsUnique executor t r)
