-- ===== src/K8s/Coordination/Effects/Calls.antt =====
-- The calls of the tasks of crates/k8s/src/coordination.rs, and their effects.
use roder.Prelude.{
  ℕ, suc, zero, String, ◌≡◌, inl, inr, refl, sym, ap, ◌∙◌, subst, Bool, true, false, Option, none,
  some, List, Result, ok, err, arith, Bool-cases, Option-cases, string_eq, ==_iff,
}
use roder.K8s.Errors.{KubeError}
use roder.K8s.Pod.{Pod}
use roder.K8s.Coordination.{
  Lease, SpecPatch, holder_of, is_held_by, holder_pod_exists, pods, new_lease, take_over, renewal,
  give_up, Acquiring, fetching, checking, writing, after_get, after_list, after_write, Renewing,
  idle, reading, stamping, Holding, renewed, Releasing, looking, clearing,
}
use roder.K8s.Coordination.Server.{LeaseApi, IsOptimistic, Same, Wrote, Failed, merge}
use roder.K8s.Coordination.Tasks.{
  is_ok, Task, resting, acquiring, holding, dropped, releasing, settled, to_stamp, after_look,
  after_read, after_dropped_read, resume, resume_holding, resume_dropped, resume_releasing, advance,
}
use roder.K8s.Coordination.Effects.{
  owns, blank_renewing, is_blank, option_holder, Current, ToldRenewing, Told, Replaced, Effect,
  quiet, took, stamped, cleared,
}

is_held_by_lem : (o : Option String) (h : String) → is_held_by o h ≡ true → o ≡ some h
is_held_by_lem none h e = absurd (cc e)
is_held_by_lem (some k) h e = ap some ((==_iff k h).0 e)

module _ (A : LeaseApi) (M : IsOptimistic A) (target holder : String) where
  open A use {World, stored, revision}

  Same-refl : (w : World) → Same A w w
  Same-refl w = record { lease = refl; pods = refl; later = omega arith }

  Wrote-Replaced : (l : Lease) (w w' : World) → Wrote A l w w' → Replaced A (holder_of l) w w'
  unfolding holder_of
  Wrote-Replaced l w w' h =
      (record l { resource_version = revision w' }, h.lease, refl, refl, h.pods, h.later)

  -- A lease that was read to be renewed or given up is the one stored, and is the task's own.
  to_stamp-told :
      (r : Result (Option Lease) KubeError) (w : World) (l : Lease)
      → ((o : Option Lease) → r ≡ ok o → o ≡ stored w)
      → to_stamp holder r ≡ some l
      → (stored w ≡ some l) × (holder_of l ≡ some holder)
  unfolding to_stamp
  to_stamp-told (err e) w l h q = absurd (cc q)
  to_stamp-told (ok none) w l h q = absurd (cc q)
  to_stamp-told (ok (some k)) w l h q = elim (Bool-cases (is_held_by (holder_of k) holder)) [
    | inl e ↦
        let k-l : k ≡ l = ground (arith, q, e) in
        (
          sym (h (some k) refl) ∙ ap some k-l,
          ap holder_of (sym k-l) ∙ is_held_by_lem (holder_of k) holder e,
        )
    | inr e ↦ absurd (ground (arith, q, e))
  ]

  after_get-Told :
      (left : ℕ) (t : Task) (r : Result (Option Lease) KubeError) (w : World)
      → ((o : Option Lease) → r ≡ ok o → o ≡ stored w)
      → Told A holder w t (settled (after_get left r))
  unfolding after_get
  after_get-Told left t (err e) w h = tt
  after_get-Told left t (ok none) w h =
      inl (sym (h none refl), ap option_holder (sym (h none refl)))
  after_get-Told left t (ok (some l)) w h = elim (Option-cases (holder_of l)) [
    | inl e ↦ rw e (inl (sym (h (some l) refl), ap option_holder (sym (h (some l) refl)) ∙ e))
    | inr (k, e) ↦ rw e (sym (h (some l) refl), e)
  ]

  after_list-Told :
      (left : ℕ) (l : Lease) (h : String) (r : Result (List Pod) KubeError) (w : World)
      → ((ps : List Pod) → r ≡ ok ps → ps ≡ A.listed w)
      → Told A holder w (acquiring (checking left l h)) (settled (after_list left l h r))
  unfolding after_list
  after_list-Told left l h (err e) w k = tt
  after_list-Told left l h (ok ps) w k = elim (Bool-cases (holder_pod_exists h (pods ps))) [
    | inl e ↦ rw e tt
    | inr e ↦ rw e (
        inr
          (left, l, h, refl, refl, subst (λ x. holder_pod_exists h (pods x) ≡ false) (k ps refl) e))
  ]

  owns-after_get :
      (left : ℕ) (r : Result (Option Lease) KubeError) → owns (settled (after_get left r)) ≡ false
  unfolding after_get
  owns-after_get left (err e) = refl
  owns-after_get left (ok none) = refl
  owns-after_get left (ok (some l)) = elim (Option-cases (holder_of l)) [
    | inl e ↦ rw e refl
    | inr (k, e) ↦ rw e refl
  ]

  owns-after_list :
      (left : ℕ) (l : Lease) (h : String) (r : Result (List Pod) KubeError)
      → owns (settled (after_list left l h r)) ≡ false
  unfolding after_list
  owns-after_list left l h (err e) = refl
  owns-after_list left l h (ok ps) = elim (Bool-cases (holder_pod_exists h (pods ps))) [
    | inl e ↦ rw e refl
    | inr e ↦ rw e refl
  ]

  after_write-is_blank :
      (left : ℕ) (r : Result (Unit {0}) KubeError) → is_blank (settled (after_write left r)) ≡ true
  unfolding after_write
  after_write-is_blank left (ok done) = refl
  after_write-is_blank zero (err e) = ground arith
  after_write-is_blank (suc left) (err e) = ground arith

  after_write-Failed :
      (left : ℕ) (r : Result (Unit {0}) KubeError)
      → Failed r
      → owns (settled (after_write left r)) ≡ false
  unfolding after_write
  after_write-Failed left (ok done) f = absurd f
  after_write-Failed zero (err e) f = ground arith
  after_write-Failed (suc left) (err e) f = ground arith

  -- A task that has read nothing has been told nothing.
  is_blank-Told : (t t' : Task) (w : World) → is_blank t' ≡ true → Told A holder w t t'
  is_blank-Told t resting w h = tt
  is_blank-Told t (acquiring (fetching left)) w h = tt
  is_blank-Told t (acquiring (checking left l k)) w h = absurd (cc h)
  is_blank-Told t (acquiring (writing left o)) w h = absurd (cc h)
  is_blank-Told t (holding x) w h = renewing x.renewing h
    where
      renewing : (r : Renewing) → blank_renewing r ≡ true → ToldRenewing A w r
      renewing idle h = tt
      renewing reading h = tt
      renewing (stamping l) h = absurd (cc h)
  is_blank-Told t (dropped idle) w h = tt
  is_blank-Told t (dropped reading) w h = tt
  is_blank-Told t (dropped (stamping l)) w h = absurd (cc h)
  is_blank-Told t (releasing looking) w h = tt
  is_blank-Told t (releasing (clearing l)) w h = absurd (cc h)

  pub holder_of-take_over :
      (now : ℕ) (l k : Lease) → holder_of (merge (take_over now holder l) k) ≡ some holder
  unfolding holder_of merge take_over
  holder_of-take_over now l k = refl

  holder_of-renewal : (now : ℕ) (k : Lease) → holder_of (merge (renewal now) k) ≡ holder_of k
  unfolding holder_of merge renewal
  holder_of-renewal now k = elim (Option-cases k.spec) [
    | inl e ↦ rw e refl
    | inr (s, e) ↦ rw e refl
  ]

  holder_of-give_up : (k : Lease) → holder_of (merge give_up k) ≡ none
  unfolding holder_of merge
  holder_of-give_up k = refl

  -- The same lease with another holder's name for it.
  Replaced-holder :
      (a b : Option String) (w w' : World) → a ≡ b → Replaced A a w w' → Replaced A b w w'
  Replaced-holder a b w w' e h = subst (λ x. Replaced A x w w') e h

  patched :
      (p : SpecPatch) (l : Lease) (w w' : World)
      → ((k : Lease) × (stored w ≡ some k)
          × (k.resource_version ≡ l.resource_version)
          × Wrote A (merge p k) w w')
      → Current A (some l) w
        × ((k : Lease) × (stored w ≡ some k) × Replaced A (holder_of (merge p k)) w w')
  patched p l w w' (k, e, v, h) = ((k, e, v), (k, e, Wrote-Replaced (merge p k) w w' h))

  resume-Effect :
      (now : ℕ) (a : Acquiring) (w : World)
      → Effect A holder
          (acquiring a)
          (settled (resume A now target holder a w).0)
          w
          (resume A now target holder a w).1
  unfolding resume holder_of new_lease
  resume-Effect now (fetching left) w =
      let r = A.get_opt w in
      quiet (M.get_opt-Same w) (after_get-Told left _ r.0 w (M.get_opt-stored w))
        (λ q. absurd (ground (arith, q, owns-after_get left r.0)))
  resume-Effect now (checking left l h) w =
      let r = A.list_pods w in
      quiet (M.list_pods-Same w) (after_list-Told left l h r.0 w (M.list_pods-listed w))
        (λ q. absurd (ground (arith, q, owns-after_list left l h r.0)))
  resume-Effect now (writing left none) w = elim (M.create-cases (new_lease now target holder) w) [
    | inl (same, f) ↦
        let r = A.create (new_lease now target holder) w in
        quiet same
          (is_blank-Told _ (settled (after_write left r.0)) w (after_write-is_blank left r.0))
          (λ q. absurd (ground (arith, q, after_write-Failed left r.0 f)))
    | inr (e, h) ↦
        took left none refl e (Wrote-Replaced (new_lease now target holder) w _ h)
          (after_write-is_blank left (A.create (new_lease now target holder) w).0)
  ]
  resume-Effect now (writing left (some l)) w =
      let r = A.patch l.resource_version (take_over now holder l) w in
      elim (M.patch-cases l.resource_version (take_over now holder l) w) [
        | inl (same, f) ↦
            quiet same
              (is_blank-Told _ (settled (after_write left r.0)) w (after_write-is_blank left r.0))
              (λ q. absurd (ground (arith, q, after_write-Failed left r.0 f)))
        | inr h ↦
            let (c, (k, e, p)) = patched (take_over now holder l) l w r.1 h in
            took left (some l) refl c (Replaced-holder _ _ w r.1 (holder_of-take_over now l k) p)
              (after_write-is_blank left r.0)
      ]

  after_read-Told :
      (t : Task) (h : Holding) (r : Result (Option Lease) KubeError) (w : World)
      → ((o : Option Lease) → r ≡ ok o → o ≡ stored w)
      → Told A holder w t (after_read (to_stamp holder r) h)
  after_read-Told t h r w k = elim (Option-cases (to_stamp holder r)) [
    | inl e ↦ rw e (is_blank-Told t (holding (renewed false h)) w (unfold renewed in refl))
    | inr (l, e) ↦ rw e (to_stamp-told r w l k e).0
  ]

  owns-after_read : (o : Option Lease) (h : Holding) → owns (after_read o h) ≡ true
  owns-after_read none h = refl
  owns-after_read (some l) h = refl

  after_dropped_read-Told :
      (t : Task) (r : Result (Option Lease) KubeError) (w : World)
      → ((o : Option Lease) → r ≡ ok o → o ≡ stored w)
      → Told A holder w t (after_dropped_read (to_stamp holder r))
  after_dropped_read-Told t r w k = elim (Option-cases (to_stamp holder r)) [
    | inl e ↦ rw e tt
    | inr (l, e) ↦ rw e (to_stamp-told r w l k e).0
  ]

  owns-after_dropped_read : (o : Option Lease) → owns (after_dropped_read o) ≡ false
  owns-after_dropped_read none = refl
  owns-after_dropped_read (some l) = refl

  after_look-Told :
      (t : Task) (r : Result (Option Lease) KubeError) (w : World)
      → ((o : Option Lease) → r ≡ ok o → o ≡ stored w)
      → Told A holder w t (after_look (to_stamp holder r))
  after_look-Told t r w k = elim (Option-cases (to_stamp holder r)) [
    | inl e ↦ rw e tt
    | inr (l, e) ↦ rw e (to_stamp-told r w l k e)
  ]

  renewed-is_blank : (b : Bool) (h : Holding) → is_blank (holding (renewed b h)) ≡ true
  unfolding renewed
  renewed-is_blank true h = refl
  renewed-is_blank false h = refl

  -- A renewal that is written keeps the holder.
  stamp-Effect :
      (t t' : Task) (now : ℕ) (l : Lease) (w : World)
      → is_blank t' ≡ true
      → (owns t' ≡ true → owns t ≡ true)
      → Effect A holder t t' w (A.patch l.resource_version (renewal now) w).1
  stamp-Effect t t' now l w b o = elim (M.patch-cases l.resource_version (renewal now) w) [
    | inl (same, f) ↦ quiet same (is_blank-Told t t' w b) o
    | inr h ↦
        let w' = (A.patch l.resource_version (renewal now) w).1 in
        let (c, (k, e, p)) = patched (renewal now) l w w' h in
        stamped (Replaced-holder _ _ w w' (holder_of-renewal now k ∙ ap option_holder (sym e)) p) b
          o
  ]

  resume_holding-Effect :
      (now : ℕ) (h : Holding) (r : Renewing) (w : World)
      → r ≡ h.renewing
      → Effect A holder
          (holding h)
          (resume_holding A now holder h r w).0
          w
          (resume_holding A now holder h r w).1
  unfolding resume_holding
  resume_holding-Effect now h idle w e =
      quiet (Same-refl w) (is_blank-Told (holding h) (holding h) w (ap blank_renewing (sym e)))
        (λ q. q)
  resume_holding-Effect now h reading w e =
      quiet (M.get_opt-Same w)
        (after_read-Told (holding h) h (A.get_opt w).0 w (M.get_opt-stored w)) (λ q. refl)
  resume_holding-Effect now h (stamping l) w e =
      let r = A.patch l.resource_version (renewal now) w in
      stamp-Effect (holding h) (holding (renewed (is_ok r.0) h)) now l w
        (renewed-is_blank (is_ok r.0) h) (λ q. refl)

  resume_dropped-Effect :
      (now : ℕ) (r : Renewing) (w : World)
      → Effect A holder
          (dropped r)
          (resume_dropped A now holder r w).0
          w
          (resume_dropped A now holder r w).1
  unfolding resume_dropped
  resume_dropped-Effect now idle w = quiet (Same-refl w) tt (λ q. absurd (cc q))
  resume_dropped-Effect now reading w =
      quiet (M.get_opt-Same w)
        (after_dropped_read-Told (dropped reading) (A.get_opt w).0 w (M.get_opt-stored w))
        (λ q. absurd (ground (arith, q, owns-after_dropped_read (to_stamp holder (A.get_opt w).0))))
  resume_dropped-Effect now (stamping l) w =
      stamp-Effect (dropped (stamping l)) resting now l w refl (λ q. absurd (cc q))

  resume_releasing-Effect :
      (r : Releasing) (w : World)
      → Effect A holder
          (releasing r)
          (resume_releasing A holder r w).0
          w
          (resume_releasing A holder r w).1
  unfolding resume_releasing
  resume_releasing-Effect looking w =
      quiet (M.get_opt-Same w)
        (after_look-Told (releasing looking) (A.get_opt w).0 w (M.get_opt-stored w)) (λ q. refl)
  resume_releasing-Effect (clearing l) w = elim (M.patch-cases l.resource_version give_up w) [
    | inl (same, f) ↦ quiet same tt (λ q. absurd (cc q))
    | inr h ↦
        let w' = (A.patch l.resource_version give_up w).1 in
        let (c, (k, e, p)) = patched give_up l w w' h in
        cleared l refl c (Replaced-holder _ _ w w' (holder_of-give_up k) p) refl
  ]

  pub advance-Effect :
      (now : ℕ) (t : Task) (w : World)
      → Effect A holder t (advance A now target holder t w).0 w (advance A now target holder t w).1
  unfolding advance
  advance-Effect now resting w = quiet (Same-refl w) tt (λ q. q)
  advance-Effect now (acquiring a) w = resume-Effect now a w
  advance-Effect now (holding h) w = resume_holding-Effect now h h.renewing w refl
  advance-Effect now (dropped r) w = resume_dropped-Effect now r w
  advance-Effect now (releasing r) w = resume_releasing-Effect r w
