-- ===== src/K8s/Coordination/Acquire/Outcomes.antt =====
-- The outcomes of `acquire` (crates/k8s/src/coordination.rs) on a server that is reached.
use roder.Prelude.{
  ℕ, suc, String, ◌≡◌, ◌⊎◌, inl, inr, refl, ap, ◌∙◌, true, false, Option, none, some, Result, ok,
  err,
}
use roder.K8s.Errors.{KubeError}
use roder.K8s.Coordination.{
  Lease, holder_of, holder_pod_exists, pods, new_lease, take_over, busy, Acquiring, fetching,
  checking, writing, Next, going_on, ended, begin, after_get, after_list, after_write,
}
use roder.K8s.Coordination.Server.{LeaseApi, IsOptimistic, IsReached, Failed}
use roder.K8s.Coordination.Tasks.{resume, is_alive}
use roder.K8s.Coordination.Effects.{holder_at, option_holder}
use roder.K8s.Coordination.Effects.Calls.{holder_of-take_over}
use roder.K8s.Coordination.Acquire.{acquire, run, Outcome, run-going_on, run-ended}

after_write-ok :
    (left : ℕ) (r : Result (Unit {0}) KubeError) → r ≡ ok tt → after_write left r ≡ ended (ok tt)
unfolding after_write
after_write-ok left r e = rw e refl

not-Failed : (r : Result (Unit {0}) KubeError) → r ≡ ok tt → Failed r → ⊥
not-Failed (ok done) e f = f
not-Failed (err x) e f = cc e

module _ (A : LeaseApi) (M : IsOptimistic A) (R : IsReached A) (clock : ℕ → ℕ)
    (target holder : String) where
  open A use {World, stored}

  abbrev Won : Outcome A clock target holder → Type 0
  Won o = (w' : World) × (o ≡ some (ok tt, w')) × (holder_at A w' ≡ some holder)

  abbrev Next_at : ℕ → Acquiring → World → Next
  Next_at now a w = (resume A now target holder a w).0

  abbrev world_at : ℕ → Acquiring → World → World
  world_at now a w = (resume A now target holder a w).1

  -- A write over what is stored is accepted.
  writing-ok :
      (now left : ℕ) (o : Option Lease) (w : World)
      → stored w ≡ o
      → (Next_at now (writing left o) w ≡ ended (ok tt))
        × (holder_at A (world_at now (writing left o) w) ≡ some holder)
  unfolding resume holder_of new_lease
  writing-ok now left none w e =
      let l = new_lease now target holder in
      let good = R.create-ok l w e in
      (
        after_write-ok left (A.create l w).0 good,
        elim (M.create-cases l w) [
          | inl (same, f) ↦ absurd (not-Failed (A.create l w).0 good f)
          | inr (q, h) ↦ ap option_holder h.lease
        ],
      )
  writing-ok now left (some l) w e =
      let p = take_over now holder l in
      let good = R.patch-ok p l w e in
      (
        after_write-ok left (A.patch l.resource_version p w).0 good,
        elim (M.patch-cases l.resource_version p w) [
          | inl (same, f) ↦ absurd (not-Failed (A.patch l.resource_version p w).0 good f)
          | inr (k, q, z, h) ↦
              ap option_holder h.lease ∙ holder_of-take_over A M target holder now l k
        ],
      )

  run-writing :
      (fuel left : ℕ) (o : Option Lease) (w : World)
      → stored w ≡ o
      → Won (run A clock target holder (suc fuel) (writing left o) w)
  run-writing fuel left o w e =
      let (n, h) = writing-ok (clock fuel) left o w e in
      (
        world_at (clock fuel) (writing left o) w,
        run-ended A clock target holder fuel (writing left o) (ok tt) w n,
        h,
      )

  -- The run goes on from a call that wins if what follows it wins.
  Won-going_on :
      (fuel : ℕ) (a b : Acquiring) (w : World)
      → Next_at (clock fuel) a w ≡ going_on b
      → Won (run A clock target holder fuel b (world_at (clock fuel) a w))
      → Won (run A clock target holder (suc fuel) a w)
  Won-going_on fuel a b w n (w', e, h) =
      (w', run-going_on A clock target holder fuel a b w n ∙ e, h)

  fetching-next :
      (now left : ℕ) (w : World)
      → (Next_at now (fetching left) w ≡ after_get left (ok (stored w)))
        × (stored (world_at now (fetching left) w) ≡ stored w)
        × (A.listed (world_at now (fetching left) w) ≡ A.listed w)
  unfolding resume
  fetching-next now left w =
      (ap (after_get left) (R.get_opt-ok w), (M.get_opt-Same w).lease, (M.get_opt-Same w).pods)

  checking-next :
      (now left : ℕ) (l : Lease) (h : String) (w : World)
      → (Next_at now (checking left l h) w ≡ after_list left l h (ok (A.listed w)))
        × (stored (world_at now (checking left l h) w) ≡ stored w)
  unfolding resume
  checking-next now left l h w =
      (ap (after_list left l h) (R.list_pods-ok w), (M.list_pods-Same w).lease)

  after_get-unheld :
      (left : ℕ) (o : Option Lease)
      → option_holder o ≡ none
      → after_get left (ok o) ≡ going_on (writing left o)
  unfolding after_get
  after_get-unheld left none h = refl
  after_get-unheld left (some l) h = rw h refl

  after_get-held :
      (left : ℕ) (o : Option Lease) (h : String)
      → option_holder o ≡ some h
      → (l : Lease) × (o ≡ some l) × (after_get left (ok o) ≡ going_on (checking left l h))
  unfolding after_get
  after_get-held left none h e = absurd (cc e)
  after_get-held left (some l) h e = (l, refl, rw e refl)

  -- No one holds the lease, or the pod of its holder is not there.
  abbrev pub IsFree : World → Type 0
  IsFree w =
      (holder_at A w ≡ none) ⊎ ((h : String) × (holder_at A w ≡ some h) × (is_alive A h w ≡ false))

  -- When no one else acts, on a server that checks versions, is reached and refuses only a write of
  -- another version, `acquire` returns success if no one holds the lease or the pod of its holder is
  -- gone, and the lease then names the caller.
  pub acquire-IsFree :
      (w : World)
      → IsFree w
      → (w' : World) × (acquire A clock target holder w ≡ some (ok tt, w'))
        × (holder_at A w' ≡ some holder)
  unfolding acquire
  acquire-IsFree w (inl e) =
      let (n, s, p) = fetching-next (clock 11) 3 w in
      Won-going_on 11 begin (writing 3 (stored w)) w (n ∙ after_get-unheld 3 (stored w) e)
        (run-writing 10 3 (stored w) (world_at (clock 11) begin w) s)
  acquire-IsFree w (inr (h, e, dead)) =
      let (n, s, p) = fetching-next (clock 11) 3 w in
      let w1 = world_at (clock 11) begin w in
      let (l, q, m) = after_get-held 3 (stored w) h e in
      let (n2, s2) = checking-next (clock 10) 3 l h w1 in
      let gone : is_alive A h w1 ≡ false = ap (λ ps. holder_pod_exists h (pods ps)) p ∙ dead in
      Won-going_on 11 begin (checking 3 l h) w (n ∙ m) (
        Won-going_on 10 (checking 3 l h) (writing 3 (some l)) w1
          (n2 ∙ (unfold after_list in rw gone refl))
          (run-writing 9 3 (some l) (world_at (clock 10) (checking 3 l h) w1) (s2 ∙ s ∙ q)))

  -- When no one else acts, on a server that checks versions, is reached and refuses only a write of
  -- another version, `acquire` returns `Busy` if the pod of the holder that the lease names is there,
  -- be it the pod of the caller, and the lease is left as it is.
  pub acquire-busy :
      (w : World) (h : String)
      → holder_at A w ≡ some h
      → is_alive A h w ≡ true
      → (w' : World) × (acquire A clock target holder w ≡ some (err busy, w'))
        × (stored w' ≡ stored w)
  unfolding acquire
  acquire-busy w h e there =
      let (n, s, p) = fetching-next (clock 11) 3 w in
      let w1 = world_at (clock 11) begin w in
      let (l, q, m) = after_get-held 3 (stored w) h e in
      let (n2, s2) = checking-next (clock 10) 3 l h w1 in
      let here : is_alive A h w1 ≡ true = ap (λ ps. holder_pod_exists h (pods ps)) p ∙ there in
      (
        world_at (clock 10) (checking 3 l h) w1,
        run-going_on A clock target holder 11 begin (checking 3 l h) w (n ∙ m)
            ∙ run-ended A clock target holder 10 (checking 3 l h) (err busy) w1
                (n2 ∙ (unfold after_list in rw here refl)),
        s2 ∙ s,
      )
