-- ===== src/K8s/Coordination/Exclusion.antt =====
-- About who owns the lease of crates/k8s/src/coordination.rs, and the lock that it is to be.
use roder.Prelude.{
  ℕ, String, ◌≡◌, inl, inr, refl, sym, ap, ◌∙◌, subst, Bool, true, ◌&&◌, Option, none, some,
  Bool-cases, &&-eq-true,
}
use roder.K8s.Coordination.{Holding}
use roder.K8s.Coordination.Server.{LeaseApi, IsOptimistic}
use roder.K8s.Coordination.Tasks.{
  Task, holding, is_alive, set_task, System, Step, begins, advances, moves, Reach, here, next,
}
use roder.K8s.Coordination.Effects.{owns, holder_at, Effect, quiet, took, stamped, cleared}
use roder.K8s.Coordination.Effects.Calls.{advance-Effect}
use roder.K8s.Coordination.Invariant.{Inv}
use roder.K8s.Coordination.Invariant.Reads.{set_task-cases, of_each}
use roder.K8s.Coordination.Invariant.Preserved.{
  is_alive-listed, owns-is_resting, Begins-owns, Reach-Inv,
}

-- A lock with one owner at a time: it is taken when it is free, and is free before another takes it.
pub data LockStep : Option ℕ → Option ℕ → Type 0 where
  stays : (o : Option ℕ) → LockStep o o
  takes : (i : ℕ) → LockStep none (some i)
  frees : (i : ℕ) → LockStep (some i) none

module _ (A : LeaseApi) (holders : ℕ → String) where
  -- A task that owns the lease and whose pod is there.
  unfoldable pub living : System A → ℕ → Bool
  living s j = owns (s.tasks j) && is_alive A (holders j) s.world

  pub living-parts :
      (s : System A) (j : ℕ)
      → living s j ≡ true
      → (owns (s.tasks j) ≡ true) × (is_alive A (holders j) s.world ≡ true)
  unfolding living
  living-parts s j e = &&-eq-true _ _ e

  parts-living :
      (s : System A) (j : ℕ)
      → owns (s.tasks j) ≡ true
      → is_alive A (holders j) s.world ≡ true
      → living s j ≡ true
  unfolding living
  parts-living s j p a = rw p (rw a refl)

  -- The lock as the state of the tasks shows it.
  abbrev pub Abstracts : System A → Option ℕ → Type 0
  Abstracts s none = (j : ℕ) → living s j ≡ true → ⊥
  Abstracts s (some i) = (living s i ≡ true) × ((j : ℕ) → living s j ≡ true → i ≡ j)

module _ (A : LeaseApi) (M : IsOptimistic A) (target : String) (holders : ℕ → String) where
  open A use {World, stored, revision}

  -- A step lets no one in, or lets one in when there was no one.
  data Entry (s t : System A) : Type 0 where
    no_one : ((j : ℕ) → living A holders t j ≡ true → living A holders s j ≡ true) → Entry s t
    one :
        (i : ℕ)
        → ((j : ℕ) → living A holders s j ≡ true → ⊥)
        → ((j : ℕ) → living A holders t j ≡ true → i ≡ j)
        → Entry s t

  -- Nothing is let in where no task begins to own the lease and no pod of an owner appears.
  no_entry :
      (s t : System A)
      → ((j : ℕ) → owns (t.tasks j) ≡ true → owns (s.tasks j) ≡ true)
      → ((j : ℕ)
          → owns (s.tasks j) ≡ true
          → is_alive A (holders j) t.world ≡ true
          → is_alive A (holders j) s.world ≡ true)
      → Entry s t
  no_entry s t own alive = no_one (λ j. λ e.
      let (p, a) = living-parts A holders t j e in
      let q = own j p in parts-living A holders s j q (alive j q a))

  task_no_entry :
      (s : System A) (i : ℕ) (x : Task) (w : World)
      → (owns x ≡ true → owns (s.tasks i) ≡ true)
      → A.listed w ≡ A.listed s.world
      → Entry s (record { tasks = set_task i x s.tasks; world = w })
  task_no_entry s i x w own li =
      no_entry s (record { tasks = set_task i x s.tasks; world = w })
        (of_each (λ k. λ y. owns y ≡ true → owns (s.tasks k) ≡ true) i x s.tasks own (λ k. λ y. y))
        (λ j. λ p. λ a. sym (is_alive-listed A s.world w (holders j) li) ∙ a)

  Effect-Entry :
      (s : System A) (i : ℕ) (x : Task) (w : World)
      → Inv A holders s.tasks s.world
      → Effect A (holders i) (s.tasks i) x s.world w
      → Entry s (record { tasks = set_task i x s.tasks; world = w })
  Effect-Entry s i x w inv (quiet same told own) = task_no_entry s i x w own same.pods
  Effect-Entry s i x w inv (took left read e cur (l, q, ver, ho, li, lt) b) =
      let t : System A = record { tasks = set_task i x s.tasks; world = w } in
      let free : (j : ℕ) → living A holders s j ≡ true → ⊥ =
        λ j. λ p. let (o, a) = living-parts A holders s j p in inv.clear i left read e cur j o a in
      one i free (λ j. elim (set_task-cases i j x s.tasks) [
        | inl (same, f) ↦ λ p. same
        | inr (other, f) ↦ λ p.
            let (o, a) = living-parts A holders t j p in
            absurd (
              free j (
                parts-living A holders s j (ap owns (sym f) ∙ o)
                  (sym (is_alive-listed A s.world w (holders j) li) ∙ a)))
      ])
  Effect-Entry s i x w inv (stamped (l, q, ver, ho, li, lt) b own) = task_no_entry s i x w own li
  Effect-Entry s i x w inv (cleared k e cur (l, q, ver, ho, li, lt) r) =
      task_no_entry s i x w (λ p. absurd (cc (p, ap owns r))) li

  Step-Entry :
      (s t : System A) → Step A target holders s t → Inv A holders s.tasks s.world → Entry s t
  Step-Entry s t (begins i x b e) inv =
      subst (Entry s) (sym e) (task_no_entry s i x s.world (Begins-owns (s.tasks i) x b) refl)
  Step-Entry s t (advances i now e) inv =
      subst (Entry s) (sym e)
        (Effect-Entry s i _ _ inv (advance-Effect A M target (holders i) now (s.tasks i) s.world))
  Step-Entry s t (moves w q le d e) inv = subst (Entry s) (sym e) (
      no_entry s (record s { world = w }) (λ j. λ p. p)
        (λ j. λ p. λ a. d j (owns-is_resting (s.tasks j) p) a))

  abbrev Lock : Option ℕ → System A → Type 0
  Lock o t = (o' : Option ℕ) × LockStep o o' × Abstracts A holders t o'

  -- A lock that had an owner has it still, or is free.
  kept :
      (s t : System A) (i : ℕ)
      → Abstracts A holders s (some i)
      → ((j : ℕ) → living A holders t j ≡ true → living A holders s j ≡ true)
      → Lock (some i) t
  kept s t i (mine, only) old = elim (Bool-cases (living A holders t i)) [
    | inl e ↦ (some i, stays (some i), (e, λ j. λ p. only j (old j p)))
    | inr e ↦ (
      none,
      frees i,
      λ j. λ p. cc (e, subst (λ k. living A holders t k ≡ true) (sym (only j (old j p))) p),
    )
  ]

  entered : (t : System A) (i : ℕ) → ((j : ℕ) → living A holders t j ≡ true → i ≡ j) → Lock none t
  entered t i only = elim (Bool-cases (living A holders t i)) [
    | inl e ↦ (some i, takes i, (e, only))
    | inr e ↦ (
      none,
      stays none,
      λ j. λ p. cc (e, subst (λ k. living A holders t k ≡ true) (sym (only j p)) p),
    )
  ]

  Entry-Lock : (s t : System A) (o : Option ℕ) → Abstracts A holders s o → Entry s t → Lock o t
  Entry-Lock s t none h (no_one old) = (none, stays none, λ j. λ p. h j (old j p))
  Entry-Lock s t none h (one i free only) = entered t i only
  Entry-Lock s t (some i) h (no_one old) = kept s t i h old
  Entry-Lock s t (some i) h (one k free only) = absurd (free i h.0)

  -- In a reachable state that shows a lock, each step of a task, of the server or of the pods is a step
  -- of that lock: it stays, a free one is taken, or a taken one becomes free; it never passes from one
  -- living owner to another at once. The server checks versions.
  pub Step-LockStep :
      (w : World) (s t : System A) (o : Option ℕ)
      → Reach A target holders w s
      → Abstracts A holders s o
      → Step A target holders s t
      → (o' : Option ℕ) × LockStep o o' × Abstracts A holders t o'
  Step-LockStep w s t o r h st =
      Entry-Lock s t o h (Step-Entry s t st (Reach-Inv A M target holders w s r))

  -- Every state that is reached shows a lock.
  pub Reach-Abstracts :
      (w : World) (s : System A)
      → Reach A target holders w s
      → (o : Option ℕ) × Abstracts A holders s o
  unfolding living
  Reach-Abstracts w _ here = (none, λ j. λ p. cc p)
  Reach-Abstracts w _ (next {s} {t} r st) =
      let (o, h) = Reach-Abstracts w s r in
      let (o', l, h') = Step-LockStep w s t o r h st in (o', h')

  -- In every state that the tasks of all replicas reach by any interleaving of their calls, with a
  -- server that checks versions and while the pod of no task at work comes back, two tasks that hold
  -- the lease and whose pods are there are the same task, and the lease that is stored names its
  -- replica.
  pub mutual_exclusion :
      (w : World) (s : System A) (i j : ℕ) (g h : Holding)
      → Reach A target holders w s
      → s.tasks i ≡ holding g
      → is_alive A (holders i) s.world ≡ true
      → s.tasks j ≡ holding h
      → is_alive A (holders j) s.world ≡ true
      → (i ≡ j) × (holder_at A s.world ≡ some (holders i))
  mutual_exclusion w s i j g h r p a q b =
      let inv = Reach-Inv A M target holders w s r in
      (inv.unique i j (ap owns p) a (ap owns q) b, inv.named i (ap owns p) a)
