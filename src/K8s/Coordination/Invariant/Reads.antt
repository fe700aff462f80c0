-- ===== src/K8s/Coordination/Invariant/Reads.antt =====
-- What is known of the lease, as the lease is written (crates/k8s/src/coordination.rs).
use roder.Prelude.{
  ℕ, ◌≤◌, String, ◌≡◌, ◌⊎◌, inl, inr, refl, sym, ap, ◌∙◌, subst, true, Option, none, some, arith,
  unwrap_or, nat_beq, Bool-cases, nat_beq_iff,
}
use roder.K8s.Coordination.{
  Lease, fetching, checking, writing, Renewing, idle, reading, stamping, looking, clearing,
}
use roder.K8s.Coordination.Server.{LeaseApi, IsOptimistic}
use roder.K8s.Coordination.Tasks.{Task, resting, acquiring, holding, dropped, releasing, set_task}
use roder.K8s.Coordination.Effects.{is_blank, blank_renewing, Current, Told, ToldRenewing, Replaced}
use roder.K8s.Coordination.Invariant.{Known, GoodRenewing, Good}

pub some-inj : {B : Type 0} {x y : B} → some x ≡ some y → x ≡ y
some-inj {x = x} e = ap (λ m. unwrap_or m x) e

-- A task's new state, and the other tasks' old ones.
pub set_task-cases :
    (i j : ℕ) (t : Task) (tasks : ℕ → Task)
    → ((i ≡ j) × (set_task i t tasks j ≡ t)) ⊎ ((i ≡ j → ⊥) × (set_task i t tasks j ≡ tasks j))
set_task-cases i j t tasks = elim (Bool-cases (nat_beq i j)) [
  | inl e ↦ inl ((nat_beq_iff i j).0 e, rw e refl)
  | inr e ↦ inr ((λ q. absurd (cc ((nat_beq_iff i j).1 q, e))), rw e refl)
]

-- A step of one task: what holds of all tasks holds of the others before and of its new state.
pub of_each :
    (P : ℕ → Task → Type 0) (i : ℕ) (t : Task) (tasks : ℕ → Task)
    → P i t
    → ((j : ℕ) → P j (tasks j))
    → (j : ℕ) → P j (set_task i t tasks j)
of_each P i t tasks p q j = elim (set_task-cases i j t tasks) [
  | inl (e, f) ↦ subst (P j) (sym f) (subst (λ k. P k t) e p)
  | inr (e, f) ↦ subst (P j) (sym f) (q j)
]

module _ (A : LeaseApi) where
  open A use {World, stored, revision}

  -- What was known at `v` is known at `w`.
  abbrev pub Keeps : World → World → Type 0
  Keeps v w = (l : Lease) → Known A v l → Known A w l

  pub Keeps-same : (v w : World) → stored w ≡ stored v → revision v ≤ revision w → Keeps v w
  Keeps-same v w e h l k = record {
    version = let a = k.version in omega arith;
    same = λ x. λ q. λ z. k.same x (sym e ∙ q) z;
  }

  pub Keeps-Replaced : (o : Option String) (v w : World) → Replaced A o v w → Keeps v w
  Keeps-Replaced o v w (l', e, ver, ho, li, lt) l k = record {
    version = let a = k.version in omega arith;
    same = λ x. λ q. λ z.
        let x-l : x ≡ l' = some-inj (sym q ∙ e) in
        let vx = ap (λ y. y.resource_version) x-l in let a = k.version in absurd (omega arith);
  }

  pub Known-stored : IsOptimistic A → (w : World) (l : Lease) → stored w ≡ some l → Known A w l
  Known-stored M w l e = record {
    version = M.version-le w l e;
    same = λ x. λ q. λ z. some-inj (sym q ∙ e);
  }

  pub Good-Keeps :
      (holder : String) (v w : World) (t : Task) → Keeps v w → Good A holder v t → Good A holder w t
  Good-Keeps holder v w resting k g = tt
  Good-Keeps holder v w (acquiring (fetching left)) k g = tt
  Good-Keeps holder v w (acquiring (checking left l h)) k g = (k l g.0, g.1)
  Good-Keeps holder v w (acquiring (writing left none)) k g = tt
  Good-Keeps holder v w (acquiring (writing left (some l))) k g = k l g
  Good-Keeps holder v w (holding h) k g = renewing h.renewing g
    where
      renewing : (r : Renewing) → GoodRenewing A v r → GoodRenewing A w r
      renewing idle g = tt
      renewing reading g = tt
      renewing (stamping l) g = k l g
  Good-Keeps holder v w (dropped idle) k g = tt
  Good-Keeps holder v w (dropped reading) k g = tt
  Good-Keeps holder v w (dropped (stamping l)) k g = k l g
  Good-Keeps holder v w (releasing looking) k g = tt
  Good-Keeps holder v w (releasing (clearing l)) k g = (k l g.0, g.1)

  pub is_blank-Good :
      (holder : String) (w : World) (t : Task) → is_blank t ≡ true → Good A holder w t
  is_blank-Good holder w resting b = tt
  is_blank-Good holder w (acquiring (fetching left)) b = tt
  is_blank-Good holder w (acquiring (checking left l h)) b = absurd (cc b)
  is_blank-Good holder w (acquiring (writing left o)) b = absurd (cc b)
  is_blank-Good holder w (holding h) b = renewing h.renewing b
    where
      renewing : (r : Renewing) → blank_renewing r ≡ true → GoodRenewing A w r
      renewing idle b = tt
      renewing reading b = tt
      renewing (stamping l) b = absurd (cc b)
  is_blank-Good holder w (dropped idle) b = tt
  is_blank-Good holder w (dropped reading) b = tt
  is_blank-Good holder w (dropped (stamping l)) b = absurd (cc b)
  is_blank-Good holder w (releasing looking) b = tt
  is_blank-Good holder w (releasing (clearing l)) b = absurd (cc b)

  -- What a task has just learnt is good, given that what it learnt before is.
  pub Told-Good :
      IsOptimistic A
      → (holder : String) (w : World) (t t' : Task) → Good A holder w t
      → Told A holder w t t'
      → Good A holder w t'
  Told-Good M holder w t resting g told = tt
  Told-Good M holder w t (acquiring (fetching left)) g told = tt
  Told-Good M holder w t (acquiring (checking left l h)) g told =
      (Known-stored M w l told.0, told.1)
  Told-Good M holder w t (acquiring (writing left none)) g told = tt
  Told-Good M holder w t (acquiring (writing left (some l))) g (inl (e, h)) = Known-stored M w l e
  Told-Good M holder w t (acquiring (writing left (some l))) g (inr (n, k, h, e, o, d)) =
      let was : Good A holder w (acquiring (checking n k h)) = subst (Good A holder w) e g in
      subst (Known A w) (some-inj (sym o)) was.0
  Told-Good M holder w t (holding h) g told = renewing h.renewing told
    where
      renewing : (r : Renewing) → ToldRenewing A w r → GoodRenewing A w r
      renewing idle q = tt
      renewing reading q = tt
      renewing (stamping l) q = Known-stored M w l q
  Told-Good M holder w t (dropped idle) g told = tt
  Told-Good M holder w t (dropped reading) g told = tt
  Told-Good M holder w t (dropped (stamping l)) g told = Known-stored M w l told
  Told-Good M holder w t (releasing looking) g told = tt
  Told-Good M holder w t (releasing (clearing l)) g told = (Known-stored M w l told.0, told.1)

  -- Once the lease is replaced, nothing that was read before is current.
  pub not-Current :
      (holder : String) (o : Option String) (v w : World) (left : ℕ) (read : Option Lease)
      → Good A holder v (acquiring (writing left read))
      → Replaced A o v w
      → Current A read w
      → ⊥
  not-Current holder o v w left none g (l', e, ver, ho, li, lt) c = cc (c, e)
  not-Current holder o v w left (some l) g (l', e, ver, ho, li, lt) (k, q, z) =
      let k-l : k ≡ l' = some-inj (sym q ∙ e) in
      let vk = ap (λ y. y.resource_version) k-l in let a = g.version in omega arith
