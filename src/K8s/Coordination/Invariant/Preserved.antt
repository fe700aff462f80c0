-- ===== src/K8s/Coordination/Invariant/Preserved.antt =====
-- The steps of crates/k8s/src/coordination.rs and the invariant.
use roder.Prelude.{
  ℕ, ◌≤◌, String, ◌≡◌, inl, inr, refl, sym, ap, ◌∙◌, subst, true, false, Option, none, some, arith,
}
use roder.K8s.Coordination.{Lease, holder_of, holder_pod_exists, pods, checking, writing, clearing}
use roder.K8s.Coordination.Server.{LeaseApi, IsOptimistic, Same}
use roder.K8s.Coordination.Tasks.{
  Task, resting, acquiring, holding, dropped, releasing, is_alive, is_resting, set_task, System,
  Step, begins, advances, moves, Reach, here, next, Begins, acquires, abandons, ticks, releases,
  drops,
}
use roder.K8s.Coordination.Effects.{
  owns, is_blank, option_holder, Current, holder_at, Told, Replaced, Effect, quiet, took, stamped,
  cleared,
}
use roder.K8s.Coordination.Effects.Calls.{advance-Effect}
use roder.K8s.Coordination.Invariant.{Good, Inv, NoOwner}
use roder.K8s.Coordination.Invariant.Reads.{
  of_each, some-inj, set_task-cases, Keeps-same, Keeps-Replaced, Good-Keeps, is_blank-Good,
  Told-Good, not-Current,
}

pub owns-is_resting : (t : Task) → owns t ≡ true → is_resting t ≡ false
owns-is_resting resting e = absurd (cc e)
owns-is_resting (acquiring a) e = refl
owns-is_resting (holding h) e = refl
owns-is_resting (dropped r) e = refl
owns-is_resting (releasing r) e = refl

is_blank-not_writing :
    (t : Task) (left : ℕ) (o : Option Lease)
    → is_blank t ≡ true
    → t ≡ acquiring (writing left o)
    → ⊥
is_blank-not_writing t left o b e = cc (b, ap is_blank e)

pub Begins-owns : (t t' : Task) → Begins t t' → owns t' ≡ true → owns t ≡ true
Begins-owns _ _ acquires o = absurd (cc o)
Begins-owns _ _ (abandons a) o = absurd (cc o)
Begins-owns _ _ (ticks h e) o = refl
Begins-owns _ _ (releases h e) o = refl
Begins-owns _ _ (drops h) o = absurd (cc o)

Begins-not_writing :
    (t t' : Task) (left : ℕ) (o : Option Lease) → Begins t t' → t' ≡ acquiring (writing left o) → ⊥
Begins-not_writing _ _ left o acquires e = cc e
Begins-not_writing _ _ left o (abandons a) e = cc e
Begins-not_writing _ _ left o (ticks h q) e = cc e
Begins-not_writing _ _ left o (releases h q) e = cc e
Begins-not_writing _ _ left o (drops h) e = cc e

pub is_alive-listed :
    (A : LeaseApi) (v w : A.World) (h : String)
    → A.listed w ≡ A.listed v
    → is_alive A h w ≡ is_alive A h v
is_alive-listed A v w h e = ap (λ ps. holder_pod_exists h (pods ps)) e

module _ (A : LeaseApi) (M : IsOptimistic A) (target : String) (holders : ℕ → String) where
  open A use {World, stored, revision}

  Current-stored :
      (o : Option Lease) (v w : World) → stored w ≡ stored v → Current A o w → Current A o v
  Current-stored none v w e c = sym e ∙ c
  Current-stored (some l) v w e (k, q, z) = (k, sym e ∙ q, z)

  -- A step that leaves the lease alone, makes no owner and no pod, and whose writers are clear.
  calm :
      (tasks tasks' : ℕ → Task) (v w : World)
      → Inv A holders tasks v
      → stored w ≡ stored v
      → revision v ≤ revision w
      → ((j : ℕ)
          → owns (tasks' j) ≡ true
          → is_alive A (holders j) w ≡ true
          → (owns (tasks j) ≡ true) × (is_alive A (holders j) v ≡ true))
      → ((j : ℕ) → Good A (holders j) v (tasks' j))
      → ((j left : ℕ) (o : Option Lease)
          → tasks' j ≡ acquiring (writing left o)
          → Current A o v
          → NoOwner A holders tasks v)
      → Inv A holders tasks' w
  calm tasks tasks' v w inv e le own g c = record {
    good = λ j. Good-Keeps A (holders j) v w (tasks' j) (Keeps-same A v w e le) (g j);
    clear = λ i. λ left. λ o. λ q. λ cur. λ j.
        λ p. λ a. let was = own j p a in c i left o q (Current-stored o v w e cur) j was.0 was.1;
    named = λ i. λ p. λ a. let was = own i p a in ap option_holder e ∙ inv.named i was.0 was.1;
    unique = λ i. λ j. λ p.
        λ a. λ q. λ b. let x = own i p a in let y = own j q b in inv.unique i j x.0 x.1 y.0 y.1;
  }

  calm_task :
      (i : ℕ) (t : Task) (tasks : ℕ → Task) (v w : World)
      → Inv A holders tasks v
      → Same A v w
      → (owns t ≡ true → owns (tasks i) ≡ true)
      → Good A (holders i) v t
      → ((left : ℕ) (o : Option Lease)
          → t ≡ acquiring (writing left o)
          → Current A o v
          → NoOwner A holders tasks v)
      → Inv A holders (set_task i t tasks) w
  calm_task i t tasks v w inv same own g c =
      calm tasks (set_task i t tasks) v w inv same.lease same.later
        (λ j. λ p. λ a. (
          of_each (λ k. λ x. owns x ≡ true → owns (tasks k) ≡ true) i t tasks own (λ k. λ x. x) j p,
          sym (is_alive-listed A v w (holders j) same.pods) ∙ a,
        ))
        (of_each (λ k. λ x. Good A (holders k) v x) i t tasks g inv.good)
        (of_each
          (λ k. λ x.
            (left : ℕ) (o : Option Lease)
            → x ≡ acquiring (writing left o)
            → Current A o v
            → NoOwner A holders tasks v)
          i t tasks c inv.clear)

  -- What a task has been told lets it write over the lease only when no living owner is there.
  Told-clear :
      (i : ℕ) (t : Task) (tasks : ℕ → Task) (w : World)
      → Inv A holders tasks w
      → Told A (holders i) w (tasks i) t
      → (left : ℕ) (o : Option Lease) → t ≡ acquiring (writing left o)
      → Current A o w
      → NoOwner A holders tasks w
  Told-clear i t tasks w inv told left o e cur j p a =
      elim (subst (Told A (holders i) w (tasks i)) e told) [
        | inl (s, h) ↦ cc (h, inv.named j p a)
        | inr (n, l, h, was, ol, dead) ↦
            let known : Good A (holders i) w (acquiring (checking n l h)) =
              subst (Good A (holders i) w) was (inv.good i) in
            let (k, s, z) = subst (λ x. Current A x w) ol cur in
            let k-l : k ≡ l = known.0.same k s z in
            let name : some h ≡ some (holders j) =
              sym known.1 ∙ ap holder_of (sym k-l) ∙ ap option_holder (sym s) ∙ inv.named j p a in
            cc (dead, a, ap (λ x. is_alive A x w) (some-inj name))
      ]

  -- A step that replaces the lease, by a task that has then read nothing.
  wrote :
      (i : ℕ) (t : Task) (o : Option String) (tasks : ℕ → Task) (v w : World)
      → Inv A holders tasks v
      → Replaced A o v w
      → is_blank t ≡ true
      → ((j : ℕ)
          → owns (set_task i t tasks j) ≡ true
          → is_alive A (holders j) v ≡ true
          → o ≡ some (holders j))
      → ((j k : ℕ)
          → owns (set_task i t tasks j) ≡ true
          → is_alive A (holders j) v ≡ true
          → owns (set_task i t tasks k) ≡ true
          → is_alive A (holders k) v ≡ true
          → j ≡ k)
      → Inv A holders (set_task i t tasks) w
  wrote i t o tasks v w inv rep b named unique =
      let keeps = Keeps-Replaced A o v w rep in
      let (l, s, ver, ho, li, lt) = rep in
      let was : (j : ℕ) → is_alive A (holders j) w ≡ true → is_alive A (holders j) v ≡ true =
        λ j. λ a. sym (is_alive-listed A v w (holders j) li) ∙ a in
      record {
        good =
            of_each (λ k. λ x. Good A (holders k) w x) i t tasks (is_blank-Good A (holders i) w t b)
              (λ j. Good-Keeps A (holders j) v w (tasks j) keeps (inv.good j));
        clear =
            of_each
              (λ k. λ x.
                (left : ℕ) (read : Option Lease)
                → x ≡ acquiring (writing left read)
                → Current A read w
                → NoOwner A holders (set_task i t tasks) w)
              i t tasks
              (λ left. λ read. λ e. λ cur. λ j. λ p. λ a. is_blank-not_writing t left read b e)
              (λ k. λ left. λ read. λ e. λ cur. λ j. λ p. λ a.
                not-Current A (holders k) o v w left read
                  (subst (Good A (holders k) v) e (inv.good k)) rep cur);
        named = λ j. λ p. λ a. ap option_holder s ∙ ho ∙ named j p (was j a);
        unique = λ j. λ k. λ p. λ a. λ q. λ c. unique j k p (was j a) q (was k c);
      }

  took-Inv :
      (i left : ℕ) (read : Option Lease) (t : Task) (tasks : ℕ → Task) (v w : World)
      → Inv A holders tasks v
      → tasks i ≡ acquiring (writing left read)
      → Current A read v
      → Replaced A (some (holders i)) v w
      → is_blank t ≡ true
      → Inv A holders (set_task i t tasks) w
  took-Inv i left read t tasks v w inv e cur rep b =
      let free = inv.clear i left read e cur in
      let only : (j : ℕ)
          → owns (set_task i t tasks j) ≡ true
          → is_alive A (holders j) v ≡ true
          → i ≡ j =
        λ j. elim (set_task-cases i j t tasks) [
          | inl (q, f) ↦ λ p. λ a. q
          | inr (q, f) ↦ λ p. λ a. absurd (free j (ap owns (sym f) ∙ p) a)
        ] in
      wrote i t (some (holders i)) tasks v w inv rep b
        (λ j. λ p. λ a. ap (λ x. some (holders x)) (only j p a))
        (λ j. λ k. λ p. λ a. λ q. λ c. sym (only j p a) ∙ only k q c)

  stamped-Inv :
      (i : ℕ) (t : Task) (tasks : ℕ → Task) (v w : World)
      → Inv A holders tasks v
      → Replaced A (holder_at A v) v w
      → is_blank t ≡ true
      → (owns t ≡ true → owns (tasks i) ≡ true)
      → Inv A holders (set_task i t tasks) w
  stamped-Inv i t tasks v w inv rep b own =
      let was =
        of_each (λ k. λ x. owns x ≡ true → owns (tasks k) ≡ true) i t tasks own (λ k. λ x. x) in
      wrote i t (holder_at A v) tasks v w inv rep b (λ j. λ p. λ a. inv.named j (was j p) a)
        (λ j. λ k. λ p. λ a. λ q. λ c. inv.unique j k (was j p) a (was k q) c)

  -- A task that gives up a lease that is current is the only one whose pod may own it.
  cleared-Inv :
      (i : ℕ) (l : Lease) (tasks : ℕ → Task) (v w : World)
      → Inv A holders tasks v
      → tasks i ≡ releasing (clearing l)
      → Current A (some l) v
      → Replaced A none v w
      → Inv A holders (set_task i resting tasks) w
  cleared-Inv i l tasks v w inv e (k, s, z) rep =
      let good : Good A (holders i) v (releasing (clearing l)) =
        subst (Good A (holders i) v) e (inv.good i) in
      let k-l = good.0.same k s z in
      let mine : holder_at A v ≡ some (holders i) =
        ap option_holder s ∙ ap holder_of k-l ∙ good.1 in
      let nobody : (j : ℕ)
          → owns (set_task i resting tasks j) ≡ true
          → is_alive A (holders j) v ≡ true
          → ⊥ =
        λ j. elim (set_task-cases i j resting tasks) [
          | inl (q, f) ↦ λ p. λ a. cc (ap owns f, p)
          | inr (q, f) ↦ λ p. λ a.
              let owner : owns (tasks j) ≡ true = ap owns (sym f) ∙ p in
              let same = some-inj (sym (inv.named j owner a) ∙ mine) in
              q (inv.unique i j (ap owns e) (ap (λ x. is_alive A x v) (sym same) ∙ a) owner a)
        ] in
      wrote i resting none tasks v w inv rep refl (λ j. λ p. λ a. absurd (nobody j p a))
        (λ j. λ k. λ p. λ a. λ q. λ c. absurd (nobody j p a))

  Effect-Inv :
      (i : ℕ) (t : Task) (tasks : ℕ → Task) (v w : World)
      → Inv A holders tasks v
      → Effect A (holders i) (tasks i) t v w
      → Inv A holders (set_task i t tasks) w
  Effect-Inv i t tasks v w inv (quiet same told own) =
      calm_task i t tasks v w inv same own
        (Told-Good A M (holders i) v (tasks i) t (inv.good i) told)
        (Told-clear i t tasks v inv told)
  Effect-Inv i t tasks v w inv (took left read e cur rep b) =
      took-Inv i left read t tasks v w inv e cur rep b
  Effect-Inv i t tasks v w inv (stamped rep b own) = stamped-Inv i t tasks v w inv rep b own
  Effect-Inv i t tasks v w inv (cleared l e cur rep r) =
      subst (λ x. Inv A holders (set_task i x tasks) w) (sym r)
        (cleared-Inv i l tasks v w inv e cur rep)

  Begins-Good :
      (holder : String) (w : World) (t t' : Task)
      → Begins t t'
      → Good A holder w t
      → Good A holder w t'
  Begins-Good holder w _ _ acquires g = tt
  Begins-Good holder w _ _ (abandons a) g = tt
  Begins-Good holder w _ _ (ticks h e) g = tt
  Begins-Good holder w _ _ (releases h e) g = tt
  Begins-Good holder w _ _ (drops h) g = g

  Same-refl : (w : World) → Same A w w
  Same-refl w = record { lease = refl; pods = refl; later = omega arith }

  pub Step-Inv :
      (s t : System A)
      → Step A target holders s t
      → Inv A holders s.tasks s.world
      → Inv A holders t.tasks t.world
  Step-Inv s t (begins i x b e) inv =
      subst (λ y. Inv A holders y.tasks y.world) (sym e)
        (calm_task i x s.tasks s.world s.world inv (Same-refl s.world) (Begins-owns (s.tasks i) x b)
          (Begins-Good (holders i) s.world (s.tasks i) x b (inv.good i))
          (λ left. λ o. λ q. absurd (Begins-not_writing (s.tasks i) x left o b q)))
  Step-Inv s t (advances i now e) inv =
      subst (λ y. Inv A holders y.tasks y.world) (sym e)
        (Effect-Inv i _ s.tasks s.world _ inv
          (advance-Effect A M target (holders i) now (s.tasks i) s.world))
  Step-Inv s t (moves w q le d e) inv =
      subst (λ y. Inv A holders y.tasks y.world) (sym e)
        (calm s.tasks s.tasks s.world w inv q le
          (λ j. λ p. λ a. (p, d j (owns-is_resting (s.tasks j) p) a)) inv.good inv.clear)

  pub Reach-Inv :
      (w : World) (s : System A) → Reach A target holders w s → Inv A holders s.tasks s.world
  Reach-Inv w _ here = record {
    good = λ i. tt;
    clear = λ i. λ left. λ o. λ e. absurd (cc e);
    named = λ i. λ p. absurd (cc p);
    unique = λ i. λ j. λ p. absurd (cc p);
  }
  Reach-Inv w _ (next {s} {t} r st) = Step-Inv s t st (Reach-Inv w s r)
