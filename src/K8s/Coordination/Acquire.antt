-- ===== src/K8s/Coordination/Acquire.antt =====
-- `acquire` as a whole (crates/k8s/src/coordination.rs), when no one else acts between its calls.
pub mod Outcomes
use roder.Prelude.{
  ℕ, zero, suc, ◌+◌, ◌*◌, ◌<◌, ◌≤◌, String, ◌≡◌, ◌⊎◌, inl, inr, refl, ◌∙◌, subst, Option, none,
  some, Result, ok, err, arith, Bool-cases, Option-cases,
}
use roder.K8s.Errors.{KubeError}
use roder.K8s.Pod.{Pod}
use roder.K8s.Coordination.{
  is_conflict, List, Lease, holder_of, holder_pod_exists, pods, new_lease, take_over, AcquireError,
  Acquiring, fetching, checking, writing, Next, going_on, ended, next_round, begin, after_get,
  after_list, after_write,
}
use roder.K8s.Coordination.Server.{LeaseApi}
use roder.K8s.Coordination.Tasks.{resume}

-- The calls that may be left, at most.
abbrev pub calls_left : Acquiring → ℕ
calls_left (fetching left) = 3 * left + 3
calls_left (checking left l h) = 3 * left + 2
calls_left (writing left o) = 3 * left + 1

module _ (A : LeaseApi) (clock : ℕ → ℕ) (target holder : String) where
  open A use {World}

  abbrev pub Outcome : Type 0
  Outcome = Option (Result (Unit {0}) AcquireError × World)

  -- The calls one after the other; `clock` is the time of each.
  unfoldable pub run : ℕ → Acquiring → World → Outcome
  run zero a w = none
  run (suc fuel) a w = elim (resume A (clock fuel) target holder a w).0 [
    | going_on b ↦ run fuel b (resume A (clock fuel) target holder a w).1
    | ended r ↦ some (r, (resume A (clock fuel) target holder a w).1)
  ]

  unfoldable pub acquire : World → Outcome
  acquire w = run 12 begin w

abbrev next_left : Next → ℕ
next_left (going_on a) = calls_left a
next_left (ended r) = 0

after_get-calls_left :
    (left : ℕ) (r : Result (Option Lease) KubeError) → next_left (after_get left r) < 3 * left + 3
unfolding after_get
after_get-calls_left left (err e) = omega arith
after_get-calls_left left (ok none) = omega arith
after_get-calls_left left (ok (some l)) = elim (Option-cases (holder_of l)) [
  | inl e ↦ rw e (omega arith)
  | inr (h, e) ↦ rw e (omega arith)
]

after_list-calls_left :
    (left : ℕ) (l : Lease) (h : String) (r : Result (List Pod) KubeError)
    → next_left (after_list left l h r) < 3 * left + 2
unfolding after_list
after_list-calls_left left l h (err e) = omega arith
after_list-calls_left left l h (ok ps) = elim (Bool-cases (holder_pod_exists h (pods ps))) [
  | inl e ↦ rw e (omega arith)
  | inr e ↦ rw e (omega arith)
]

next_round-calls_left : (left : ℕ) → next_left (next_round left) < 3 * left + 1
next_round-calls_left zero = omega arith
next_round-calls_left (suc left) = omega arith

after_write-calls_left :
    (left : ℕ) (r : Result (Unit {0}) KubeError) → next_left (after_write left r) < 3 * left + 1
unfolding after_write
after_write-calls_left left (ok done) = omega arith
after_write-calls_left left (err e) = elim (Bool-cases (is_conflict e)) [
  | inl q ↦ rw q (next_round-calls_left left)
  | inr q ↦ rw q (omega arith)
]

module _ (A : LeaseApi) (clock : ℕ → ℕ) (target holder : String) where
  open A use {World, stored}

  resume-calls_left :
      (now : ℕ) (a : Acquiring) (w : World)
      → next_left (resume A now target holder a w).0 < calls_left a
  unfolding resume
  resume-calls_left now (fetching left) w = after_get-calls_left left (A.get_opt w).0
  resume-calls_left now (checking left l h) w = after_list-calls_left left l h (A.list_pods w).0
  resume-calls_left now (writing left none) w =
      after_write-calls_left left (A.create (new_lease now target holder) w).0
  resume-calls_left now (writing left (some l)) w =
      after_write-calls_left left (A.patch l.resource_version (take_over now holder l) w).0

  -- `run` after one answer.
  pub run-going_on :
      (fuel : ℕ) (a b : Acquiring) (w : World)
      → (resume A (clock fuel) target holder a w).0 ≡ going_on b
      → run A clock target holder (suc fuel) a w
        ≡ run A clock target holder fuel b (resume A (clock fuel) target holder a w).1
  unfolding run
  run-going_on fuel a b w e = rw (e, run) refl

  pub run-ended :
      (fuel : ℕ) (a : Acquiring) (r : Result (Unit {0}) AcquireError) (w : World)
      → (resume A (clock fuel) target holder a w).0 ≡ ended r
      → run A clock target holder (suc fuel) a w
        ≡ some (r, (resume A (clock fuel) target holder a w).1)
  unfolding run
  run-ended fuel a r w e = rw (e, run) refl

  abbrev Ends : Outcome A clock target holder → Type 0
  Ends o = (r : Result (Unit {0}) AcquireError) × (w : World) × (o ≡ some (r, w))

  Next-cases :
      (n : Next)
      → ((b : Acquiring) × (n ≡ going_on b))
        ⊎ ((r : Result (Unit {0}) AcquireError) × (n ≡ ended r))
  Next-cases (going_on b) = inl (b, refl)
  Next-cases (ended r) = inr (r, refl)

  run-Ends :
      (fuel : ℕ) (a : Acquiring) (w : World)
      → calls_left a ≤ fuel
      → Ends (run A clock target holder fuel a w)
  run-Ends zero a w h = let k = resume-calls_left 0 a w in absurd (omega arith)
  run-Ends (suc fuel) a w h =
      let n = (resume A (clock fuel) target holder a w).0 in
      let w1 = (resume A (clock fuel) target holder a w).1 in
      let k = resume-calls_left (clock fuel) a w in
      elim (Next-cases n) [
        | inl (b, e) ↦
            let less = subst (λ x. next_left x < calls_left a) e k in
            let (r, v, q) = run-Ends fuel b w1 (omega arith) in
            (r, v, run-going_on fuel a b w e ∙ q)
        | inr (r, e) ↦ (r, w1, run-ended fuel a r w e)
      ]

  -- Whatever the server answers, twelve calls are enough for `acquire` to return.
  pub acquire-Ends :
      (w : World)
      → (r : Result (Unit {0}) AcquireError) × (v : World) × (acquire A clock target holder w
          ≡ some (r, v))
  unfolding acquire
  acquire-Ends w = run-Ends 12 begin w (omega arith)
