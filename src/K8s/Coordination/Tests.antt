-- ===== src/K8s/Coordination/Tests.antt =====
-- A server in memory, on which the theorems about the lease are applied.
use roder.Prelude.{
  ℕ, ◌+◌, String, ◌≡◌, ◌⊎◌, inl, inr, refl, sym, ap, true, false, Option, none, some, List, [], ◌∷◌,
  Result, ok, err, arith, nat_beq, nat_beq_iff, Bool-cases,
}
use roder.Prelude.Texts.{split_once}
use roder.K8s.Errors.{KubeError, api}
use roder.K8s.Pod.{Pod}
use roder.K8s.Coordination.{
  Lease, SpecPatch, held, begin, after_get, after_write, new_lease, holder_of, holder_pod_exists,
  pods, roder_pod, busy, AcquireError,
}
use roder.K8s.Coordination.Server.{LeaseApi, IsOptimistic, IsReached, Same, Wrote, Failed, merge}
use roder.K8s.Coordination.Tasks.{
  acquiring, advance, resume, System, Reach, here, next, begins, advances, acquires, set_task,
  resting,
}
use roder.K8s.Coordination.Effects.{holder_at, owns}
use roder.K8s.Coordination.Invariant.Reads.{some-inj, of_each}
use roder.K8s.Coordination.Exclusion.{
  mutual_exclusion, Step-LockStep, LockStep, Abstracts, living, living-parts,
}
use roder.K8s.Coordination.Acquire.{acquire, acquire-Ends}
use roder.K8s.Coordination.Acquire.Outcomes.{acquire-IsFree, acquire-busy}
use roder.K8s.Coordination.Renewals.{renew_all, three_failed, renew_all-three_failed}

ok-inj : {B : Type 0} {x y : B} → ◌≡◌ {A = Result B KubeError} (ok x) (ok y) → x ≡ y
ok-inj {x = x} e = ap (λ r. elim r [ ok y ↦ y | err z ↦ x ]) e

-- The lease, the version that it has had since it was written, and what other writes added.
record Memory : Type 0 where
  lease : Option Lease
  since : ℕ
  more : ℕ
  pods : List Pod

abbrev stamped : ℕ → Option Lease → Option Lease
stamped since none = none
stamped since (some l) = some (record l { resource_version = since })

abbrev write : Lease → Memory → Memory
write l m = record m { lease = some l; since = m.since + m.more + 1; more = 0 }

abbrev conflict : KubeError
conflict = api 409 "Conflict"

unfoldable created : Lease → Option Lease → Memory → Result (Unit {0}) KubeError × Memory
created l none m = (ok tt, write l m)
created l (some old) m = (err conflict, m)

unfoldable patched : ℕ → SpecPatch → Option Lease → Memory → Result (Unit {0}) KubeError × Memory
patched version p none m = (err conflict, m)
patched version p (some l) m = elim (nat_beq m.since version) [
  | true ↦ (ok tt, write (merge p (record l { resource_version = m.since })) m)
  | false ↦ (err conflict, m)
]

abbrev memory_api : LeaseApi
memory_api = record {
  World = Memory;
  get_opt = λ m. (ok (stamped m.since m.lease), m);
  list_pods = λ m. (ok m.pods, m);
  create = λ l. λ m. created l m.lease m;
  patch = λ v. λ p. λ m. patched v p m.lease m;
  stored = λ m. stamped m.since m.lease;
  listed = λ m. m.pods;
  revision = λ m. m.since + m.more;
}

stamped-version :
    (since : ℕ) (o : Option Lease) (l : Lease)
    → stamped since o ≡ some l
    → since ≡ l.resource_version
stamped-version since none l e = absurd (cc e)
stamped-version since (some k) l e = ap (λ x. x.resource_version) (some-inj e)

memory-Same : (m : Memory) → Same memory_api m m
memory-Same m = record { lease = refl; pods = refl; later = omega arith }

write-Wrote : (l : Lease) (m : Memory) → Wrote memory_api l m (write l m)
write-Wrote l m = record {
  lease = ap (λ v. some (record l { resource_version = v })) (omega arith);
  pods = refl;
  later = omega arith;
}

created-cases :
    (l : Lease) (o : Option Lease) (m : Memory)
    → m.lease ≡ o
    → (Same memory_api m (created l o m).1 × Failed (created l o m).0)
      ⊎ ((stamped m.since m.lease ≡ none) × Wrote memory_api l m (created l o m).1)
unfolding created
created-cases l none m e = inr (ap (stamped m.since) e, write-Wrote l m)
created-cases l (some k) m e = inl (memory-Same m, tt)

patched-cases :
    (v : ℕ) (p : SpecPatch) (o : Option Lease) (m : Memory)
    → m.lease ≡ o
    → (Same memory_api m (patched v p o m).1 × Failed (patched v p o m).0)
      ⊎ ((l : Lease) × (stamped m.since m.lease ≡ some l)
          × (l.resource_version ≡ v)
          × Wrote memory_api (merge p l) m (patched v p o m).1)
unfolding patched
patched-cases v p none m e = inl (memory-Same m, tt)
patched-cases v p (some k) m e = elim (Bool-cases (nat_beq m.since v)) [
  | inl q ↦
      rw (q, patched)
        (inr (
          record k { resource_version = m.since },
          ap (stamped m.since) e,
          (nat_beq_iff m.since v).0 q,
          write-Wrote (merge p (record k { resource_version = m.since })) m,
        ))
  | inr q ↦ rw (q, patched) (inl (memory-Same m, tt))
]

memory-IsOptimistic : IsOptimistic memory_api
memory-IsOptimistic = record {
  version-le = λ m. λ l. λ e. let q = stamped-version m.since m.lease l e in omega arith;
  get_opt-Same = memory-Same;
  get_opt-stored = λ m. λ o. λ e. sym (ok-inj e);
  list_pods-Same = memory-Same;
  list_pods-listed = λ m. λ ps. λ e. sym (ok-inj e);
  create-cases = λ l. λ m. created-cases l m.lease m refl;
  patch-cases = λ v. λ p. λ m. patched-cases v p m.lease m refl;
}

created-ok :
    (l : Lease) (o : Option Lease) (m : Memory)
    → stamped m.since o ≡ none
    → (created l o m).0 ≡ ok tt
unfolding created
created-ok l none m e = refl
created-ok l (some k) m e = absurd (cc e)

patched-ok :
    (p : SpecPatch) (l : Lease) (o : Option Lease) (m : Memory)
    → stamped m.since o ≡ some l
    → (patched l.resource_version p o m).0 ≡ ok tt
unfolding patched
patched-ok p l none m e = absurd (cc e)
patched-ok p l (some k) m e =
    rw ((nat_beq_iff m.since l.resource_version).1 (stamped-version m.since (some k) l e), patched)
      refl

memory-IsReached : IsReached memory_api
memory-IsReached = record {
  get_opt-ok = λ m. refl;
  list_pods-ok = λ m. refl;
  create-ok = λ l. λ m. created-ok l m.lease m;
  patch-ok = λ p. λ l. λ m. patched-ok p l m.lease m;
}

-- One pod, running, and no lease.
abbrev pod_a : Pod
pod_a = record {
  metadata = record {
    name = some "roder-a";
    namespace = some "roder";
    uid = some "1";
    deletion_timestamp = none;
    owner_references = none;
    annotations = none;
  };
  spec = some (record { node_name = some "n1"; volumes = none });
  status = some (record {
    conditions = none;
    pod_ip = some "10.0.0.1";
    phase = some "Running";
    reason = none;
    container_statuses = none;
    init_container_statuses = none;
  });
}

abbrev blank_memory : Memory
blank_memory = record { lease = none; since = 0; more = 0; pods = pod_a ∷ [] }

abbrev both_a : ℕ → String
both_a i = "roder-a/1"

abbrev start : System memory_api
start = record { tasks = λ _. resting; world = blank_memory }

-- Task 0 asks for the lease, which is not there, and creates it.
abbrev asks : System memory_api
asks = record start { tasks = set_task 0 (acquiring begin) start.tasks }

abbrev goes : System memory_api → System memory_api
goes s = record {
  tasks = set_task 0 (advance memory_api 7 "n2" (both_a 0) (s.tasks 0) s.world).0 s.tasks;
  world = (advance memory_api 7 "n2" (both_a 0) (s.tasks 0) s.world).1;
}

abbrev has_lease : System memory_api
has_lease = goes (goes asks)

has_lease-Reach : Reach memory_api "n2" both_a blank_memory has_lease
has_lease-Reach =
    next (next (next here (begins 0 (acquiring begin) acquires refl)) (advances 0 7 refl))
      (advances 0 7 refl)

mutual_exclusion_example :
    (◌≡◌ {A = ℕ} 0 0) × (holder_at memory_api has_lease.world ≡ some "roder-a/1")
unfolding advance resume after_get after_write created new_lease holder_of holder_pod_exists pods
    roder_pod split_once
mutual_exclusion_example =
    mutual_exclusion memory_api memory-IsOptimistic "n2" both_a blank_memory has_lease 0 0 held held
      has_lease-Reach refl refl refl refl

no_owner_yet : (j : ℕ) → living memory_api both_a (goes asks) j ≡ true → ⊥
unfolding advance resume after_get
no_owner_yet j e =
    let none_owns =
      of_each (λ k. λ t. owns t ≡ false) 0 ((goes asks).tasks 0) asks.tasks refl
        (of_each (λ k. λ t. owns t ≡ false) 0 (acquiring begin) start.tasks refl (λ k. refl)) j in
    cc (none_owns, (living-parts memory_api both_a (goes asks) j e).0)

Step-LockStep_example :
    (o : Option ℕ) × LockStep none o × Abstracts memory_api both_a (goes (goes asks)) o
unfolding advance resume after_get after_write created new_lease holder_of living
Step-LockStep_example =
    Step-LockStep memory_api memory-IsOptimistic "n2" both_a blank_memory (goes asks) has_lease none
      (next (next here (begins 0 (acquiring begin) acquires refl)) (advances 0 7 refl)) no_owner_yet
      (advances 0 7 refl)

acquire-Ends_example :
    (r : Result (Unit {0}) AcquireError) × (v : Memory) × (acquire memory_api
        (λ n. n)
        "n2"
        "roder-a/1"
        blank_memory
      ≡ some (r, v))
acquire-Ends_example = acquire-Ends memory_api (λ n. n) "n2" "roder-a/1" blank_memory

acquire-IsFree_example :
    (w : Memory) × (acquire memory_api (λ n. n) "n2" "roder-a/1" blank_memory ≡ some (ok tt, w))
    × (holder_at memory_api w ≡ some "roder-a/1")
acquire-IsFree_example =
    acquire-IsFree memory_api memory-IsOptimistic memory-IsReached (λ n. n) "n2" "roder-a/1"
      blank_memory (inl refl)

-- The lease that the pod itself has left behind.
abbrev left_behind : Memory
left_behind = write (new_lease 7 "n2" "roder-a/1") blank_memory

acquire-busy_example :
    (w : Memory) × (acquire memory_api (λ n. n) "n2" "roder-a/1" left_behind ≡ some (err busy, w))
    × (stamped w.since w.lease ≡ stamped left_behind.since left_behind.lease)
unfolding new_lease holder_of holder_pod_exists pods roder_pod split_once
acquire-busy_example =
    acquire-busy memory_api memory-IsOptimistic memory-IsReached (λ n. n) "n2" "roder-a/1"
      left_behind "roder-a/1" refl refl

renew_all-three_failed_example :
    (renew_all (true ∷ false ∷ false ∷ false ∷ true ∷ []) held).cancelled
    ≡ three_failed (true ∷ false ∷ false ∷ false ∷ true ∷ [])
renew_all-three_failed_example = renew_all-three_failed (true ∷ false ∷ false ∷ false ∷ true ∷ [])
