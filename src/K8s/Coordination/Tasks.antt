-- ===== src/K8s/Coordination/Tasks.antt =====
-- The tasks of all replicas that want, hold or release the lease of one node, and every interleaving
-- of their calls (crates/k8s/src/coordination.rs).
use roder.Prelude.{
  ◌≤◌, ℕ, String, ◌≡◌, Bool, true, false, Option, none, some, Result, ok, err, nat_beq,
  if◌then◌else◌,
}
use roder.K8s.Errors.{KubeError}
use roder.K8s.Coordination.{
  Lease, holder_of, is_held_by, holder_pod_exists, pods, new_lease, take_over, renewal, give_up,
  Acquiring, Next, going_on, fetching, checking, writing, ended, begin, after_get, after_list,
  after_write, Renewing, idle, reading, stamping, Holding, held, renewed, Releasing, looking,
  clearing,
}
use roder.K8s.Coordination.Server.{LeaseApi}

-- A task; `dropped` is a renewal that outlives a lease that was dropped without a release.
pub data Task : Type 0 where
  resting : Task
  acquiring : Acquiring → Task
  holding : Holding → Task
  dropped : Renewing → Task
  releasing : Releasing → Task

-- `Ok(self.held(name))`, or an error for the caller.
abbrev pub settled : Next → Task
settled (going_on a) = acquiring a
settled (ended (ok done)) = holding held
settled (ended (err e)) = resting

abbrev pub is_ok : Result (Unit {0}) KubeError → Bool
is_ok (ok done) = true
is_ok (err e) = false

-- What the renewal does with the lease that it read: `none` is the error `Busy`.
unfoldable pub to_stamp : String → Result (Option Lease) KubeError → Option Lease
to_stamp holder (err e) = none
to_stamp holder (ok none) = none
to_stamp holder (ok (some l)) = if is_held_by (holder_of l) holder then some l else none

abbrev pub after_look : Option Lease → Task
after_look none = resting
after_look (some l) = releasing (clearing l)

abbrev pub after_read : Option Lease → Holding → Task
after_read none h = holding (renewed false h)
after_read (some l) h = holding (record h { renewing = stamping l })

abbrev pub after_dropped_read : Option Lease → Task
after_dropped_read none = resting
after_dropped_read (some l) = dropped (stamping l)

-- What a task may begin: an acquisition, which may be dropped at an await, a renewal, a release, or a drop.
pub data Begins : Task → Task → Type 0 where
  acquires : Begins resting (acquiring begin)
  abandons : (a : Acquiring) → Begins (acquiring a) resting
  ticks :
      (h : Holding)
      → h.renewing ≡ idle
      → Begins (holding h) (holding (record h { renewing = reading }))
  releases : (h : Holding) → h.renewing ≡ idle → Begins (holding h) (releasing looking)
  drops : (h : Holding) → Begins (holding h) (dropped h.renewing)

abbrev pub set_task : ℕ → Task → (ℕ → Task) → ℕ → Task
set_task i t tasks j = if nat_beq i j then t else tasks j

abbrev pub is_resting : Task → Bool
is_resting resting = true
is_resting (acquiring a) = false
is_resting (holding h) = false
is_resting (dropped r) = false
is_resting (releasing r) = false

module _ (A : LeaseApi) where
  open A use {World}

  -- `acquire` from one await to the next.
  unfoldable pub resume : ℕ → String → String → Acquiring → World → Next × World
  resume now target holder (fetching left) w = let (r, w1) = A.get_opt w in (after_get left r, w1)
  resume now target holder (checking left l h) w =
      let (r, w1) = A.list_pods w in (after_list left l h r, w1)
  resume now target holder (writing left none) w =
      let (r, w1) = A.create (new_lease now target holder) w in (after_write left r, w1)
  resume now target holder (writing left (some l)) w =
      let (r, w1) = A.patch l.resource_version (take_over now holder l) w in
      (after_write left r, w1)

  unfoldable pub resume_holding : ℕ → String → Holding → Renewing → World → Task × World
  resume_holding now holder h idle w = (holding h, w)
  resume_holding now holder h reading w =
      let (r, w1) = A.get_opt w in (after_read (to_stamp holder r) h, w1)
  resume_holding now holder h (stamping l) w =
      let (r, w1) = A.patch l.resource_version (renewal now) w in
      (holding (renewed (is_ok r) h), w1)

  unfoldable pub resume_dropped : ℕ → String → Renewing → World → Task × World
  resume_dropped now holder idle w = (resting, w)
  resume_dropped now holder reading w =
      let (r, w1) = A.get_opt w in (after_dropped_read (to_stamp holder r), w1)
  resume_dropped now holder (stamping l) w =
      let (r, w1) = A.patch l.resource_version (renewal now) w in (resting, w1)

  -- `release`: errors are dropped, and so is a lease that another holds.
  unfoldable pub resume_releasing : String → Releasing → World → Task × World
  resume_releasing holder looking w =
      let (r, w1) = A.get_opt w in (after_look (to_stamp holder r), w1)
  resume_releasing holder (clearing l) w =
      let (r, w1) = A.patch l.resource_version give_up w in (resting, w1)

  -- A task from one await to the next.
  unfoldable pub advance : ℕ → String → String → Task → World → Task × World
  advance now target holder resting w = (resting, w)
  advance now target holder (acquiring a) w =
      let (n, w1) = resume now target holder a w in (settled n, w1)
  advance now target holder (holding h) w = resume_holding now holder h h.renewing w
  advance now target holder (dropped r) w = resume_dropped now holder r w
  advance now target holder (releasing r) w = resume_releasing holder r w

  -- The pod of a holder is there, as the server lists the pods.
  abbrev pub is_alive : String → World → Bool
  is_alive holder w = holder_pod_exists holder (pods (A.listed w))

  pub record System : Type 0 where
    pub tasks : ℕ → Task
    pub world : World

-- `holders` are the tasks' replicas, as "pod/uid"; tasks of one replica have the same.
module _ (A : LeaseApi) (target : String) (holders : ℕ → String) where
  pub data Step (s t : System A) : Type 0 where
    begins :
        (i : ℕ) (x : Task)
        → Begins (s.tasks i) x
        → t ≡ record s { tasks = set_task i x s.tasks }
        → Step s t
    advances :
        (i now : ℕ)
        → t ≡ record {
          tasks = set_task i (advance A now target (holders i) (s.tasks i) s.world).0 s.tasks;
          world = (advance A now target (holders i) (s.tasks i) s.world).1;
        }
        → Step s t
    -- Others act: no one else writes the lease, and the pod of a task at work, once gone, stays away.
    moves :
        (w : A.World)
        → A.stored w ≡ A.stored s.world
        → A.revision s.world ≤ A.revision w
        → ((i : ℕ)
            → is_resting (s.tasks i) ≡ false
            → is_alive A (holders i) w ≡ true
            → is_alive A (holders i) s.world ≡ true)
        → t ≡ record s { world = w }
        → Step s t

  -- From a state in which no task has begun.
  pub data Reach (w : A.World) : System A → Type 0 where
    here : Reach w (record { tasks = λ _. resting; world = w })
    next : {s t : System A} → Reach w s → Step s t → Reach w t
