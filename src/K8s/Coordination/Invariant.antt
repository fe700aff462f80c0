-- ===== src/K8s/Coordination/Invariant.antt =====
-- The invariant of all tasks and the lease (crates/k8s/src/coordination.rs): what a task has read is what
-- was stored, who may write over the lease, and whom the lease names.
pub mod Reads
pub mod Preserved
use roder.Prelude.{ℕ, ◌≤◌, String, ◌≡◌, Bool, true, false, Option, none, some, List}
use roder.K8s.Coordination.{
  Lease, holder_of, Acquiring, fetching, checking, writing, Renewing, idle, reading, stamping,
  Holding, Releasing, looking, clearing,
}
use roder.K8s.Coordination.Server.{LeaseApi}
use roder.K8s.Coordination.Tasks.{
  Task, resting, acquiring, holding, dropped, releasing, is_alive, System,
}
use roder.K8s.Coordination.Effects.{owns, Current, holder_at}

module _ (A : LeaseApi) where
  open A use {World, stored, revision}

  -- A lease that was stored once: whatever is stored with its version is it.
  pub record Known (w : World) (l : Lease) : Type 0 where
    pub version : l.resource_version ≤ revision w
    pub same : (k : Lease) → stored w ≡ some k → k.resource_version ≡ l.resource_version → k ≡ l

  abbrev pub GoodRenewing : World → Renewing → Type 0
  GoodRenewing w idle = Unit
  GoodRenewing w reading = Unit
  GoodRenewing w (stamping l) = Known w l

  abbrev pub Good : String → World → Task → Type 0
  Good holder w resting = Unit
  Good holder w (acquiring (fetching left)) = Unit
  Good holder w (acquiring (checking left l h)) = Known w l × (holder_of l ≡ some h)
  Good holder w (acquiring (writing left none)) = Unit
  Good holder w (acquiring (writing left (some l))) = Known w l
  Good holder w (holding h) = GoodRenewing w h.renewing
  Good holder w (dropped r) = GoodRenewing w r
  Good holder w (releasing looking) = Unit
  Good holder w (releasing (clearing l)) = Known w l × (holder_of l ≡ some holder)

module _ (A : LeaseApi) (holders : ℕ → String) where
  open A use {World}

  abbrev pub NoOwner : (ℕ → Task) → World → Type 0
  NoOwner tasks w = (j : ℕ) → owns (tasks j) ≡ true → is_alive A (holders j) w ≡ true → ⊥

  pub record Inv (tasks : ℕ → Task) (w : World) : Type 0 where
    pub good : (i : ℕ) → Good A (holders i) w (tasks i)
    -- who writes over the lease that is stored does not write over a living owner's
    pub clear :
        (i left : ℕ) (o : Option Lease)
        → tasks i ≡ acquiring (writing left o)
        → Current A o w
        → NoOwner tasks w
    pub named :
        (i : ℕ)
        → owns (tasks i) ≡ true
        → is_alive A (holders i) w ≡ true
        → holder_at A w ≡ some (holders i)
    pub unique :
        (i j : ℕ)
        → owns (tasks i) ≡ true
        → is_alive A (holders i) w ≡ true
        → owns (tasks j) ≡ true
        → is_alive A (holders j) w ≡ true
        → i ≡ j
