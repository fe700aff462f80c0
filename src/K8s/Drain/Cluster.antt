-- ===== src/K8s/Drain/Cluster.antt =====
-- What the drain calls: the API server, the clock, the timer and the cancel flag that others set.
-- `World` is everything outside of the drain; each call may change it.
use roder.Prelude.{ℕ, ◌+◌, ◌*◌, ◌≤◌, String, ◌≡◌, Bool, Option, some, List, Result}
use roder.K8s.Errors.{KubeError}
use roder.K8s.Pod.{Pod}

pub record Cluster : Type 1 where
  pub World : Type 0
  -- `cancel.load`
  pub load_cancel : World → Bool × World
  -- `Instant::now`, in milliseconds, and `Instant::checked_add` of seconds
  pub now : World → ℕ × World
  pub checked_add : ℕ → ℕ → Option ℕ
  pub sleep : ℕ → World → World
  -- `tokio::time::timeout`: nothing if the time has passed before the call is done
  pub timeout : (A : Type 0) → ℕ → (World → A × World) → World → Option A × World
  -- a merge patch of `spec.unschedulable`, and the pods of a node
  pub patch_unschedulable : String → Bool → World → Result (Unit {0}) KubeError × World
  pub list_pods : String → World → Result (List Pod) KubeError × World
  -- namespace, name and grace period
  pub delete_pod : String → String → Option ℕ → World → Result (Unit {0}) KubeError × World
  pub evict_pod : String → String → Option ℕ → World → Result (Unit {0}) KubeError × World

-- A monotonic clock: reading it tells the time and changes nothing, no call sets it back, a sleep
-- lasts as long as it was asked to, and a deadline is not later than the seconds say.
pub record IsMonotonic (C : Cluster) : Type 1 where
  pub time : C.World → ℕ
  pub now_lem : (w : C.World) → C.now w ≡ (time w, w)
  pub checked_add-le : (t seconds d : ℕ) → C.checked_add t seconds ≡ some d → d ≤ t + 1000 * seconds
  pub load_cancel-le : (w : C.World) → time w ≤ time (C.load_cancel w).1
  pub sleep-le : (d : ℕ) (w : C.World) → time w + d ≤ time (C.sleep d w)
  pub delete_pod-le :
      (ns name : String) (grace : Option ℕ) (w : C.World)
      → time w ≤ time (C.delete_pod ns name grace w).1
  pub evict_pod-le :
      (ns name : String) (grace : Option ℕ) (w : C.World)
      → time w ≤ time (C.evict_pod ns name grace w).1
  pub list_pods-le : (name : String) (w : C.World) → time w ≤ time (C.list_pods name w).1
  pub timeout-le :
      (A : Type 0) (d : ℕ) (f : C.World → A × C.World)
      → ((w : C.World) → time w ≤ time (f w).1)
      → (w : C.World) → time w ≤ time (C.timeout A d f w).1
