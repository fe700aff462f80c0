-- ===== src/K8s/Drain/Reboot.antt =====
-- `DrainSession::wait_for_node_reboot` of crates/k8s/src/backend/drain.rs. Time is in milliseconds; the
-- loop takes fuel, and no result says that it ran out.
pub mod Seen
mod Tests
use roder.Prelude.{
  ℕ, zero, suc, ◌+◌, ◌≤◌, ◌≡◌, String, str_append, Bool, true, false, not, ◌||◌, Option, none, some,
  List, [], ◌∷◌, ltb, ◌==◌, string_eq, if◌then◌else◌, Result, ok, err,
}
use roder.K8s.Errors.{KubeError, text, classify_kube_error, not_found, retryable, permanent}

-- The types and statuses of the conditions of a node, and the boot id of its node info.
pub record Node : Type 0 where
  pub conditions : Option (List (String × String))
  pub boot_id : Option String

pub record NodeApi : Type 1 where
  pub World : Type 0
  pub now : World → ℕ × World
  pub sleep : ℕ → World → World
  pub get_node : String → World → Result Node KubeError × World

unfoldable pub status_of_ready : List (String × String) → Bool
status_of_ready [] = false
status_of_ready ((type, status) ∷ cs) =
    let rest = status_of_ready cs in if type == "Ready" then status == "True" else rest

abbrev conditions_ready : Option (List (String × String)) → Bool
conditions_ready none = false
conditions_ready (some cs) = status_of_ready cs

unfoldable pub is_ready : Node → Bool
is_ready node = conditions_ready node.conditions

abbrev differs : Option String → String → Bool
differs none before = false
differs (some id) before = not (id == before)

unfoldable pub boot_changed : Option String → Node → Bool
boot_changed none node = false
boot_changed (some before) node = differs node.boot_id before

-- One look at the node: the wait is over, or it goes on with whether the node has been not ready.
pub data Look : Type 0 where
  over : Result (Unit {0}) String → Look
  again : Bool → Look

unfoldable pub look : Option String → Bool → Result Node KubeError → Look
look before saw_not_ready (err e) = elim (classify_kube_error e) [
  | permanent ↦ over (err (text e))
  | not_found ↦ again saw_not_ready
  | retryable ↦ again saw_not_ready
]
look before saw_not_ready (ok node) =
    if not (is_ready node)
    then again true
    else if saw_not_ready || boot_changed before node
    then over (ok tt)
    else again saw_not_ready

module _ (N : NodeApi) where
  open N use {World, now, sleep, get_node}

  unfoldable pub reboot_loop :
      ℕ → String → Option String → ℕ → Bool → World → Option (Result (Unit {0}) String) × World
  reboot_loop zero name before deadline saw w = (none, w)
  reboot_loop (suc fuel) name before deadline saw w =
      let (t, w1) = now w in
      if not (ltb t deadline)
      then (
        some (
            err (
              str_append "node " (
                str_append name
                  " did not complete a NotReady-to-Ready reboot cycle before timeout"))),
        w1,
      )
      else let (r, w2) = get_node name w1 in
        elim (look before saw r) [
          | over result ↦ (some result, w2)
          | again saw' ↦ reboot_loop fuel name before deadline saw' (sleep 2000 w2)
        ]

  unfoldable pub wait_for_node_reboot :
      ℕ → String → Option String → ℕ → World → Option (Result (Unit {0}) String) × World
  unfolding reboot_loop
  wait_for_node_reboot fuel name before timeout w =
      let (t, w1) = now w in reboot_loop fuel name before (t + timeout) false w1
