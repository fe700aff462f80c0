-- ===== src/K8s/Drain/Reboot/Tests.antt =====
-- A node that never goes away, and one that reboots.
use roder.Prelude.{ℕ, ◌+◌, ltb, if◌then◌else◌, String, ◌≡◌, ◌≢◌, refl, some, [], ◌∷◌, ok}
use roder.K8s.Drain.Reboot.{
  Node, NodeApi, status_of_ready, is_ready, boot_changed, look, reboot_loop, wait_for_node_reboot,
}
use roder.K8s.Drain.Reboot.Seen.{IsUnchanged, wait_for_node_reboot-IsUnchanged}

abbrev node : String → Node
node status = record { conditions = some (("Ready", status) ∷ []); boot_id = some "b1" }

-- The world is the clock; between 3000 and 5000 milliseconds the second node is down.
abbrev steady : NodeApi
steady = record {
  World = ℕ;
  now = λ w. (w, w);
  sleep = λ d w. w + d;
  get_node = λ name w. (ok (node "True"), w);
}

abbrev rebooting : NodeApi
rebooting = record {
  World = ℕ;
  now = λ w. (w, w);
  sleep = λ d w. w + d;
  get_node = λ name w.
      (ok (node (if ltb 3000 w then (if ltb w 5000 then "False" else "True") else "True")), w);
}

reboots : wait_for_node_reboot rebooting 9 "n1" (some "b1") 300000 0 ≡ (some (ok tt), 6000)
unfolding wait_for_node_reboot reboot_loop look is_ready boot_changed status_of_ready
reboots = refl

steady-IsUnchanged : (v : ℕ) → IsUnchanged (some "b1") (steady.get_node "n1" v).0
unfolding is_ready status_of_ready boot_changed
steady-IsUnchanged v = (refl, refl)

wait_for_node_reboot-IsUnchanged_example :
    (wait_for_node_reboot steady 151 "n1" (some "b1") 300000 0).0 ≢ some (ok tt)
wait_for_node_reboot-IsUnchanged_example =
    wait_for_node_reboot-IsUnchanged steady 151 "n1" (some "b1") 300000 0 steady-IsUnchanged
