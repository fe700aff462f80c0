-- ===== src/K8s/Drain/Reboot/Seen.antt =====
-- A reboot is reported only when it has been seen (crates/k8s/src/backend/drain.rs).
use roder.Prelude.{
  ℕ, zero, suc, String, ◌≡◌, ◌≢◌, refl, true, false, Option, some, Result, ok, err, ltb, arith,
  Bool-cases, inl, inr,
}
use roder.K8s.Errors.{
  KubeError, classify_kube_error, ApiErrorDisposition, not_found, retryable, permanent, text,
}
use roder.K8s.Drain.Reboot.{
  Node, NodeApi, is_ready, boot_changed, Look, over, again, look, reboot_loop, wait_for_node_reboot,
}

-- An answer that shows no reboot: an error, or a node that is ready, with the same boot id if the
-- one before is known.
abbrev pub IsUnchanged : Option String → Result Node KubeError → Type 0
IsUnchanged before (err e) = Unit
IsUnchanged before (ok node) = (is_ready node ≡ true) × (boot_changed before node ≡ false)

-- The wait is not over with success, and no time has been seen when the node was not ready.
abbrev GoesOn : Look → Type 0
GoesOn (over result) = result ≢ ok tt
GoesOn (again saw) = saw ≡ false

look-GoesOn :
    (before : Option String) (r : Result Node KubeError)
    → IsUnchanged before r
    → GoesOn (look before false r)
unfolding look
look-GoesOn before (ok node) h = rw (h.0, h.1) refl
look-GoesOn before (err e) h = by_class (classify_kube_error e)
  where
    by_class :
        (c : ApiErrorDisposition)
        → GoesOn (elim c [
          | permanent ↦ over (err (text e))
          | not_found ↦ again false
          | retryable ↦ again false
        ])
    by_class permanent = cc
    by_class not_found = refl
    by_class retryable = refl

module _ (N : NodeApi) where
  abbrev Unconfirmed : Option (Result (Unit {0}) String) × N.World → Type 0
  Unconfirmed r = r.0 ≢ some (ok tt)

  reboot_loop-Unconfirmed :
      (fuel : ℕ) (name : String) (before : Option String) (deadline : ℕ) (w : N.World)
      → ((v : N.World) → IsUnchanged before (N.get_node name v).0)
      → Unconfirmed (reboot_loop N fuel name before deadline false w)
  unfolding reboot_loop
  reboot_loop-Unconfirmed zero name before deadline w h = cc
  reboot_loop-Unconfirmed (suc fuel) name before deadline w h =
      let w1 = (N.now w).1 in
      let r = N.get_node name w1 in
      elim (Bool-cases (ltb (N.now w).0 deadline)) [
        | inr e ↦ rw e (cc)
        | inl e ↦ rw e (
            next (look before false r.0) (look-GoesOn before r.0 (h w1))
              (reboot_loop-Unconfirmed fuel name before deadline (N.sleep 2000 r.1) h))
      ]
    where
      next :
          (l : Look)
          → GoesOn l
          → Unconfirmed (
              reboot_loop N fuel name before deadline false
                (N.sleep 2000 (N.get_node name (N.now w).1).1))
          → Unconfirmed (elim l [
            | over result ↦ (some result, (N.get_node name (N.now w).1).1)
            | again saw' ↦
                reboot_loop N fuel name before deadline saw'
                  (N.sleep 2000 (N.get_node name (N.now w).1).1)
          ])
      next (over result) g k = λ e. g (ground (arith, e))
      next (again saw) g k = rw g k

  -- A node that is never seen not ready, nor with another boot id than the known one, is not reported
  -- as rebooted.
  pub wait_for_node_reboot-IsUnchanged :
      (fuel : ℕ) (name : String) (before : Option String) (timeout : ℕ) (w : N.World)
      → ((v : N.World) → IsUnchanged before (N.get_node name v).0)
      → ((wait_for_node_reboot N fuel name before timeout w).0 ≢ some (ok tt))
  unfolding wait_for_node_reboot
  wait_for_node_reboot-IsUnchanged fuel name before timeout w h =
      reboot_loop-Unconfirmed fuel name before _ _ h
