-- ===== src/K8s/Drain/Run/Safety.antt =====
-- What a drain may do to the pods of the node, and what its summary says of them.
use roder.Prelude.{
  refl, length, ◌+◌, ◌≤◌, ℕ, ◌≡◌, ◌≢◌, String, true, Option, none, some, List, [], ◌∷◌, ◌++◌, ok,
  err, flat_map, All, is_empty, inl, inr, Bool-cases, arith,
}
use roder.Core.Drain.{DrainSummary, DrainOptions, DrainBlocker}
use roder.K8s.Pod.{Pod}
use roder.K8s.Drain.{skipped_pod_count, is_evictable, drain_blockers}
use roder.K8s.Drain.Blockers.{Agreed, drain_blockers-evictable}
use roder.K8s.Drain.Cluster.{Cluster}
use roder.K8s.Drain.Run.{Ending, Progress, drain_pods}

-- Each evictable pod of the list is one that the user agreed to lose.
abbrev pub AllAgreed : DrainOptions → List Pod → Type 0
AllAgreed options = All (λ pod. is_evictable pod ≡ true → Agreed pod options)

append-empty :
    (xs ys : List DrainBlocker) → is_empty (xs ++ ys) ≡ true → (xs ≡ []) × (is_empty ys ≡ true)
append-empty [] ys h = (refl, h)
append-empty (x ∷ xs) ys h = absurd (ground (arith, h))

unblocked-AllAgreed :
    (options : DrainOptions) (pods : List Pod)
    → is_empty (flat_map (λ pod. drain_blockers pod options) pods) ≡ true
    → AllAgreed options pods
unblocked-AllAgreed options [] h = tt
unblocked-AllAgreed options (pod ∷ pods) h =
    let k = append-empty (drain_blockers pod options) _ h in
    ((λ e. (drain_blockers-evictable pod options e).0 k.0), unblocked-AllAgreed options pods k.1)

module _ (C : Cluster) where
  -- A drain touches the cluster only when every evictable pod of the node is one that the user
  -- agreed to lose: if the world after the drain of these pods is another than before, no pod of
  -- the list that would be evicted lacks an owner without `force`, or uses emptyDir storage
  -- without `delete_emptydir_data`.
  pub drain_pods-AllAgreed :
      (fuel : ℕ) (node : String) (o : DrainOptions) (deadline : Option ℕ) (pods : List Pod)
      (p : Progress C)
      → ((drain_pods C fuel node o deadline pods p).1.world ≢ p.world)
      → AllAgreed o pods
  unfolding drain_pods
  drain_pods-AllAgreed fuel node o deadline pods p n =
      elim (Bool-cases (is_empty (flat_map (λ pod. drain_blockers pod o) pods))) [
        | inl e ↦ unblocked-AllAgreed o pods e
        | inr e ↦ absurd (n (rw e refl))
      ]

  -- A summary of the drain of these pods: those skipped, and no more evicted than there were.
  abbrev pub Accounts : List Pod → Ending C × Progress C → Type 0
  Accounts pods (none, p) = Unit
  Accounts pods (some (err e), p) = Unit
  Accounts pods (some (ok s), p) =
      (s.skipped ≡ skipped_pod_count pods) × (s.evicted + s.skipped ≤ length pods)

  abbrev Fits : List Pod → DrainSummary → Type 0
  Fits pods s = (s.skipped ≡ skipped_pod_count pods) × (s.evicted + s.skipped ≤ length pods)
