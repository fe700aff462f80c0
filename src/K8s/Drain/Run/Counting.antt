-- ===== src/K8s/Drain/Run/Counting.antt =====
-- What the summary of a drain counts.
use roder.Prelude.{
  refl, ◌∙◌, inl, inr, Bool-cases, unwrap_or, [], ◌∷◌, Bool-cases, ℕ, ◌+◌, ◌≤◌, ◌≡◌, length,
  length-append, arith,
}
use roder.Core.Drain.{DrainOptions, DrainSummary}
use roder.K8s.Pod.{Pod}
use roder.K8s.Drain.Cluster.{Cluster}
use roder.K8s.Drain.Removal.{Outcome, removed, refused, stopped, exhausted, removal_loop}
use roder.K8s.Drain.Run.{
  unwrap_or, suc, ◌∷◌, List, Option, evict_all, evict_one, Progress, Stage, completed,
  was_cancelled, ran_out, settle,
}

abbrev pub settled_pods : DrainSummary → ℕ
settled_pods s = s.evicted + length s.failed

module _ (C : Cluster) where
  -- How much a stage may have added to the count of settled pods, of `n` pods.
  abbrev pub Adds : ℕ → ℕ → Stage × Progress C → Type 0
  Adds start n (completed, p) = settled_pods p.summary ≡ start + n
  Adds start n (was_cancelled, p) = settled_pods p.summary ≤ start + n
  Adds start n (ran_out, p) = settled_pods p.summary ≤ start + n

  settle-Adds :
      (pod : Pod) (total : ℕ) (o : Outcome) (p : Progress C)
      → Adds (settled_pods p.summary) 1 (settle C pod total o p)
  unfolding settle
  settle-Adds pod total removed p = omega arith
  settle-Adds pod total (refused e) p = omega (arith, length-append p.summary.failed)
  settle-Adds pod total stopped p = omega arith
  settle-Adds pod total exhausted p = omega arith

  evict_one-Adds :
      (fuel : ℕ) (options : DrainOptions) (deadline : Option ℕ) (total : ℕ) (pod : Pod)
      (p : Progress C)
      → Adds (settled_pods p.summary) 1 (evict_one C fuel options deadline total pod p)
  unfolding evict_one
  evict_one-Adds fuel options deadline total pod p =
      let w = (C.load_cancel p.world).1 in
      let r =
        removal_loop C fuel (unwrap_or pod.metadata.namespace "") (unwrap_or pod.metadata.name "")
          options deadline "" w in
      elim (Bool-cases (C.load_cancel p.world).0) [
        | inl e ↦ rw e (omega arith)
        | inr e ↦ rw e (settle-Adds pod total r.0 (record p { world = r.1 }))
      ]

  Adds-trans : (a s n : ℕ) (r : Stage × Progress C) → s ≡ a + 1 → Adds s n r → Adds a (suc n) r
  Adds-trans a s n (completed, p) e h = omega (arith, e, h)
  Adds-trans a s n (was_cancelled, p) e h = omega (arith, e, h)
  Adds-trans a s n (ran_out, p) e h = omega (arith, e, h)

  -- The number of pods that are counted as evicted or as failed: all when the evictions run to their end,
  -- and no more than all otherwise.
  pub evict_all-Adds :
      (fuel : ℕ) (options : DrainOptions) (deadline : Option ℕ) (total : ℕ) (pods : List Pod)
      (p : Progress C)
      → Adds (settled_pods p.summary) (length pods) (evict_all C fuel options deadline total pods p)
  unfolding evict_all
  evict_all-Adds fuel options deadline total [] p = omega arith
  evict_all-Adds fuel options deadline total (pod ∷ pods) p =
      next (evict_one C fuel options deadline total pod p)
        (evict_one-Adds fuel options deadline total pod p)
        (evict_all-Adds fuel options deadline total pods)
    where
      next :
          (r : Stage × Progress C)
          → Adds (settled_pods p.summary) 1 r
          → ((q : Progress C)
              → Adds
                  (settled_pods q.summary)
                  (length pods)
                  (evict_all C fuel options deadline total pods q))
          → Adds (settled_pods p.summary) (suc (length pods)) (elim r.0 [
            | completed ↦ evict_all C fuel options deadline total pods r.1
            | was_cancelled ↦ (was_cancelled, r.1)
            | ran_out ↦ (ran_out, r.1)
          ])
      next (completed, q) h ih =
          Adds-trans (settled_pods p.summary) (settled_pods q.summary) (length pods) _ h (ih q)
      next (was_cancelled, q) h ih = omega (arith, h)
      next (ran_out, q) h ih = omega (arith, h)

  -- The evictions leave the count of skipped pods as it is.
  settle-skipped :
      (pod : Pod) (total : ℕ) (o : Outcome) (p : Progress C)
      → (settle C pod total o p).1.summary.skipped ≡ p.summary.skipped
  unfolding settle
  settle-skipped pod total removed p = refl
  settle-skipped pod total (refused e) p = refl
  settle-skipped pod total stopped p = refl
  settle-skipped pod total exhausted p = refl

  evict_one-skipped :
      (fuel : ℕ) (options : DrainOptions) (deadline : Option ℕ) (total : ℕ) (pod : Pod)
      (p : Progress C)
      → (evict_one C fuel options deadline total pod p).1.summary.skipped ≡ p.summary.skipped
  unfolding evict_one
  evict_one-skipped fuel options deadline total pod p =
      let r =
        removal_loop C fuel (unwrap_or pod.metadata.namespace "") (unwrap_or pod.metadata.name "")
          options deadline "" (C.load_cancel p.world).1 in
      elim (Bool-cases (C.load_cancel p.world).0) [
        | inl e ↦ rw e refl
        | inr e ↦ rw e (settle-skipped pod total r.0 (record p { world = r.1 }))
      ]

  pub evict_all-skipped :
      (fuel : ℕ) (options : DrainOptions) (deadline : Option ℕ) (total : ℕ) (pods : List Pod)
      (p : Progress C)
      → (evict_all C fuel options deadline total pods p).1.summary.skipped ≡ p.summary.skipped
  unfolding evict_all
  evict_all-skipped fuel options deadline total [] p = refl
  evict_all-skipped fuel options deadline total (pod ∷ pods) p =
      next (evict_one C fuel options deadline total pod p)
        (evict_one-skipped fuel options deadline total pod p)
        (evict_all-skipped fuel options deadline total pods)
    where
      Kept : Stage × Progress C → Type 0
      Kept r = r.1.summary.skipped ≡ p.summary.skipped

      next :
          (r : Stage × Progress C)
          → r.1.summary.skipped ≡ p.summary.skipped
          → ((q : Progress C)
              → (evict_all C fuel options deadline total pods q).1.summary.skipped
                ≡ q.summary.skipped)
          → Kept (elim r.0 [
            | completed ↦ evict_all C fuel options deadline total pods r.1
            | was_cancelled ↦ (was_cancelled, r.1)
            | ran_out ↦ (ran_out, r.1)
          ])
      next (completed, q) h ih = ih q ∙ h
      next (was_cancelled, q) h ih = h
      next (ran_out, q) h ih = h
