-- ===== src/K8s/Drain/Run/Outcomes.antt =====
-- What the evictions of a drain count, pod by pod: the outcomes of the removals, as they follow each other.
use mathlib.Core.List.{append_assoc, append-nil}
use mathlib.Core.Path.{subst₂}
use roder.Prelude.{
  ◌+◌, ◌≡◌, length, ap, refl, sym, ◌∙◌, arith, inl, inr, Bool-cases, unwrap_or, if◌then◌else◌, List,
  [], ◌∷◌, ◌++◌, ℕ, ◌+◌, ◌≡◌, length, map, String, str_append, str_eq, Option,
}
use roder.Core.Drain.{DrainOptions}
use roder.K8s.Pod.{Pod}
use roder.K8s.Drain.{true, false, identity}
use roder.K8s.Drain.Cluster.{Cluster}
use roder.K8s.Drain.Removal.{Outcome, removed, refused, stopped, exhausted, removal_loop}
use roder.K8s.Drain.Run.{
  evict_one, settle, evict_all, Stage, Progress, completed, was_cancelled, ran_out, Progress, Stage,
  completed,
}

abbrev name_of : Pod → String
name_of pod = unwrap_or pod.metadata.name ""

-- The pods of which the removal was accepted.
unfoldable pub removed_of : List (Pod × Outcome) → List Pod
removed_of [] = []
removed_of ((pod, removed) ∷ rest) = pod ∷ removed_of rest
removed_of ((pod, refused e) ∷ rest) = removed_of rest
removed_of ((pod, stopped) ∷ rest) = removed_of rest
removed_of ((pod, exhausted) ∷ rest) = removed_of rest

-- A line for each pod of which it was not: its name, and the reason.
abbrev reason : String → String
reason e = if str_eq e "" then "drain deadline elapsed before pod removal was accepted" else e

unfoldable pub refusals_of : List (Pod × Outcome) → List String
refusals_of [] = []
refusals_of ((pod, removed) ∷ rest) = refusals_of rest
refusals_of ((pod, refused e) ∷ rest) =
    str_append (name_of pod) (str_append ": " (reason e)) ∷ refusals_of rest
refusals_of ((pod, stopped) ∷ rest) = refusals_of rest
refusals_of ((pod, exhausted) ∷ rest) = refusals_of rest

-- The outcomes are those of the first pods of the list.
abbrev pub AreOfFirst : List (Pod × Outcome) → List Pod → Type 0
AreOfFirst outcomes pods = (rest : List Pod) × (pods ≡ map (λ x. x.0) outcomes ++ rest)

module _ (C : Cluster) (fuel : ℕ) (options : DrainOptions) (deadline : Option ℕ) where
  -- The removals of the pods one after the other, up to a cancellation that is seen before or in one, or
  -- to the end of the fuel.
  unfoldable pub outcomes_of : List Pod → C.World → List (Pod × Outcome)
  outcomes_of [] w = []
  outcomes_of (pod ∷ pods) w =
      let (c, w1) = C.load_cancel w in
      let (o, w2) =
        removal_loop C fuel (unwrap_or pod.metadata.namespace "") (name_of pod) options deadline ""
          w1 in
      let rest = outcomes_of pods w2 in
      if c then [] else elim o [
        | removed ↦ (pod, removed) ∷ rest
        | refused e ↦ (pod, refused e) ∷ rest
        | stopped ↦ []
        | exhausted ↦ []
      ]

  -- What has been added to the summary, and to the pods to wait for.
  abbrev pub Counts : List (Pod × Outcome) → List Pod → Progress C → Stage × Progress C → Type 0
  Counts outcomes pods p r =
      (r.1.summary.evicted ≡ p.summary.evicted + length (removed_of outcomes))
      × (r.1.summary.failed ≡ p.summary.failed ++ refusals_of outcomes)
      × (r.1.terminating ≡ p.terminating ++ map identity (removed_of outcomes))
      × AreOfFirst outcomes pods
      × (r.0 ≡ completed
          → length (removed_of outcomes) + length (refusals_of outcomes) ≡ length pods)

  nothing_counted :
      (pods : List Pod) (p : Progress C) (w : C.World) (stage : Stage)
      → (stage ≡ completed → 0 ≡ length pods)
      → Counts [] pods p (stage, record p { world = w })
  unfolding removed_of refusals_of
  nothing_counted pods p w stage h =
      (omega arith, sym (append-nil _), sym (append-nil _), (pods, refl), h)

  module _ (total : ℕ) (pod : Pod) (pods : List Pod)
      (ih : (q : Progress C)
        → Counts
            (outcomes_of pods q.world)
            pods
            q
            (evict_all C fuel options deadline total pods q)) where
    settle-Counts :
        (o : Outcome) (q : Progress C)
        → Counts
            (elim o [
              | removed ↦ (pod, removed) ∷ outcomes_of pods q.world
              | refused e ↦ (pod, refused e) ∷ outcomes_of pods q.world
              | stopped ↦ []
              | exhausted ↦ []
            ])
            (pod ∷ pods)
            q
            (elim (settle C pod total o q).0 [
              | completed ↦ evict_all C fuel options deadline total pods (settle C pod total o q).1
              | was_cancelled ↦ (was_cancelled, (settle C pod total o q).1)
              | ran_out ↦ (ran_out, (settle C pod total o q).1)
            ])
    unfolding settle removed_of refusals_of
    settle-Counts removed q =
        let k = ih (settle C pod total removed q).1 in
        (
          omega (arith, k.0),
          k.1,
          k.2 ∙ append_assoc q.terminating (identity pod ∷ []) _,
          (k.3.0, ap (λ x. pod ∷ x) k.3.1),
          (λ d. let l = k.4 d in omega (arith, l)),
        )
    settle-Counts (refused e) q =
        let k = ih (settle C pod total (refused e) q).1 in
        (
          k.0,
          k.1 ∙ append_assoc q.summary.failed _ _,
          k.2,
          (k.3.0, ap (λ x. pod ∷ x) k.3.1),
          (λ d. let l = k.4 d in omega (arith, l)),
        )
    settle-Counts stopped q =
        nothing_counted (pod ∷ pods) q q.world was_cancelled (λ d. absurd (cc d))
    settle-Counts exhausted q = nothing_counted (pod ∷ pods) q q.world ran_out (λ d. absurd (cc d))

  evict_one-cancelled :
      (total : ℕ) (pod : Pod) (p : Progress C)
      → (C.load_cancel p.world).0 ≡ true
      → evict_one C fuel options deadline total pod p
        ≡ (was_cancelled, record p { world = (C.load_cancel p.world).1 })
  unfolding evict_one
  evict_one-cancelled total pod p e = rw e refl

  abbrev removal : Pod → C.World → Outcome × C.World
  removal pod w =
      removal_loop C fuel (unwrap_or pod.metadata.namespace "") (name_of pod) options deadline "" w

  outcomes_of-cancelled :
      (pod : Pod) (pods : List Pod) (w : C.World)
      → (C.load_cancel w).0 ≡ true
      → outcomes_of (pod ∷ pods) w ≡ []
  unfolding outcomes_of
  outcomes_of-cancelled pod pods w e = rw e refl

  outcomes_of-going :
      (pod : Pod) (pods : List Pod) (w : C.World)
      → (C.load_cancel w).0 ≡ false
      → outcomes_of (pod ∷ pods) w ≡ elim (removal pod (C.load_cancel w).1).0 [
        | removed ↦ (pod, removed) ∷ outcomes_of pods (removal pod (C.load_cancel w).1).1
        | refused e ↦ (pod, refused e) ∷ outcomes_of pods (removal pod (C.load_cancel w).1).1
        | stopped ↦ []
        | exhausted ↦ []
      ]
  unfolding outcomes_of
  outcomes_of-going pod pods w e = rw e refl

  -- The rest of the loop.
  abbrev following : ℕ → List Pod → Stage × Progress C → Stage × Progress C
  following total pods r = elim r.0 [
    | completed ↦ evict_all C fuel options deadline total pods r.1
    | was_cancelled ↦ (was_cancelled, r.1)
    | ran_out ↦ (ran_out, r.1)
  ]

  evict_one-settle :
      (total : ℕ) (pod : Pod) (p : Progress C)
      → (C.load_cancel p.world).0 ≡ false
      → evict_one C fuel options deadline total pod p
        ≡ settle C pod total
            (removal pod (C.load_cancel p.world).1).0
            (record p { world = (removal pod (C.load_cancel p.world).1).1 })
  unfolding evict_one
  evict_one-settle total pod p e = rw e refl

  -- The pods whose removal was accepted, up to a cancellation or the end of the fuel, are counted as evicted,
  -- one by one, and waited for; each of those whose removal was refused has a line of failure with its name
  -- and the last reason, or that the time was over. These are the first pods of the list, each of them once; and when the
  -- evictions run to their end, they are all.
  pub evict_all-Counts :
      (total : ℕ) (pods : List Pod) (p : Progress C)
      → Counts (outcomes_of pods p.world) pods p (evict_all C fuel options deadline total pods p)
  unfolding evict_all
  evict_all-Counts total [] p =
      unfold outcomes_of in nothing_counted [] p p.world completed (λ d. refl)
  evict_all-Counts total (pod ∷ pods) p = elim (Bool-cases (C.load_cancel p.world).0) [
    | inl e ↦
        subst₂ (λ outs r. Counts outs (pod ∷ pods) p (following total pods r))
          (sym (outcomes_of-cancelled pod pods p.world e)) (sym (evict_one-cancelled total pod p e))
          (nothing_counted (pod ∷ pods) p (C.load_cancel p.world).1 was_cancelled
            (λ d. absurd (cc d)))
    | inr e ↦
        let r = removal pod (C.load_cancel p.world).1 in
        subst₂ (λ outs r. Counts outs (pod ∷ pods) p (following total pods r))
          (sym (outcomes_of-going pod pods p.world e)) (sym (evict_one-settle total pod p e))
          (settle-Counts total pod pods (evict_all-Counts total pods) r.0
            (record p { world = r.1 }))
  ]
