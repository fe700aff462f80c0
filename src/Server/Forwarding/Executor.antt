-- ===== src/Server/Forwarding/Executor.antt =====
-- About the replica that runs an action, by `forward_action_from_target` of src/server/ha.rs.
use roder.Prelude.{
  inl, inr, ◌≡◌, ◌⊎◌, refl, ap, subst, String, Bool, true, false, Option, none, some, List, [], ◌∷◌,
  All, All-filter_intro, Result, ok, err, filter, ◌==◌, string_eq, Bool-cases, arith,
}
use roder.Prelude.Sorting.{str_le}
use roder.K8s.Errors.{KubeError}
use roder.K8s.Coordination.{RoderPod}
use roder.Server.Forwarding.{
  here, sent, Replica, is_executor, smaller, min_by_name, send_to, choose, is_on,
  forward_action_from_target,
}

smaller-cases :
    (p q : RoderPod) (o : Option RoderPod) → smaller p o ≡ some q → (p ≡ q) ⊎ (o ≡ some q)
smaller-cases p q none e = inl (some-inj e)
  where
    some-inj : {x y : RoderPod} → ◌≡◌ {A = Option RoderPod} (some x) (some y) → x ≡ y
    some-inj {x} e = ap (λ o. elim o [ none ↦ x | some z ↦ z ]) e
smaller-cases p q (some r) e = elim (Bool-cases (str_le p.name r.name)) [
  | inl f ↦ inl (ap (λ o. elim o [ none ↦ p | some z ↦ z ]) (rw f at e))
  | inr f ↦ inr (rw f at e)
]

-- What holds of all holds of the least.
min_by_name-All :
    (P : RoderPod → Type 0) (ps : List RoderPod) (p : RoderPod)
    → All P ps
    → min_by_name ps ≡ some p
    → P p
unfolding min_by_name
min_by_name-All P [] p h e = absurd (cc e)
min_by_name-All P (q ∷ qs) p h e = elim (smaller-cases q p (min_by_name qs) e) [
  | inl f ↦ subst P f h.0
  | inr f ↦ min_by_name-All P qs p h.1 f
]

All-true : (p : RoderPod → Bool) (ps : List RoderPod) → All (λ x. p x ≡ true → p x ≡ true) ps
All-true p [] = tt
All-true p (x ∷ xs) = ((λ e. e), All-true p xs)

sent-peer : (o : Option RoderPod) (p : RoderPod) → send_to o ≡ sent p → o ≡ some p
sent-peer none p e = absurd (cc e)
sent-peer (some q) p e = ap (λ x. elim x [ sent z ↦ some z | _ ↦ some q ]) e

choose-sent :
    (target own : String) (r : Result (List RoderPod) KubeError) (p : RoderPod)
    → choose target own r ≡ sent p
    → is_executor target own p ≡ true
choose-sent target own (err x) p e = absurd (cc e)
choose-sent target own (ok ps) p e =
    min_by_name-All (λ x. is_executor target own x ≡ true) (filter (is_executor target own) ps) p
      (All-filter_intro _ (is_executor target own) ps (All-true (is_executor target own) ps))
      (sent-peer (min_by_name (filter (is_executor target own) ps)) p e)

-- A request is sent on only by a replica on the node of the action, once, to another replica that is ready
-- and on another node; and that replica, which knows its node, runs the action itself, whatever pods it
-- would see.
pub forward_action_from_target-sent :
    (self : Replica) (internal : Bool) (target : String) (r : Result (List RoderPod) KubeError)
    (p : RoderPod) (seen : Result (List RoderPod) KubeError)
    → forward_action_from_target self internal target r ≡ sent p
    → (internal ≡ false)
      × (is_on target self.pod_node_name ≡ true)
      × (p.ready ≡ true)
      × ((p.name == self.pod_name) ≡ false)
      × (forward_action_from_target
            (record { ha = true; pod_name = p.name; pod_node_name = some p.node })
            true
            target
            seen
          ≡ here)
unfolding forward_action_from_target
forward_action_from_target-sent self internal target r p seen e = elim (Bool-cases self.ha) [
  | inr a ↦ absurd (cc (rw a at e))
  | inl a ↦ elim (Bool-cases (is_on target self.pod_node_name)) [
    | inr b ↦ absurd (cc (rw (a, b) at e))
    | inl b ↦ elim (Bool-cases internal) [
      | inl c ↦ absurd (cc (rw (a, b, c) at e))
      | inr c ↦
          let fit = choose-sent target self.pod_name r p (rw (a, b, c) at e) in
          let other : (p.node == target) ≡ false = ground (arith, fit) in
          (c, b, ground (arith, fit), ground (arith, fit), rw other refl)
    ]
  ]
]
