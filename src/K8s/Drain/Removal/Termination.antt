-- ===== src/K8s/Drain/Removal/Termination.antt =====
-- A drain with a timeout ends: each try that fails moves the clock on, by the pause or up to the
-- deadline, and after the deadline there is no other try.
use roder.Prelude.{
  ltb→lt, ℕ, zero, suc, ◌+◌, ◌-◌, ◌≤◌, ◌<◌, ◌≡◌, ◌≢◌, String, true, Option, none, some, Result, ok,
  err, arith, ltb, min, inl, inr, Bool-cases,
}
use roder.Core.Drain.{DrainOptions}
use roder.K8s.Errors.{
  ApiErrorDisposition, KubeError, classify_kube_error, not_found, retryable, permanent,
}
use roder.K8s.Drain.Cluster.{Cluster, IsMonotonic}
use roder.K8s.Drain.Removal.{
  text, refused, removed, Outcome, exhausted, Round, over, retry, retry_delay, before_deadline,
  pause, remove_pod, attempt, back_off, judge, round, removal_loop,
}

module _ (C : Cluster) (M : IsMonotonic C) where
  open C use {World, load_cancel, now}
  open M use {time}

  pub before_deadline-le :
      (deadline : Option ℕ) (w : World) → time w ≤ time (before_deadline C deadline w).1
  unfolding before_deadline
  before_deadline-le none w = omega arith
  before_deadline-le (some d) w = rw (M.now_lem w) (omega arith)

  pub before_deadline-lt :
      (d : ℕ) (w : World) → (before_deadline C (some d) w).0 ≡ true → time w < d
  unfolding before_deadline
  before_deadline-lt d w h = elim (Bool-cases (ltb (time w) d)) [
    | inl e ↦ ground (arith, e)
    | inr e ↦ absurd (ground (arith, M.now_lem w))
  ]

  -- A pause that begins before the deadline, and one that begins after it.
  pub pause-le :
      (d : ℕ) (w : World) → time w + min retry_delay (d - time w) ≤ time (pause C (some d) w)
  unfolding pause
  pause-le d w = rw (M.now_lem w, pause) (M.sleep-le (min retry_delay (d - time w)) w)

  remove_pod-le :
      (ns name : String) (o : DrainOptions) (w : World) → time w ≤ time (remove_pod C ns name o w).1
  unfolding remove_pod
  remove_pod-le ns name o w = elim (Bool-cases o.disable_eviction) [
    | inl e ↦ rw e (M.delete_pod-le ns name o.grace_period w)
    | inr e ↦ rw e (M.evict_pod-le ns name o.grace_period w)
  ]

  attempt-le :
      (ns name : String) (o : DrainOptions) (deadline : Option ℕ) (w : World)
      → time w ≤ time (attempt C ns name o deadline w).1
  unfolding attempt
  attempt-le ns name o none w = remove_pod-le ns name o w
  attempt-le ns name o (some d) w =
      rw (M.now_lem w, attempt)
        (M.timeout-le _ (d - time w) (remove_pod C ns name o) (remove_pod-le ns name o) w)

  -- How a removal ends: it does end, and not before it began.
  abbrev pub Ends : World → Outcome × World → Type 0
  Ends w (o, w1) = (o ≢ exhausted) × (time w ≤ time w1)

  -- What a round that is to be tried again has done to the time.
  abbrev MovesOn : ℕ → World → Round × World → Type 0
  MovesOn d w (over o, w1) = Ends w (o, w1)
  MovesOn d w (retry e, w1) = ((time w < d) → time w < time w1) × (time w ≤ time w1)

  back_off-MovesOn : (d : ℕ) (e : String) (w : World) → MovesOn d w (back_off C (some d) e w)
  unfolding back_off
  back_off-MovesOn d e w =
      let w1 = (load_cancel w).1 in
      let a = M.load_cancel-le w in
      let b = pause-le d w1 in
      let c = M.load_cancel-le (pause C (some d) w1) in
      elim (Bool-cases (load_cancel w).0) [
        | inl p ↦ rw p (cc, a)
        | inr p ↦ elim (Bool-cases (load_cancel (pause C (some d) w1)).0) [
          | inl q ↦ rw (p, q) (cc, omega (arith, a, b, c))
          | inr q ↦ rw (p, q) ((λ h. omega (arith, a, b, c, h)), omega (arith, a, b, c))
        ]
      ]

  judge-MovesOn :
      (d : ℕ) (r : Option (Result (Unit {0}) KubeError)) (w : World)
      → MovesOn d w (judge C (some d) r w)
  unfolding judge
  judge-MovesOn d none w = (cc, omega arith)
  judge-MovesOn d (some (ok done)) w = (cc, omega arith)
  judge-MovesOn d (some (err e)) w = by_class (classify_kube_error e)
    where
      by_class :
          (c : ApiErrorDisposition)
          → MovesOn d w (elim c [
            | not_found ↦ (over removed, w)
            | permanent ↦ (over (refused (text e)), w)
            | retryable ↦ back_off C (some d) (text e) w
          ])
      by_class not_found = (cc, omega arith)
      by_class permanent = (cc, omega arith)
      by_class retryable = back_off-MovesOn d (text e) w

  MovesOn-trans :
      (d : ℕ) (w w1 : World) (r : Round × World) → time w ≤ time w1 → MovesOn d w1 r → MovesOn d w r
  MovesOn-trans d w w1 (over o, w2) h k = (k.0, omega (arith, h, k.1))
  MovesOn-trans d w w1 (retry e, w2) h k = (
    (λ l. elim (Bool-cases (ltb (time w1) d)) [
      | inl b ↦ ground (arith, b, h, k.0 (ltb→lt _ _ b))
      | inr b ↦ ground (arith, b, h, k.1, l)
    ]),
    omega (arith, h, k.1),
  )

  -- A round that is to be tried again began before the deadline, and moved the clock on.
  abbrev Advances : ℕ → World → Round × World → Type 0
  Advances d w (over o, w1) = Ends w (o, w1)
  Advances d w (retry e, w1) = (time w < d) × (time w < time w1)

  MovesOn-Advances :
      (d : ℕ) (w : World) (r : Round × World) → time w < d → MovesOn d w r → Advances d w r
  MovesOn-Advances d w (over o, w1) l h = h
  MovesOn-Advances d w (retry e, w1) l h = (l, h.0 l)

  round-Advances :
      (ns name : String) (o : DrainOptions) (d : ℕ) (last_err : String) (w : World)
      → Advances d w (round C ns name o (some d) last_err w)
  unfolding round
  round-Advances ns name o d last_err w =
      let w1 = (before_deadline C (some d) w).1 in
      let w2 = (load_cancel w1).1 in
      let r = attempt C ns name o (some d) w2 in
      let a = before_deadline-le (some d) w in
      let b = M.load_cancel-le w1 in
      let c = attempt-le ns name o (some d) w2 in
      elim (Bool-cases (before_deadline C (some d) w).0) [
        | inr p ↦ rw p (cc, a)
        | inl p ↦ elim (Bool-cases (load_cancel w1).0) [
          | inl q ↦ rw (p, q) (cc, omega (arith, a, b))
          | inr q ↦
              rw (p, q)
                (MovesOn-Advances d w (judge C (some d) r.0 r.1) (before_deadline-lt d w p)
                  (MovesOn-trans d w r.1 _ (omega (arith, a, b, c)) (judge-MovesOn d r.0 r.1)))
        ]
      ]

  -- With more fuel than there are milliseconds to the deadline, the removal of a pod ends.
  pub removal_loop-Ends :
      (fuel : ℕ) (ns name : String) (o : DrainOptions) (d : ℕ) (last_err : String) (w : World)
      → (d - time w) < fuel
      → Ends w (removal_loop C fuel ns name o (some d) last_err w)
  unfolding removal_loop
  removal_loop-Ends zero ns name o d last_err w h = absurd (omega (arith, h))
  removal_loop-Ends (suc fuel) ns name o d last_err w h =
      next (round C ns name o (some d) last_err w) (round-Advances ns name o d last_err w) h
        (removal_loop-Ends fuel ns name o d)
    where
      next :
          (r : Round × World)
          → Advances d w r
          → (d - time w) < suc fuel
          → ((e : String) (v : World)
              → (d - time v) < fuel
              → Ends v (removal_loop C fuel ns name o (some d) e v))
          → Ends w (elim r.0 [
            | over p ↦ (p, r.1)
            | retry e ↦ removal_loop C fuel ns name o (some d) e r.1
          ])
      next (over p, w1) a h ih = a
      next (retry e, w1) a h ih =
          let k = ih e w1 (omega (arith, a.0, a.1, h)) in (k.0, omega (arith, a.1, k.1))
