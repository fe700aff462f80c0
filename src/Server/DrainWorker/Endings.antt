-- ===== src/Server/DrainWorker/Endings.antt =====
-- How a drain job ends (src/server/api/drain.rs).
use roder.Prelude.{
  ◌++◌, ◌∷◌, ◌∙◌, ◌⊎◌, ap, String, ◌≡◌, ◌≢◌, ◌↔◌, refl, true, false, Option, none, some, List, [],
  is_empty, Result, ok, err, Bool-cases, inl, inr, ◌==◌, string_eq,
}
use roder.Core.Drain.{DrainSummary, DrainEventKind, finished, error, cancelled}
use roder.Server.Terminal.{is_terminal}
use roder.Server.DrainWorker.{
  restore, restore_for, Ended, PowerPhase, Services, ending, after_reboot, after_wait, after_power,
  power_off, end_job,
}

-- A terminal event that is not a cancellation.
abbrev EndsWork : DrainEventKind → Type 0
EndsWork kind = (is_terminal kind ≡ true) × (kind ≢ cancelled)

is_empty-nil : {A : Type 0} (xs : List A) → is_empty xs ≡ true → xs ≡ []
is_empty-nil [] e = refl
is_empty-nil (x ∷ xs) e = absurd (cc e)

-- The requests to the power API, in order, as they are seen in the world: a request is there once it has
-- been made, whatever its answer, and the other calls make none.
pub record Observed (S : Services) : Type 0 where
  pub asked : S.World → List String
  pub begin-asked : (w : S.World) → asked (S.begin w).1 ≡ asked w
  pub uncordon-asked : (w : S.World) → asked (S.uncordon w).1 ≡ asked w
  pub wait-asked :
      (before : Option String) (w : S.World) → asked (S.wait_for_node_reboot before w).1 ≡ asked w
  pub power-asked :
      (action : String) (w : S.World) → asked (S.power_action action w).1 ≡ asked w ++ action ∷ []

module _ (S : Services) where
  open S use {World}

  abbrev EndsSo : Ended World → Type 0
  EndsSo x = EndsWork x.kind

  after_reboot-EndsWork :
      (p : PowerPhase) (s : DrainSummary) (es : List DrainEventKind) (w : World)
      → EndsWork (after_reboot S p s es w).kind
  unfolding after_reboot is_terminal
  after_reboot-EndsWork p s es w = elim (Bool-cases p.was_cordoned) [
    | inl e ↦ rw e (refl, cc)
    | inr e ↦ rw e (by_result (S.uncordon w).0)
  ]
    where
      by_result :
          (r : Result (Unit {0}) String)
          → EndsSo (elim r [
            | err e ↦ ending S (error e) es (S.uncordon w).1
            | ok done ↦ ending S (finished s) es (S.uncordon w).1
          ])
      by_result (ok done) = (refl, cc)
      by_result (err e) = (refl, cc)

  after_wait-EndsWork :
      (p : PowerPhase) (s : DrainSummary) (es : List DrainEventKind)
      (r : Result (Unit {0}) String × World)
      → EndsWork (after_wait S p s es r).kind
  unfolding after_wait is_terminal
  after_wait-EndsWork p s es (ok done, w) = after_reboot-EndsWork p s _ w
  after_wait-EndsWork p s es (err e, w) = (refl, cc)

  after_power-EndsWork :
      (p : PowerPhase) (s : DrainSummary) (es : List DrainEventKind)
      (r : Result (Unit {0}) String × World)
      → EndsWork (after_power S p s es r).kind
  unfolding after_power is_terminal
  after_power-EndsWork p s es (err e, w) = (refl, cc)
  after_power-EndsWork p s es (ok done, w) = elim (Bool-cases (p.action == "reboot")) [
    | inl e ↦ rw e (after_wait-EndsWork p s es (S.wait_for_node_reboot p.previous_boot_id w))
    | inr e ↦ rw e (refl, cc)
  ]

  power_off-EndsWork :
      (power : Option PowerPhase) (s : DrainSummary) (w : World)
      → EndsWork (power_off S power s w).kind
  unfolding power_off is_terminal
  power_off-EndsWork none s w = (refl, cc)
  power_off-EndsWork (some p) s w = after_power-EndsWork p s _ _

  -- The job's last event is a terminal one, and it is `Cancelled` exactly when cancellation won: when
  -- `begin_non_cancellable` refused.
  pub end_job-is_terminal :
      (result : Result DrainSummary String) (power : Option PowerPhase) (w : World)
      → (is_terminal (end_job S result power w).kind ≡ true)
        × (((end_job S result power w).kind ≡ cancelled) ↔ ((S.begin w).0 ≡ false))
  unfolding end_job is_terminal
  end_job-is_terminal (ok s) power w = elim (Bool-cases (S.begin w).0) [
    | inr b ↦ rw b (refl, ((λ _. refl), (λ _. refl)))
    | inl b ↦ elim (Bool-cases (is_empty s.failed)) [
      | inl e ↦
          let k = power_off-EndsWork power s (S.begin w).1 in
          rw (b, e) (k.0, ((λ q. absurd (k.1 q)), (λ q. absurd (cc q))))
      | inr e ↦ rw (b, e) (refl, ((λ q. absurd (cc q)), (λ q. absurd (cc q))))
    ]
  ]
  end_job-is_terminal (err m) power w = elim (Bool-cases (S.begin w).0) [
    | inr b ↦ rw b (refl, ((λ _. refl), (λ _. refl)))
    | inl b ↦ rw b (refl, ((λ q. absurd (cc q)), (λ q. absurd (cc q))))
  ]

  module _ (O : Observed S) where
    abbrev AskedAs : World → Ended World → Type 0
    AskedAs w x = O.asked x.world ≡ O.asked w

    restore-asked : (p : PowerPhase) (w : World) → O.asked (restore S p w) ≡ O.asked w
    unfolding restore
    restore-asked p w = elim (Bool-cases p.was_cordoned) [
      | inl e ↦ rw e refl
      | inr e ↦ rw e (O.uncordon-asked w)
    ]

    restore_for-asked :
        (o : Option PowerPhase) (w : World) → O.asked (restore_for S o w) ≡ O.asked w
    unfolding restore_for
    restore_for-asked none w = refl
    restore_for-asked (some p) w = restore-asked p w

    after_reboot-asked :
        (p : PowerPhase) (s : DrainSummary) (es : List DrainEventKind) (w : World)
        → O.asked (after_reboot S p s es w).world ≡ O.asked w
    unfolding after_reboot
    after_reboot-asked p s es w = elim (Bool-cases p.was_cordoned) [
      | inl e ↦ rw e refl
      | inr e ↦ rw e (by_result (S.uncordon w).0 ∙ O.uncordon-asked w)
    ]
      where
        by_result :
            (r : Result (Unit {0}) String)
            → AskedAs (S.uncordon w).1 (elim r [
              | err e ↦ ending S (error e) es (S.uncordon w).1
              | ok done ↦ ending S (finished s) es (S.uncordon w).1
            ])
        by_result (ok done) = refl
        by_result (err e) = refl

    after_wait-asked :
        (p : PowerPhase) (s : DrainSummary) (es : List DrainEventKind)
        (r : Result (Unit {0}) String × World)
        → O.asked (after_wait S p s es r).world ≡ O.asked r.1
    unfolding after_wait
    after_wait-asked p s es (ok done, w) = after_reboot-asked p s _ w
    after_wait-asked p s es (err e, w) = restore-asked p w

    after_power-asked :
        (p : PowerPhase) (s : DrainSummary) (es : List DrainEventKind)
        (r : Result (Unit {0}) String × World)
        → O.asked (after_power S p s es r).world ≡ O.asked r.1
    unfolding after_power
    after_power-asked p s es (err e, w) = restore-asked p w
    after_power-asked p s es (ok done, w) = elim (Bool-cases (p.action == "reboot")) [
      | inl e ↦ rw e (
          after_wait-asked p s es (S.wait_for_node_reboot p.previous_boot_id w)
          ∙ O.wait-asked p.previous_boot_id w)
      | inr e ↦ rw e refl
    ]

    -- The worker asks the power API for nothing; or it asks it once, for the action of the job's power
    -- phase, after a drain that succeeded without failures, when cancellation has been closed before. The
    -- requests to the power API are observed in the world, where other calls leave no such request.
    pub end_job-power :
        (result : Result DrainSummary String) (power : Option PowerPhase) (w : World)
        → (O.asked (end_job S result power w).world ≡ O.asked w)
          ⊎ ((s : DrainSummary) × (p : PowerPhase) × (result ≡ ok s)
              × (s.failed ≡ [])
              × (power ≡ some p)
              × ((S.begin w).0 ≡ true)
              × (O.asked (end_job S result power w).world ≡ O.asked w ++ p.action ∷ []))
    unfolding end_job power_off
    end_job-power (ok s) none w = elim (Bool-cases (S.begin w).0) [
      | inr b ↦ inl (rw b (O.begin-asked w))
      | inl b ↦ elim (Bool-cases (is_empty s.failed)) [
        | inr e ↦ inl (rw (b, e) (restore_for-asked none (S.begin w).1 ∙ O.begin-asked w))
        | inl e ↦ inl (rw (b, e) (O.begin-asked w))
      ]
    ]
    end_job-power (ok s) (some p) w = elim (Bool-cases (S.begin w).0) [
      | inr b ↦ inl (rw b (O.begin-asked w))
      | inl b ↦ elim (Bool-cases (is_empty s.failed)) [
        | inr e ↦ inl (rw (b, e) (restore_for-asked (some p) (S.begin w).1 ∙ O.begin-asked w))
        | inl e ↦ inr (
          s,
          p,
          refl,
          is_empty-nil s.failed e,
          refl,
          b,
          rw (b, e)
              (after_power-asked p s _ (S.power_action p.action (S.begin w).1)
                ∙ O.power-asked p.action (S.begin w).1
                ∙ ap (λ l. l ++ p.action ∷ []) (O.begin-asked w)),
        )
      ]
    ]
    end_job-power (err m) power w = elim (Bool-cases (S.begin w).0) [
      | inr b ↦ inl (rw b (O.begin-asked w))
      | inl b ↦ inl (rw b (restore_for-asked power (S.begin w).1 ∙ O.begin-asked w))
    ]
