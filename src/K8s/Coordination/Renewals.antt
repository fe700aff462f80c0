-- ===== src/K8s/Coordination/Renewals.antt =====
-- The renewals of a held lease over time (crates/k8s/src/coordination.rs).
use roder.Prelude.{
  ℕ, zero, suc, ◌≡◌, refl, ◌∙◌, ap, ◌+◌, if◌then◌else◌, Bool, true, false, ◌||◌, List, [], ◌∷◌, leb,
}
use roder.K8s.Coordination.{Holding, held, idle, renewed}

-- The loop of the renewal task, on whether each renewal succeeded.
unfoldable pub renew_all : List Bool → Holding → Holding
renew_all [] h = h
renew_all (b ∷ bs) h = renew_all bs (renewed b h)

-- The first `n` renewals fail.
unfoldable pub begins_failed : ℕ → List Bool → Bool
begins_failed zero bs = true
begins_failed (suc n) [] = false
begins_failed (suc n) (true ∷ bs) = false
begins_failed (suc n) (false ∷ bs) = begins_failed n bs

-- Somewhere, three in a row fail.
unfoldable pub three_failed : List Bool → Bool
three_failed [] = false
three_failed (b ∷ bs) = begins_failed 3 (b ∷ bs) || three_failed bs

abbrev at_count : ℕ → Bool → Holding
at_count n c = record { failures = n; cancelled = c; renewing = idle }

if-same : (b : Bool) → (if b then true else true) ≡ true
if-same true = refl
if-same false = refl

-- The flag is never taken back.
renew_all-cancelled : (bs : List Bool) (n : ℕ) → (renew_all bs (at_count n true)).cancelled ≡ true
unfolding renew_all renewed
renew_all-cancelled [] n = refl
renew_all-cancelled (true ∷ bs) n = renew_all-cancelled bs 0
renew_all-cancelled (false ∷ bs) n =
    ap (λ c. (renew_all bs (at_count (n + 1) c)).cancelled) (if-same (leb 3 (n + 1)))
    ∙ renew_all-cancelled bs (n + 1)

or-implied : (a b c : Bool) → (b ≡ true → a ≡ true) → (a || c) ≡ (a || (b || c))
or-implied true b c h = refl
or-implied false true c h = absurd (cc (h refl))
or-implied false false c h = refl

begins_failed-shorter : (bs : List Bool) → begins_failed 2 bs ≡ true → begins_failed 1 bs ≡ true
unfolding begins_failed
begins_failed-shorter [] e = e
begins_failed-shorter (true ∷ bs) e = e
begins_failed-shorter (false ∷ bs) e = refl

-- What is left to fail, after none, one or two failures in a row.
renew_all-counts :
    (bs : List Bool)
    → ((renew_all bs (at_count 0 false)).cancelled ≡ three_failed bs)
      × ((renew_all bs (at_count 1 false)).cancelled ≡ (begins_failed 2 bs || three_failed bs))
      × ((renew_all bs (at_count 2 false)).cancelled ≡ (begins_failed 1 bs || three_failed bs))
unfolding renew_all renewed begins_failed three_failed
renew_all-counts [] = (refl, refl, refl)
renew_all-counts (true ∷ bs) = let (a, b, c) = renew_all-counts bs in (a, a, a)
renew_all-counts (false ∷ bs) =
    let (a, b, c) = renew_all-counts bs in
    let short = begins_failed-shorter bs in
    (b, c ∙ or-implied _ _ _ short, renew_all-cancelled bs 3)

-- After any sequence of renewals that succeeded or failed, the flag handed to `cancel_on_loss` is set if
-- and only if somewhere three renewals in a row failed.
pub renew_all-three_failed : (bs : List Bool) → (renew_all bs held).cancelled ≡ three_failed bs
renew_all-three_failed bs = (renew_all-counts bs).0
