-- ===== src/Core/Conditions/Current.antt =====
-- Which condition is current (crates/core/src/resource.rs), and what that says of a job.
use roder.Prelude.{
  ℤ, String, ◌≡◌, ◌⊎◌, inl, inr, refl, ap, ◌∙◌, subst, Bool, true, false, not, ◌&&◌, ◌||◌, Option,
  none, some, List, [], ◌∷◌, ◌++◌, All, All-filter_intro, arith, Bool-cases, Option-cases,
}
use roder.Core.Conditions.{
  read, is_absent, is_string, is_int, Condition, Object, reverse, first_that, matching,
  current_condition_from, status_generation_is_stale, current_condition, condition_is, is_terminal,
  job_lifecycle,
}

first_that-All {ℓ κ} :
    {A : Type ℓ} (Q : A → Type κ) (p : A → Bool) (xs : List A) (x : A)
    → All Q xs
    → first_that p xs ≡ some x
    → Q x × (p x ≡ true)
first_that-All Q p [] x a h = absurd (cc h)
first_that-All Q p (y ∷ xs) x a h = elim (Bool-cases (p y)) [
  | inl e ↦
      let y-x : y ≡ x = ground (arith, e, h) in (subst Q y-x a.0, subst (λ z. p z ≡ true) y-x e)
  | inr e ↦ first_that-All Q p xs x a.1 (ground (arith, e, h))
]

All-match :
    (conditions : List Condition) (type : String)
    → All (λ c. is_string (read c.type) type ≡ true) (matching conditions type)
All-match conditions type =
    All-filter_intro (λ c. is_string (read c.type) type ≡ true) _ (reverse conditions)
      (each (reverse conditions))
  where
    each :
        (cs : List Condition)
        → All (λ c. is_string (read c.type) type ≡ true → is_string (read c.type) type ≡ true) cs
    each [] = tt
    each (c ∷ cs) = ((λ h. h), each cs)

-- A condition may speak for an object of this generation: it was observed at it, or it does not say
-- when, or the object has no generation.
abbrev pub SpeaksFor : Option ℤ → Condition → Type 0
SpeaksFor none c = Unit
SpeaksFor (some g) c =
    (is_int (read c.observed_generation) g ≡ true) ⊎ (is_absent c.observed_generation ≡ true)

current_condition_from-SpeaksFor :
    (conditions : List Condition) (generation : Option ℤ) (type : String) (c : Condition)
    → current_condition_from conditions generation type ≡ some c
    → (is_string (read c.type) type ≡ true) × SpeaksFor generation c
unfolding current_condition_from
current_condition_from-SpeaksFor conditions none type c h = (
  (first_that-All _ (λ _. true) (matching conditions type) c (All-match conditions type) h).0,
  tt,
)
current_condition_from-SpeaksFor conditions (some g) type c h =
    let cs = matching conditions type in
    let a = All-match conditions type in
    let at : Condition → Bool = λ d. is_int (read d.observed_generation) g in
    elim (Option-cases (first_that at cs)) [
      | inl e ↦
          let r =
            first_that-All _ (λ d. is_absent d.observed_generation) cs c a (ground (arith, e, h)) in
          (r.0, inr r.1)
      | inr (d, e) ↦ let r = first_that-All _ at cs c a (ground (arith, e, h)) in (r.0, inl r.1)
    ]

-- The condition that is reported as current has the type that was asked for, it was not observed at
-- another generation than the object's, and if it does not say when it was observed then the status
-- as a whole is not behind the object.
pub current_condition-SpeaksFor :
    (o : Object) (type : String) (c : Condition)
    → current_condition o type ≡ some c
    → (is_string (read c.type) type ≡ true)
      × SpeaksFor (read o.generation) c
      × (is_absent c.observed_generation ≡ true → status_generation_is_stale o ≡ false)
unfolding current_condition
current_condition-SpeaksFor o type c h = elim (Option-cases (read o.conditions)) [
  | inl e ↦ absurd (ground (arith, e, h))
  | inr (cs, e) ↦ elim (Option-cases (current_condition_from cs (read o.generation) type)) [
    | inl f ↦ absurd (ground (arith, e, f, h))
    | inr (d, f) ↦
        let d-c : d ≡ c = ground (arith, e, f, h) in
        let r = current_condition_from-SpeaksFor cs (read o.generation) type c (f ∙ ap some d-c) in
        (
          r.0,
          r.1,
          λ q.
              ground
                (arith, e, f, h, q, ap (λ (x : Condition). is_absent x.observed_generation) d-c),
        )
  ]
]

reverse-append : (cs : List Condition) (c : Condition) → reverse (cs ++ c ∷ []) ≡ c ∷ reverse cs
reverse-append [] c = refl
reverse-append (d ∷ cs) c = rw (reverse-append cs c)

-- A condition of the type asked for that stands last and was observed at the object's generation is
-- the current one, whatever stands before it.
pub current_condition_from-append :
    (conditions : List Condition) (g : ℤ) (type : String) (c : Condition)
    → is_string (read c.type) type ≡ true
    → is_int (read c.observed_generation) g ≡ true
    → current_condition_from (conditions ++ c ∷ []) (some g) type ≡ some c
unfolding current_condition_from
current_condition_from-append conditions g type c t at =
    rw (reverse-append conditions c, t, at) refl

-- A job is over exactly when it has failed, or it is complete and its failure has not been decided.
pub job_lifecycle-is_terminal :
    (o : Object)
    → is_terminal (job_lifecycle o) ≡ (
        condition_is o "Failed" "True"
        || (condition_is o "Complete" "True" && not (condition_is o "FailureTarget" "True")))
unfolding job_lifecycle is_terminal
job_lifecycle-is_terminal o = ground arith
