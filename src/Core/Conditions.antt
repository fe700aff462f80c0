-- ===== src/Core/Conditions.antt =====
-- crates/core/src/resource.rs: the status conditions of an object and the life cycle of a job. An object
-- is seen through the fields that are read, as `serde_json` finds them: a field is absent, or it has
-- a value of the type that is asked for, or one of another type.
pub mod Current
mod Tests
use roder.Prelude.{
  ℤ, pos, negsuc, ℕ, String, Bool, true, false, not, ◌&&◌, ◌||◌, Option, none, some, List, [], ◌∷◌,
  ◌++◌, filter, ltb, ◌==◌, nat_eq, string_eq, if◌then◌else◌, unwrap_or,
}

abbrev pub int_eq : ℤ → ℤ → Bool
int_eq (pos a) (pos b) = a == b
int_eq (negsuc a) (negsuc b) = a == b
int_eq _ _ = false

abbrev pub int_lt : ℤ → ℤ → Bool
int_lt (pos a) (pos b) = ltb a b
int_lt (negsuc a) (negsuc b) = ltb b a
int_lt (negsuc a) (pos b) = true
int_lt (pos a) (negsuc b) = false

pub data Field (A : Type 0) : Type 0 where
  absent : Field A
  present : A → Field A
  other : Field A

-- `get(..).and_then(as_..)`
abbrev pub read : {A : Type 0} → Field A → Option A
read absent = none
read (present a) = some a
read other = none

abbrev pub is_absent : {A : Type 0} → Field A → Bool
is_absent absent = true
is_absent (present a) = false
is_absent other = false

-- `option == Some(..)`
abbrev pub is_string : Option String → String → Bool
is_string none s = false
is_string (some t) s = t == s

abbrev pub is_int : Option ℤ → ℤ → Bool
is_int none n = false
is_int (some m) n = int_eq m n

pub record Condition : Type 0 where
  pub type : Field String
  pub status : Field String
  pub observed_generation : Field ℤ

pub record Object : Type 0 where
  pub generation : Field ℤ
  pub suspend : Field Bool
  pub status_observed_generation : Field ℤ
  pub conditions : Field (List Condition)

abbrev pub reverse {ℓ} : {A : Type ℓ} → List A → List A
reverse [] = []
reverse (x ∷ xs) = reverse xs ++ x ∷ []

-- `Iterator::find` and `next`
abbrev pub first_that {ℓ} : {A : Type ℓ} → (A → Bool) → List A → Option A
first_that p [] = none
first_that p (x ∷ xs) = let rest = first_that p xs in if p x then some x else rest

abbrev pub or_else {ℓ} : {A : Type ℓ} → Option A → Option A → Option A
or_else none b = b
or_else (some a) b = some a

abbrev pub matching : List Condition → String → List Condition
matching conditions type = filter (λ c. is_string (read c.type) type) (reverse conditions)

unfoldable pub current_condition_from : List Condition → Option ℤ → String → Option Condition
current_condition_from conditions none type = first_that (λ _. true) (matching conditions type)
current_condition_from conditions (some generation) type =
    or_else
      (first_that (λ c. is_int (read c.observed_generation) generation) (matching conditions type))
      (first_that (λ c. is_absent c.observed_generation) (matching conditions type))

abbrev pub is_behind : Option ℤ → Option ℤ → Bool
is_behind none _ = false
is_behind (some generation) none = false
is_behind (some generation) (some observed) = int_lt observed generation

unfoldable pub status_generation_is_stale : Object → Bool
status_generation_is_stale o = is_behind (read o.generation) (read o.status_observed_generation)

unfoldable pub current_condition : Object → String → Option Condition
current_condition o type = elim (read o.conditions) [
  | none ↦ none
  | some conditions ↦ elim (current_condition_from conditions (read o.generation) type) [
    | none ↦ none
    | some c ↦
        if is_absent c.observed_generation && status_generation_is_stale o then none else some c
  ]
]

abbrev pub has_status : Option Condition → String → Bool
has_status none status = false
has_status (some c) status = is_string (read c.status) status

unfoldable pub condition_is : Object → String → String → Bool
condition_is o type status = has_status (current_condition o type) status

pub data JobLifecycle : Type 0 where
  complete failed failing suspended completing running : JobLifecycle

unfoldable pub is_terminal : JobLifecycle → Bool
is_terminal complete = true
is_terminal failed = true
is_terminal _ = false

unfoldable pub job_lifecycle : Object → JobLifecycle
job_lifecycle o =
    if condition_is o "Failed" "True"
    then failed
    else if condition_is o "FailureTarget" "True"
    then failing
    else if condition_is o "Complete" "True"
    then complete
    else if unwrap_or (read o.suspend) false || condition_is o "Suspended" "True"
    then suspended
    else if condition_is o "SuccessCriteriaMet" "True"
    then completing
    else running
