-- ===== src/App/TableLogic/Compare/Filters.antt =====
-- The filters of `shown_uids` of src/app/table_logic.rs on the status of a row, and what filtering and
-- sorting keep.
use mathlib.Core.List.{Perm}
use mathlib.Core.List.Perm
use roder.Prelude.{
  zero, suc, unwrap_or, ◌≡◌, ◌↔◌, ◌⊎◌, refl, sym, ap, ◌∙◌, nat_beq_iff, inl, inr, ℕ, Bool, true,
  false, not, ◌&&◌, ◌||◌, Option, none, some, List, [], ◌∷◌, filter, nat_beq, string_eq, Bool-cases,
}
use roder.Prelude.Sorting.{sort_by, insert_sorted}
use roder.Core.Row.{RowStatus, ok, pending, warn, error, done, unknown}

abbrev pub is_problem : RowStatus → Bool
is_problem error = true
is_problem warn = true
is_problem _ = false

abbrev status_index : RowStatus → ℕ
status_index ok = 0
status_index pending = 1
status_index warn = 2
status_index error = 3
status_index done = 4
status_index unknown = 5

abbrev pub is_status : RowStatus → Option RowStatus → Bool
is_status s none = true
is_status s (some f) = nat_beq (status_index s) (status_index f)

-- The elements of which the predicate holds have been taken out, and put into some order.
abbrev pub IsChosen : {A : Type 0} → (A → Type 0) → List A → List A → Type 0
IsChosen {A} P xs ys = (p : A → Bool) × ((x : A) → (p x ≡ true) ↔ P x) × Perm (filter p xs) ys

pub problem_lem : (s : RowStatus) → (is_problem s ≡ true) ↔ ((s ≡ error) ⊎ (s ≡ warn))
problem_lem ok = ((λ e. absurd (cc e)), (λ p. elim p [ inl q ↦ cc q | inr q ↦ cc q ]))
problem_lem pending = ((λ e. absurd (cc e)), (λ p. elim p [ inl q ↦ cc q | inr q ↦ cc q ]))
problem_lem warn = ((λ e. inr refl), (λ p. refl))
problem_lem error = ((λ e. inl refl), (λ p. refl))
problem_lem done = ((λ e. absurd (cc e)), (λ p. elim p [ inl q ↦ cc q | inr q ↦ cc q ]))
problem_lem unknown = ((λ e. absurd (cc e)), (λ p. elim p [ inl q ↦ cc q | inr q ↦ cc q ]))

status_of : ℕ → RowStatus
status_of zero = ok
status_of (suc zero) = pending
status_of (suc (suc zero)) = warn
status_of (suc (suc (suc zero))) = error
status_of (suc (suc (suc (suc zero)))) = done
status_of _ = unknown

status_of-status_index : (s : RowStatus) → status_of (status_index s) ≡ s
unfolding status_of
status_of-status_index ok = refl
status_of-status_index pending = refl
status_of-status_index warn = refl
status_of-status_index error = refl
status_of-status_index done = refl
status_of-status_index unknown = refl

same_status : (s t : RowStatus) → nat_beq (status_index s) (status_index t) ≡ true → s ≡ t
same_status s t e =
    sym (status_of-status_index s)
    ∙ ap status_of ((nat_beq_iff (status_index s) (status_index t)).0 e)
    ∙ status_of-status_index t

pub status_lem :
    (s : RowStatus) (o : Option RowStatus)
    → (is_status s o ≡ true) ↔ ((t : RowStatus) → o ≡ some t → s ≡ t)
status_lem s none = ((λ e t q. absurd (cc q)), (λ h. refl))
status_lem s (some f) = (
  (λ e t q. same_status s f e ∙ ap (λ o. unwrap_or o f) q),
  (λ h. (nat_beq_iff (status_index s) (status_index f)).1 (ap status_index (h f refl))),
)

pub and_iff : (a b : Bool) → ((a && b) ≡ true) ↔ ((a ≡ true) × (b ≡ true))
and_iff true b = ((λ e. (refl, e)), (λ p. p.1))
and_iff false b = ((λ e. absurd (cc e)), (λ p. absurd (cc (p.0))))

pub or_iff : (a b : Bool) → ((a || b) ≡ true) ↔ ((a ≡ true) ⊎ (b ≡ true))
or_iff true b = ((λ e. inl refl), (λ p. refl))
or_iff false b = ((λ e. inr e), (λ p. elim p [ inl q ↦ absurd (cc q) | inr q ↦ q ]))

pub unless_iff : (a b : Bool) → ((not a || b) ≡ true) ↔ (a ≡ true → b ≡ true)
unless_iff true b = ((λ e _. e), (λ h. h refl))
unless_iff false b = ((λ e q. absurd (cc q)), (λ h. refl))

insert_sorted-Perm :
    {A : Type 0} (le : A → A → Bool) (x : A) (xs : List A) → Perm (x ∷ xs) (insert_sorted le x xs)
unfolding insert_sorted
insert_sorted-Perm le x [] = Perm.refl (x ∷ [])
insert_sorted-Perm le x (y ∷ ys) = elim (Bool-cases (le x y)) [
  | inl e ↦ rw e (Perm.refl (x ∷ y ∷ ys))
  | inr e ↦ rw e (Perm.trans (Perm.swap y x ys) (Perm.cons y (insert_sorted-Perm le x ys)))
]

pub sort_by-Perm : {A : Type 0} (le : A → A → Bool) (xs : List A) → Perm xs (sort_by le xs)
unfolding sort_by
sort_by-Perm le [] = Perm.refl []
sort_by-Perm le (x ∷ xs) =
    Perm.trans (Perm.cons x (sort_by-Perm le xs)) (insert_sorted-Perm le x (sort_by le xs))
