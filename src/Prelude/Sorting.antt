-- ===== src/Prelude/Sorting.antt =====
-- Rust's `sort` and `sort_by`: stable, so insertion sort by the same order gives the same list.
use Prim.Native.Nat.{Ordering}
use Prim.Native.String.{String, compare}
use mathlib.Core.Bool.{Bool, true, false}
use mathlib.Core.List.{List, [], ◌∷◌}
use mathlib.Core.Path.{◌≡◌}
use mathlib.Core.Logic.{inl, inr}
use roder.Prelude.Lists.{All}
use roder.Prelude.Tests.{if◌then◌else◌, Bool-cases}

module _ {ℓ} {A : Type ℓ} (le : A → A → Bool) where
  unfoldable pub insert_sorted : A → List A → List A
  insert_sorted x [] = x ∷ []
  insert_sorted x (y ∷ ys) = if le x y then x ∷ y ∷ ys else y ∷ insert_sorted x ys

  unfoldable pub sort_by : List A → List A
  sort_by [] = []
  sort_by (x ∷ xs) = insert_sorted x (sort_by xs)

abbrev pub str_le : String → String → Bool
str_le s t = elim (compare s t) [ Ordering.gt ↦ false | _ ↦ true ]

unfoldable pub sort : List String → List String
unfolding sort_by insert_sorted
sort = sort_by str_le

module _ {ℓ} {A : Type ℓ} (le : A → A → Bool) where
  -- Each element is before all that follow it.
  unfoldable pub IsSorted : List A → Type 0
  IsSorted [] = Unit
  IsSorted (x ∷ xs) = All (λ y. le x y ≡ true) xs × IsSorted xs

  insert_sorted-All :
      (P : A → Type 0) (x : A) (xs : List A) → P x → All P xs → All P (insert_sorted le x xs)
  unfolding insert_sorted
  insert_sorted-All P x [] p q = (p, q)
  insert_sorted-All P x (y ∷ ys) p q = elim (Bool-cases (le x y)) [
    | inl e ↦ rw e (p, q)
    | inr e ↦ rw e (q.0, insert_sorted-All P x ys p q.1)
  ]

  pub sort_by-All : (P : A → Type 0) (xs : List A) → All P xs → All P (sort_by le xs)
  unfolding sort_by
  sort_by-All P [] q = q
  sort_by-All P (x ∷ xs) q = insert_sorted-All P x (sort_by le xs) q.0 (sort_by-All P xs q.1)

  module _ (P : A → Type 0) (total : (a b : A) → P a → P b → le a b ≡ false → le b a ≡ true)
      (trans : (a b x : A) → P a → P b → P x → le a b ≡ true → le b x ≡ true → le a x ≡ true) where
    All-le :
        (x y : A) (ys : List A)
        → P x
        → P y
        → All P ys
        → le x y ≡ true
        → All (λ z. le y z ≡ true) ys
        → All (λ z. le x z ≡ true) ys
    All-le x y [] p q r e h = h
    All-le x y (z ∷ zs) p q r e h = (trans x y z p q r.0 e h.0, All-le x y zs p q r.1 e h.1)

    insert_sorted-IsSorted :
        (x : A) (xs : List A) → P x → All P xs → IsSorted xs → IsSorted (insert_sorted le x xs)
    unfolding insert_sorted IsSorted
    insert_sorted-IsSorted x [] p q s = (s, s)
    insert_sorted-IsSorted x (y ∷ ys) p q s = elim (Bool-cases (le x y)) [
      | inl e ↦ rw e ((e, All-le x y ys p q.0 q.1 e s.0), s)
      | inr e ↦ rw e (
        insert_sorted-All (λ z. le y z ≡ true) x ys (total x y p q.0 e) s.0,
        insert_sorted-IsSorted x ys p q.1 s.1,
      )
    ]

    pub sort_by-IsSorted : (xs : List A) → All P xs → IsSorted (sort_by le xs)
    unfolding sort_by IsSorted
    sort_by-IsSorted [] q = tt
    sort_by-IsSorted (x ∷ xs) q =
        insert_sorted-IsSorted x (sort_by le xs) q.0 (sort_by-All P xs q.1)
          (sort_by-IsSorted xs q.1)
