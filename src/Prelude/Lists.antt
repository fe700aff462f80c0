-- ===== src/Prelude/Lists.antt =====
-- Lists measured and indexed by native numbers, Boolean filters, and predicates by recursion.
use Prim.Native.Nat.{ℕ, zero, suc, ◌+◌, ◌≤◌, ◌<◌}
use mathlib.Core.Path.{◌≡◌, refl, sym, subst, ◌∙◌}
use mathlib.Core.Logic.{inl, inr}
use mathlib.Core.Bool.{Bool, true, false, not, ◌||◌, false≢true}
use mathlib.Core.List.{List, [], ◌∷◌, ◌++◌}
use mathlib.Core.Option.{Option, none, some}
use native.Mathlib.Omega.{arith}
use roder.Prelude.Tests.{if◌then◌else◌, ltb, Bool-cases, Option-cases}

module _ {ℓ} {A : Type ℓ} where
  abbrev pub length : List A → ℕ
  length [] = 0
  length (x ∷ xs) = suc (length xs)

  abbrev pub get_elem? : List A → ℕ → Option A
  get_elem? [] i = none
  get_elem? (x ∷ xs) zero = some x
  get_elem? (x ∷ xs) (suc i) = get_elem? xs i

  abbrev pub drop : ℕ → List A → List A
  drop zero xs = xs
  drop (suc n) [] = []
  drop (suc n) (x ∷ xs) = drop n xs

  abbrev pub take : ℕ → List A → List A
  take zero xs = []
  take (suc n) [] = []
  take (suc n) (x ∷ xs) = x ∷ take n xs

  -- Rust's `Iterator::any` and `Iterator::filter`, with a Boolean test.
  abbrev pub any : (A → Bool) → List A → Bool
  any p [] = false
  any p (x ∷ xs) = p x || any p xs

  abbrev pub filter : (A → Bool) → List A → List A
  filter p [] = []
  filter p (x ∷ xs) = if p x then x ∷ filter p xs else filter p xs

  abbrev pub flat_map {κ} : {B : Type κ} → (A → List B) → List A → List B
  flat_map f [] = []
  flat_map f (x ∷ xs) = f x ++ flat_map f xs

  abbrev pub is_empty : List A → Bool
  is_empty [] = true
  is_empty (x ∷ xs) = false

  -- `Iterator::max_by_key`: of equal keys, the last.
  abbrev pub max_by_key : (A → ℕ) → List A → Option A
  max_by_key f [] = none
  max_by_key f (x ∷ xs) = elim (max_by_key f xs) [
    | none ↦ some x
    | some y ↦ some (if ltb (f y) (f x) then x else y)
  ]

  abbrev pub All {κ} : (A → Type κ) → List A → Type κ
  All P [] = Unit
  All P (x ∷ xs) = P x × All P xs

module _ {ℓ} {A : Type ℓ} where
  pub length-append : (xs ys : List A) → length (xs ++ ys) ≡ length xs + length ys
  length-append [] ys = omega arith
  length-append (x ∷ xs) ys = omega (arith, length-append xs ys)

  pub length-filter-le : (p : A → Bool) (xs : List A) → length (filter p xs) ≤ length xs
  length-filter-le p [] = omega arith
  length-filter-le p (x ∷ xs) = ground (arith, length-filter-le p xs)

  pub length-filter-not :
      (p : A → Bool) (xs : List A)
      → length (filter p xs) + length (filter (λ x. not (p x)) xs) ≡ length xs
  length-filter-not p [] = omega arith
  length-filter-not p (x ∷ xs) = ground (arith, length-filter-not p xs)

  pub filter-append :
      (p : A → Bool) (xs ys : List A) → filter p (xs ++ ys) ≡ filter p xs ++ filter p ys
  filter-append p [] ys = refl
  filter-append p (x ∷ xs) ys = ground (arith, filter-append p xs ys)

  pub All-append {κ} : (P : A → Type κ) (xs ys : List A) → All P xs → All P ys → All P (xs ++ ys)
  All-append P [] ys hx hy = hy
  All-append P (x ∷ xs) ys hx hy = (hx.0, All-append P xs ys hx.1 hy)

  pub All-filter : (p : A → Bool) (xs : List A) → All (λ x. p x ≡ true) (filter p xs)
  All-filter p [] = tt
  All-filter p (x ∷ xs) = ground (arith, All-filter p xs)

module _ {ℓ κ μ} {A : Type ℓ} (P : A → Type κ) (Q : A → Type μ) where
  pub All-map : (xs : List A) → ((x : A) → P x → Q x) → All P xs → All Q xs
  All-map [] f h = tt
  All-map (x ∷ xs) f h = (f x h.0, All-map xs f h.1)

module _ {ℓ} {A : Type ℓ} where
  pub take-append-drop : (n : ℕ) (xs : List A) → take n xs ++ drop n xs ≡ xs
  take-append-drop zero xs = refl
  take-append-drop (suc n) [] = refl
  take-append-drop (suc n) (x ∷ xs) = rw (take-append-drop n xs)

  pub take-length : (xs : List A) → take (length xs) xs ≡ xs
  take-length [] = refl
  take-length (x ∷ xs) = rw (take-length xs)

  pub take-append : (n : ℕ) (xs ys : List A) → n ≤ length xs → take n (xs ++ ys) ≡ take n xs
  take-append zero xs ys h = refl
  take-append (suc n) [] ys h = absurd (omega arith)
  take-append (suc n) (x ∷ xs) ys h = rw (take-append n xs ys (omega arith))

  pub take-suc :
      (n : ℕ) (xs : List A) (x : A)
      → get_elem? xs n ≡ some x
      → take (suc n) xs ≡ take n xs ++ x ∷ []
  take-suc n [] x h = absurd (cc h)
  take-suc zero (y ∷ xs) x h = ground (arith, h)
  take-suc (suc n) (y ∷ xs) x h = rw (take-suc n xs x h)

  pub length-take : (n : ℕ) (xs : List A) → n ≤ length xs → length (take n xs) ≡ n
  length-take zero xs h = refl
  length-take (suc n) [] h = absurd (omega arith)
  length-take (suc n) (x ∷ xs) h = omega (arith, length-take n xs (omega arith))

  pub get_elem?-lt : (xs : List A) (n : ℕ) (x : A) → get_elem? xs n ≡ some x → n < length xs
  get_elem?-lt [] n x h = absurd (cc h)
  get_elem?-lt (y ∷ xs) zero x h = omega arith
  get_elem?-lt (y ∷ xs) (suc n) x h = omega (arith, get_elem?-lt xs n x h)

  pub take-take : (n m : ℕ) (xs : List A) → n ≤ m → take n (take m xs) ≡ take n xs
  take-take zero m xs h = refl
  take-take (suc n) zero xs h = absurd (omega arith)
  take-take (suc n) (suc m) [] h = refl
  take-take (suc n) (suc m) (x ∷ xs) h = rw (take-take n m xs (omega arith))

module _ {ℓ κ} {A : Type ℓ} (Q : A → Type κ) (p : A → Bool) where
  pub All-filter_intro : (xs : List A) → All (λ x. p x ≡ true → Q x) xs → All Q (filter p xs)
  All-filter_intro [] h = tt
  All-filter_intro (x ∷ xs) h = elim (Bool-cases (p x)) [
    | inl e ↦ rw e (h.0 e, All-filter_intro xs h.1)
    | inr e ↦ rw e (All-filter_intro xs h.1)
  ]

  pub All-filter_elim : (xs : List A) → All Q (filter p xs) → All (λ x. p x ≡ true → Q x) xs
  All-filter_elim [] h = tt
  All-filter_elim (x ∷ xs) h = elim (Bool-cases (p x)) [
    | inl e ↦ let h' = rw e at h in ((λ _. h'.0), All-filter_elim xs h'.1)
    | inr e ↦
        let h' = rw e at h in ((λ e'. absurd (false≢true (sym e ∙ e'))), All-filter_elim xs h')
  ]

module _ {ℓ} {A : Type ℓ} (f : A → ℕ) where
  -- What `max_by_key` picks is an element, and no other has a larger key.
  pub max_by_key-none : (xs : List A) → max_by_key f xs ≡ none → xs ≡ []
  max_by_key-none [] h = refl
  max_by_key-none (x ∷ xs) h = absurd (ground arith)

  pub max_by_key-le : (xs : List A) (y : A) → max_by_key f xs ≡ some y → All (λ x. f x ≤ f y) xs
  max_by_key-le [] y h = tt
  max_by_key-le (x ∷ xs) y h = elim (Option-cases (max_by_key f xs)) [
    | inl e ↦ rw (max_by_key-none xs e) (ground arith, tt)
    | inr (z, e) ↦ (ground arith, All-map _ _ xs (λ w q. ground (arith, e)) (max_by_key-le xs z e))
  ]

  pub max_by_key-All {κ} :
      (P : A → Type κ) (xs : List A) (y : A) → max_by_key f xs ≡ some y → All P xs → P y
  max_by_key-All P [] y h a = absurd (cc h)
  max_by_key-All P (x ∷ xs) y h a = elim (Option-cases (max_by_key f xs)) [
    | inl e ↦ subst P (ground (arith, e)) a.0
    | inr (z, e) ↦ elim (Bool-cases (ltb (f z) (f x))) [
      | inl q ↦ subst P (ground (arith, e, q)) a.0
      | inr q ↦ subst P (ground (arith, e, q)) (max_by_key-All P xs z e a.1)
    ]
  ]
