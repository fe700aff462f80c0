-- ===== src/Prelude/Maps.antt =====
-- Rust's `HashMap` and `BTreeMap` as association lists. The order of entries carries no meaning.
use Prim.Native.Nat.{ℕ, ◌≤◌}
use mathlib.Core.Path.{◌≡◌, refl, sym, subst, subst₂}
use mathlib.Core.Logic.{◌⊎◌, inl, inr}
use mathlib.Core.Bool.{Bool, true, false}
use mathlib.Core.List.{List, [], ◌∷◌}
use mathlib.Core.Option
use mathlib.Core.Option.{Option, none, some}
use native.Mathlib.Omega.{arith}
use roder.Prelude.Tests.{if◌then◌else◌, Bool-cases, Option-cases}
use roder.Prelude.Lists.{
  any, filter, All, All-map, All-filter_intro, All-filter_elim, max_by_key, max_by_key-none,
  max_by_key-le, max_by_key-All,
}
use roder.Prelude.Equality.{BoolEq, ◌==◌, ==_iff}

module _ {ℓ κ} {K : Type ℓ} ⦃e : BoolEq K⦄ {V : Type κ} where
  unfoldable pub find : K → List (K × V) → Option V
  find k [] = none
  find k ((j, v) ∷ m) = if j == k then some v else find k m

  unfoldable pub remove : K → List (K × V) → List (K × V)
  remove k [] = []
  remove k ((j, v) ∷ m) = if j == k then remove k m else (j, v) ∷ remove k m

  unfoldable pub insert : K → V → List (K × V) → List (K × V)
  insert k v m = (k, v) ∷ remove k m

  -- `if let Some(e) = m.get_mut(&k) { *e = f(*e) }`
  unfoldable pub update : K → (V → V) → List (K × V) → List (K × V)
  update k f [] = []
  update k f ((j, v) ∷ m) = (j, if j == k then f v else v) ∷ update k f m

  -- Every key stands at most once.
  abbrev pub Distinct : List (K × V) → Type κ
  Distinct [] = Unit
  Distinct ((k, v) ∷ m) = (find k m ≡ none) × Distinct m

  pub find-remove :
      (k j : K) (m : List (K × V)) → find j (remove k m) ≡ (if k == j then none else find j m)
  unfolding find remove
  find-remove k j [] = ground arith
  find-remove k j ((i, v) ∷ m) =
      ground (arith, find-remove k j m, ==_iff i k, ==_iff i j, ==_iff k j)

  pub find-insert :
      (k j : K) (v : V) (m : List (K × V))
      → find j (insert k v m) ≡ (if k == j then some v else find j m)
  unfolding find insert
  find-insert k j v m = ground (arith, find-remove k j m)

  pub find-update :
      (k j : K) (f : V → V) (m : List (K × V))
      → find j (update k f m) ≡ (if k == j then Option.map f (find j m) else find j m)
  unfolding find update
  find-update k j f [] = ground arith
  find-update k j f ((i, v) ∷ m) =
      ground (arith, find-update k j f m, ==_iff i k, ==_iff i j, ==_iff k j)

  pub find-update_inv :
      (k j : K) (f : V → V) (m : List (K × V)) (w : V)
      → find j (update k f m) ≡ some w
      → (v : V) × (find j m ≡ some v) × (w ≡ (if k == j then f v else v))
  find-update_inv k j f m w h = elim (Option-cases (find j m)) [
    | inl e ↦ absurd (ground (arith, find-update k j f m))
    | inr (v, e) ↦ (v, e, ground (arith, find-update k j f m))
  ]

  pub find-insert_inv :
      (k j : K) (v : V) (m : List (K × V)) (w : V)
      → find j (insert k v m) ≡ some w
      → ((k ≡ j) × (v ≡ w)) ⊎ (find j m ≡ some w)
  find-insert_inv k j v m w h = elim (Bool-cases (k == j)) [
    | inl hit ↦ inl ((==_iff k j).0 hit, ground (arith, find-insert k j v m))
    | inr miss ↦ inr (ground (arith, find-insert k j v m))
  ]

  pub find-remove_inv :
      (k j : K) (m : List (K × V)) (w : V) → find j (remove k m) ≡ some w → find j m ≡ some w
  find-remove_inv k j m w h = elim (Bool-cases (k == j)) [
    | inl hit ↦ absurd (ground (arith, find-remove k j m))
    | inr miss ↦ ground (arith, find-remove k j m)
  ]

  pub remove-absent : (k : K) (m : List (K × V)) → find k m ≡ none → remove k m ≡ m
  unfolding find remove
  remove-absent k [] h = refl
  remove-absent k ((i, v) ∷ m) h = ground (arith, remove-absent k m, ==_iff i k)

  pub Distinct-remove : (k : K) (m : List (K × V)) → Distinct m → Distinct (remove k m)
  unfolding remove
  Distinct-remove k [] d = tt
  Distinct-remove k ((i, v) ∷ m) d = ground (arith, Distinct-remove k m d.1, find-remove k i m)

  pub Distinct-insert : (k : K) (v : V) (m : List (K × V)) → Distinct m → Distinct (insert k v m)
  unfolding insert
  Distinct-insert k v m d = (ground (arith, find-remove k k m, ==_iff k k), Distinct-remove k m d)

  pub Distinct-update :
      (k : K) (f : V → V) (m : List (K × V)) → Distinct m → Distinct (update k f m)
  unfolding update
  Distinct-update k f [] d = tt
  Distinct-update k f ((i, v) ∷ m) d =
      ground (arith, Distinct-update k f m d.1, find-update k i f m)

  -- What no entry passes, no entry that is found passes.
  pub any-find :
      (p : K × V → Bool) (k : K) (v : V) (m : List (K × V))
      → any p m ≡ false
      → find k m ≡ some v
      → p (k, v) ≡ false
  unfolding find
  any-find p k v [] h f = ground arith
  any-find p k v ((i, w) ∷ m) h f = ground (arith, any-find p k v m, ==_iff i k)

  pub filter-remove :
      (p : K × V → Bool) (k : K) (v : V) (m : List (K × V))
      → Distinct m
      → find k m ≡ some v
      → p (k, v) ≡ false
      → filter p (remove k m) ≡ filter p m
  unfolding find remove
  filter-remove p k v [] d h q = refl
  filter-remove p k v ((i, w) ∷ m) d h q = elim (Bool-cases (i == k)) [
    | inl hit ↦
        let i-k : i ≡ k = (==_iff i k).0 hit in ground (arith, hit, i-k, q, remove-absent k m, d.0)
    | inr miss ↦ ground (arith, filter-remove p k v m d.1)
  ]

  pub find-All {μ} :
      (Q : K × V → Type μ) (k : K) (v : V) (m : List (K × V))
      → All Q m
      → find k m ≡ some v
      → Q (k, v)
  unfolding find
  find-All Q k v [] a h = absurd (cc h)
  find-All Q k v ((i, w) ∷ m) a h = elim (Bool-cases (i == k)) [
    | inl hit ↦
        let i-k : i ≡ k = (==_iff i k).0 hit in
        let w-v : w ≡ v = ground (arith, hit) in subst₂ (λ x y. Q (x, y)) i-k w-v a.0
    | inr miss ↦ find-All Q k v m a.1 (ground (arith, miss))
  ]

  -- With distinct keys every entry of the list is found.
  pub All-found : (m : List (K × V)) → Distinct m → All (λ x. find x.0 m ≡ some x.1) m
  unfolding find
  All-found [] d = tt
  All-found ((i, w) ∷ m) d = (
    ground (arith, ==_iff i i),
    All-map _ _ m (λ x found. ground (arith, d.0, ==_iff i x.0)) (All-found m d.1),
  )

module _ {ℓ κ μ} {K : Type ℓ} ⦃e : BoolEq K⦄ {V : Type κ} where
  -- A property of every entry that can be found.
  abbrev pub Everywhere : (K → V → Type μ) → List (K × V) → Type (ℓ ⊔ κ ⊔ μ)
  Everywhere P m = (k : K) (v : V) → find k m ≡ some v → P k v

module _ {ℓ κ μ} {K : Type ℓ} ⦃e : BoolEq K⦄ {V : Type κ} (P : K → V → Type μ) where
  pub Everywhere-remove : (k : K) (m : List (K × V)) → Everywhere P m → Everywhere P (remove k m)
  Everywhere-remove k m h j v f = h j v (ground (arith, find-remove k j m))

  pub Everywhere-insert :
      (k : K) (v : V) (m : List (K × V)) → P k v → Everywhere P m → Everywhere P (insert k v m)
  Everywhere-insert k v m p h j w f = elim (Bool-cases (k == j)) [
    | inl hit ↦
        let k-j : k ≡ j = (==_iff k j).0 hit in
        let v-w : v ≡ w = ground (arith, find-insert k j v m) in subst₂ P k-j v-w p
    | inr miss ↦ h j w (ground (arith, find-insert k j v m))
  ]

  pub Everywhere-update :
      (k : K) (f : V → V) (m : List (K × V))
      → ((v : V) → find k m ≡ some v → P k v → P k (f v))
      → Everywhere P m
      → Everywhere P (update k f m)
  Everywhere-update k f m step h j w found =
      let (v, old, new) = find-update_inv k j f m w found in
      elim (Bool-cases (k == j)) [
        | inl hit ↦
            let k-j : k ≡ j = (==_iff k j).0 hit in
            let v-w : f v ≡ w = ground arith in
            let at-k : find k m ≡ some v = subst (λ x. find x m ≡ some v) (sym k-j) old in
            subst₂ P k-j v-w (step v at-k (h k v at-k))
        | inr miss ↦ let v-w : v ≡ w = ground arith in subst (P j) v-w (h j v old)
      ]

-- The entry with the largest measure among those that pass a test.
module _ {ℓ κ} {K : Type ℓ} ⦃e : BoolEq K⦄ {V : Type κ} (f : K × V → ℕ) (p : K × V → Bool) where
  pub best-found :
      (k : K) (v : V) (m : List (K × V))
      → Distinct m
      → max_by_key f (filter p m) ≡ some (k, v)
      → (find k m ≡ some v) × (p (k, v) ≡ true)
  best-found k v m d h =
      max_by_key-All f (λ x. (find x.0 m ≡ some x.1) × (p x ≡ true)) (filter p m) (k, v) h
        (All-filter_intro _ p m (All-map _ _ m (λ x q t. (q, t)) (All-found m d)))

  pub best-none :
      (k : K) (v : V) (m : List (K × V))
      → max_by_key f (filter p m) ≡ none
      → find k m ≡ some v
      → p (k, v) ≡ false
  best-none k v m h found =
      let nobody : All (λ x. p x ≡ true → ⊥) m =
        All-filter_elim (λ _. ⊥) p m (rw (max_by_key-none f (filter p m) h) tt) in
      elim (Bool-cases (p (k, v))) [
        | inl t ↦ absurd (find-All (λ x. p x ≡ true → ⊥) k v m nobody found t)
        | inr q ↦ q
      ]

  pub best-le :
      (k : K) (v : V) (m : List (K × V)) (y : K × V)
      → max_by_key f (filter p m) ≡ some y
      → find k m ≡ some v
      → p (k, v) ≡ true
      → f (k, v) ≤ f y
  best-le k v m y h found t =
      find-All (λ x. p x ≡ true → f x ≤ f y) k v m
        (All-filter_elim _ p m (max_by_key-le f (filter p m) y h)) found t
