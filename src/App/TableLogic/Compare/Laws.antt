-- ===== src/App/TableLogic/Compare/Laws.antt =====
-- Laws of `compare_rows` of src/app/table_logic.rs.
use mathlib.Core.Path.{fun_ext}
use roder.Prelude.{
  inl, inr, ◌⊎◌, ℕ, String, ◌≡◌, refl, sym, subst, Bool, false, Option, none, some, List, [], ◌∷◌,
  unwrap_or, get_elem?,
}
use roder.Prelude.Texts.{codes, split_once}
use roder.Core.Row.{ResourceRow}
use roder.App.TableLogic.Orderings.{
  Ordering, less, greater, lex, cmp, IsOrder, on-IsOrder, lex-IsOrder, then_with-IsOrder,
}
use roder.App.TableLogic.Natural.{nat_cmp, nat_cmp-IsOrder}
use roder.App.TableLogic.Compare.{
  Floats, primary_value, text_cmp, option_cmp, SortKey, namespace, name, age, cell, cmp_str,
  cmp_cell, key_cmp, compare_rows,
}

-- Floating-point numbers that are no NaN are in a total order.
pub record IsFloat (F : Floats) : Type 0 where
  pub is_nan : F.Float → Bool
  pub number_cmp : F.Float → F.Float → Ordering
  pub number_cmp-IsOrder : IsOrder number_cmp
  pub partial_cmp-number :
      (x y : F.Float)
      → is_nan x ≡ false
      → is_nan y ≡ false
      → F.partial_cmp x y ≡ some (number_cmp x y)

abbrev created_key : Option String → List ℕ
created_key none = []
created_key (some t) = 0 ∷ codes t

option_cmp-lex : (a b : Option String) → option_cmp a b ≡ lex (created_key a) (created_key b)
unfolding option_cmp lex cmp
option_cmp-lex none none = refl
option_cmp-lex none (some b) = refl
option_cmp-lex (some a) none = refl
option_cmp-lex (some a) (some b) = refl

same-IsOrder :
    {A : Type 0} (c d : A → A → Ordering) → ((a b : A) → c a b ≡ d a b) → IsOrder d → IsOrder c
same-IsOrder c d e O = subst IsOrder (sym (fun_ext (λ a. fun_ext (λ b. e a b)))) O

module _ (F : Floats) (L : IsFloat F) where
  abbrev cell_text : ℕ → ResourceRow → String
  cell_text i r = primary_value (unwrap_or (get_elem? r.cells i) "")

  -- All these rows have numbers in the column, or none has.
  abbrev pub IsUniform : SortKey → (ResourceRow → Type 0) → Type 0
  IsUniform (cell i) P =
      ((r : ResourceRow)
        → P r
        → (x : F.Float) × (F.parse (cell_text i r) ≡ some x) × (L.is_nan x ≡ false))
      ⊎ ((r : ResourceRow) → P r → F.parse (cell_text i r) ≡ none)
  IsUniform _ P = Unit

  module _ (P : ResourceRow → Type 0) where
    abbrev Rows : Type 0
    Rows = (r : ResourceRow) × P r

    name-IsOrder : IsOrder {A = Rows} (λ a b. nat_cmp (codes a.0.name) (codes b.0.name))
    name-IsOrder = on-IsOrder nat_cmp nat_cmp-IsOrder (λ r. codes r.0.name)

    cell-IsOrder :
        (i : ℕ)
        → IsUniform (cell i) P
        → IsOrder {A = Rows} (λ a b. cmp_cell F (get_elem? a.0.cells i) (get_elem? b.0.cells i))
    unfolding cmp_cell cmp_str
    cell-IsOrder i (inl numbers) =
        let value = λ (r : Rows). (numbers r.0 r.1).0 in
        same-IsOrder _ (λ a b. L.number_cmp (value a) (value b))
          (λ a b.
            let (x, e, n) = numbers a.0 a.1 in
            let (y, f, m) = numbers b.0 b.1 in rw (e, f, L.partial_cmp-number x y n m) refl)
          (on-IsOrder L.number_cmp L.number_cmp-IsOrder value)
    cell-IsOrder i (inr texts) =
        same-IsOrder _ (λ a b. text_cmp (cell_text i a.0) (cell_text i b.0))
          (λ a b. rw (texts a.0 a.1) refl)
          (on-IsOrder lex lex-IsOrder (λ r. codes (cell_text i r.0)))

    key-IsOrder :
        (key : SortKey) → IsUniform key P → IsOrder {A = Rows} (λ a b. key_cmp F key a.0 b.0)
    key-IsOrder namespace u =
        then_with-IsOrder _ _
          (on-IsOrder nat_cmp nat_cmp-IsOrder (λ (r : Rows). codes (unwrap_or r.0.namespace "")))
          name-IsOrder
    key-IsOrder name u = name-IsOrder
    key-IsOrder age u =
        then_with-IsOrder _ _
          (same-IsOrder _ _ (λ a b. option_cmp-lex a.0.created b.0.created)
            (on-IsOrder lex lex-IsOrder (λ (r : Rows). created_key r.0.created)))
          name-IsOrder
    key-IsOrder (cell i) u = then_with-IsOrder _ _ (cell-IsOrder i u) name-IsOrder

  -- For every sort key `compare_rows` is a total order, up to what it takes as equal, on rows of which each
  -- cell of the column that is the key is a number that is no NaN, or none is a number. Floating-point
  -- numbers that are no NaN are taken to be in a total order.
  pub compare_rows-IsOrder :
      (P : ResourceRow → Type 0) (key : SortKey)
      → IsUniform key P
      → IsOrder {A = (r : ResourceRow) × P r} (λ a b. compare_rows F a.0 b.0 key)
  unfolding compare_rows
  compare_rows-IsOrder P key u =
      then_with-IsOrder _ _ (key-IsOrder P key u) (on-IsOrder lex lex-IsOrder (λ r. codes r.0.uid))

-- A column with numbers and other texts is not compared by an order: 9 is before 10, 10 before
-- `500m`, and that before 9.
cmp_cell-not_IsOrder :
    (F : Floats) (nine ten : F.Float)
    → F.parse "9" ≡ some nine
    → F.parse "10" ≡ some ten
    → F.parse "500m" ≡ none
    → F.partial_cmp nine ten ≡ some less
    → IsOrder (cmp_cell F)
    → ⊥
unfolding cmp_cell cmp_str primary_value split_once lex cmp
cmp_cell-not_IsOrder F nine ten e f g h O =
    let one : cmp_cell F (some "9") (some "10") ≡ less = rw (e, f, h) refl in
    let two : cmp_cell F (some "10") (some "500m") ≡ less = rw (f, g) refl in
    let three : cmp_cell F (some "9") (some "500m") ≡ greater = rw (e, g) refl in
    cc (three, O.trans (some "9") (some "10") (some "500m") one two)
