-- ===== src/App/TableLogic/Compare/Shown.antt =====
-- `shown_uids` and `shown_row_keys` of src/app/table_logic.rs. `to_lowercase` and `str::contains` are the
-- standard library's.
use roder.Prelude.{
  ◌≡◌, ◌≢◌, ◌↔◌, ◌⊎◌, inl, inr, String, Bool, true, false, not, ◌&&◌, ◌||◌, Option, some, List, [],
  ◌∷◌, All, filter, map, ◌==◌, string_eq, if◌then◌else◌, Bool-cases,
}
use roder.Prelude.Sorting.{sort_by, IsSorted, sort_by-IsSorted}
use roder.Core.Row.{ResourceRow, RowStatus, warn, error}
use roder.App.TableLogic.Orderings.{
  Ordering, less, equal, greater, reverse, then_with, not_greater, IsOrder, reverse-IsOrder,
  not_greater-total, not_greater_trans,
}
use roder.App.TableLogic.Compare.{Floats, SortKey, compare_rows, text_cmp}
use roder.App.TableLogic.Compare.Filters.{
  is_problem, is_status, IsChosen, problem_lem, status_lem, and_iff, or_iff, unless_iff,
  sort_by-Perm,
}
use roder.App.TableLogic.Compare.Laws.{IsFloat, IsUniform, compare_rows-IsOrder}

abbrev pub directed : Bool → Ordering → Ordering
directed asc ord = if asc then ord else reverse ord

-- How a row compares with one that follows it.
abbrev pub InOrder : Bool → Ordering → Type 0
InOrder true o = o ≢ greater
InOrder false o = o ≢ less

-- The filters, each when it is set.
abbrev pub Passes :
    (String → String)
    → (String → String → Bool)
    → Bool
    → Option RowStatus
    → String
    → ResourceRow
    → Type 0
Passes to_lowercase contains only_problems status_filter text row =
    (only_problems ≡ true → (row.status ≡ error) ⊎ (row.status ≡ warn))
    × ((s : RowStatus) → status_filter ≡ some s → row.status ≡ s)
    × ((text ≡ "") ⊎ (contains (to_lowercase row.name) text ≡ true))

-- Each element is so related to all that follow it.
unfoldable pub IsArranged : {A : Type 0} → (A → A → Type 0) → List A → Type 0
IsArranged R [] = Unit
IsArranged R (x ∷ xs) = All (R x) xs × IsArranged R xs

module _ (F : Floats) (to_lowercase : String → String) (contains : String → String → Bool) where
  -- The three filters.
  unfoldable pub is_shown : Bool → Option RowStatus → String → ResourceRow → Bool
  is_shown only_problems status_filter text row =
      (not only_problems || is_problem row.status)
      && (is_status row.status status_filter
          && (text == "" || contains (to_lowercase row.name) text))

  abbrev pub comes_before : SortKey → Bool → ResourceRow → ResourceRow → Bool
  comes_before key asc a b = not_greater (directed asc (compare_rows F a b key))

  unfoldable pub shown_rows :
      List ResourceRow → SortKey → Bool → Bool → Option RowStatus → String → List ResourceRow
  shown_rows rows key asc only_problems status_filter text =
      sort_by (comes_before key asc) (filter (is_shown only_problems status_filter text) rows)

  unfoldable pub shown_uids :
      List ResourceRow → SortKey → Bool → Bool → Option RowStatus → String → List String
  shown_uids rows key asc only_problems status_filter text =
      map (λ r. r.uid) (shown_rows rows key asc only_problems status_filter text)

  -- The rows of a map with their keys.
  abbrev keyed_before : SortKey → Bool → String × ResourceRow → String × ResourceRow → Bool
  keyed_before key asc a b =
      not_greater (directed asc (then_with (compare_rows F a.1 b.1 key) (text_cmp a.0 b.0)))

  unfoldable pub shown_row_keys :
      List (String × ResourceRow) → SortKey → Bool → Bool → Option RowStatus → String → List String
  shown_row_keys rows key asc only_problems status_filter text =
      map (λ r. r.0)
        (sort_by (keyed_before key asc)
          (filter (λ r. is_shown only_problems status_filter text r.1) rows))

  is_shown-Passes :
      (only_problems : Bool) (status_filter : Option RowStatus) (text : String) (row : ResourceRow)
      → (is_shown only_problems status_filter text row ≡ true)
        ↔ Passes to_lowercase contains only_problems status_filter text row
  unfolding is_shown
  is_shown-Passes only_problems status_filter text row =
      let found = contains (to_lowercase row.name) text in
      let a = and_iff (not only_problems || is_problem row.status) _ in
      let b = and_iff (is_status row.status status_filter) (text == "" || found) in
      let u = unless_iff only_problems (is_problem row.status) in
      let q = problem_lem row.status in
      let s = status_lem row.status status_filter in
      let o = or_iff (text == "") found in
      let t = string_eq.test_iff text "" in
      (
        (λ e.
            let x = a.0 e in
            let y = b.0 x.1 in
            (
              (λ p. q.0 (u.0 x.0 p)),
              s.0 y.0,
              elim (o.0 y.1) [ inl z ↦ inl (t.0 z) | inr z ↦ inr z ],
            )),
        (λ h. a.1 (
          u.1 (λ p. q.1 (h.0 p)),
          b.1 (s.1 h.1, o.1 (elim h.2 [ inl z ↦ inl (t.1 z) | inr z ↦ inr z ])),
        )),
      )

  shown_rows-IsChosen :
      (rows : List ResourceRow) (key : SortKey) (asc only_problems : Bool)
      (status_filter : Option RowStatus) (text : String)
      → IsChosen
          (Passes to_lowercase contains only_problems status_filter text)
          rows
          (shown_rows rows key asc only_problems status_filter text)
  unfolding shown_rows
  shown_rows-IsChosen rows key asc only_problems status_filter text = (
    is_shown only_problems status_filter text,
    is_shown-Passes only_problems status_filter text,
    sort_by-Perm (comes_before key asc) _,
  )

  directed-InOrder :
      (asc : Bool) (o : Ordering) → not_greater (directed asc o) ≡ true → InOrder asc o
  directed-InOrder true less e = λ q. cc q
  directed-InOrder true equal e = λ q. cc q
  directed-InOrder true greater e = absurd (cc e)
  directed-InOrder false less e = absurd (cc e)
  directed-InOrder false equal e = λ q. cc q
  directed-InOrder false greater e = λ q. cc q

  All-InOrder :
      (key : SortKey) (asc : Bool) (x : ResourceRow) (ys : List ResourceRow)
      → All (λ y. comes_before key asc x y ≡ true) ys
      → All (λ y. InOrder asc (compare_rows F x y key)) ys
  All-InOrder key asc x [] h = tt
  All-InOrder key asc x (y ∷ ys) h =
      (directed-InOrder asc (compare_rows F x y key) h.0, All-InOrder key asc x ys h.1)

  IsSorted-IsArranged :
      (key : SortKey) (asc : Bool) (ys : List ResourceRow)
      → IsSorted (comes_before key asc) ys
      → IsArranged (λ a b. InOrder asc (compare_rows F a b key)) ys
  unfolding IsSorted IsArranged
  IsSorted-IsArranged key asc [] h = tt
  IsSorted-IsArranged key asc (y ∷ ys) h =
      (All-InOrder key asc y ys h.0, IsSorted-IsArranged key asc ys h.1)

  module _ (L : IsFloat F) (P : ResourceRow → Type 0) (key : SortKey)
      (u : IsUniform F L key P) where
    directed-IsOrder :
        (asc : Bool)
        → IsOrder {A = (r : ResourceRow) × P r} (λ a b. directed asc (compare_rows F a.0 b.0 key))
    directed-IsOrder true = compare_rows-IsOrder F L P key u
    directed-IsOrder false = reverse-IsOrder _ (compare_rows-IsOrder F L P key u)

    filter-All :
        (p : ResourceRow → Bool) (rows : List ResourceRow) → All P rows → All P (filter p rows)
    filter-All p [] h = tt
    filter-All p (x ∷ xs) h = elim (Bool-cases (p x)) [
      | inl e ↦ rw e (h.0, filter-All p xs h.1)
      | inr e ↦ rw e (filter-All p xs h.1)
    ]

    shown_rows-comes_before :
        (rows : List ResourceRow) (asc only_problems : Bool) (status_filter : Option RowStatus)
        (text : String)
        → All P rows
        → IsSorted (comes_before key asc) (shown_rows rows key asc only_problems status_filter text)
    unfolding shown_rows
    shown_rows-comes_before rows asc only_problems status_filter text h =
        let O = directed-IsOrder asc in
        sort_by-IsSorted (comes_before key asc) P
          (λ a b. λ p q. not_greater-total _ O (a, p) (b, q))
          (λ a b x. λ p q r. not_greater_trans _ O (a, p) (b, q) (x, r))
          (filter (is_shown only_problems status_filter text) rows) (filter-All _ rows h)

    -- The rows that are shown are those of the given rows that every filter lets through, each as often as
    -- it was given: with only problems, a status of error or warning; with a status, that status; with a
    -- text, a name that contains it in lower case. Each compares as not greater than all that follow it,
    -- when the order ascends, and as not less when it descends, when each cell of the column that is the key
    -- is a number that is no NaN, or none is a number. Floating-point numbers that are no NaN are taken to
    -- be in a total order.
    pub shown_rows-IsSorted :
        (rows : List ResourceRow) (asc only_problems : Bool) (status_filter : Option RowStatus)
        (text : String)
        → All P rows
        → IsChosen
            (Passes to_lowercase contains only_problems status_filter text)
            rows
            (shown_rows rows key asc only_problems status_filter text)
          × IsArranged
              (λ a b. InOrder asc (compare_rows F a b key))
              (shown_rows rows key asc only_problems status_filter text)
    shown_rows-IsSorted rows asc only_problems status_filter text h = (
      shown_rows-IsChosen rows key asc only_problems status_filter text,
      IsSorted-IsArranged key asc _
          (shown_rows-comes_before rows asc only_problems status_filter text h),
    )
