-- ===== src/App/TableLogic/Tests.antt =====
-- A table of three rows.
use roder.Prelude.{ℕ, pos, negsuc, String, ◌≡◌, refl, true, some, List, [], ◌∷◌, get_elem?}
use roder.Prelude.{inl, none, false, not, any, String, Option, unwrap_or, if◌then◌else◌}
use roder.Prelude.Texts.{codes, split_once}
use roder.Core.Row.{ResourceRow, ok}
use roder.App.TableLogic.Orderings.{less, cmp, lex, IsOrder, cmp-IsOrder}
use roder.App.TableLogic.Natural.{
  is_digit, digits, after_digits, parse_u64, run_value, nat_cmp, nat_cmp_from, reading,
  nat_cmp-reading,
}
use roder.App.TableLogic.Compare.{Floats, primary_value, cell, compare_rows}
use roder.App.TableLogic.Compare.Filters.{IsChosen}
use roder.App.TableLogic.Compare.Laws.{IsFloat, IsUniform, compare_rows-IsOrder}
use roder.App.TableLogic.Compare.Shown.{
  IsArranged, InOrder, Passes, shown_rows, shown_rows-IsSorted,
}
use roder.App.TableLogic.{DetailTarget, position, landing, move_cursor}

abbrev shown : List String
shown = "a" ∷ "b" ∷ "c" ∷ []

abbrev clicked_pod : DetailTarget
clicked_pod = record { key = "/v1/Pod"; namespace = some "shop"; name = "web" }

stops_at_last : move_cursor shown (some "b") (pos 7) ≡ some "c"
unfolding move_cursor landing position
stops_at_last = refl

gone_row_up : move_cursor shown (some "gone") (negsuc 0) ≡ some "c"
unfolding move_cursor landing position
gone_row_up = refl

-- Numbers in place of floating-point ones.
abbrev number_of : String → Option ℕ
number_of s = if any (λ c. not (is_digit c)) (codes s) then none else parse_u64 0 (codes s)

abbrev numbers : Floats
numbers = record { Float = ℕ; parse = number_of; partial_cmp = λ x y. some (cmp x y) }

abbrev number_laws : IsFloat numbers
number_laws = record {
  is_nan = λ x. false;
  number_cmp = cmp;
  number_cmp-IsOrder = cmp-IsOrder;
  partial_cmp-number = λ x y. λ e f. refl;
}

-- A row whose first cell is a number.
abbrev HasNumber : ResourceRow → Type 0
HasNumber r = (x : ℕ) × (number_of (primary_value (unwrap_or (get_elem? r.cells 0) "")) ≡ some x)

abbrev all_numbers : IsUniform numbers number_laws (cell 0) HasNumber
all_numbers = inl (λ r. λ p. (p.0, p.1, refl))

abbrev row_of_restarts : String → String → ResourceRow
row_of_restarts uid restarts = record {
  uid = uid;
  namespace = some "shop";
  name = "web";
  created = none;
  cells = restarts ∷ [];
  trends = [];
  status = ok;
  suspended = false;
  labels = [];
}

nat_cmp_osd : nat_cmp (codes "osd-2") (codes "osd-10") ≡ less
unfolding nat_cmp nat_cmp_from digits after_digits parse_u64 run_value cmp
nat_cmp_osd = refl

nat_cmp-reading_example :
    nat_cmp (codes "osd-2") (codes "osd-10")
    ≡ lex (reading (codes "osd-2")) (reading (codes "osd-10"))
nat_cmp-reading_example = nat_cmp-reading (codes "osd-2") (codes "osd-10")

compare_rows-IsOrder_example :
    IsOrder {A = (r : ResourceRow) × HasNumber r} (λ a b. compare_rows numbers a.0 b.0 (cell 0))
compare_rows-IsOrder_example =
    compare_rows-IsOrder numbers number_laws HasNumber (cell 0) all_numbers

abbrev restarts : List ResourceRow
restarts = row_of_restarts "a" "10" ∷ row_of_restarts "b" "9" ∷ []

shown_rows-IsSorted_example :
    IsChosen
      (Passes (λ s. s) (λ s t. false) false none "")
      restarts
      (shown_rows numbers (λ s. s) (λ s t. false) restarts (cell 0) true false none "")
    × IsArranged
        (λ a b. InOrder true (compare_rows numbers a b (cell 0)))
        (shown_rows numbers (λ s. s) (λ s t. false) restarts (cell 0) true false none "")
unfolding primary_value split_once parse_u64
shown_rows-IsSorted_example =
    shown_rows-IsSorted numbers (λ s. s) (λ s t. false) number_laws HasNumber (cell 0) all_numbers
      restarts true false none "" ((10, refl), ((9, refl), tt))
