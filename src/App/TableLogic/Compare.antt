-- ===== src/App/TableLogic/Compare.antt =====
-- The order of the rows of a table: `compare_rows` of src/app/table_logic.rs, with the comparison of cells
-- of src/app/components/table.rs. Floating-point numbers are the standard library's.
pub mod Filters
pub mod Laws
pub mod Shown
use roder.Prelude.{
  ℕ, zero, suc, String, Bool, true, false, Option, none, some, List, [], ◌∷◌, unwrap_or, get_elem?,
}
use roder.Prelude.Texts.{codes, split_once}
use roder.Core.Row.{ResourceRow}
use roder.App.TableLogic.Orderings.{Ordering, less, equal, greater, then_with, lex}
use roder.App.TableLogic.Natural.{nat_cmp}

-- `str::parse::<f64>` and `f64::partial_cmp`
pub record Floats : Type 1 where
  pub Float : Type 0
  pub parse : String → Option Float
  pub partial_cmp : Float → Float → Option Ordering

abbrev before : String → Option (String × String) → String
before value none = value
before value (some parts) = parts.0

unfoldable pub primary_value : String → String
primary_value value = before value (split_once 31 value)

abbrev pub text_cmp : String → String → Ordering
text_cmp a b = lex (codes a) (codes b)

-- `Option<String>::cmp`
unfoldable pub option_cmp : Option String → Option String → Ordering
option_cmp none none = equal
option_cmp none (some b) = less
option_cmp (some a) none = greater
option_cmp (some a) (some b) = text_cmp a b

pub data SortKey : Type 0 where
  namespace name age : SortKey
  cell : ℕ → SortKey

module _ (F : Floats) where
  -- The match in `cmp_str`.
  abbrev pub cmp_parsed : Option F.Float → Option F.Float → Ordering → Ordering
  cmp_parsed (some x) (some y) texts = unwrap_or (F.partial_cmp x y) equal
  cmp_parsed _ _ texts = texts

  unfoldable pub cmp_str : String → String → Ordering
  cmp_str a b =
      cmp_parsed (F.parse (primary_value a)) (F.parse (primary_value b))
        (text_cmp (primary_value a) (primary_value b))

  unfoldable pub cmp_cell : Option String → Option String → Ordering
  cmp_cell a b = cmp_str (unwrap_or a "") (unwrap_or b "")

  abbrev name_cmp : ResourceRow → ResourceRow → Ordering
  name_cmp a b = nat_cmp (codes a.name) (codes b.name)

  -- The match in `compare_rows`.
  abbrev pub key_cmp : SortKey → ResourceRow → ResourceRow → Ordering
  key_cmp namespace a b =
      then_with (nat_cmp (codes (unwrap_or a.namespace "")) (codes (unwrap_or b.namespace "")))
        (name_cmp a b)
  key_cmp name a b = name_cmp a b
  key_cmp age a b = then_with (option_cmp a.created b.created) (name_cmp a b)
  key_cmp (cell i) a b =
      then_with (cmp_cell (get_elem? a.cells i) (get_elem? b.cells i)) (name_cmp a b)

  unfoldable pub compare_rows : ResourceRow → ResourceRow → SortKey → Ordering
  compare_rows a b key = then_with (key_cmp key a b) (text_cmp a.uid b.uid)
