-- ===== src/App/TableLogic.antt =====
-- src/app/table_logic.rs: the keyboard cursor of a table, the order of its rows, and the rows that an
-- action is for. Positions are small enough that the source's `isize` does not overflow. A `BTreeSet` is
-- the list of its elements in order, and the rows of a map come in the order of the list.
pub mod Orderings
pub mod Natural
pub mod Compare
pub mod Cursor
pub mod Targets
mod Tests
use roder.Prelude.{
  ℕ, zero, suc, ◌+◌, ◌-◌, min, ℤ, pos, negsuc, String, Bool, true, false, ◌&&◌, Option, none, some,
  List, [], ◌∷◌, length, get_elem?, is_empty, any, filter, map, ltb, ◌==◌, string_eq, if◌then◌else◌,
}
use roder.Prelude.Maps.{find}
use roder.Core.Row.{ResourceRow}

-- `shown.iter().position(|u| u == uid)`
unfoldable pub position : String → List String → Option ℕ
position uid [] = none
position uid (u ∷ us) =
    let rest = position uid us in
    if u == uid then some 0 else elim rest [ none ↦ none | some i ↦ some (suc i) ]

abbrev pub row_of : List String → Option String → Option ℕ
row_of shown none = none
row_of shown (some uid) = position uid shown

-- `(from + delta).clamp(0, last)`, with `from` the cursor's row, or -1 for a motion down and the
-- number of rows for one up.
unfoldable pub landing : ℕ → Option ℕ → ℤ → ℕ
landing rows (some i) (pos n) = min (i + n) (rows - 1)
landing rows (some i) (negsuc n) = min (i - suc n) (rows - 1)
landing rows none (pos n) = min (n - 1) (rows - 1)
landing rows none (negsuc n) = min (rows - suc n) (rows - 1)

-- An index out of range is `none` here and a panic in the source.
unfoldable pub move_cursor : List String → Option String → ℤ → Option String
move_cursor shown current delta =
    if is_empty shown
    then none
    else get_elem? shown (landing (length shown) (row_of shown current) delta)

pub record DetailTarget : Type 0 where
  pub key : String
  pub namespace : Option String
  pub name : String

pub record ResolvedActionTargets : Type 0 where
  pub uids : List String
  pub targets : List DetailTarget

abbrev pub contains : String → List String → Bool
contains uid = any (λ u. u == uid)

abbrev pub target_of_row : String → ResourceRow → DetailTarget
target_of_row key row = record { key = key; namespace = row.namespace; name = row.name }

unfoldable pub bulk_targets : String → List (String × ResourceRow) → List String → List DetailTarget
bulk_targets key rows uids =
    map (λ p. target_of_row key p.1) (filter (λ p. contains p.1.uid uids) rows)

-- The target that has been given for a row, and else the one made from the row.
unfoldable pub target_for :
    String
    → List (String × ResourceRow)
    → List (String × DetailTarget)
    → String
    → Option DetailTarget
target_for key rows row_targets uid = elim (find uid row_targets) [
  | some target ↦ some target
  | none ↦ elim (find uid rows) [ none ↦ none | some row ↦ some (target_of_row key row) ]
]

unfoldable pub filter_map : (String → Option DetailTarget) → List String → List DetailTarget
filter_map f [] = []
filter_map f (u ∷ us) = let rest = filter_map f us in elim (f u) [ none ↦ rest | some t ↦ t ∷ rest ]

unfoldable pub action_uids : String → Option (List String) → List String
action_uids clicked none = clicked ∷ []
action_uids clicked (some selected) =
    if ltb 1 (length selected) && contains clicked selected then selected else clicked ∷ []

unfoldable pub resolve_action_targets :
    String
    → DetailTarget
    → Option (List String)
    → List (String × ResourceRow)
    → List (String × DetailTarget)
    → ResolvedActionTargets
resolve_action_targets clicked_uid clicked_target selected rows row_targets =
    let uids = action_uids clicked_uid selected in
    let targets = filter_map (target_for clicked_target.key rows row_targets) uids in
    record { uids = uids; targets = if is_empty targets then clicked_target ∷ [] else targets }
