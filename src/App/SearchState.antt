-- ===== src/App/SearchState.antt =====
-- src/app/search_state.rs: the rows of a search over several kinds, and the marks of rows that enter
-- or leave. The timers that an event starts are part of the state, each as the key that it was
-- given. A kind is seen through its key.
pub mod Marks
mod Tests
use text.Mathlib.Text.{starts_with}
use roder.Prelude.{
  String, str_append, Bool, true, false, not, ◌||◌, Option, none, some, List, [], ◌∷◌, any, filter,
  is_some, ◌==◌, string_eq, if◌then◌else◌,
}
use roder.Prelude.Maps.{find, insert, remove}
use roder.Core.Row.{ResourceRow, WatchEvent, snapshot, applied, deleted, forbidden, error}

pub record MergedRow : Type 0 where
  pub kind : String
  pub row : ResourceRow

unfoldable pub merged_key : String → String → String
merged_key kind_key uid = str_append kind_key (str_append "/" uid)

-- `BTreeSet` of strings, as a list.
abbrev pub contains : String → List String → Bool
contains k = any (λ j. j == k)

abbrev pub set_insert : String → List String → List String
set_insert k s = if contains k s then s else k ∷ s

abbrev pub set_remove : String → List String → List String
set_remove k = filter (λ j. not (j == k))

-- One timer of those with this key.
unfoldable pub drop_one : String → List String → List String
drop_one k [] = []
drop_one k (j ∷ js) = let rest = drop_one k js in if j == k then js else j ∷ rest

-- The rows, the two sets of marks, and the keys of the timers that will clear them.
pub record State : Type 0 where
  pub schemas : List (String × List String)
  pub rows : List (String × MergedRow)
  pub entering : List String
  pub removing : List String
  pub clear_entering : List String
  pub remove_timers : List String

unfoldable pub insert_rows :
    String → List ResourceRow → List (String × MergedRow) → List (String × MergedRow)
insert_rows kind [] m = m
insert_rows kind (r ∷ rs) m =
    insert_rows kind rs (insert (merged_key kind r.uid) (record { kind = kind; row = r }) m)

-- `!key.starts_with(&prefix)`
unfoldable pub is_foreign : String → String → Bool
is_foreign kind key = not (starts_with key (str_append kind "/"))

unfoldable pub reduce_columns :
    String → WatchEvent → List (String × List String) → List (String × List String)
reduce_columns kind (snapshot columns rows) m = insert kind columns m
reduce_columns kind (applied row) m = m
reduce_columns kind (deleted uid) m = m
reduce_columns kind (forbidden message) m = m
reduce_columns kind (error message) m = m

-- The transitions that the source returns are started as timers.
unfoldable pub reduce_event : String → WatchEvent → State → State
reduce_event kind (snapshot columns rows) s = record s {
  rows = insert_rows kind rows (filter (λ p. is_foreign kind p.0) s.rows);
  entering = filter (is_foreign kind) s.entering;
  removing = filter (is_foreign kind) s.removing;
}
reduce_event kind (applied row) s =
    let key = merged_key kind row.uid in
    let t : State = record s {
      rows = insert key (record { kind = kind; row = row }) s.rows;
      removing = set_remove key s.removing;
    } in
    if is_some (find key s.rows)
    then t
    else record t { entering = set_insert key s.entering; clear_entering = key ∷ s.clear_entering }
reduce_event kind (deleted uid) s =
    let key = merged_key kind uid in
    if is_some (find key s.rows)
    then record s { removing = set_insert key s.removing; remove_timers = key ∷ s.remove_timers }
    else s
reduce_event kind (forbidden message) s = s
reduce_event kind (error message) s = s

unfoldable pub apply_event : String → WatchEvent → State → State
apply_event kind event s =
    reduce_event kind event (record s { schemas = reduce_columns kind event s.schemas })

-- A timer of `ClearEntering` fires.
unfoldable pub finish_entering : String → State → State
finish_entering key s = record s {
  entering = set_remove key s.entering;
  clear_entering = drop_one key s.clear_entering;
}

-- A timer of `Remove` fires.
unfoldable pub finish_removal : String → State → State
finish_removal key s =
    let t : State = record s { remove_timers = drop_one key s.remove_timers } in
    if contains key s.removing
    then record t { rows = remove key s.rows; removing = set_remove key s.removing }
    else t
