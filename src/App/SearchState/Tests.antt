-- ===== src/App/SearchState/Tests.antt =====
-- A row that is deleted and comes back before the timer of its removal.
use roder.Prelude.{◌≡◌, refl, true, false, none, [], ◌∷◌, string_eq}
use roder.Prelude.Maps.{find, insert, remove}
use roder.Core.Row.{ResourceRow, RowStatus, applied, deleted, snapshot}
use roder.App.SearchState.{
  State, merged_key, apply_event, reduce_event, reduce_columns, insert_rows, is_foreign, contains,
}
use roder.App.SearchState.Marks.{Reach, here, next, watches, blank, IsTimed, Reach-IsTimed}

abbrev row : ResourceRow
row = record {
  uid = "u1";
  namespace = none;
  name = "web";
  created = none;
  cells = [];
  trends = [];
  status = RowStatus.ok;
  suspended = false;
  labels = [];
}

abbrev shown_pods : State
shown_pods = apply_event "/v1/Pod" (snapshot ("NAME" ∷ []) (row ∷ [])) blank

abbrev leaving : State
leaving = apply_event "/v1/Pod" (deleted "u1") shown_pods

abbrev back_again : State
back_again = apply_event "/v1/Pod" (applied row) leaving

is_leaving : contains "/v1/Pod/u1" leaving.removing ≡ true
unfolding apply_event reduce_event reduce_columns insert_rows is_foreign merged_key find insert
    remove
is_leaving = refl

is_back : contains "/v1/Pod/u1" back_again.removing ≡ false
unfolding apply_event reduce_event reduce_columns insert_rows is_foreign merged_key find insert
    remove
is_back = refl

run : Reach blank back_again
run =
    next
      (next (next here (watches "/v1/Pod" (snapshot ("NAME" ∷ []) (row ∷ [])) refl))
        (watches "/v1/Pod" (deleted "u1") refl))
      (watches "/v1/Pod" (applied row) refl)

Reach-IsTimed_example : IsTimed back_again
Reach-IsTimed_example = Reach-IsTimed back_again run
