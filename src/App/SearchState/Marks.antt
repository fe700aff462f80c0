-- ===== src/App/SearchState/Marks.antt =====
-- The marks of a search: which rows are marked, and that a timer will clear each mark.
use mathlib.Core.Bool.{false≢true}
use roder.Prelude.{
  String, ◌≡◌, refl, sym, ap, ◌∙◌, subst, Bool, true, false, not, ◌||◌, List, [], ◌∷◌, filter,
  is_some, ◌==◌, ==_iff, string_eq, arith, Bool-cases, inl, inr,
}
use roder.Prelude.Maps.{find, insert, find-insert, find-remove}
use roder.Core.Row.{ResourceRow, WatchEvent, snapshot, applied, deleted, forbidden, error}
use roder.App.SearchState.{
  MergedRow, merged_key, contains, set_insert, set_remove, drop_one, State, insert_rows, is_foreign,
  reduce_event, apply_event, finish_entering, finish_removal,
}

contains-set_insert :
    (k j : String) (s : List String) → contains j (set_insert k s) ≡ (k == j || contains j s)
contains-set_insert k j s = elim (Bool-cases (contains k s)) [
  | inl e ↦ elim (Bool-cases (k == j)) [
    | inl q ↦
        let k-j : k ≡ j = (==_iff k j).0 q in rw (e, q) (subst (λ x. contains x s ≡ true) k-j e)
    | inr q ↦ rw (e, q) refl
  ]
  | inr e ↦ rw e refl
]

contains-filter :
    (p : String → Bool) (j : String) (s : List String)
    → contains j (filter p s) ≡ true
    → (p j ≡ true) × (contains j s ≡ true)
contains-filter p j [] h = absurd (ground (arith, h))
contains-filter p j (i ∷ s) h = elim (Bool-cases (i == j)) [
  | inl q ↦ elim (Bool-cases (p i)) [
    | inl e ↦
        let i-j : i ≡ j = (==_iff i j).0 q in (subst (λ x. p x ≡ true) i-j e, ground (arith, q))
    | inr e ↦ ground (arith, q, e, contains-filter p j s (ground (arith, h, e)))
  ]
  | inr q ↦ elim (Bool-cases (p i)) [
    | inl e ↦ ground (arith, q, e, contains-filter p j s (ground (arith, h, e, q)))
    | inr e ↦ ground (arith, q, e, contains-filter p j s (ground (arith, h, e)))
  ]
]

contains-drop_one :
    (k j : String) (s : List String)
    → contains j s ≡ true
    → (k == j) ≡ false
    → contains j (drop_one k s) ≡ true
unfolding drop_one
contains-drop_one k j [] h n = h
contains-drop_one k j (i ∷ s) h n = elim (Bool-cases (i == k)) [
  | inl q ↦ let i-k : i ≡ k = (==_iff i k).0 q in ground (arith, h, n, q, ap (λ x. x == j) i-k)
  | inr q ↦ ground (arith, h, n, q, contains-drop_one k j s)
]

abbrev Shown : String → List (String × MergedRow) → Type 0
Shown k m = is_some (find k m) ≡ true

Shown-insert :
    (k j : String) (r : MergedRow) (m : List (String × MergedRow))
    → Shown j m
    → Shown j (insert k r m)
Shown-insert k j r m h = rw (find-insert k j r m) (ground (arith, h))

Shown-insert_rows :
    (kind k : String) (rs : List ResourceRow) (m : List (String × MergedRow))
    → Shown k m
    → Shown k (insert_rows kind rs m)
unfolding insert_rows
Shown-insert_rows kind k [] m h = h
Shown-insert_rows kind k (r ∷ rs) m h = Shown-insert_rows kind k rs _ (Shown-insert _ k _ m h)

Shown-filter :
    (p : String → Bool) (k : String) (m : List (String × MergedRow))
    → p k ≡ true
    → Shown k m
    → Shown k (filter (λ x. p x.0) m)
unfolding find
Shown-filter p k [] e h = h
Shown-filter p k ((i, r) ∷ m) e h = elim (Bool-cases (i == k)) [
  | inl q ↦ let i-k : i ≡ k = (==_iff i k).0 q in ground (arith, q, e, ap p i-k)
  | inr q ↦ ground (arith, q, e, Shown-filter p k m e (ground (arith, h, q)))
]

-- A row marked as leaving is still shown, and a timer will end its mark; so will one for each row
-- marked as entering.
pub record IsTimed (s : State) : Type 0 where
  pub shown : (k : String) → contains k s.removing ≡ true → is_some (find k s.rows) ≡ true
  pub leaves : (k : String) → contains k s.removing ≡ true → contains k s.remove_timers ≡ true
  pub enters : (k : String) → contains k s.entering ≡ true → contains k s.clear_entering ≡ true

apply_event-IsTimed :
    (kind : String) (event : WatchEvent) (s : State)
    → IsTimed s
    → IsTimed (apply_event kind event s)
unfolding apply_event reduce_event
apply_event-IsTimed kind (snapshot columns rows) s v = record {
  shown = λ k h.
      let (foreign, old) = contains-filter (is_foreign kind) k s.removing h in
      Shown-insert_rows kind k rows _
        (Shown-filter (is_foreign kind) k s.rows foreign (v.shown k old));
  leaves = λ k h. v.leaves k (contains-filter (is_foreign kind) k s.removing h).1;
  enters = λ k h. v.enters k (contains-filter (is_foreign kind) k s.entering h).1;
}
apply_event-IsTimed kind (applied row) s v =
    let key = merged_key kind row.uid in
    let r : MergedRow = record { kind = kind; row = row } in
    elim (Bool-cases (is_some (find key s.rows))) [
      | inl e ↦ rw e (record {
        shown = λ k h. Shown-insert key k r s.rows (v.shown k (contains-filter _ k s.removing h).1);
        leaves = λ k h. v.leaves k (contains-filter _ k s.removing h).1;
        enters = v.enters;
      })
      | inr e ↦ rw e (record {
        shown = λ k h. Shown-insert key k r s.rows (v.shown k (contains-filter _ k s.removing h).1);
        leaves = λ k h. v.leaves k (contains-filter _ k s.removing h).1;
        enters = λ k h. ground (arith, h, contains-set_insert key k s.entering, v.enters k);
      })
    ]
apply_event-IsTimed kind (deleted uid) s v =
    let key = merged_key kind uid in
    elim (Bool-cases (is_some (find key s.rows))) [
      | inl e ↦ rw e (record {
        shown = λ k h. elim (Bool-cases (key == k)) [
          | inl q ↦
              let key-k : key ≡ k = (==_iff key k).0 q in
              subst (λ x. is_some (find x s.rows) ≡ true) key-k e
          | inr q ↦ v.shown k (ground (arith, q, h, contains-set_insert key k s.removing))
        ];
        leaves = λ k h. ground (arith, h, contains-set_insert key k s.removing, v.leaves k);
        enters = v.enters;
      })
      | inr e ↦ rw e (record { shown = v.shown; leaves = v.leaves; enters = v.enters })
    ]
apply_event-IsTimed kind (forbidden message) s v = record {
  shown = v.shown;
  leaves = v.leaves;
  enters = v.enters;
}
apply_event-IsTimed kind (error message) s v = record {
  shown = v.shown;
  leaves = v.leaves;
  enters = v.enters;
}

finish_entering-IsTimed : (key : String) (s : State) → IsTimed s → IsTimed (finish_entering key s)
unfolding finish_entering
finish_entering-IsTimed key s v = record {
  shown = v.shown;
  leaves = v.leaves;
  enters = λ k h.
      let (n, old) = contains-filter (λ j. not (j == key)) k s.entering h in
      contains-drop_one key k s.clear_entering (v.enters k old)
        (ground (arith, n, ==_iff k key, ==_iff key k));
}

finish_removal-IsTimed : (key : String) (s : State) → IsTimed s → IsTimed (finish_removal key s)
unfolding finish_removal
finish_removal-IsTimed key s v = elim (Bool-cases (contains key s.removing)) [
  | inl e ↦ rw e (record {
    shown = λ k h.
        let (n, old) = contains-filter (λ j. not (j == key)) k s.removing h in
        rw (find-remove key k s.rows)
          (ground (arith, n, ==_iff k key, ==_iff key k, v.shown k old));
    leaves = λ k h.
        let (n, old) = contains-filter (λ j. not (j == key)) k s.removing h in
        contains-drop_one key k s.remove_timers (v.leaves k old)
          (ground (arith, n, ==_iff k key, ==_iff key k));
    enters = v.enters;
  })
  | inr e ↦ rw e (record {
    shown = v.shown;
    leaves = λ k h. elim (Bool-cases (key == k)) [
      | inl q ↦ absurd (
          false≢true
            (sym e ∙ subst (λ x. contains x s.removing ≡ true) (sym ((==_iff key k).0 q)) h))
      | inr q ↦ contains-drop_one key k s.remove_timers (v.leaves k h) q
    ];
    enters = v.enters;
  })
]

-- What may happen next: an event of a watch, or a timer that was started.
pub data Step (s t : State) : Type 0 where
  watches : (kind : String) (event : WatchEvent) → t ≡ apply_event kind event s → Step s t
  clears :
      (key : String) → contains key s.clear_entering ≡ true → t ≡ finish_entering key s → Step s t
  removes :
      (key : String) → contains key s.remove_timers ≡ true → t ≡ finish_removal key s → Step s t

pub data Reach (s : State) : State → Type 0 where
  here : Reach s s
  next : {t u : State} → Reach s t → Step t u → Reach s u

abbrev pub blank : State
blank = record {
  schemas = [];
  rows = [];
  entering = [];
  removing = [];
  clear_entering = [];
  remove_timers = [];
}

-- However the events of the watches and the timers follow each other: each key marked as leaving is
-- that of a row still shown and of a timer that will remove it, and each key marked as entering is
-- that of a timer that will clear the mark.
pub Reach-IsTimed : (s : State) → Reach blank s → IsTimed s
Reach-IsTimed s here = record {
  shown = λ k h. absurd (ground (arith, h));
  leaves = λ k h. absurd (ground (arith, h));
  enters = λ k h. absurd (ground (arith, h));
}
Reach-IsTimed s (next {t = t} r (watches kind event e)) =
    subst IsTimed (sym e) (apply_event-IsTimed kind event t (Reach-IsTimed t r))
Reach-IsTimed s (next {t = t} r (clears key c e)) =
    subst IsTimed (sym e) (finish_entering-IsTimed key t (Reach-IsTimed t r))
Reach-IsTimed s (next {t = t} r (removes key c e)) =
    subst IsTimed (sym e) (finish_removal-IsTimed key t (Reach-IsTimed t r))

set_remove-absent : (k : String) (s : List String) → contains k (set_remove k s) ≡ false
set_remove-absent k [] = refl
set_remove-absent k (j ∷ s) = elim (Bool-cases (j == k)) [
  | inl q ↦ rw q (set_remove-absent k s)
  | inr q ↦ ground (arith, q, set_remove-absent k s)
]

-- A row that comes back before its removal stays: after an `Applied` event of the row, the timer of
-- an earlier `Deleted` event of it changes no row and no mark.
pub finish_removal-applied :
    (kind : String) (row : ResourceRow) (s t : State)
    → t ≡ apply_event kind (applied row) s
    → ((finish_removal (merged_key kind row.uid) t).rows ≡ t.rows)
      × ((finish_removal (merged_key kind row.uid) t).entering ≡ t.entering)
      × ((finish_removal (merged_key kind row.uid) t).removing ≡ t.removing)
unfolding apply_event reduce_event finish_removal
finish_removal-applied kind row s t e =
    let gone : contains (merged_key kind row.uid) t.removing ≡ false =
      ap (λ (x : State). contains (merged_key kind row.uid) x.removing) e ∙ left in
    (rw gone refl, rw gone refl, rw gone refl)
  where
    left : contains (merged_key kind row.uid) (apply_event kind (applied row) s).removing ≡ false
    left = elim (Bool-cases (is_some (find (merged_key kind row.uid) s.rows))) [
      | inl q ↦ rw q (set_remove-absent (merged_key kind row.uid) s.removing)
      | inr q ↦ rw q (set_remove-absent (merged_key kind row.uid) s.removing)
    ]
