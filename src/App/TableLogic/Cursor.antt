-- ===== src/App/TableLogic/Cursor.antt =====
-- Where the cursor of a table lands (src/app/table_logic.rs).
use roder.Prelude.{
  ℕ, zero, suc, ◌<◌, ℤ, pos, negsuc, String, ◌≡◌, refl, false, Option, none, some, List, [], ◌∷◌,
  length, get_elem?, arith, ◌==◌, ==_iff, string_eq,
}
use roder.App.TableLogic.{position, row_of, landing, move_cursor}

get_elem?-some :
    {A : Type 0} (xs : List A) (n : ℕ) → n < length xs → (x : A) × (get_elem? xs n ≡ some x)
get_elem?-some [] n h = absurd (omega (arith, h))
get_elem?-some (x ∷ xs) zero h = (x, refl)
get_elem?-some (x ∷ xs) (suc n) h = get_elem?-some xs n (omega (arith, h))

landing-lt : (rows : ℕ) (from : Option ℕ) (d : ℤ) → 0 < rows → landing rows from d < rows
unfolding landing
landing-lt rows (some i) (pos n) h = omega (arith, h)
landing-lt rows (some i) (negsuc n) h = omega (arith, h)
landing-lt rows none (pos n) h = omega (arith, h)
landing-lt rows none (negsuc n) h = omega (arith, h)

-- In a table with rows, whatever the cursor was and however far it moves, it lands on a row: the
-- index is in range.
pub move_cursor-get_elem? :
    (shown : List String) (current : Option String) (d : ℤ)
    → 0 < length shown
    → (k : ℕ) × (uid : String) × (k < length shown)
      × (get_elem? shown k ≡ some uid)
      × (move_cursor shown current d ≡ some uid)
unfolding move_cursor
move_cursor-get_elem? [] current d h = absurd (omega (arith, h))
move_cursor-get_elem? (u ∷ us) current d h =
    let k = landing (suc (length us)) (row_of (u ∷ us) current) d in
    let l = landing-lt (suc (length us)) (row_of (u ∷ us) current) d h in
    let (uid, e) = get_elem?-some (u ∷ us) k l in (k, uid, l, e, e)

-- No row of the list has the uid.
abbrev pub Fresh : String → List String → Type 0
Fresh uid us = position uid us ≡ none

abbrev pub AllDistinct : List String → Type 0
AllDistinct [] = Unit
AllDistinct (u ∷ us) = Fresh u us × AllDistinct us

Fresh-other :
    (u v : String) (us : List String) (i : ℕ)
    → Fresh u us
    → get_elem? us i ≡ some v
    → (u == v) ≡ false
unfolding position
Fresh-other u v [] i f e = absurd (cc e)
Fresh-other u v (w ∷ us) zero f e = ground (arith, f, e, ==_iff u v, ==_iff w u)
Fresh-other u v (w ∷ us) (suc i) f e = Fresh-other u v us i (ground (arith, f)) e

pub position-get_elem? :
    (us : List String) (i : ℕ) (v : String)
    → AllDistinct us
    → get_elem? us i ≡ some v
    → position v us ≡ some i
unfolding position
position-get_elem? [] i v d e = absurd (cc e)
position-get_elem? (u ∷ us) zero v d e = ground (arith, e, ==_iff u v)
position-get_elem? (u ∷ us) (suc i) v d e =
    rw (Fresh-other u v us i d.0 e, position-get_elem? us i v d.1 e) refl
