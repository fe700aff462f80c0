-- ===== src/App/Ansi/Safety.antt =====
-- Markup and table look-ups in what `ansi_to_html` of src/app/util/format/ansi.rs pushes.
use roder.Prelude.{
  inl, inr, subst, ℕ, zero, suc, ◌<◌, ◌≡◌, refl, Bool, true, false, not, ◌&&◌, ◌||◌, Option, none,
  some, List, [], ◌∷◌, ◌++◌, Bool-cases, nat_beq, ltb, is_some, any, length, arith, String,
}
use roder.App.Ansi.{
  Class, color, ext, Style, plain_style, Push, text, raw, open_bold, open_color, close, Mode, plain,
  bracket, params, is_final, starts, next_mode, read, finish, pushes, sgr, apply_codes, changed,
  change, Change, ignore, reset, unbold, restyle, skipped, close_if_any, open_if_any, trim_end,
  codes_of, is_empty, is_zero, extended, escape, class_at, class_name,
}
use roder.App.Ansi.Content.{unfinished}

-- A character that HTML does not read as text.
abbrev pub is_markup : ℕ → Bool
is_markup c = nat_beq c b'<' || (nat_beq c b'>' || nat_beq c b'"')

unfoldable pub all : {A : Type 0} → (A → Bool) → List A → Bool
all p [] = true
all p (x ∷ xs) = p x && all p xs

unfoldable pub is_safe : Push → Bool
is_safe (text c) = not (any is_markup (escape c))
is_safe (raw cs) = not (any is_markup cs)
is_safe (open_color c) = is_some (class_name c)
is_safe open_bold = true
is_safe close = true

escape-is_markup : (c : ℕ) → any is_markup (escape c) ≡ false
unfolding escape
escape-is_markup c = elim (Bool-cases (nat_beq c b'&')) [
  | inl e ↦ rw e refl
  | inr e ↦ rw e (elim (Bool-cases (nat_beq c b'<')) [
    | inl f ↦ rw f refl
    | inr f ↦ rw f (elim (Bool-cases (nat_beq c b'>')) [
      | inl g ↦ rw g refl
      | inr g ↦ rw g (elim (Bool-cases (nat_beq c b'"')) [
        | inl h ↦ rw h refl
        | inr h ↦ rw (h, f, g) (rw h refl)
      ])
    ])
  ])
]

-- An index that the table of colours has.
in_table : Class → Bool
in_table (color n) = ltb n 16
in_table ext = true

all_in_table : Option Class → Bool
all_in_table none = true
all_in_table (some c) = in_table c

class_at-length : (xs : List String) (n : ℕ) → n < length xs → is_some (class_at n xs) ≡ true
unfolding class_at
class_at-length [] n h = absurd (omega arith)
class_at-length (x ∷ xs) zero h = refl
class_at-length (x ∷ xs) (suc n) h = class_at-length xs n (omega arith)

in_table-is_safe : (c : Class) → in_table c ≡ true → is_safe (open_color c) ≡ true
unfolding in_table is_safe
in_table-is_safe (color n) h = class_at-length _ n (ground (arith, h))
in_table-is_safe ext h = refl

all-append :
    (ps qs : List Push)
    → all is_safe ps ≡ true
    → all is_safe qs ≡ true
    → all is_safe (ps ++ qs) ≡ true
unfolding all
all-append [] qs h k = k
all-append (p ∷ ps) qs h k =
    let rest : all is_safe ps ≡ true = ground (arith, h) in
    ground (arith, h, all-append ps qs rest k)

close_if_any-all :
    (b : Bool) (fg : Option Class)
    → all is_safe (close_if_any (record { bold = b; fg = fg })) ≡ true
unfolding close_if_any is_safe all
close_if_any-all true none = refl
close_if_any-all true (some c) = refl
close_if_any-all false none = refl
close_if_any-all false (some c) = refl

open_if_any-all :
    (b : Bool) (fg : Option Class)
    → all_in_table fg ≡ true
    → all is_safe (open_if_any (record { bold = b; fg = fg })) ≡ true
unfolding open_if_any is_safe all all_in_table
open_if_any-all true none h = refl
open_if_any-all true (some c) h = rw (in_table-is_safe c h) refl
open_if_any-all false none h = refl
open_if_any-all false (some c) h = rw (in_table-is_safe c h) refl

-- What a change leads to has its colour in the table.
good_change : Change → Bool
good_change (restyle t k) = all_in_table t.fg
good_change _ = true

extended-good_change : (s : Style) (cs : List ℕ) → good_change (extended s cs) ≡ true
unfolding good_change all_in_table in_table
extended-good_change s [] = refl
extended-good_change s (m ∷ []) = refl
extended-good_change s (m ∷ i ∷ []) = ground arith
extended-good_change s (m ∷ i ∷ g ∷ []) = ground arith
extended-good_change s (m ∷ i ∷ g ∷ b ∷ cs) = ground arith

change-good_change :
    (s : Style) (c : ℕ) (cs : List ℕ)
    → all_in_table s.fg ≡ true
    → good_change (change s c cs) ≡ true
unfolding change good_change all_in_table in_table
change-good_change s c cs h = ground (arith, h, extended-good_change s cs)

-- Safe pushes, and a style with its colour in the table.
abbrev Safe : List Push × Style → Type 0
Safe r = (all is_safe r.0 ≡ true) × (all_in_table r.1.fg ≡ true)

changed-Safe :
    (s : Style) (x : Change) → all_in_table s.fg ≡ true → good_change x ≡ true → Safe (changed s x)
unfolding good_change all all_in_table
changed-Safe s ignore h g = (refl, h)
changed-Safe s reset h g = (close_if_any-all s.bold s.fg, refl)
changed-Safe s unbold h g = (close_if_any-all s.bold s.fg, h)
changed-Safe s (restyle t k) h g = (
  all-append (close_if_any s) (open_if_any t) (close_if_any-all s.bold s.fg)
      (open_if_any-all t.bold t.fg g),
  g,
)

apply_codes-Safe :
    (cs : List ℕ) (k : ℕ) (s : Style) → all_in_table s.fg ≡ true → Safe (apply_codes k s cs)
unfolding apply_codes all
apply_codes-Safe [] k s h = (refl, h)
apply_codes-Safe (c ∷ cs) (suc k) s h = apply_codes-Safe cs k s h
apply_codes-Safe (c ∷ cs) zero s h =
    let x = change s c cs in
    let (a, b) = changed-Safe s x h (change-good_change s c cs h) in
    let (d, e) = apply_codes-Safe cs (skipped x) (changed s x).1 b in
    (all-append (changed s x).0 _ a d, e)

sgr-Safe : (ps : List ℕ) (s : Style) → all_in_table s.fg ≡ true → Safe (sgr ps s)
unfolding sgr
sgr-Safe ps s h = elim (Bool-cases (is_empty (trim_end ps) || is_zero (trim_end ps))) [
  | inl e ↦ rw e (close_if_any-all s.bold s.fg, unfold all_in_table in refl)
  | inr e ↦ rw e (apply_codes-Safe (codes_of ps) 0 s h)
]

read-Safe :
    (m : Mode) (s : Style) (c : ℕ) (cs : List ℕ) → all_in_table s.fg ≡ true → Safe (read m s c cs)
unfolding read is_safe all
read-Safe plain s c cs h = elim (Bool-cases (starts c cs)) [
  | inl e ↦ rw e (refl, h)
  | inr e ↦ rw (e, escape-is_markup c) (refl, h)
]
read-Safe bracket s c cs h = (refl, h)
read-Safe (params ps) s c cs h = elim (Bool-cases (is_final c && nat_beq c b'm')) [
  | inl e ↦ rw e (sgr-Safe ps s h)
  | inr e ↦ rw e (refl, h)
]

finish-all :
    (m : Mode) (s : Style)
    → any is_markup (unfinished m []) ≡ false
    → all is_safe (finish m s) ≡ true
unfolding finish is_safe all unfinished
finish-all plain s h = close_if_any-all s.bold s.fg
finish-all bracket s h = close_if_any-all s.bold s.fg
finish-all (params ps) s h = rw (h, close_if_any-all s.bold s.fg) refl

unfinished-next :
    (m : Mode) (c : ℕ) (cs : List ℕ) → unfinished m (c ∷ cs) ≡ unfinished (next_mode m c cs) cs
unfolding unfinished
unfinished-next plain c cs = refl
unfinished-next bracket c cs = refl
unfinished-next (params ps) c cs = refl

pushes-all :
    (cs : List ℕ) (m : Mode) (s : Style)
    → all_in_table s.fg ≡ true
    → any is_markup (unfinished m cs) ≡ false
    → all is_safe (pushes m s cs) ≡ true
unfolding pushes
pushes-all [] m s h e = finish-all m s e
pushes-all (c ∷ cs) m s h e =
    let (a, b) = read-Safe m s c cs h in
    all-append (read m s c cs).0 _ a (
      pushes-all cs (next_mode m c cs) (read m s c cs).1 b
        (subst (λ x. any is_markup x ≡ false) (unfinished-next m c cs) e))

-- When the sequence that the text ends in, if it ends in one, has no markup, each piece of the output is a
-- tag of the source's own, with a class that the table of colours has, or text without markup.
pub ansi_to_html-is_safe :
    (cs : List ℕ)
    → any is_markup (unfinished plain cs) ≡ false
    → all is_safe (pushes plain plain_style cs) ≡ true
unfolding all_in_table
ansi_to_html-is_safe cs h = pushes-all cs plain plain_style refl h
