-- ===== src/App/TableLogic/Natural.antt =====
-- `nat_cmp` of src/app/table_logic.rs: texts are the codes of their characters.
use mathlib.Core.Path.{fun_ext}
use roder.Prelude.{
  inl, inr, ℕ, zero, suc, ◌+◌, ◌-◌, ◌*◌, ◌^◌, ◌≤◌, ◌≡◌, refl, sym, ap, ◌∙◌, Bool, true, false, ◌&&◌,
  Option, none, some, List, [], ◌∷◌, length, ltb, leb, Bool-cases, if◌then◌else◌, arith, subst,
  unwrap_or,
}
use roder.App.TableLogic.Orderings.{
  Ordering, less, equal, greater, then_with, cmp, lex, IsOrder, lex-IsOrder, on-IsOrder,
}

abbrev pub is_digit : ℕ → Bool
is_digit c = leb 48 c && leb c 57

-- `a[..an]` and `a[an..]`, where `an` is the first character that is no digit, or the end.
unfoldable pub digits : List ℕ → List ℕ
digits [] = []
digits (c ∷ cs) = let rest = digits cs in if is_digit c then c ∷ rest else []

unfoldable pub after_digits : List ℕ → List ℕ
after_digits [] = []
after_digits (c ∷ cs) = let rest = after_digits cs in if is_digit c then rest else c ∷ cs

-- `parse::<u64>` of a run of digits, which fails if the number does not fit.
unfoldable pub parse_u64 : ℕ → List ℕ → Option ℕ
parse_u64 n [] = some n
parse_u64 n (c ∷ cs) =
    let rest = parse_u64 (n * 10 + (c - 48)) cs in
    if ltb (n * 10 + (c - 48)) (2 ^ 64) then rest else none

unfoldable pub run_value : List ℕ → ℕ
run_value cs = unwrap_or (parse_u64 0 (digits cs)) 0

-- The loop; each round takes at least one character of the first text.
unfoldable pub nat_cmp_from : ℕ → List ℕ → List ℕ → Ordering
nat_cmp_from fuel [] [] = equal
nat_cmp_from fuel [] (y ∷ b) = less
nat_cmp_from fuel (x ∷ a) [] = greater
nat_cmp_from zero (x ∷ a) (y ∷ b) = equal
nat_cmp_from (suc fuel) (x ∷ a) (y ∷ b) =
    let both = is_digit x && is_digit y in
    let rest =
      nat_cmp_from fuel (if both then after_digits (x ∷ a) else a)
        (if both then after_digits (y ∷ b) else b) in
    then_with (if both then cmp (run_value (x ∷ a)) (run_value (y ∷ b)) else cmp x y) rest

unfoldable pub nat_cmp : List ℕ → List ℕ → Ordering
nat_cmp a b = nat_cmp_from (length a) a b

-- What the comparison reads a text as: a character that is no digit as itself, and a run of digits as a
-- zero character with the decimal number it writes, or with zero if that has no place in 64 bits.
abbrev is_decimal : ℕ → Bool
is_decimal c = ltb 47 c && ltb c 58

unfoldable pub decimal : ℕ → List ℕ → ℕ
decimal n [] = n
decimal n (c ∷ cs) = let rest = decimal (10 * n + (c - 48)) cs in if is_decimal c then rest else n

abbrev pub in_64_bits : ℕ → ℕ
in_64_bits n = if ltb n (2 ^ 64) then n else 0

abbrev drop_two : List ℕ → List ℕ
drop_two (x ∷ y ∷ rest) = rest
drop_two rest = rest

abbrev begins_digit : List ℕ → Bool
begins_digit [] = false
begins_digit (c ∷ cs) = is_decimal c

unfoldable pub reading : List ℕ → List ℕ
reading [] = []
reading (c ∷ cs) =
    let rest = reading cs in
    if is_decimal c
    then 48 ∷ in_64_bits (decimal 0 (c ∷ cs)) ∷ (if begins_digit cs then drop_two rest else rest)
    else c ∷ 0 ∷ rest

is_decimal-is_digit : (c : ℕ) → is_decimal c ≡ is_digit c
is_decimal-is_digit c = ground arith

decimal-le : (n : ℕ) (cs : List ℕ) → n ≤ decimal n cs
unfolding decimal
decimal-le n [] = omega arith
decimal-le n (c ∷ cs) = elim (Bool-cases (is_decimal c)) [
  | inl e ↦ rw e (omega (arith, decimal-le (10 * n + (c - 48)) cs))
  | inr e ↦ rw e (omega arith)
]

too_large : (n m b : ℕ) → ltb n b ≡ false → n ≤ m → ltb m b ≡ false
too_large n m b e h = ground (arith, e, h)

times_comm : (n d : ℕ) → n * 10 + d ≡ 10 * n + d
times_comm n d = omega arith

parse_u64-decimal :
    (n : ℕ) (cs : List ℕ)
    → ltb n (2 ^ 64) ≡ true
    → unwrap_or (parse_u64 n (digits cs)) 0 ≡ in_64_bits (decimal n cs)
unfolding parse_u64 digits decimal
parse_u64-decimal n [] h = rw h refl
parse_u64-decimal n (c ∷ cs) h = elim (Bool-cases (is_decimal c)) [
  | inr e ↦ rw (e, sym (is_decimal-is_digit c) ∙ e, h) refl
  | inl e ↦ elim (Bool-cases (ltb (10 * n + (c - 48)) (2 ^ 64))) [
    | inl f ↦
        rw (e, sym (is_decimal-is_digit c) ∙ e, times_comm n (c - 48), f)
          (parse_u64-decimal (10 * n + (c - 48)) cs f)
    | inr f ↦
        let k = too_large _ _ (2 ^ 64) f (decimal-le (10 * n + (c - 48)) cs) in
        rw (e, sym (is_decimal-is_digit c) ∙ e, times_comm n (c - 48), f, k) refl
  ]
]

run_value-decimal : (cs : List ℕ) → run_value cs ≡ in_64_bits (decimal 0 cs)
unfolding run_value
run_value-decimal cs = parse_u64-decimal 0 cs refl

after_digits-length : (cs : List ℕ) → length (after_digits cs) ≤ length cs
unfolding after_digits
after_digits-length [] = omega arith
after_digits-length (c ∷ cs) = let k = after_digits-length cs in ground (arith, k)

reading-symbol : (c : ℕ) (cs : List ℕ) → is_digit c ≡ false → reading (c ∷ cs) ≡ c ∷ 0 ∷ reading cs
unfolding reading
reading-symbol c cs e = rw (is_decimal-is_digit c ∙ e) refl

reading-run :
    (c : ℕ) (cs : List ℕ)
    → is_digit c ≡ true
    → reading (c ∷ cs)
      ≡ 48 ∷ run_value (c ∷ cs) ∷ (if begins_digit cs then drop_two (reading cs) else reading cs)
unfolding reading
reading-run c cs e = rw (is_decimal-is_digit c ∙ e, run_value-decimal (c ∷ cs)) refl

after_digits-digit :
    (c : ℕ) (cs : List ℕ) → is_digit c ≡ true → after_digits (c ∷ cs) ≡ after_digits cs
unfolding after_digits
after_digits-digit c cs e = rw e refl

after_digits-symbol : (c : ℕ) (cs : List ℕ) → is_digit c ≡ false → after_digits (c ∷ cs) ≡ c ∷ cs
unfolding after_digits
after_digits-symbol c cs e = rw e refl

after_digits-shorter :
    (c : ℕ) (cs : List ℕ) (n : ℕ)
    → is_digit c ≡ true
    → length cs ≤ n
    → length (after_digits (c ∷ cs)) ≤ n
after_digits-shorter c cs n e h =
    let k = after_digits-length cs in let q = ap length (after_digits-digit c cs e) in omega arith

-- A run is read as one number.
reading-digit :
    (c : ℕ) (cs : List ℕ)
    → is_digit c ≡ true
    → reading (c ∷ cs) ≡ 48 ∷ run_value (c ∷ cs) ∷ reading (after_digits (c ∷ cs))
reading-digit c [] e = reading-run c [] e ∙ (unfold after_digits in rw e refl)
reading-digit c (d ∷ ds) e = elim (Bool-cases (is_digit d)) [
  | inl f ↦
      reading-run c (d ∷ ds) e
      ∙ rw (is_decimal-is_digit d ∙ f, after_digits-digit c (d ∷ ds) e, reading-digit d ds f) refl
  | inr f ↦
      reading-run c (d ∷ ds) e
      ∙ rw (is_decimal-is_digit d ∙ f, after_digits-digit c (d ∷ ds) e, after_digits-symbol d ds f)
          refl
]

-- A digit and another character compare as the zero character does.
data Apart (o p : Ordering) : Type 0 where
  both_less : o ≡ less → p ≡ less → Apart o p
  both_greater : o ≡ greater → p ≡ greater → Apart o p

digit-symbol : (x y : ℕ) → is_digit x ≡ true → is_digit y ≡ false → Apart (cmp x y) (cmp 48 y)
unfolding cmp
digit-symbol x y e f = elim (Bool-cases (ltb x y)) [
  | inl q ↦ both_less (rw q refl) (ground (arith, e, f, q))
  | inr q ↦ both_greater (ground (arith, e, f, q)) (ground (arith, e, f, q))
]

symbol-digit : (x y : ℕ) → is_digit x ≡ false → is_digit y ≡ true → Apart (cmp x y) (cmp x 48)
unfolding cmp
symbol-digit x y e f = elim (Bool-cases (ltb x y)) [
  | inl q ↦ both_less (rw q refl) (ground (arith, e, f, q))
  | inr q ↦ both_greater (ground (arith, e, f, q)) (ground (arith, e, f, q))
]

Apart-then_with : (o p q r : Ordering) → Apart o p → then_with o q ≡ then_with p r
Apart-then_with o p q r (both_less e f) = rw (e, f) refl
Apart-then_with o p q r (both_greater e f) = rw (e, f) refl

lex-runs :
    (v w : ℕ) (xs ys : List ℕ) → lex (48 ∷ v ∷ xs) (48 ∷ w ∷ ys) ≡ then_with (cmp v w) (lex xs ys)
unfolding lex cmp
lex-runs v w xs ys = refl

lex-symbols :
    (x y : ℕ) (xs ys : List ℕ) → lex (x ∷ 0 ∷ xs) (y ∷ 0 ∷ ys) ≡ then_with (cmp x y) (lex xs ys)
unfolding lex cmp
lex-symbols x y xs ys = refl

lex-cons : (x y : ℕ) (xs ys : List ℕ) → lex (x ∷ xs) (y ∷ ys) ≡ then_with (cmp x y) (lex xs ys)
unfolding lex
lex-cons x y xs ys = refl

nat_cmp_from-digits :
    (fuel x y : ℕ) (a b : List ℕ)
    → (is_digit x && is_digit y) ≡ true
    → nat_cmp_from (suc fuel) (x ∷ a) (y ∷ b)
      ≡ then_with
          (cmp (run_value (x ∷ a)) (run_value (y ∷ b)))
          (nat_cmp_from fuel (after_digits (x ∷ a)) (after_digits (y ∷ b)))
unfolding nat_cmp_from
nat_cmp_from-digits fuel x y a b e = rw e refl

nat_cmp_from-symbol :
    (fuel x y : ℕ) (a b : List ℕ)
    → (is_digit x && is_digit y) ≡ false
    → nat_cmp_from (suc fuel) (x ∷ a) (y ∷ b) ≡ then_with (cmp x y) (nat_cmp_from fuel a b)
unfolding nat_cmp_from
nat_cmp_from-symbol fuel x y a b e = rw e refl

reading-[]-cons : (y : ℕ) (b : List ℕ) → lex [] (reading (y ∷ b)) ≡ less
reading-[]-cons y b = elim (Bool-cases (is_digit y)) [
  | inl e ↦ rw (reading-digit y b e) (unfold lex in refl)
  | inr e ↦ rw (reading-symbol y b e) (unfold lex in refl)
]

reading-cons-[] : (x : ℕ) (a : List ℕ) → lex (reading (x ∷ a)) [] ≡ greater
reading-cons-[] x a = elim (Bool-cases (is_digit x)) [
  | inl e ↦ rw (reading-digit x a e) (unfold lex in refl)
  | inr e ↦ rw (reading-symbol x a e) (unfold lex in refl)
]

nat_cmp_from-lex :
    (fuel : ℕ) (a b : List ℕ)
    → length a ≤ fuel
    → nat_cmp_from fuel a b ≡ lex (reading a) (reading b)
nat_cmp_from-lex fuel [] [] h = unfold nat_cmp_from lex reading in refl
nat_cmp_from-lex fuel [] (y ∷ b) h = (unfold nat_cmp_from reading in sym (reading-[]-cons y b))
nat_cmp_from-lex fuel (x ∷ a) [] h = (unfold nat_cmp_from reading in sym (reading-cons-[] x a))
nat_cmp_from-lex zero (x ∷ a) (y ∷ b) h = absurd (omega arith)
nat_cmp_from-lex (suc fuel) (x ∷ a) (y ∷ b) h = elim (Bool-cases (is_digit x)) [
  | inl d ↦ elim (Bool-cases (is_digit y)) [
    | inl e ↦
        nat_cmp_from-digits fuel x y a b (rw (d, e) refl)
        ∙ ap (then_with (cmp (run_value (x ∷ a)) (run_value (y ∷ b)))) (
            nat_cmp_from-lex fuel (after_digits (x ∷ a)) (after_digits (y ∷ b))
              (after_digits-shorter x a fuel d (omega arith)))
        ∙ sym (rw (reading-digit x a d, reading-digit y b e) (lex-runs _ _ _ _))
    | inr e ↦
        nat_cmp_from-symbol fuel x y a b (rw (d, e) refl)
        ∙ Apart-then_with (cmp x y) (cmp 48 y) (nat_cmp_from fuel a b)
            (lex (run_value (x ∷ a) ∷ reading (after_digits (x ∷ a))) (0 ∷ reading b))
            (digit-symbol x y d e)
        ∙ sym (rw (reading-digit x a d, reading-symbol y b e) (lex-cons 48 y _ _))
  ]
  | inr d ↦ elim (Bool-cases (is_digit y)) [
    | inl e ↦
        nat_cmp_from-symbol fuel x y a b (rw d refl)
        ∙ Apart-then_with (cmp x y) (cmp x 48) (nat_cmp_from fuel a b)
            (lex (0 ∷ reading a) (run_value (y ∷ b) ∷ reading (after_digits (y ∷ b))))
            (symbol-digit x y d e)
        ∙ sym (rw (reading-symbol x a d, reading-digit y b e) (lex-cons x 48 _ _))
    | inr e ↦
        nat_cmp_from-symbol fuel x y a b (rw d refl)
        ∙ ap (then_with (cmp x y)) (nat_cmp_from-lex fuel a b (omega arith))
        ∙ sym (rw (reading-symbol x a d, reading-symbol y b e) (lex-symbols x y _ _))
  ]
]

-- The natural order of two texts is the lexicographic one of what they are read as, number for number and
-- character for character, where a number that has no place in 64 bits is read as zero.
pub nat_cmp-reading : (a b : List ℕ) → nat_cmp a b ≡ lex (reading a) (reading b)
unfolding nat_cmp
nat_cmp-reading a b = nat_cmp_from-lex (length a) a b (omega arith)

pub nat_cmp-IsOrder : IsOrder nat_cmp
nat_cmp-IsOrder =
    subst IsOrder (sym (fun_ext (λ a. fun_ext (λ b. nat_cmp-reading a b))))
      (on-IsOrder lex lex-IsOrder reading)
