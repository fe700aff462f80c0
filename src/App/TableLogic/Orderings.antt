-- ===== src/App/TableLogic/Orderings.antt =====
-- What Rust's `sort_by` asks of a comparison, and the comparisons that are made of others.
use roder.Prelude.{
  true, Bool, false, ◌<◌, ℕ, ◌≡◌, refl, sym, ap, ◌∙◌, List, [], ◌∷◌, ltb, nat_beq, if◌then◌else◌,
  arith,
}

pub data Ordering : Type 0 where
  less equal greater : Ordering

abbrev pub reverse : Ordering → Ordering
reverse less = greater
reverse equal = equal
reverse greater = less

abbrev pub then_with : Ordering → Ordering → Ordering
then_with less o = less
then_with equal o = o
then_with greater o = greater

-- `Ord::cmp` on numbers and on characters.
unfoldable pub cmp : ℕ → ℕ → Ordering
cmp a b = if ltb a b then less else if nat_beq a b then equal else greater

-- `Ord::cmp` on texts: by the first character that differs.
unfoldable pub lex : List ℕ → List ℕ → Ordering
lex [] [] = equal
lex [] (y ∷ ys) = less
lex (x ∷ xs) [] = greater
lex (x ∷ xs) (y ∷ ys) = then_with (cmp x y) (lex xs ys)

-- A total order, up to what it takes as equal.
pub record IsOrder {A : Type 0} (c : A → A → Ordering) : Type 0 where
  pub swap : (a b : A) → c b a ≡ reverse (c a b)
  pub same : (a b x : A) → c a b ≡ equal → c a x ≡ c b x
  pub trans : (a b x : A) → c a b ≡ less → c b x ≡ less → c a x ≡ less

-- `sort_by` puts an element before another unless it compares as greater.
abbrev pub not_greater : Ordering → Bool
not_greater less = true
not_greater equal = true
not_greater greater = false

module _ {A : Type 0} (c : A → A → Ordering) (O : IsOrder c) where
  -- Equal elements are equal on the right as well.
  pub same_right : (a b x : A) → c b x ≡ equal → c a x ≡ c a b
  same_right a b x e =
      O.swap x a ∙ ap reverse (O.same x b a (O.swap b x ∙ ap reverse e)) ∙ sym (O.swap b a)

  pub not_greater-total : (a b : A) → not_greater (c a b) ≡ false → not_greater (c b a) ≡ true
  not_greater-total a b e = ap not_greater (O.swap a b) ∙ reversed (c a b) e
    where
      reversed : (o : Ordering) → not_greater o ≡ false → not_greater (reverse o) ≡ true
      reversed less e = absurd (cc e)
      reversed equal e = absurd (cc e)
      reversed greater e = refl

  not_greater-at :
      (a b x : A) (o p : Ordering)
      → c a b ≡ o
      → c b x ≡ p
      → not_greater o ≡ true
      → not_greater p ≡ true
      → not_greater (c a x) ≡ true
  not_greater-at a b x less less e f g h = rw (O.trans a b x e f) refl
  not_greater-at a b x less equal e f g h = rw (same_right a b x f ∙ e) refl
  not_greater-at a b x equal p e f g h = rw (O.same a b x e ∙ f) h
  not_greater-at a b x greater p e f g h = absurd (cc g)
  not_greater-at a b x less greater e f g h = absurd (cc h)

  pub not_greater_trans :
      (a b x : A)
      → not_greater (c a b) ≡ true
      → not_greater (c b x) ≡ true
      → not_greater (c a x) ≡ true
  not_greater_trans a b x = not_greater-at a b x (c a b) (c b x) refl refl

  pub on-IsOrder : {B : Type 0} (f : B → A) → IsOrder (λ x y. c (f x) (f y))
  on-IsOrder f = record {
    swap = λ a b. O.swap (f a) (f b);
    same = λ a b x. O.same (f a) (f b) (f x);
    trans = λ a b x. O.trans (f a) (f b) (f x);
  }

  reverse-less : (o : Ordering) → reverse o ≡ less → o ≡ greater
  reverse-less less e = absurd (cc e)
  reverse-less equal e = absurd (cc e)
  reverse-less greater e = refl

  reverse-equal : (o : Ordering) → reverse o ≡ equal → o ≡ equal
  reverse-equal less e = absurd (cc e)
  reverse-equal equal e = refl
  reverse-equal greater e = absurd (cc e)

  -- `ord.reverse()`
  pub reverse-IsOrder : IsOrder (λ x y. reverse (c x y))
  reverse-IsOrder = record {
    swap = λ a b. ap reverse (O.swap a b);
    same = λ a b x. λ e. ap reverse (O.same a b x (reverse-equal (c a b) e));
    trans = λ a b x. λ e. λ f.
        let down =
          O.trans x b a (O.swap b x ∙ ap reverse (reverse-less (c b x) f))
            (O.swap a b ∙ ap reverse (reverse-less (c a b) e)) in
        sym (O.swap a x) ∙ down;
  }

then_with-reverse : (o p : Ordering) → then_with (reverse o) (reverse p) ≡ reverse (then_with o p)
then_with-reverse less p = refl
then_with-reverse equal p = refl
then_with-reverse greater p = refl

then_with-equal : (o p : Ordering) → then_with o p ≡ equal → (o ≡ equal) × (p ≡ equal)
then_with-equal less p e = absurd (cc e)
then_with-equal equal p e = (refl, e)
then_with-equal greater p e = absurd (cc e)

-- What comes second decides only where the first is equal, twice.
then_less_at :
    {A : Type 0} (c : A → A → Ordering)
    → IsOrder c
    → (a b x : A) (o p q r s : Ordering) → c a b ≡ o
    → c b x ≡ p
    → then_with o q ≡ less
    → then_with p r ≡ less
    → (q ≡ less → r ≡ less → s ≡ less)
    → then_with (c a x) s ≡ less
then_less_at c O a b x less less q r s e f g h k = rw (O.trans a b x e f) refl
then_less_at c O a b x less equal q r s e f g h k = rw (same_right c O a b x f ∙ e) refl
then_less_at c O a b x equal less q r s e f g h k = rw (O.same a b x e ∙ f) refl
then_less_at c O a b x equal equal q r s e f g h k = rw (O.same a b x e ∙ f) (k g h)
then_less_at c O a b x greater p q r s e f g h k = absurd (cc g)
then_less_at c O a b x less greater q r s e f g h k = absurd (cc h)
then_less_at c O a b x equal greater q r s e f g h k = absurd (cc h)

then_less :
    {A : Type 0} (c : A → A → Ordering)
    → IsOrder c
    → (a b x : A) (q r s : Ordering) → then_with (c a b) q ≡ less
    → then_with (c b x) r ≡ less
    → (q ≡ less → r ≡ less → s ≡ less)
    → then_with (c a x) s ≡ less
then_less c O a b x q r s = then_less_at c O a b x (c a b) (c b x) q r s refl refl

module _ {A : Type 0} (c d : A → A → Ordering) (O : IsOrder c) (P : IsOrder d) where
  pub then_with-IsOrder : IsOrder (λ x y. then_with (c x y) (d x y))
  then_with-IsOrder = record {
    swap = λ a b. rw (O.swap a b, P.swap a b) (then_with-reverse (c a b) (d a b));
    same = λ a b x. λ e.
        let both = then_with-equal (c a b) (d a b) e in
        rw (O.same a b x both.0, P.same a b x both.1) refl;
    trans = λ a b x.
        λ e. λ f. then_less c O a b x (d a b) (d b x) (d a x) e f (λ g h. P.trans a b x g h);
  }

cong_cons : {x y : ℕ} {xs ys : List ℕ} → x ≡ y → xs ≡ ys → (x ∷ xs) ≡ (y ∷ ys)
cong_cons {x} {y} {xs} {ys} e f = rw (e, f) refl

cmp-equal : (a b : ℕ) → cmp a b ≡ equal → a ≡ b
unfolding cmp
cmp-equal a b e = ground (arith, e)

cmp-less : (a b : ℕ) → cmp a b ≡ less → a < b
unfolding cmp
cmp-less a b e = ground (arith, e)

less-cmp : (a b : ℕ) → a < b → cmp a b ≡ less
unfolding cmp
less-cmp a b h = ground (arith, h)

cmp-swap : (a b : ℕ) → cmp b a ≡ reverse (cmp a b)
unfolding cmp
cmp-swap a b = ground arith

pub cmp-IsOrder : IsOrder cmp
cmp-IsOrder = record {
  swap = cmp-swap;
  same = λ a b x. λ e. ap (λ z. cmp z x) (cmp-equal a b e);
  trans = λ a b x.
      λ e. λ f. let p = cmp-less a b e in let q = cmp-less b x f in less-cmp a x (omega arith);
}

-- Texts that compare as equal are the same.
pub lex-equal : (a b : List ℕ) → lex a b ≡ equal → a ≡ b
unfolding lex
lex-equal [] [] e = refl
lex-equal [] (y ∷ ys) e = absurd (cc e)
lex-equal (x ∷ xs) [] e = absurd (cc e)
lex-equal (x ∷ xs) (y ∷ ys) e =
    let both = then_with-equal (cmp x y) (lex xs ys) e in
    cong_cons (cmp-equal x y both.0) (lex-equal xs ys both.1)

lex-swap : (a b : List ℕ) → lex b a ≡ reverse (lex a b)
unfolding lex
lex-swap [] [] = refl
lex-swap [] (y ∷ ys) = refl
lex-swap (x ∷ xs) [] = refl
lex-swap (x ∷ xs) (y ∷ ys) =
    rw (cmp-swap x y, lex-swap xs ys) (then_with-reverse (cmp x y) (lex xs ys))

lex_trans : (a b x : List ℕ) → lex a b ≡ less → lex b x ≡ less → lex a x ≡ less
unfolding lex
lex_trans [] [] x e f = absurd (cc e)
lex_trans [] (b ∷ bs) [] e f = absurd (cc f)
lex_trans [] (b ∷ bs) (x ∷ xs) e f = refl
lex_trans (a ∷ ts) [] x e f = absurd (cc e)
lex_trans (a ∷ ts) (b ∷ bs) [] e f = absurd (cc f)
lex_trans (a ∷ ts) (b ∷ bs) (x ∷ xs) e f =
    then_less cmp cmp-IsOrder a b x (lex ts bs) (lex bs xs) (lex ts xs) e f
      (λ g h. lex_trans ts bs xs g h)

pub lex-IsOrder : IsOrder lex
lex-IsOrder = record {
  swap = lex-swap;
  same = λ a b x. λ e. ap (λ z. lex z x) (lex-equal a b e);
  trans = lex_trans;
}
