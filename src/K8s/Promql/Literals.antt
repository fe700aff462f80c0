-- ===== src/K8s/Promql/Literals.antt =====
-- What a server reads of an escaped value: PromQL's string literals, after their opening quote, with the
-- escapes of a backslash, a quote and a newline; and regular expressions without operators.
use roder.Prelude.{
  inl, inr, ℕ, ◌≡◌, refl, sym, ap, ◌∙◌, Bool, true, false, Option, none, some, List, [], ◌∷◌, ◌++◌,
  ◌||◌, any, nat_beq, nat_beq_iff, Bool-cases, if◌then◌else◌, arith,
}
use roder.K8s.Promql.{escape_char, escape_label_value, is_meta, escape_regex}

abbrev unescaped : ℕ → Option ℕ
unescaped c =
    if nat_beq c b'\\'
    then some b'\\'
    else if nat_beq c b'"'
    then some b'"'
    else if nat_beq c b'n'
    then some 10
    else none

abbrev put : ℕ → Option (List ℕ × List ℕ) → Option (List ℕ × List ℕ)
put c none = none
put c (some r) = some (c ∷ r.0, r.1)

abbrev put_unescaped : Option ℕ → Option (List ℕ × List ℕ) → Option (List ℕ × List ℕ)
put_unescaped none r = none
put_unescaped (some c) r = put c r

-- The value of the literal, and what follows its closing quote; the Boolean tells that the character
-- before was a backslash.
unfoldable pub read_literal : Bool → List ℕ → Option (List ℕ × List ℕ)
read_literal after [] = none
read_literal true (c ∷ cs) = let rest = read_literal false cs in put_unescaped (unescaped c) rest
read_literal false (c ∷ cs) =
    let rest = read_literal (nat_beq c b'\\') cs in
    if nat_beq c b'"'
    then some ([], cs)
    else if nat_beq c 10
    then none
    else if nat_beq c b'\\'
    then rest
    else put c rest

abbrev cons_some : ℕ → Option (List ℕ) → Option (List ℕ)
cons_some c none = none
cons_some c (some cs) = some (c ∷ cs)

-- RE2's metacharacters: those that are an operator, open or close a group or a class, or escape.
unfoldable pub is_operator : ℕ → Bool
is_operator c =
    any (nat_beq c) (b'|' ∷ b'*' ∷ b'+' ∷ b'?' ∷ b'{' ∷ b'}' ∷ [])
    || (any (nat_beq c) (b'(' ∷ b')' ∷ b'[' ∷ b']' ∷ [])
        || any (nat_beq c) (b'.' ∷ b'^' ∷ b'$' ∷ b'\\' ∷ []))

-- The text that an expression matches, if it has no operator.
unfoldable pub read_regex : Bool → List ℕ → Option (List ℕ)
read_regex true [] = none
read_regex false [] = some []
read_regex true (c ∷ cs) =
    let rest = read_regex false cs in if is_operator c then cons_some c rest else none
read_regex false (c ∷ cs) =
    let rest = read_regex (nat_beq c b'\\') cs in
    if nat_beq c b'\\' then rest else if is_operator c then none else cons_some c rest

-- The source's list has each of them, and no more.
is_meta-is_operator : (c : ℕ) → is_operator c ≡ is_meta c
unfolding is_meta is_operator
is_meta-is_operator c = ground arith

-- One character of the value.
read_literal-escape_char :
    (c : ℕ) (rest : List ℕ)
    → read_literal false (escape_char c ++ rest) ≡ put c (read_literal false rest)
unfolding read_literal
read_literal-escape_char c rest = elim (Bool-cases (nat_beq c b'\\')) [
  | inl e ↦ rw e (ap (λ x. put x (read_literal false rest)) (sym ((nat_beq_iff c b'\\').0 e)))
  | inr e ↦ rw e (elim (Bool-cases (nat_beq c b'"')) [
    | inl f ↦ rw f (ap (λ x. put x (read_literal false rest)) (sym ((nat_beq_iff c b'"').0 f)))
    | inr f ↦ rw f (elim (Bool-cases (nat_beq c 10)) [
      | inl g ↦ rw g (ap (λ x. put x (read_literal false rest)) (sym ((nat_beq_iff c 10).0 g)))
      | inr g ↦ rw g (rw (f, g, e) refl)
    ])
  ])
]

append_assoc3 : (a b c : List ℕ) → (a ++ b) ++ c ≡ a ++ (b ++ c)
append_assoc3 [] b c = refl
append_assoc3 (x ∷ a) b c = ap (λ y. x ∷ y) (append_assoc3 a b c)

-- A value that is escaped and put between quotes is read back as it is, up to the closing quote and no
-- further, whatever the value holds and whatever follows.
pub escape_label_value-read_literal :
    (value rest : List ℕ)
    → read_literal false (escape_label_value value ++ (b'"' ∷ rest)) ≡ some (value, rest)
unfolding escape_label_value
escape_label_value-read_literal [] rest = unfold read_literal in refl
escape_label_value-read_literal (c ∷ cs) rest =
    ap (read_literal false) (append_assoc3 (escape_char c) (escape_label_value cs) (b'"' ∷ rest))
    ∙ read_literal-escape_char c (escape_label_value cs ++ (b'"' ∷ rest))
    ∙ ap (put c) (escape_label_value-read_literal cs rest)

is_meta-backslash : (c : ℕ) → is_meta c ≡ false → nat_beq c b'\\' ≡ false
unfolding is_meta
is_meta-backslash c e = ground (arith, e)

escape_regex-read_regex : (value : List ℕ) → read_regex false (escape_regex value) ≡ some value
unfolding escape_regex read_regex
escape_regex-read_regex [] = refl
escape_regex-read_regex (c ∷ cs) = elim (Bool-cases (is_meta c)) [
  | inl e ↦ rw e (rw (is_meta-is_operator c ∙ e) (ap (cons_some c) (escape_regex-read_regex cs)))
  | inr e ↦ rw e (
      rw (is_meta-backslash c e, is_meta-is_operator c ∙ e)
        (ap (cons_some c) (escape_regex-read_regex cs)))
]

-- A value that is escaped for an expression and then for the quotes is read as a literal, up to the closing
-- quote and no further, whose expression has no operator and matches the value alone.
pub escape_regex-read_literal :
    (value rest : List ℕ)
    → (pattern : List ℕ) × (read_literal false
          (escape_label_value (escape_regex value) ++ (b'"' ∷ rest))
        ≡ some (pattern, rest))
      × (read_regex false pattern ≡ some value)
escape_regex-read_literal value rest = (
  escape_regex value,
  escape_label_value-read_literal (escape_regex value) rest,
  escape_regex-read_regex value,
)
