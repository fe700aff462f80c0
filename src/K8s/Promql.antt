-- ===== src/K8s/Promql.antt =====
-- crates/k8s/src/promql.rs: the escaping of values that are put into a query. Texts are the codes of
-- their characters.
pub mod Literals
mod Tests
use roder.Prelude.{
  ℕ, zero, suc, ◌+◌, Bool, true, false, ◌||◌, List, [], ◌∷◌, ◌++◌, nat_beq, any, if◌then◌else◌,
}

abbrev pub escape_char : ℕ → List ℕ
escape_char c =
    if nat_beq c b'\\'
    then b'\\' ∷ b'\\' ∷ []
    else if nat_beq c b'"'
    then b'\\' ∷ b'"' ∷ []
    else if nat_beq c 10
    then b'\\' ∷ b'n' ∷ []
    else c ∷ []

unfoldable pub escape_label_value : List ℕ → List ℕ
escape_label_value [] = []
escape_label_value (c ∷ cs) = escape_char c ++ escape_label_value cs

abbrev pub meta : List ℕ
meta =
    b'\\' ∷ b'.' ∷ b'+' ∷ b'*' ∷ b'?' ∷ b'(' ∷ b')' ∷ b'|' ∷ b'[' ∷ b']' ∷ b'{' ∷ b'}' ∷ b'^' ∷ b'$'
    ∷ []

unfoldable pub is_meta : ℕ → Bool
is_meta c = any (nat_beq c) meta

unfoldable pub escape_regex : List ℕ → List ℕ
escape_regex [] = []
escape_regex (c ∷ cs) =
    let rest = escape_regex cs in if is_meta c then b'\\' ∷ c ∷ rest else c ∷ rest
