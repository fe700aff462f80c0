-- ===== src/Prelude/Texts.antt =====
-- Rust's operations on `str` that cut a text at a character; a character is compared by its code.
use Prim.Native.Nat.{ℕ}
use Prim.Native.Char.{code}
use Prim.Native.String.{String, ◌++◌ as str_append}
use mathlib.Core.Path.{◌≡◌, refl}
use mathlib.Core.Bool.{Bool, false, ◌||◌}
use mathlib.Core.List.{List, [], ◌∷◌}
use mathlib.Core.Option.{Option, none, some}
use text.Mathlib.TextLemmas.{nil-append, cons-append}
use native.Mathlib.Omega.{arith}
use roder.Prelude.Tests.{if◌then◌else◌, nat_beq}

-- The codes of the characters of a text.
abbrev pub codes : String → List ℕ
codes String.[] = []
codes (String.◌∷◌ d s) = code d ∷ codes s

-- `s.contains(c)`
unfoldable pub has_char : ℕ → String → Bool
has_char c String.[] = false
has_char c (String.◌∷◌ d s) = nat_beq (code d) c || has_char c s

-- `s.split_once(c)`
unfoldable pub split_once : ℕ → String → Option (String × String)
split_once c String.[] = none
split_once c (String.◌∷◌ d s) =
    let rest = split_once c s in
    if nat_beq (code d) c
    then some ("", s)
    else elim rest [ none ↦ none | some p ↦ some (String.◌∷◌ d p.0, p.1) ]

-- The first separator is where it was put, if the part before it has none.
pub split_once-append :
    (c : ℕ) (a sep b : String)
    → has_char c a ≡ false
    → split_once c (str_append sep b) ≡ some ("", b)
    → split_once c (str_append a (str_append sep b)) ≡ some (a, b)
unfolding has_char split_once
split_once-append c String.[] sep b h e = rw nil-append e
split_once-append c (String.◌∷◌ d a) sep b h e =
    let miss : nat_beq (code d) c ≡ false = ground (arith, h) in
    let rest : has_char c a ≡ false = ground (arith, h) in
    rw (cons-append, miss, split_once-append c a sep b rest e) refl
