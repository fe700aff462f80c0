-- ===== src/App/Ansi/Spans.antt =====
-- How many spans are open in what `ansi_to_html` of src/app/util/format/ansi.rs pushes.
use roder.Prelude.{
  subst, unwrap_or, subst, inl, inr, ℕ, zero, suc, ◌+◌, ◌≡◌, refl, ap, ◌∙◌, Bool, true, false, ◌&&◌,
  ◌||◌, Option, none, some, List, [], ◌∷◌, ◌++◌, Bool-cases, nat_beq, is_some, if◌then◌else◌, any,
  arith,
}
use roder.App.Ansi.{
  Class, Style, plain_style, Push, text, raw, open_bold, open_color, close, Mode, plain, bracket,
  params, is_final, starts, next_mode, read, finish, pushes, sgr, apply_codes, changed, change,
  Change, ignore, reset, unbold, restyle, skipped, close_if_any, open_if_any, trim_end, codes_of,
  is_empty, is_zero, extended,
}

-- How many spans are open after these pushes, if none is closed that is not open.
unfoldable pub depth : ℕ → List Push → Option ℕ
depth n [] = some n
depth n (text c ∷ ps) = depth n ps
depth n (raw cs ∷ ps) = depth n ps
depth n (open_bold ∷ ps) = depth (suc n) ps
depth n (open_color c ∷ ps) = depth (suc n) ps
depth zero (close ∷ ps) = none
depth (suc n) (close ∷ ps) = depth n ps

-- The codes of all sequences of colours.
unfoldable pub all_codes : Mode → List ℕ → List ℕ
all_codes m [] = []
all_codes plain (c ∷ cs) = all_codes (next_mode plain c cs) cs
all_codes bracket (c ∷ cs) = all_codes (next_mode bracket c cs) cs
all_codes (params ps) (c ∷ cs) =
    let rest = all_codes (next_mode (params ps) c cs) cs in
    if is_final c && nat_beq c b'm' then codes_of ps ++ rest else rest

-- The spans that a style has open.
abbrev count : Bool → ℕ
count true = 1
count false = 0

abbrev spans : Style → ℕ
spans s = count s.bold + count (is_some s.fg)

abbrev No22 : List ℕ → Type 0
No22 cs = any (λ c. nat_beq c 22) cs ≡ false

depth-append : (n k : ℕ) (ps qs : List Push) → depth n ps ≡ some k → depth n (ps ++ qs) ≡ depth k qs
unfolding depth
depth-append n k [] qs e = ap (λ o. depth (unwrap_or o n) qs) e
depth-append n k (text c ∷ ps) qs e = depth-append n k ps qs e
depth-append n k (raw cs ∷ ps) qs e = depth-append n k ps qs e
depth-append n k (open_bold ∷ ps) qs e = depth-append (suc n) k ps qs e
depth-append n k (open_color c ∷ ps) qs e = depth-append (suc n) k ps qs e
depth-append zero k (close ∷ ps) qs e = absurd (cc e)
depth-append (suc n) k (close ∷ ps) qs e = depth-append n k ps qs e

depth-close_if_any :
    (b : Bool) (fg : Option Class)
    → depth (spans (record { bold = b; fg = fg })) (close_if_any (record { bold = b; fg = fg }))
      ≡ some 0
unfolding depth close_if_any
depth-close_if_any true none = refl
depth-close_if_any true (some c) = refl
depth-close_if_any false none = refl
depth-close_if_any false (some c) = refl

depth-open_if_any :
    (b : Bool) (fg : Option Class)
    → depth 0 (open_if_any (record { bold = b; fg = fg }))
      ≡ some (spans (record { bold = b; fg = fg }))
unfolding depth open_if_any
depth-open_if_any true none = refl
depth-open_if_any true (some c) = refl
depth-open_if_any false none = refl
depth-open_if_any false (some c) = refl

-- What is open goes on to be what the style has open.
abbrev Keeps : Style → List Push × Style → Type 0
Keeps s r = depth (spans s) r.0 ≡ some (spans r.1)

not_unbold : Change → Bool
not_unbold unbold = false
not_unbold _ = true

extended-not_unbold : (s : Style) (cs : List ℕ) → not_unbold (extended s cs) ≡ true
unfolding not_unbold
extended-not_unbold s [] = refl
extended-not_unbold s (m ∷ []) = refl
extended-not_unbold s (m ∷ i ∷ []) = ground arith
extended-not_unbold s (m ∷ i ∷ g ∷ []) = ground arith
extended-not_unbold s (m ∷ i ∷ g ∷ b ∷ cs) = ground arith

change-not_unbold :
    (s : Style) (c : ℕ) (cs : List ℕ) → nat_beq c 22 ≡ false → not_unbold (change s c cs) ≡ true
unfolding change not_unbold
change-not_unbold s c cs e = ground (arith, e, extended-not_unbold s cs)

changed-Keeps : (s : Style) (x : Change) → not_unbold x ≡ true → Keeps s (changed s x)
unfolding not_unbold depth
changed-Keeps s ignore h = refl
changed-Keeps s reset h = depth-close_if_any s.bold s.fg
changed-Keeps s unbold h = absurd (cc h)
changed-Keeps s (restyle t k) h =
    depth-append (spans s) 0 (close_if_any s) (open_if_any t) (depth-close_if_any s.bold s.fg)
    ∙ depth-open_if_any t.bold t.fg

apply_codes-Keeps : (cs : List ℕ) (k : ℕ) (s : Style) → No22 cs → Keeps s (apply_codes k s cs)
unfolding apply_codes depth
apply_codes-Keeps [] k s h = refl
apply_codes-Keeps (c ∷ cs) (suc k) s h = apply_codes-Keeps cs k s (ground (arith, h))
apply_codes-Keeps (c ∷ cs) zero s h =
    let x = change s c cs in
    let first : nat_beq c 22 ≡ false = ground (arith, h) in
    depth-append (spans s) _ (changed s x).0 _ (changed-Keeps s x (change-not_unbold s c cs first))
    ∙ apply_codes-Keeps cs (skipped x) (changed s x).1 (ground (arith, h))

sgr-Keeps : (ps : List ℕ) (s : Style) → No22 (codes_of ps) → Keeps s (sgr ps s)
unfolding sgr
sgr-Keeps ps s h = elim (Bool-cases (is_empty (trim_end ps) || is_zero (trim_end ps))) [
  | inl e ↦ rw e (depth-close_if_any s.bold s.fg)
  | inr e ↦ rw e (apply_codes-Keeps (codes_of ps) 0 s h)
]

any-append :
    (p : ℕ → Bool) (xs ys : List ℕ)
    → any p (xs ++ ys) ≡ false
    → (any p xs ≡ false) × (any p ys ≡ false)
any-append p [] ys h = (refl, h)
any-append p (x ∷ xs) ys h =
    let first : p x ≡ false = ground (arith, h) in
    let rest : any p (xs ++ ys) ≡ false = ground (arith, h) in
    let (a, b) = any-append p xs ys rest in (rw (first, a) refl, b)

read-Keeps :
    (m : Mode) (s : Style) (c : ℕ) (cs : List ℕ)
    → No22 (all_codes m (c ∷ cs))
    → Keeps s (read m s c cs) × No22 (all_codes (next_mode m c cs) cs)
unfolding read all_codes depth
read-Keeps plain s c cs h = elim (Bool-cases (starts c cs)) [
  | inl e ↦ (rw e refl, h)
  | inr e ↦ (rw e refl, h)
]
read-Keeps bracket s c cs h = (refl, h)
read-Keeps (params ps) s c cs h =
    let tail = all_codes (next_mode (params ps) c cs) cs in
    elim (Bool-cases (is_final c && nat_beq c b'm')) [
      | inl e ↦
          let both =
            any-append (λ x. nat_beq x 22) (codes_of ps) tail
              (subst (λ b. No22 (if b then codes_of ps ++ tail else tail)) e h) in
          (rw e (sgr-Keeps ps s both.0), both.1)
      | inr e ↦ (rw e refl, subst (λ b. No22 (if b then codes_of ps ++ tail else tail)) e h)
    ]

depth-finish : (m : Mode) (s : Style) → depth (spans s) (finish m s) ≡ some 0
unfolding depth finish
depth-finish plain s = depth-close_if_any s.bold s.fg
depth-finish bracket s = depth-close_if_any s.bold s.fg
depth-finish (params ps) s = depth-close_if_any s.bold s.fg

depth-pushes :
    (cs : List ℕ) (m : Mode) (s : Style)
    → No22 (all_codes m cs)
    → depth (spans s) (pushes m s cs) ≡ some 0
unfolding pushes
depth-pushes [] m s h = depth-finish m s
depth-pushes (c ∷ cs) m s h =
    let (k, rest) = read-Keeps m s c cs h in
    depth-append (spans s) (spans (read m s c cs).1) (read m s c cs).0 _ k
    ∙ depth-pushes cs (next_mode m c cs) (read m s c cs).1 rest

-- In a text without the code 22 in its sequences of colours, each span that is closed was open, and at the end of the
-- output none is open.
pub ansi_to_html-depth :
    (cs : List ℕ)
    → any (λ c. nat_beq c 22) (all_codes plain cs) ≡ false
    → depth 0 (pushes plain plain_style cs) ≡ some 0
ansi_to_html-depth cs h = depth-pushes cs plain plain_style h
