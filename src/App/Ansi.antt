-- ===== src/App/Ansi.antt =====
-- src/app/util/format/ansi.rs: terminal colours as HTML. A text is the list of the codes of its
-- characters. What is pushed to the output is kept apart as a list, and `render` is the string.
pub mod Content
pub mod Spans
pub mod Safety
mod Tests
use roder.Prelude.Texts.{codes}
use roder.Prelude.{
  ℕ, zero, suc, ◌+◌, ◌-◌, ◌*◌, ◌^◌, String, Bool, true, false, not, ◌&&◌, ◌||◌, Option, none, some,
  List, [], ◌∷◌, ◌++◌, nat_beq, ltb, leb, if◌then◌else◌, is_some,
}

-- A class `ansi-N`, or `ansi-ext`.
pub data Class : Type 0 where
  color : ℕ → Class
  ext : Class

pub record Style : Type 0 where
  pub bold : Bool
  pub fg : Option Class

abbrev pub plain_style : Style
plain_style = record { bold = false; fg = none }

pub data Push : Type 0 where
  -- a character, escaped
  text : ℕ → Push
  raw : List ℕ → Push
  open_bold : Push
  open_color : Class → Push
  close : Push

abbrev when : Bool → Push → List Push → List Push
when true p rest = p ∷ rest
when false p rest = rest

abbrev when_color : Option Class → List Push
when_color none = []
when_color (some c) = open_color c ∷ []

unfoldable pub close_if_any : Style → List Push
close_if_any s = when (is_some s.fg) close (when s.bold close [])

unfoldable pub open_if_any : Style → List Push
open_if_any s = when s.bold open_bold (when_color s.fg)

-- What a code does: `restyle` closes, sets the style and opens, and skips as many codes.
pub data Change : Type 0 where
  ignore : Change
  reset : Change
  unbold : Change
  restyle : Style → ℕ → Change

abbrev pub indexed_color : ℕ → Class
indexed_color idx = if ltb idx 16 then color idx else ext

-- The codes after `38`.
abbrev pub extended : Style → List ℕ → Change
extended s (mode ∷ idx ∷ []) =
    if nat_beq mode 5 then restyle (record s { fg = some (indexed_color idx) }) 2 else ignore
extended s (mode ∷ idx ∷ g ∷ []) =
    if nat_beq mode 5 then restyle (record s { fg = some (indexed_color idx) }) 2 else ignore
extended s (mode ∷ idx ∷ g ∷ b ∷ rest) =
    if nat_beq mode 5
    then restyle (record s { fg = some (indexed_color idx) }) 2
    else if nat_beq mode 2
    then restyle (record s { fg = some ext }) 4
    else ignore
extended s _ = ignore

unfoldable pub change : Style → ℕ → List ℕ → Change
change s c rest =
    if nat_beq c 0
    then reset
    else if nat_beq c 1 && not s.bold
    then restyle (record s { bold = true }) 0
    else if nat_beq c 2
    then ignore
    else if nat_beq c 22 && s.bold
    then unbold
    else if leb 30 c && leb c 37
    then restyle (record s { fg = some (color (c - 30)) }) 0
    else if nat_beq c 38
    then extended s rest
    else if nat_beq c 39
    then restyle (record s { fg = none }) 0
    else if leb 40 c && leb c 49
    then ignore
    else if leb 90 c && leb c 97
    then restyle (record s { fg = some (color (c - 90 + 8)) }) 0
    else ignore

abbrev pub skipped : Change → ℕ
skipped (restyle t k) = k
skipped _ = 0

abbrev pub changed : Style → Change → List Push × Style
changed s ignore = ([], s)
changed s reset = (close_if_any s, plain_style)
changed s unbold = (close_if_any s, record s { bold = false })
changed s (restyle t k) = (close_if_any s ++ open_if_any t, t)

-- The loop over the codes, with the number of codes to skip.
unfoldable pub apply_codes : ℕ → Style → List ℕ → List Push × Style
apply_codes k s [] = ([], s)
apply_codes (suc k) s (c ∷ cs) = apply_codes k s cs
apply_codes zero s (c ∷ cs) =
    let now = changed s (change s c cs) in
    let rest = apply_codes (skipped (change s c cs)) now.1 cs in (now.0 ++ rest.0, rest.1)

abbrev is_empty : List ℕ → Bool
is_empty [] = true
is_empty (c ∷ cs) = false

-- `trim_end_matches(';')`
unfoldable pub trim_end : List ℕ → List ℕ
trim_end [] = []
trim_end (c ∷ cs) =
    let rest = trim_end cs in if is_empty rest && nat_beq c b';' then [] else c ∷ rest

abbrev cons_first : ℕ → List (List ℕ) → List (List ℕ)
cons_first c [] = (c ∷ []) ∷ []
cons_first c (part ∷ parts) = (c ∷ part) ∷ parts

-- `split(';')`
unfoldable pub split : List ℕ → List (List ℕ)
split [] = [] ∷ []
split (c ∷ cs) = let rest = split cs in if nat_beq c b';' then [] ∷ rest else cons_first c rest

-- `str::parse::<u32>`, after an optional sign; a number that does not fit is an error.
unfoldable pub parse_digits : ℕ → List ℕ → Option ℕ
parse_digits n [] = some n
parse_digits n (c ∷ cs) =
    let m = n * 10 + (c - 48) in
    let rest = parse_digits m cs in if leb 48 c && (leb c 57 && ltb m (2 ^ 32)) then rest else none

unfoldable pub parse_u32 : List ℕ → Option ℕ
parse_u32 [] = none
parse_u32 (c ∷ []) = parse_digits 0 (c ∷ [])
parse_u32 (c ∷ d ∷ cs) =
    if nat_beq c b'+' then parse_digits 0 (d ∷ cs) else parse_digits 0 (c ∷ d ∷ cs)

unfoldable pub parsed : List (List ℕ) → List ℕ
parsed [] = []
parsed (part ∷ parts) =
    let rest = parsed parts in elim (parse_u32 part) [ none ↦ rest | some n ↦ n ∷ rest ]

abbrev is_zero : List ℕ → Bool
is_zero (c ∷ []) = nat_beq c b'0'
is_zero _ = false

unfoldable pub codes_of : List ℕ → List ℕ
codes_of params = parsed (split (trim_end params))

unfoldable pub sgr : List ℕ → Style → List Push × Style
sgr params s =
    if is_empty (trim_end params) || is_zero (trim_end params)
    then changed s reset
    else apply_codes 0 s (codes_of params)

-- Where the reader stands: before a character of the text, before the bracket after an escape, or in
-- a sequence whose parameters so far are these.
pub data Mode : Type 0 where
  plain : Mode
  bracket : Mode
  params : List ℕ → Mode

abbrev pub next_is : ℕ → List ℕ → Bool
next_is c [] = false
next_is c (d ∷ ds) = nat_beq d c

abbrev pub is_final : ℕ → Bool
is_final c = leb 64 c && leb c 126

-- An escape with a bracket after it.
abbrev pub starts : ℕ → List ℕ → Bool
starts c cs = nat_beq c 27 && next_is b'[' cs

unfoldable pub next_mode : Mode → ℕ → List ℕ → Mode
next_mode plain c cs = if starts c cs then bracket else plain
next_mode bracket c cs = params []
next_mode (params ps) c cs = if is_final c then plain else params (ps ++ (c ∷ []))

-- What is pushed at one character, and the style after it.
unfoldable pub read : Mode → Style → ℕ → List ℕ → List Push × Style
read plain s c cs = if starts c cs then ([], s) else (text c ∷ [], s)
read bracket s c cs = ([], s)
read (params ps) s c cs = if is_final c && nat_beq c b'm' then sgr ps s else ([], s)

-- At the end of the text an incomplete sequence is pushed as it was.
unfoldable pub finish : Mode → Style → List Push
finish plain s = close_if_any s
finish bracket s = close_if_any s
finish (params ps) s = raw (27 ∷ b'[' ∷ ps) ∷ close_if_any s

unfoldable pub pushes : Mode → Style → List ℕ → List Push
pushes m s [] = finish m s
pushes m s (c ∷ cs) = (read m s c cs).0 ++ pushes (next_mode m c cs) (read m s c cs).1 cs

unfoldable pub escape : ℕ → List ℕ
escape c =
    if nat_beq c b'&'
    then codes "&amp;"
    else if nat_beq c b'<'
    then codes "&lt;"
    else if nat_beq c b'>'
    then codes "&gt;"
    else if nat_beq c b'"'
    then codes "&quot;"
    else c ∷ []

abbrev ansi_colors : List String
ansi_colors =
    "ansi-0" ∷ "ansi-1" ∷ "ansi-2" ∷ "ansi-3" ∷ "ansi-4" ∷ "ansi-5" ∷ "ansi-6" ∷ "ansi-7" ∷ "ansi-8"
    ∷ "ansi-9" ∷ "ansi-10" ∷ "ansi-11" ∷ "ansi-12" ∷ "ansi-13" ∷ "ansi-14" ∷ "ansi-15" ∷ []

-- An index past the table would be a panic.
unfoldable pub class_at : ℕ → List String → Option String
class_at n [] = none
class_at zero (x ∷ xs) = some x
class_at (suc n) (x ∷ xs) = class_at n xs

abbrev pub class_name : Class → Option String
class_name (color n) = class_at n ansi_colors
class_name ext = some "ansi-ext"

abbrev or_panic : Option String → List ℕ
or_panic none = []
or_panic (some name) = codes name

unfoldable pub render_push : Push → List ℕ
render_push (text c) = escape c
render_push (raw cs) = cs
render_push open_bold = codes "<span class=\"ansi-bold\">"
render_push (open_color c) = codes "<span class=\"" ++ (or_panic (class_name c) ++ codes "\">")
render_push close = codes "</span>"

unfoldable pub render : List Push → List ℕ
render [] = []
render (p ∷ ps) = render_push p ++ render ps

unfoldable pub ansi_to_html : List ℕ → List ℕ
ansi_to_html cs = render (pushes plain plain_style cs)

-- `strip_ansi`; in a sequence, what is skipped is not kept.
unfoldable pub strip : Mode → List ℕ → List ℕ
strip m [] = []
strip plain (c ∷ cs) =
    let rest = strip (if starts c cs then bracket else plain) cs in
    if starts c cs then rest else c ∷ rest
strip bracket (c ∷ cs) = strip (params []) cs
strip (params ps) (c ∷ cs) = strip (if is_final c then plain else params ps) cs

unfoldable pub strip_ansi : List ℕ → List ℕ
strip_ansi cs = strip plain cs
