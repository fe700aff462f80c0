-- ===== src/App/Ansi/Content.antt =====
-- The text in what `ansi_to_html` of src/app/util/format/ansi.rs pushes, and `strip_ansi`.
use roder.Prelude.{
  inl, inr, ℕ, zero, suc, ◌≡◌, refl, sym, ap, ◌∙◌, Bool, true, false, ◌&&◌, Option, none, some,
  List, [], ◌∷◌, ◌++◌, Bool-cases, nat_beq, ◌||◌,
}
use mathlib.Core.List.{append-nil, append_assoc}
use roder.App.Ansi.{
  Class, Style, plain_style, Push, text, raw, open_bold, open_color, close, Mode, plain, bracket,
  params, is_final, starts, next_mode, read, finish, pushes, strip, strip_ansi, sgr, apply_codes,
  changed, change, Change, ignore, reset, unbold, restyle, skipped, close_if_any, open_if_any,
  trim_end, codes_of, is_empty, is_zero,
}

-- The characters that are pushed as text.
unfoldable pub content : List Push → List ℕ
content [] = []
content (text c ∷ ps) = c ∷ content ps
content (raw cs ∷ ps) = cs ++ content ps
content (open_bold ∷ ps) = content ps
content (open_color c ∷ ps) = content ps
content (close ∷ ps) = content ps

-- A sequence that the text ends in, from its escape on.
unfoldable pub unfinished : Mode → List ℕ → List ℕ
unfinished plain [] = []
unfinished bracket [] = []
unfinished (params ps) [] = 27 ∷ b'[' ∷ ps
unfinished m (c ∷ cs) = unfinished (next_mode m c cs) cs

content-append : (ps qs : List Push) → content (ps ++ qs) ≡ content ps ++ content qs
unfolding content
content-append [] qs = refl
content-append (text c ∷ ps) qs = ap (λ x. c ∷ x) (content-append ps qs)
content-append (raw cs ∷ ps) qs =
    ap (λ x. cs ++ x) (content-append ps qs) ∙ sym (append_assoc cs (content ps) (content qs))
content-append (open_bold ∷ ps) qs = content-append ps qs
content-append (open_color c ∷ ps) qs = content-append ps qs
content-append (close ∷ ps) qs = content-append ps qs

content-close_if_any :
    (b : Bool) (fg : Option Class) → content (close_if_any (record { bold = b; fg = fg })) ≡ []
unfolding content close_if_any
content-close_if_any true none = refl
content-close_if_any true (some c) = refl
content-close_if_any false none = refl
content-close_if_any false (some c) = refl

content-open_if_any :
    (b : Bool) (fg : Option Class) → content (open_if_any (record { bold = b; fg = fg })) ≡ []
unfolding content open_if_any
content-open_if_any true none = refl
content-open_if_any true (some c) = refl
content-open_if_any false none = refl
content-open_if_any false (some c) = refl

content-empty : (ps qs : List Push) → content ps ≡ [] → content qs ≡ [] → content (ps ++ qs) ≡ []
content-empty ps qs e f = rw (content-append ps qs, e, f) refl

content-changed : (s : Style) (x : Change) → content (changed s x).0 ≡ []
unfolding content
content-changed s ignore = refl
content-changed s reset = content-close_if_any s.bold s.fg
content-changed s unbold = content-close_if_any s.bold s.fg
content-changed s (restyle t k) =
    content-empty (close_if_any s) (open_if_any t) (content-close_if_any s.bold s.fg)
      (content-open_if_any t.bold t.fg)

content-apply_codes : (cs : List ℕ) (k : ℕ) (s : Style) → content (apply_codes k s cs).0 ≡ []
unfolding apply_codes content
content-apply_codes [] k s = refl
content-apply_codes (c ∷ cs) (suc k) s = content-apply_codes cs k s
content-apply_codes (c ∷ cs) zero s =
    content-empty (changed s (change s c cs)).0 _ (content-changed s (change s c cs))
      (content-apply_codes cs (skipped (change s c cs)) (changed s (change s c cs)).1)

content-sgr : (ps : List ℕ) (s : Style) → content (sgr ps s).0 ≡ []
unfolding sgr
content-sgr ps s = elim (Bool-cases (is_empty (trim_end ps) || is_zero (trim_end ps))) [
  | inl e ↦ rw e (content-changed s reset)
  | inr e ↦ rw e (content-apply_codes (codes_of ps) 0 s)
]

content-read :
    (ps : List ℕ) (s : Style) (c : ℕ) (cs : List ℕ) → content (read (params ps) s c cs).0 ≡ []
unfolding read content
content-read ps s c cs = elim (Bool-cases (is_final c && nat_beq c b'm')) [
  | inl e ↦ rw e (content-sgr ps s)
  | inr e ↦ rw e refl
]

strip-params : (cs ps qs : List ℕ) → strip (params ps) cs ≡ strip (params qs) cs
unfolding strip
strip-params [] ps qs = refl
strip-params (c ∷ cs) ps qs = elim (Bool-cases (is_final c)) [
  | inl e ↦ rw e refl
  | inr e ↦ rw e (strip-params cs ps qs)
]

content-finish : (m : Mode) (s : Style) → content (finish m s) ≡ unfinished m []
unfolding finish content unfinished
content-finish plain s = content-close_if_any s.bold s.fg
content-finish bracket s = content-close_if_any s.bold s.fg
content-finish (params ps) s = rw (content-close_if_any s.bold s.fg) (append-nil (27 ∷ b'[' ∷ ps))

strip-[] : (m : Mode) → strip m [] ≡ []
unfolding strip
strip-[] plain = refl
strip-[] bracket = refl
strip-[] (params ps) = refl

-- One character.
content-read-strip :
    (m : Mode) (s : Style) (c : ℕ) (cs : List ℕ)
    → (content (read m s c cs).0
        ++ (strip (next_mode m c cs) cs ++ unfinished (next_mode m c cs) cs))
      ≡ strip m (c ∷ cs) ++ unfinished m (c ∷ cs)
unfolding read next_mode strip unfinished content
content-read-strip plain s c cs = elim (Bool-cases (starts c cs)) [
  | inl e ↦ rw e refl
  | inr e ↦ rw e refl
]
content-read-strip bracket s c cs = refl
content-read-strip (params ps) s c cs =
    let none_shown = content-read ps s c cs in
    rw none_shown (elim (Bool-cases (is_final c)) [
      | inl e ↦ rw e refl
      | inr e ↦ rw e (
          ap (λ x. x ++ unfinished (params (ps ++ (c ∷ []))) cs)
            (strip-params cs (ps ++ (c ∷ [])) ps))
    ])

content-pushes :
    (cs : List ℕ) (m : Mode) (s : Style) → content (pushes m s cs) ≡ strip m cs ++ unfinished m cs
unfolding pushes
content-pushes [] m s = content-finish m s ∙ ap (λ x. x ++ unfinished m []) (sym (strip-[] m))
content-pushes (c ∷ cs) m s =
    content-append (read m s c cs).0 (pushes (next_mode m c cs) (read m s c cs).1 cs)
    ∙ ap (λ x. content (read m s c cs).0 ++ x)
        (content-pushes cs (next_mode m c cs) (read m s c cs).1)
    ∙ content-read-strip m s c cs

-- The characters that are pushed as text are those that `strip_ansi` leaves, and after them the sequence in
-- which the text ends, if it ends in one.
pub ansi_to_html-strip_ansi :
    (cs : List ℕ) → content (pushes plain plain_style cs) ≡ strip_ansi cs ++ unfinished plain cs
unfolding strip_ansi
ansi_to_html-strip_ansi cs = content-pushes cs plain plain_style
