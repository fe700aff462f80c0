-- ===== src/App/Ansi/Tests.antt =====
-- Runs of the readers of terminal colours, and the theorems about them applied.
use roder.Prelude.{ℕ, ◌≡◌, refl, true, none, some, List, ◌∷◌, ◌++◌}
use roder.Prelude.Texts.{codes}
use roder.App.Ansi.{
  plain, plain_style, pushes, ansi_to_html, strip_ansi, next_mode, read, finish, sgr, apply_codes,
  change, trim_end, split, parsed, parse_u32, parse_digits, codes_of, close_if_any, open_if_any,
  render, render_push, escape, class_at,
}
use roder.App.Ansi.Content.{content, unfinished, ansi_to_html-strip_ansi}
use roder.App.Ansi.Spans.{depth, all_codes, ansi_to_html-depth}
use roder.App.Ansi.Safety.{is_safe, all, ansi_to_html-is_safe}

abbrev red : List ℕ
red = codes "a" ++ (27 ∷ codes "[1;31mb<" ++ (27 ∷ codes "[0mc"))

red-html :
    ansi_to_html red
    ≡ codes
        "a<span class=\"ansi-bold\"></span><span class=\"ansi-bold\"><span class=\"ansi-1\">b&lt;</span></span>c"
unfolding ansi_to_html render render_push escape class_at pushes read next_mode finish sgr trim_end
    apply_codes codes_of parsed split parse_u32 parse_digits change close_if_any open_if_any
red-html = refl

-- The code 22 closes both spans and leaves the colour set, so the end closes one span too many.
abbrev no_longer_bold : List ℕ
no_longer_bold = 27 ∷ codes "[1;31ma" ++ (27 ∷ codes "[22mb")

no_longer_bold-depth : depth 0 (pushes plain plain_style no_longer_bold) ≡ none
unfolding depth pushes read next_mode finish sgr trim_end apply_codes codes_of parsed split
    parse_u32 parse_digits change close_if_any open_if_any
no_longer_bold-depth = refl

-- A sequence that does not end is pushed as it is, markup and all.
abbrev comment : List ℕ
comment = 27 ∷ codes "[<!--"

comment-html : ansi_to_html comment ≡ comment
unfolding ansi_to_html render render_push pushes read next_mode finish sgr trim_end apply_codes
    codes_of parsed split parse_u32 parse_digits change close_if_any open_if_any
comment-html = refl

ansi_to_html-depth_example : depth 0 (pushes plain plain_style red) ≡ some 0
unfolding all_codes pushes read next_mode finish sgr trim_end apply_codes codes_of parsed split
    parse_u32 parse_digits change close_if_any open_if_any
ansi_to_html-depth_example = ansi_to_html-depth red refl

ansi_to_html-is_safe_example : all is_safe (pushes plain plain_style red) ≡ true
unfolding unfinished next_mode
ansi_to_html-is_safe_example = ansi_to_html-is_safe red refl

ansi_to_html-strip_ansi_example :
    content (pushes plain plain_style no_longer_bold)
    ≡ strip_ansi no_longer_bold ++ unfinished plain no_longer_bold
ansi_to_html-strip_ansi_example = ansi_to_html-strip_ansi no_longer_bold
