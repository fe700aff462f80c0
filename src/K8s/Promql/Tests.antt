-- ===== src/K8s/Promql/Tests.antt =====
-- Values with quotes and operators.
use roder.Prelude.{ℕ, ◌≡◌, false, some, List, ◌∷◌, ◌++◌}
use roder.Prelude.Texts.{codes}
use roder.K8s.Promql.{escape_label_value, escape_regex}
use roder.K8s.Promql.Literals.{read_literal, read_regex, escape_regex-read_literal}

abbrev attack : List ℕ
attack = codes "a\"} or up{b=\"\\"

escape_regex-read_literal_example :
    (pattern : List ℕ) × (read_literal false
        (escape_label_value (escape_regex attack) ++ (b'"' ∷ codes "}"))
      ≡ some (pattern, codes "}"))
    × (read_regex false pattern ≡ some attack)
escape_regex-read_literal_example = escape_regex-read_literal attack (codes "}")
