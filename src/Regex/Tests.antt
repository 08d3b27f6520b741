-- ===== src/Regex/Tests.antt =====
-- Expressions of the source on short texts.
use haste_server.Prelude.{◌≡◌, refl, Bool, true, false, Option, none, some}
use haste_server.Text.{Text, codes, is_space}
use haste_server.Regex.{run, test}
use haste_server.Regex.Parser.{Flags, regex}

abbrev plain_flags : Flags
plain_flags = record { ignore_case = false; multiline = true; dot_all = false }

abbrev matches : Text → Text → Option Bool
matches pattern s = elim (regex plain_flags pattern) [ none ↦ none | some r ↦ some (test r s) ]

markers :
    (matches (codes "^\\s*import\\s+'(?:dart|package):") (codes "a\n  import 'dart:io'")
      ≡ some true)
    × (matches (codes "\\b(?:function|const|let|=>|import |export )") (codes "(a) => b")
        ≡ some false)
    × (matches (codes "^#{1,6} +\\S") (codes "a\n### b") ≡ some true)
    × (matches (codes "^[\\w.%-]+:( |$).*\\n\\t\\S") (codes "a-b: c\n\tx") ≡ some true)
    × (matches (codes "(a") (codes "a") ≡ none)
unfolding regex test run is_space
markers = (refl, refl, refl, refl, refl)
