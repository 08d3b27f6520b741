-- ===== src/Highlighter/Severity.antt =====
-- The severity rules of web/src/lib/highlighter.ts in a theme.
use haste_server.Prelude.{◌≡◌, refl, List, [], ◌++◌, Option, none, some, ◌⊎◌, inl, inr}
use haste_server.Highlighter.{Theme, Rule, SeverityPalette, severity_rules, with_log_severity}

-- The rules that Shiki takes from a theme: it prefers `settings` where there are any.
abbrev pub effective : Theme → List Rule
effective theme = elim theme.settings [
  | some rules ↦ rules
  | none ↦ elim theme.token_colors [ some rules ↦ rules | none ↦ [] ]
]

by_fields :
    (palette : SeverityPalette) (settings token_colors : Option (List Rule))
    → (settings ≡ none) ⊎ (token_colors ≡ none)
    → effective
        (with_log_severity (record { settings = settings; token_colors = token_colors }) palette)
      ≡ effective (record { settings = settings; token_colors = token_colors })
        ++ severity_rules palette
unfolding with_log_severity
by_fields palette none none h = refl
by_fields palette none (some b) h = refl
by_fields palette (some a) none h = refl
by_fields palette (some a) (some b) (inl e) = absurd (cc e)
by_fields palette (some a) (some b) (inr e) = absurd (cc e)

-- A theme that has its rules under one name alone keeps them all, and the severity rules come last.
pub effective-with_log_severity :
    (theme : Theme) (palette : SeverityPalette)
    → (theme.settings ≡ none) ⊎ (theme.token_colors ≡ none)
    → effective (with_log_severity theme palette) ≡ effective theme ++ severity_rules palette
effective-with_log_severity theme palette h = by_fields palette theme.settings theme.token_colors h
