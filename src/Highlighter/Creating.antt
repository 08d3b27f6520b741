-- ===== src/Highlighter/Creating.antt =====
-- `create` of web/src/lib/highlighter.ts: the parts that are imported, and what Shiki is made with.
use haste_server.Prelude.{
  ◌≡◌, ◌⊎◌, refl, Bool, true, ◌&&◌, if◌then◌else◌, List, [], ◌∷◌, ◌++◌, Option, none, some, map,
}
use haste_server.Text.{Text}
use haste_server.Highlighter.{light, dark, Theme, severity_rules, log_severity, with_log_severity}
use haste_server.Highlighter.Severity.{effective, effective-with_log_severity}

-- The four imports: whether the chunks of the core and of the engine load, and the two themes if they do.
pub record Imports : Type 0 where
  pub core : Bool
  pub engine : Bool
  pub light_theme : Option Theme
  pub dark_theme : Option Theme

-- The argument of `createHighlighterCore`.
pub record Options : Type 0 where
  pub themes : List Theme
  pub langs : List Text
  pub forgiving : Bool

unfoldable pub options_for : Theme → Theme → Options
options_for light_theme dark_theme = record {
  themes =
      with_log_severity light_theme (log_severity light)
      ∷ with_log_severity dark_theme (log_severity dark)
      ∷ [];
  langs = [];
  forgiving = true;
}

-- `none` where the promise of all four rejects.
unfoldable pub create : Imports → Option Options
create imports =
    if imports.core && imports.engine
    then elim imports.light_theme [
      | none ↦ none
      | some light_theme ↦ elim imports.dark_theme [
        | none ↦ none
        | some dark_theme ↦ some (options_for light_theme dark_theme)
      ]
    ]
    else none

-- Rules under one name alone.
abbrev pub HasOneName : Theme → Type 0
HasOneName theme = (theme.settings ≡ none) ⊎ (theme.token_colors ≡ none)

-- Shiki is made as soon as all four parts have loaded, with no language yet and the two themes: the rules of
-- each are its own, followed by the severity colours of its mode. The themes are taken to have their rules
-- under one of the two names.
pub create-themes :
    (light_theme dark_theme : Theme)
    → HasOneName light_theme
    → HasOneName dark_theme
    → (options : Options) × (create (record {
      core = true;
      engine = true;
      light_theme = some light_theme;
      dark_theme = some dark_theme;
    })
        ≡ some options)
      × (options.langs ≡ [])
      × (map effective options.themes
          ≡ (effective light_theme ++ severity_rules (log_severity light))
            ∷ (effective dark_theme ++ severity_rules (log_severity dark))
            ∷ [])
unfolding create options_for
create-themes light_theme dark_theme l d = (
  options_for light_theme dark_theme,
  refl,
  refl,
  rw
      (
        effective-with_log_severity light_theme (log_severity light) l,
        effective-with_log_severity dark_theme (log_severity dark) d,
      )
      refl,
)
