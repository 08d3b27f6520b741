-- ===== src/Highlighter.antt =====
-- web/src/lib/highlighter.ts: the severity rules, the loading of grammars and the line anchors. Shiki
-- is not modelled: whether its parts load are arguments.
pub mod Severity
pub mod Creating
pub mod Grammars
mod Tests
use haste_server.Prelude.{
  ℕ, String, Bool, true, false, not, ◌&&◌, List, [], ◌∷◌, ◌++◌, Option, none, some, any,
  if◌then◌else◌,
}
use haste_server.Text.{Text, codes, text_eq, is_empty}
use haste_server.Text.Decimal.{decimal}
use haste_server.Languages.{plain, Loader, grammar, inherited, missing, loader_for}

pub record SeverityPalette : Type 0 where
  pub error : String
  pub warning : String
  pub info : String
  pub debug : String
  pub verbose : String

pub data Mode : Type 0 where
  light dark : Mode

unfoldable pub log_severity : Mode → SeverityPalette
log_severity light = record {
  error = "#CF222E";
  warning = "#9A6700";
  info = "#1A7F37";
  debug = "#6E7781";
  verbose = "#8C959F";
}
log_severity dark = record {
  error = "#FF7B72";
  warning = "#D29922";
  info = "#3FB950";
  debug = "#8B949E";
  verbose = "#6E7681";
}

pub record Rule : Type 0 where
  pub scope : List String
  pub foreground : String
  pub font_style : Option String

-- A theme's rules under either of their two names; `none` where the field is no array.
pub record Theme : Type 0 where
  pub settings : Option (List Rule)
  pub token_colors : Option (List Rule)

abbrev rule : String → String → Option String → Rule
rule scope foreground font_style = record {
  scope = scope ∷ [];
  foreground = foreground;
  font_style = font_style;
}

unfoldable pub severity_rules : SeverityPalette → List Rule
severity_rules palette =
    rule "log.error" palette.error (some "bold")
    ∷ rule "log.warning" palette.warning (some "bold")
    ∷ rule "log.info" palette.info none
    ∷ rule "log.debug" palette.debug none
    ∷ rule "log.verbose" palette.verbose none
    ∷ []

or_none : Option (List Rule) → List Rule
or_none none = []
or_none (some rules) = rules

unfoldable pub with_log_severity : Theme → SeverityPalette → Theme
unfolding or_none severity_rules
with_log_severity theme palette = elim theme.token_colors [
  | some rules ↦ record theme { token_colors = some (rules ++ severity_rules palette) }
  | none ↦ record theme { settings = some (or_none theme.settings ++ severity_rules palette) }
]

-- `highlighterPromise`: not asked for yet, or settled.
pub data Creation : Type 0 where
  unasked created rejected : Creation

pub record Highlighter : Type 0 where
  pub creation : Creation
  pub loaded : List Text

-- `highlighterPromise ??= create()`: the outcome of `create` counts only where there is no promise.
unfoldable pub ask : Bool → Creation → Creation
ask creates unasked = if creates then created else rejected
ask creates created = created
ask creates rejected = rejected

unfoldable pub has_loader : Loader → Bool
has_loader (grammar m) = true
has_loader inherited = true
has_loader missing = false

unfoldable pub is_loaded : Highlighter → Text → Bool
is_loaded h language = any (λ l. text_eq l language) h.loaded

-- `ensureHighlighter`, given whether `create` and `loadLanguage` succeed; true if it resolves.
unfoldable pub ensure_highlighter : Bool → Bool → Text → Highlighter → Highlighter × Bool
ensure_highlighter creates loads language h = elim (ask creates h.creation) [
  | created ↦ (
    if has_loader (loader_for language) && not (is_loaded h language) && loads
        then record { creation = created; loaded = language ∷ h.loaded }
        else record { creation = created; loaded = h.loaded },
    true,
  )
  | rejected ↦ (record { creation = rejected; loaded = h.loaded }, false)
  | unasked ↦ (h, false)
]

-- The language that `highlightSync` hands to Shiki.
unfoldable pub highlight_sync : Highlighter → Text → Text
highlight_sync h language = if is_loaded h language then language else plain

-- `highlight`: the language handed to Shiki, or none where `ensureHighlighter` rejects.
unfoldable pub highlight : Bool → Bool → Text → Highlighter → Highlighter × Option Text
highlight creates loads language h =
    let lang = if is_empty language then plain else language in
    let (h', resolved) = ensure_highlighter creates loads lang h in
    (h', if resolved then some (highlight_sync h' lang) else none)

-- What `lineAnchors` adds to a line: its id, its data-line and the anchor in front of its content.
pub record Anchored : Type 0 where
  pub id : Text
  pub data_line : Text
  pub href : Text
  pub aria_label : Text

unfoldable pub line_anchor : (ℕ → Text) → ℕ → Anchored
line_anchor label line = record {
  id = b'L' ∷ decimal line;
  data_line = decimal line;
  href = codes "#L" ++ decimal line;
  aria_label = label line;
}
