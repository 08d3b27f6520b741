-- ===== src/Theme.antt =====
-- web/src/components/theme-provider.tsx: the chosen theme, the system's and the one on screen.
pub mod Laws
pub mod Menu
use haste_server.Prelude.{◌≡◌, Bool, true, false, Option, none, some, if◌then◌else◌}
use haste_server.Text.{Text, codes, text_eq}
use haste_server.Storage.{StorageApi, try_set}

pub data Resolved : Type 0 where
  light dark : Resolved

-- `Theme`
pub data Theme : Type 0 where
  fixed : Resolved → Theme
  system : Theme

-- A theme as it is stored.
abbrev pub theme_text : Theme → Text
theme_text (fixed light) = codes "light"
theme_text (fixed dark) = codes "dark"
theme_text system = codes "system"

abbrev pub theme_key : Text
theme_key = codes "haste-theme"

unfoldable pub theme_of : Option Text → Theme
theme_of none = system
theme_of (some stored) =
    if text_eq stored (codes "light")
    then fixed light
    else if text_eq stored (codes "dark")
    then fixed dark
    else system

-- `systemTheme`, given whether the media query matches.
unfoldable pub system_theme : Bool → Resolved
system_theme matches = if matches then dark else light

-- `theme === "system" ? systemPreference : theme`
unfoldable pub resolve : Theme → Resolved → Resolved
resolve (fixed r) preference = r
resolve system preference = preference

module _ (api : StorageApi) where
  open api use {Store, get_item}

  -- A read that throws counts as nothing stored.
  unfoldable pub read_stored_theme : Store → Theme
  read_stored_theme store = elim (get_item store theme_key) [
    | none ↦ system
    | some stored ↦ theme_of stored
  ]

  -- The provider's state, with the store that it writes to.
  pub record ThemeProvider : Type 0 where
    pub theme : Theme
    pub system_preference : Resolved
    pub store : Store

  unfoldable pub resolved_theme : ThemeProvider → Resolved
  resolved_theme p = resolve p.theme p.system_preference

  unfoldable pub open_theme : Store → Bool → ThemeProvider
  open_theme store matches = record {
    theme = read_stored_theme store;
    system_preference = system_theme matches;
    store = store;
  }

  -- The media query's `change`.
  unfoldable pub on_system_change : Bool → ThemeProvider → ThemeProvider
  on_system_change matches p = record p { system_preference = system_theme matches }

  unfoldable pub set_theme : Theme → ThemeProvider → ThemeProvider
  set_theme next p = record p {
    theme = next;
    store = try_set api p.store theme_key (theme_text next);
  }
