-- ===== src/Theme/Menu.antt =====
-- web/src/components/mode-toggle.tsx: the menu of the themes.
use haste_server.Prelude.{◌≡◌, refl, Bool, List, [], ◌∷◌, map, filter, none}
use haste_server.Text.{Text, codes, text_eq}
use haste_server.I18n.{Translate}
use haste_server.Storage.{StorageApi}
use haste_server.Theme.{
  Resolved, light, dark, Theme, fixed, system, theme_text, ThemeProvider, resolved_theme, set_theme,
}

-- `OPTIONS`: a theme and the key of its label.
unfoldable pub options : List (Theme × Text)
options =
    (fixed light, codes "theme.light")
    ∷ (fixed dark, codes "theme.dark")
    ∷ (system, codes "theme.system")
    ∷ []

-- An item of the menu: the theme that it selects, its label, and whether its tick shows.
pub record Item : Type 0 where
  pub value : Theme
  pub label : Text
  pub ticked : Bool

-- The two icons of the trigger.
pub data Icon : Type 0 where
  sun moon : Icon

icon_of : Resolved → Icon
icon_of light = sun
icon_of dark = moon

module _ (api : StorageApi) where
  unfoldable pub trigger_icon : ThemeProvider api → Icon
  unfolding icon_of
  trigger_icon p = icon_of (resolved_theme api p)

  unfoldable pub items : Translate → ThemeProvider api → List Item
  unfolding options
  items t p =
      map
        (λ (option : Theme × Text). record {
          value = option.0;
          label = t option.1 none;
          ticked = text_eq (theme_text p.theme) (theme_text option.0);
        })
        options

  -- The values of the ticked items.
  abbrev pub ticked_values : List Item → List Theme
  ticked_values is = map (λ (i : Item). i.value) (filter (λ (i : Item). i.ticked) is)

  -- Whichever theme is picked, the item that is ticked from then on is that of the theme, and no other.
  pub items-set_theme :
      (t : Translate) (next : Theme) (p : ThemeProvider api)
      → ticked_values (items t (set_theme api next p)) ≡ next ∷ []
  unfolding items set_theme options
  items-set_theme t (fixed light) p = refl
  items-set_theme t (fixed dark) p = refl
  items-set_theme t system p = refl
