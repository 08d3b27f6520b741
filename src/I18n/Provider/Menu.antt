-- ===== src/I18n/Provider/Menu.antt =====
-- web/src/components/locale-toggle.tsx: the menu of the languages.
use haste_server.Prelude.{◌≡◌, refl, Bool, List, [], ◌∷◌, ◌++◌, map, filter}
use haste_server.Text.{Text, codes, text_eq}
use haste_server.Storage.{StorageApi}
use haste_server.I18n.Locales.{Locale, zh_tw, en_us, ja_jp, locales, locale_name}
use haste_server.I18n.Provider.{
  LocalePreference, auto, fixed, preference_text, Provider, locale, set_preference,
}

-- An item of the menu: the preference that it sets, its text, and whether its tick shows.
pub record Item : Type 0 where
  pub value : LocalePreference
  pub text : Text
  pub ticked : Bool

is_same : LocalePreference → LocalePreference → Bool
is_same a b = text_eq (preference_text a) (preference_text b)

module _ (api : StorageApi) where
  -- The automatic choice says which language it lands on; `auto_text` is its translation.
  unfoldable pub items : Text → Provider api → List Item
  unfolding is_same
  items auto_text p =
      record {
        value = auto;
        text = auto_text ++ (codes " · " ++ codes (locale_name (locale api p)));
        ticked = is_same p.preference auto;
      }
      ∷ map
          (λ (l : Locale). record {
            value = fixed l;
            text = codes (locale_name l);
            ticked = is_same p.preference (fixed l);
          })
          locales

  -- The preferences of the ticked items.
  abbrev pub ticked_values : List Item → List LocalePreference
  ticked_values is = map (λ (i : Item). i.value) (filter (λ (i : Item). i.ticked) is)

  -- Whichever preference is picked, the item that is ticked from then on is that of the preference, and
  -- no other.
  pub items-set_preference :
      (auto_text : Text) (next : LocalePreference) (p : Provider api)
      → ticked_values (items auto_text (set_preference api next p)) ≡ next ∷ []
  unfolding items set_preference
  items-set_preference auto_text auto p = refl
  items-set_preference auto_text (fixed zh_tw) p = refl
  items-set_preference auto_text (fixed en_us) p = refl
  items-set_preference auto_text (fixed ja_jp) p = refl
