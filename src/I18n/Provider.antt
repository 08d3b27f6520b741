-- ===== src/I18n/Provider.antt =====
-- web/src/lib/i18n/index.tsx: `I18nProvider`, its stored preference and its events.
pub mod Laws
pub mod Menu
use haste_server.Prelude.{
  ◌≡◌, refl, Bool, true, false, List, [], ◌∷◌, Option, none, some, any, if◌then◌else◌, ◌≢◌, arith,
}
use haste_server.Text.{Text, codes, text_eq}
use haste_server.Storage.{StorageApi, try_set}
use haste_server.I18n.Locales.{Locale, zh_tw, en_us, ja_jp, locales, locale_tag, detect_locale}

-- `Locale | "auto"`.
pub data LocalePreference : Type 0 where
  auto : LocalePreference
  fixed : Locale → LocalePreference

-- A preference as it is stored.
abbrev pub preference_text : LocalePreference → Text
preference_text auto = codes "auto"
preference_text (fixed l) = locale_tag l

abbrev pub storage_key : Text
storage_key = codes "haste.locale"

-- The saved text where it is `"auto"` or one of the locales, and `"auto"` otherwise.
unfoldable pub preference_of : Option Text → LocalePreference
preference_of none = auto
preference_of (some saved) =
    if text_eq saved (codes "auto")
    then auto
    else if text_eq saved (locale_tag zh_tw)
    then fixed zh_tw
    else if text_eq saved (locale_tag en_us)
    then fixed en_us
    else if text_eq saved (locale_tag ja_jp)
    then fixed ja_jp
    else auto

module _ (api : StorageApi) where
  open api use {Store, get_item}

  -- A read that throws counts as nothing saved.
  unfoldable pub stored_preference : Store → LocalePreference
  unfolding preference_of
  stored_preference store = elim (get_item store storage_key) [
    | none ↦ auto
    | some saved ↦ preference_of saved
  ]

  -- The provider's state, with the store that it writes to and the `lang` of the document.
  pub record Provider : Type 0 where
    pub preference : LocalePreference
    pub detected : Locale
    pub store : Store

  -- `preference === "auto" ? detected : preference`, which is also the document's `lang`.
  unfoldable pub locale : Provider → Locale
  locale p = elim p.preference [ auto ↦ p.detected | fixed l ↦ l ]

  unfoldable pub mount : Store → List Text → Provider
  mount store languages = record {
    preference = stored_preference store;
    detected = detect_locale languages;
    store = store;
  }

  unfoldable pub on_language_change : List Text → Provider → Provider
  on_language_change languages p = record p { detected = detect_locale languages }

  unfoldable pub set_preference : LocalePreference → Provider → Provider
  set_preference next p = record p {
    preference = next;
    store = try_set api p.store storage_key (preference_text next);
  }
