-- ===== src/I18n/Provider/Laws.antt =====
-- The stored language preference and the language that is shown.
use haste_server.Prelude.{◌≡◌, refl, List, some}
use haste_server.Text.{Text}
use haste_server.Storage.{StorageApi, try_set}
use haste_server.I18n.Locales.{Locale, zh_tw, en_us, ja_jp, detect_locale}
use haste_server.I18n.Provider.{
  LocalePreference, auto, fixed, preference_of, preference_text, storage_key, stored_preference,
  Provider, locale, mount, on_language_change, set_preference,
}

preference_of-preference_text :
    (next : LocalePreference) → preference_of (some (preference_text next)) ≡ next
unfolding preference_of
preference_of-preference_text auto = refl
preference_of-preference_text (fixed zh_tw) = refl
preference_of-preference_text (fixed en_us) = refl
preference_of-preference_text (fixed ja_jp) = refl

-- The language that a preference stands for, given the browser's.
abbrev pub resolve : LocalePreference → List Text → Locale
resolve auto languages = detect_locale languages
resolve (fixed l) languages = l

module _ (api : StorageApi) where
  open api use {Store, get_item, set_item, get_item-set_item}

  stored_preference-try_set :
      (s : Store) (next : LocalePreference) {store : Store}
      → set_item s storage_key (preference_text next) ≡ some store
      → stored_preference api (try_set api s storage_key (preference_text next)) ≡ next
  unfolding stored_preference
  stored_preference-try_set s next h =
      rw (h, try_set)
        (rw (get_item-set_item s storage_key (preference_text next) h, stored_preference)
          (preference_of-preference_text next))

  locale-mount :
      (s : Store) (languages : List Text) (next : LocalePreference)
      → stored_preference api s ≡ next
      → locale api (mount api s languages) ≡ resolve next languages
  unfolding locale mount
  locale-mount s languages auto h = rw (h, locale) refl
  locale-mount s languages (fixed l) h = rw (h, locale) refl

  -- A preference whose write did not throw is what the next visit starts with, and with it the
  -- language: the chosen one, or for "auto" the one detected then.
  pub mount-set_preference :
      (p : Provider api) (next : LocalePreference) (languages : List Text) {store : Store}
      → set_item p.store storage_key (preference_text next) ≡ some store
      → let q = mount api (set_preference api next p).store languages in
        (q.preference ≡ next) × (locale api q ≡ resolve next languages)
  unfolding mount set_preference
  mount-set_preference p next languages h =
      let e = stored_preference-try_set p.store next h in
      (e, locale-mount (try_set api p.store storage_key (preference_text next)) languages next e)

  -- In the tab itself the choice holds though storage throws, and a change of the browser's languages
  -- moves the language only where it is left to the browser.
  locale-set_preference :
      (p : Provider api) (next : LocalePreference) (languages : List Text)
      → locale api (on_language_change api languages (set_preference api next p))
        ≡ resolve next languages
  unfolding on_language_change set_preference locale
  locale-set_preference p auto languages = refl
  locale-set_preference p (fixed l) languages = refl
