-- ===== src/Storage/Shared.antt =====
-- The two settings that web/src/components/theme-provider.tsx and web/src/lib/i18n/index.tsx keep in the same
-- store, each under its key.
use haste_server.Prelude.{◌≡◌, refl, ap, none, some}
use haste_server.Storage.{StorageApi, get_item-try_set}
use haste_server.Theme.{Theme, ThemeProvider, theme_key, theme_of, read_stored_theme, set_theme}
use haste_server.I18n.Provider.{
  LocalePreference, Provider, storage_key, preference_of, stored_preference, set_preference,
}

module _ (api : StorageApi) where
  stored_preference-store :
      (s s' : api.Store)
      → api.get_item s' storage_key ≡ api.get_item s storage_key
      → stored_preference api s' ≡ stored_preference api s
  unfolding stored_preference
  stored_preference-store s s' e =
      ap (λ o. elim o [ none ↦ LocalePreference.auto | some saved ↦ preference_of saved ]) e

  read_stored_theme-store :
      (s s' : api.Store)
      → api.get_item s' theme_key ≡ api.get_item s theme_key
      → read_stored_theme api s' ≡ read_stored_theme api s
  unfolding read_stored_theme
  read_stored_theme-store s s' e =
      ap (λ o. elim o [ none ↦ Theme.system | some stored ↦ theme_of stored ]) e

  -- Choosing a theme leaves the stored language as it was, and choosing a language leaves the stored theme:
  -- whether the writes throw or not, a reload finds the other setting as before.
  pub set_theme-set_preference :
      (theme : Theme) (preference : LocalePreference) (p : ThemeProvider api) (q : Provider api)
      → (stored_preference api (set_theme api theme p).store ≡ stored_preference api p.store)
        × (read_stored_theme api (set_preference api preference q).store
            ≡ read_stored_theme api q.store)
  unfolding set_theme set_preference
  set_theme-set_preference theme preference p q = (
    stored_preference-store p.store _ (get_item-try_set api p.store theme_key _ storage_key refl),
    read_stored_theme-store q.store _ (get_item-try_set api q.store storage_key _ theme_key refl),
  )
