-- ===== src/Theme/Laws.antt =====
-- The stored theme and the theme on screen.
use haste_server.Prelude.{◌≡◌, refl, ap, Bool, some}
use haste_server.Storage.{StorageApi, try_set}
use haste_server.Theme.{
  light, dark, Theme, fixed, system, theme_text, theme_key, theme_of, system_theme, resolve,
  read_stored_theme, ThemeProvider, resolved_theme, open_theme, on_system_change, set_theme,
}

theme_of-theme_text : (t : Theme) → theme_of (some (theme_text t)) ≡ t
unfolding theme_of
theme_of-theme_text (fixed light) = refl
theme_of-theme_text (fixed dark) = refl
theme_of-theme_text system = refl

module _ (api : StorageApi) where
  open api use {Store, get_item, set_item, get_item-set_item}

  read_stored_theme-try_set :
      (s : Store) (next : Theme) {store : Store}
      → set_item s theme_key (theme_text next) ≡ some store
      → read_stored_theme api (try_set api s theme_key (theme_text next)) ≡ next
  unfolding read_stored_theme
  read_stored_theme-try_set s next h =
      rw (h, try_set)
        (rw (get_item-set_item s theme_key (theme_text next) h, read_stored_theme)
          (theme_of-theme_text next))

  -- A choice whose write did not throw decides what the next visit shows: the chosen theme, or the
  -- system's of that visit.
  pub open_theme-set_theme :
      (p : ThemeProvider api) (next : Theme) (matches : Bool) {store : Store}
      → set_item p.store theme_key (theme_text next) ≡ some store
      → resolved_theme api (open_theme api (set_theme api next p).store matches)
        ≡ resolve next (system_theme matches)
  unfolding resolved_theme open_theme set_theme
  open_theme-set_theme p next matches h =
      ap (λ t. resolve t (system_theme matches)) (read_stored_theme-try_set p.store next h)

  -- In the tab itself a choice holds though storage throws, a change of the system's theme is followed
  -- just where the choice is the system's, and one that came before the choice is not lost.
  resolved_theme-set_theme :
      (p : ThemeProvider api) (next : Theme) (before after : Bool)
      → (resolved_theme api (on_system_change api after (set_theme api next p))
          ≡ resolve next (system_theme after))
        × (resolved_theme api (set_theme api next (on_system_change api before p))
            ≡ resolve next (system_theme before))
  unfolding resolved_theme on_system_change set_theme
  resolved_theme-set_theme p next before after = (refl, refl)
