-- ===== src/PastePage/Toolbar.antt =====
-- web/src/routes/paste.tsx: the header's actions and the menu that holds them on a phone, beside the
-- keys that do the same.
use haste_server.Prelude.{
  ◌≡◌, ◌⊎◌, inl, inr, refl, Bool, true, false, not, ◌&&◌, ◌||◌, List, [], ◌∷◌, Option, none, some,
  if◌then◌else◌,
}
use haste_server.Text.{Text, codes, is_empty}
use haste_server.Lines.{LineRange}
use haste_server.Api.{Paste}
use haste_server.PastePage.{Page}
use haste_server.PastePage.Shortcuts.{Action, open_location, copy, on_key, copy_content}

-- `IconAction`: a link to a place that the backend serves, or a button.
pub data Control : Type 0 where
  link_to : Text → Control
  button : Bool → Control

is_given : Option Text → Bool
is_given none = false
is_given (some href) = not (is_empty href)

-- `asLink && href ? <a href> : <Button disabled={disabled || (asLink && !href)}>`
unfoldable pub icon_action : Bool → Bool → Option Text → Control
unfolding is_given
icon_action disabled as_link none = button (disabled || as_link)
icon_action disabled as_link (some href) =
    if as_link && is_given (some href)
    then link_to href
    else button (disabled || (as_link && is_empty href))

-- `!paste?.content`
unfoldable pub has_no_content : Option Paste → Bool
unfolding is_given
has_no_content none = true
has_no_content (some p) = not (is_given p.content)

address_of : (Paste → Text) → Option Paste → Option Text
address_of address none = none
address_of address (some p) = some (address p)

-- The header's actions, from copying the link to a new paste.
pub record Toolbar : Type 0 where
  pub copies_link : Control
  pub copies_content : Control
  pub views_raw : Control
  pub downloads : Control
  pub starts_new : Control

unfoldable pub toolbar : Page → Toolbar
unfolding address_of
toolbar page = record {
  copies_link = icon_action false false none;
  copies_content = icon_action (has_no_content page.paste) false none;
  views_raw = icon_action false true (address_of (λ p. p.raw_url) page.paste);
  downloads = icon_action false true (address_of (λ p. p.download_url) page.paste);
  starts_new = icon_action false false none;
}

-- `MoreActions`: the items of the menu, the two links only with a paste.
unfoldable pub more_actions : Page → List Control
more_actions page = button (has_no_content page.paste) ∷ (elim page.paste [
  | none ↦ button false ∷ []
  | some p ↦ link_to p.raw_url ∷ link_to p.download_url ∷ button false ∷ []
])

-- What a click on a link opens; a click on a disabled button does nothing.
abbrev pub opens : Control → List Action
opens (link_to href) = open_location href ∷ []
opens (button disabled) = []

-- A paste whose addresses are not empty.
abbrev pub HasAddresses : Option Paste → Type 0
HasAddresses none = Unit
HasAddresses (some p) = (is_empty p.raw_url ≡ false) × (is_empty p.download_url ≡ false)

abbrev pub IsAligned : Text → Page → Option LineRange → Type 0
IsAligned href page current =
    (opens (toolbar page).views_raw ≡ (on_key (codes "r") href page current).0)
    × (opens (toolbar page).downloads ≡ (on_key (codes "s") href page current).0)
    × (((toolbar page).copies_content ≡ button true) × (copy_content page ≡ [])
        ⊎ ((toolbar page).copies_content ≡ button false)
          × ((s : Text) × (copy_content page ≡ copy s ∷ [])))

-- The header's actions do what the keys do: the links to the raw text and to the download go where `r`
-- and `s` go, and are no links just where these do nothing; and the button that copies the content is
-- disabled just where there is nothing to copy. The addresses of a paste are taken not to be empty.
pub toolbar-IsAligned :
    (href : Text) (page : Page) (current : Option LineRange)
    → HasAddresses page.paste
    → IsAligned href page current
unfolding toolbar icon_action has_no_content on_key copy_content
toolbar-IsAligned href page current addresses = by_paste page.paste refl addresses
  where
    by_content :
        (p : Paste) (content : Option Text)
        → page.paste ≡ some p
        → p.content ≡ content
        → HasAddresses (some p)
        → IsAligned href page current
    by_content p none e c (raw, download) =
        rw (e, address_of, icon_action, is_given, raw, download, has_no_content, copy_content, c)
          (refl, refl, inl (refl, refl))
    by_content p (some []) e c (raw, download) =
        rw (e, address_of, icon_action, is_given, raw, download, has_no_content, copy_content, c)
          (refl, refl, inl (refl, refl))
    by_content p (some (d ∷ s)) e c (raw, download) =
        rw (e, address_of, icon_action, is_given, raw, download, has_no_content, copy_content, c)
          (refl, refl, inr (refl, (d ∷ s, refl)))

    by_paste : (o : Option Paste) → page.paste ≡ o → HasAddresses o → IsAligned href page current
    by_paste none e _ =
        rw (e, address_of, icon_action, has_no_content, copy_content) (refl, refl, inl (refl, refl))
    by_paste (some p) e given = by_content p p.content e refl given
