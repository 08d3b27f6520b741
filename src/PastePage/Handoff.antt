-- ===== src/PastePage/Handoff.antt =====
-- From web/src/routes/editor.tsx to web/src/routes/paste.tsx: the paste that was just created is handed
-- over with the navigation.
use haste_server.Prelude.{
  ℕ, ◌≡◌, refl, ap, ◌∙◌, Bool, true, false, List, [], ◌∷◌, Option, none, some, ◌==◌, if◌then◌else◌,
}
use haste_server.Text.{Text, text_eq_refl}
use haste_server.Api.{Paste, ok}
use haste_server.Editor.{Editor, Effect, on_created}
use haste_server.Expiry.{no_expiry}
use haste_server.PastePage.Loading.{settle-own, load-own}
use haste_server.PastePage.{Page, open_page, has_key, settle}

-- Where the effects navigate to, if they do: the code in the address, and the paste handed over.
unfoldable pub navigation : List Effect → Option (Text × Paste)
navigation [] = none
navigation (Effect.navigate_to paste ∷ rest) = some (paste.key, paste)
navigation (effect ∷ rest) = navigation rest

abbrev pub handed : Paste → Page
handed paste = record {
  code = paste.key;
  paste = some paste;
  error = none;
  live = none;
  next_request = 0;
}

pub open_page-own : (paste : Paste) → open_page paste.key (some paste) ≡ handed paste
unfolding open_page has_key
open_page-own paste =
    let own = text_eq_refl paste.key in
    ap (λ b. settle (record (handed paste) { paste = if b then some paste else none })) own
    ∙ settle-own (handed paste) paste refl own
    ∙ load-own (handed paste) paste refl own

-- Where the editor goes once the server has taken a paste, whatever lifetime was asked for.
pub navigation-created :
    (expires_in : ℕ) (paste : Paste) (s : Editor)
    → navigation (on_created expires_in (ok paste) s).1 ≡ some (paste.key, paste)
unfolding on_created navigation
navigation-created expires_in paste s = by_lifetime (expires_in == no_expiry)
  where
    by_lifetime :
        (b : Bool)
        → navigation (
            if b
            then Effect.toast_no_expiry ∷ Effect.navigate_to paste ∷ []
            else Effect.navigate_to paste ∷ [])
          ≡ some (paste.key, paste)
    by_lifetime true = refl
    by_lifetime false = refl

-- When the server has taken a paste, the editor navigates to the code of that paste and hands it over; and
-- the page that opens there shows it at once, with no error beside it and no request.
pub navigation-on_created :
    (expires_in : ℕ) (paste : Paste) (s : Editor)
    → (code : Text) × (handoff : Paste) × (navigation (on_created expires_in (ok paste) s).1
        ≡ some (code, handoff))
      × (code ≡ paste.key)
      × ((open_page code (some handoff)).paste ≡ some paste)
      × ((open_page code (some handoff)).error ≡ none)
      × ((open_page code (some handoff)).live ≡ none)
navigation-on_created expires_in paste s =
    let page = open_page-own paste in
    (
      paste.key,
      paste,
      navigation-created expires_in paste s,
      refl,
      ap (λ (p : Page). p.paste) page,
      ap (λ (p : Page). p.error) page,
      ap (λ (p : Page). p.live) page,
    )
