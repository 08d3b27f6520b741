-- ===== src/App/Created.antt =====
-- From the editor through the router of web/src/App.tsx to the page of the paste that was created.
use haste_server.Prelude.{All, true, ◌≡◌, ◌≢◌, refl, ap, ◌∙◌, false, List, [], ◌∷◌, map, none, some}
use haste_server.Text.{Text, codes, text_eq, is_word, lower}
use haste_server.Api.{Paste, NewPaste, ok}
use haste_server.Editor.Events.{System}
use haste_server.PastePage.{Page}
use haste_server.PastePage.Handoff.{handed, open_page-own, navigation-created}
use haste_server.App.{Router, routes}
use haste_server.App.Routes.{page_at-paste, screen-page_at}
use haste_server.App.Visits.{reading, App, display, visit, follow, with_page, on_saved}

module _ (router : Router routes) (detect : Text → Text) where
  -- When the answer to a save brings the paste that was created, the address becomes that of its code and
  -- the page that opens there shows it at once, with no error beside it and without asking the server
  -- for it; the code is taken to be letters, digits or underscores, not to be empty, and not to spell the
  -- reserved `docs` in any case.
  pub on_saved-shown :
      (request : NewPaste) (paste : Paste) (sys : System) (rest : List NewPaste) (app : App)
      → paste.key ≢ []
      → All (λ c. is_word c ≡ true) paste.key
      → text_eq (map lower paste.key) (codes "docs") ≡ false
      → let after = on_saved router detect request (ok paste) sys rest app in
        (page : Page) × (after.path ≡ paste.key ∷ [])
        × (after.shown ≡ reading page)
        × (page.paste ≡ some paste)
        × (page.error ≡ none)
        × (page.live ≡ none)
  unfolding on_saved follow visit display with_page
  on_saved-shown request paste sys rest app filled words other =
      let at = router.segment paste.key filled words in
      let to = navigation-created request.expires_in paste sys.page in
      let here = screen-page_at router (paste.key ∷ []) ∙ page_at-paste paste.key filled other in
      (
        handed paste,
        rw (to, at) refl,
        rw (to, at, here) (ap reading (open_page-own paste)),
        refl,
        refl,
        refl,
      )
