-- ===== src/App/ShareLink.antt =====
-- A link to some lines of a paste, from the page where it is copied to the browser where it is opened:
-- web/src/App.tsx and web/src/routes/paste.tsx.
use haste_server.Prelude.{
  ℕ, ◌<◌, ◌^◌, ◌≡◌, ◌≢◌, inl, inr, refl, ◌∙◌, false, [], ◌∷◌, ◌++◌, map, Option, none, some,
}
use haste_server.Text.{Text, codes, text_eq, lower}
use haste_server.I18n.{Translate}
use haste_server.Timestamps.{Calendar}
use haste_server.Lines.{LineRange, format_line_hash}
use haste_server.Api.{Paste, other}
use haste_server.NotFound.{paste_props}
use haste_server.PastePage.{
  Page, has_key, fetch_again, load, settle_from, settle, open_page, on_result, selection,
  line_count, link,
}
use haste_server.PastePage.Links.{link-selection}
use haste_server.PastePage.Loading.{opened}
use haste_server.PastePage.View
use haste_server.PastePage.View.{View, shown, view, view_of, loading-answered}
use haste_server.App.{Router, routes}
use haste_server.App.Routes.{page_at-paste, screen-page_at}
use haste_server.App.Visits.{reading, blank, App, display, visit}

-- A browser that has just been given an address.
abbrev pub loading_at : Text → App
loading_at code = record { path = code ∷ []; shown = blank; left = [] }

module _ (router : Router routes) (detect : Text → Text) where
  visit-paste :
      (code : Text)
      → code ≢ []
      → text_eq (map lower code) (codes "docs") ≡ false
      → (visit router detect (code ∷ []) none (loading_at code)).shown
        ≡ reading (open_page code none)
  unfolding visit display
  visit-paste code filled differs =
      rw (screen-page_at router (code ∷ []) ∙ page_at-paste code filled differs) refl

  module _ {ℓ} {Instant : Type ℓ} (calendar : Calendar Instant) (get_time : Text → Option ℕ)
      (t : Translate) (label : Text → Text) (to_locale_string : ℕ → Text)
      (cleanup_every_secs now : ℕ) (to_lower_case : Text → Text) (path : Text) where
    abbrev sees : Text → Page → View
    sees hash page =
        view calendar get_time t detect label to_locale_string cleanup_every_secs now to_lower_case
          path hash page

    abbrev pub read_at : Text → Paste → haste_server.PastePage.View.Reading
    read_at hash p =
        haste_server.PastePage.View.reading calendar get_time t detect label to_locale_string
          cleanup_every_secs now hash p

    answer_shown :
        (hash : Text) (p : Paste)
        → (id : ℕ) × ((open_page p.key none).live ≡ some id)
          × (sees hash (on_result id p (open_page p.key none)) ≡ shown (read_at hash p))
    unfolding view view_of paste_props open_page settle settle_from load fetch_again has_key
    answer_shown hash p =
        let (id, live, answered, _) =
          loading-answered calendar get_time t detect label to_locale_string cleanup_every_secs now
            to_lower_case path hash (t (codes "paste.loading") none) (open_page p.key none) p other
            (opened p.key none) refl in
        elim answered [ inl (_, is) ↦ (id, live, is) | inr (foreign, _) ↦ absurd (foreign refl) ]

    -- A link that is copied over a selection is the paste's address with a fragment. Whoever opens that paste's
    -- code with that fragment gets a page that asks the server for the paste, and once it is answered
    -- shows its content with the same lines selected. The paste has fewer than 2^53 lines, and its code is
    -- not empty and does not spell the reserved `docs`.
    pub link-shown :
        (href hash : Text) (p : Paste) (r : LineRange)
        → p.key ≢ []
        → text_eq (map lower p.key) (codes "docs") ≡ false
        → selection hash (some p) ≡ some r
        → line_count (some p) < 2 ^ 53
        → (page : Page) × (id : ℕ) × (link href (some p) (selection hash (some p))
            ≡ p.url ++ format_line_hash r)
          × ((visit router detect (p.key ∷ []) none (loading_at p.key)).shown ≡ reading page)
          × (page.live ≡ some id)
          × (sees (format_line_hash r) (on_result id p page)
              ≡ shown (read_at (format_line_hash r) p))
          × ((read_at (format_line_hash r) p).selection ≡ some r)
    unfolding haste_server.PastePage.View.reading
    link-shown href hash p r filled differs chosen small =
        let (copied, selected) = link-selection href hash p r chosen small in
        let (id, live, is) = answer_shown (format_line_hash r) p in
        (open_page p.key none, id, copied, visit-paste p.key filled differs, live, is, selected)
