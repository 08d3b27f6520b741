-- ===== src/Shell.antt =====
-- web/src/components/shell.tsx: the links of the header, which every page has, and where they lead.
use haste_server.Prelude.{◌≡◌, refl, List, [], ◌∷◌, none, some}
use mathlib.Core.Path.{subst}
use haste_server.Text.{Text, codes}
use haste_server.I18n.{Translate}
use haste_server.Editor.Events.{System}
use haste_server.Docs.Rows.{DocsPage}
use haste_server.App.{Router, routes, editor_screen, docs_screen}
use haste_server.App.Routes.{page_at-docs, docs-lower}
use haste_server.App.Visits.{Shown, editing, browsing, App, visit, Reach, next, visited}
use haste_server.App.Agreement.{Agrees, edits, browses, Reach-Agrees}

-- `ORGANISATION`
unfoldable pub organisation : Text
organisation = codes "ExpTech Studio"

-- A link within the app, by the segments of its path, with its label; `Brand` is labelled by its texts.
pub record RouteLink : Type 0 where
  pub to : List Text
  pub label : Text

-- A link out of it.
pub record OutLink : Type 0 where
  pub href : Text
  pub label : Text

pub record HeaderBar : Type 0 where
  pub brand : RouteLink
  pub docs_link : RouteLink
  pub github_link : OutLink

-- `Brand`: the wordmark is the accessible name.
unfoldable pub brand : RouteLink
unfolding organisation
brand = record { to = []; label = organisation }

unfoldable pub docs_link : Translate → RouteLink
docs_link t = record { to = codes "docs" ∷ []; label = t (codes "nav.docs") none }

unfoldable pub github_link : Translate → OutLink
unfolding organisation
github_link t = record {
  href = codes "https://github.com/ExpTechTW";
  label = t (codes "nav.github") (some ((codes "org", organisation) ∷ []));
}

unfoldable pub header_bar : Translate → HeaderBar
header_bar t = record { brand = brand; docs_link = docs_link t; github_link = github_link t }

module _ (detect : Text → Text) where
  editor_shown :
      {shown : Shown} → Agrees detect editor_screen shown → (sys : System) × (shown ≡ editing sys)
  editor_shown (edits {sys = sys} r) = (sys, refl)

  docs_shown :
      {shown : Shown}
      → Agrees detect docs_screen shown
      → (page : DocsPage) × (shown ≡ browsing page)
  docs_shown (browses {page = page} r) = (page, refl)

  -- Whatever stands on the screen, the wordmark of its header leads to the editor, and the link beside it to
  -- the API reference.
  pub header_bar-leads :
      (router : Router routes) (t : Translate) {app : App}
      → Reach router detect app
      → ((sys : System) × ((visit router detect (header_bar t).brand.to none app).shown
            ≡ editing sys))
        × ((page : DocsPage) × ((visit router detect (header_bar t).docs_link.to none app).shown
              ≡ browsing page))
  unfolding header_bar brand docs_link visit
  header_bar-leads router t {app} r = (
    editor_shown (Reach-Agrees detect router (next r (visited [] none))),
    docs_shown (
        subst (λ s. Agrees detect s (visit router detect (codes "docs" ∷ []) none app).shown)
          (page_at-docs (codes "docs") docs-lower)
          (Reach-Agrees detect router (next r (visited (codes "docs" ∷ []) none)))),
  )
