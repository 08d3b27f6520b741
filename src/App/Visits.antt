-- ===== src/App/Visits.antt =====
-- web/src/App.tsx with its pages: what stands on the screen as the reader moves between addresses. React
-- keeps the element of a route that is still matched, and makes a new one otherwise.
use haste_server.Prelude.{ℕ, ◌≡◌, List, [], ◌∷◌, ◌++◌, Option, none, some}
use haste_server.Text.{Text}
use haste_server.Api.{Paste, ServerConfig, NewPaste, Outcome, Failure}
use haste_server.SharedConfig.{fallback_config}
use haste_server.Editor.{Editor, start, on_created}
use haste_server.Editor.Events.{System, Event, IsAllowed, config_arrival, handle, absorb}
use haste_server.Docs.Rows
use haste_server.Docs.Rows.{DocsPage, open_docs, change}
use haste_server.Docs.Trying.{TryIt}
use haste_server.PastePage.{Page, open_page, on_code, on_result, on_failure}
use haste_server.PastePage.Handoff.{navigation}
use haste_server.App.{
  Router, routes, Screen, editor_screen, docs_screen, missing_screen, blank_screen, paste_screen,
  screen,
}

-- The page on the screen, with its state.
pub data Shown : Type 0 where
  editing : System → Shown
  browsing : DocsPage → Shown
  reading : Page → Shown
  missing blank : Shown

-- The page, and the saves that were sent from an editor which is gone.
pub record App : Type 0 where
  pub path : List Text
  pub shown : Shown
  pub left : List NewPaste

abbrev pub opening : System
opening = record { page = start fallback_config; pending = []; sent = [] }

unfoldable pub display : Screen → Option Paste → Shown → Shown
display editor_screen handoff (editing sys) = editing sys
display editor_screen handoff shown = editing opening
display docs_screen handoff (browsing page) = browsing page
display docs_screen handoff shown = browsing (open_docs fallback_config)
display (paste_screen code) handoff (reading page) = reading (on_code code page)
display (paste_screen code) handoff shown = reading (open_page code handoff)
display missing_screen handoff shown = missing
display blank_screen handoff shown = blank

-- What an editor that goes leaves behind.
unfoldable pub leaves : Screen → Shown → List NewPaste
leaves editor_screen shown = []
leaves next (editing sys) = sys.pending
leaves next shown = []

module _ (router : Router routes) (detect : Text → Text) where
  -- `navigate`, a link, the address bar, or going back and forward, which brings the handoff again.
  unfoldable pub visit : List Text → Option Paste → App → App
  visit path handoff app =
      let next = screen router path in
      record {
        path = path;
        shown = display next handoff app.shown;
        left = leaves next app.shown ++ app.left;
      }

  -- Where the effects of a handler navigate: `navigate("/" + paste.key)`.
  unfoldable pub follow : Option (Text × Paste) → App → App
  follow none app = app
  follow (some (code, paste)) app = visit (router.segments (b'/' ∷ code)) (some paste) app

  unfoldable pub with_page : Shown → App → App
  with_page shown app = record app { shown = shown }

  -- The configuration arrives in every use of its hook.
  unfoldable pub configure : ServerConfig → Shown → Shown
  configure config (editing sys) =
      editing (absorb sys (handle detect (config_arrival config) sys.page))
  configure config (browsing page) = browsing (haste_server.Docs.Rows.on_config config page)
  configure config (reading page) = reading page
  configure config missing = missing
  configure config blank = blank

  -- The answer to a save: the editor that sent it, if it is there, has it; and the reader is taken to the
  -- paste in any case.
  unfoldable pub on_saved : NewPaste → Outcome Paste → System → List NewPaste → App → App
  on_saved request outcome sys rest app =
      let (page, effects) = on_created request.expires_in outcome sys.page in
      follow (navigation effects)
        (with_page (editing (record sys { page = page; pending = rest })) app)

  unfoldable pub on_left_saved : NewPaste → Outcome Paste → Editor → List NewPaste → App → App
  on_left_saved request outcome gone rest app =
      follow (navigation (on_created request.expires_in outcome gone).1)
        (record app { left = rest })

  pub data Step (app : App) : App → Type 0 where
    visited : (path : List Text) (handoff : Option Paste) → Step app (visit path handoff app)
    configured : (config : ServerConfig) → Step app (with_page (configure config app.shown) app)
    edited :
        (sys : System) (e : Event)
        → app.shown ≡ editing sys
        → IsAllowed e sys.page
        → Step app (with_page (editing (absorb sys (handle detect e sys.page))) app)
    saved :
        (sys : System) (request : NewPaste) (rest : List NewPaste) (outcome : Outcome Paste)
        → app.shown ≡ editing sys
        → sys.pending ≡ request ∷ rest
        → Step app (on_saved request outcome sys rest app)
    left_saved :
        (before after : List NewPaste) (request : NewPaste) (outcome : Outcome Paste)
        (gone : Editor)
        → app.left ≡ before ++ request ∷ after
        → Step app (on_left_saved request outcome gone (before ++ after) app)
    answered :
        (page : Page) (id : ℕ) (result : Paste)
        → app.shown ≡ reading page
        → page.live ≡ some id
        → page.error ≡ none
        → Step app (with_page (reading (on_result id result page)) app)
    refused :
        (page : Page) (id : ℕ) (reason : Failure)
        → app.shown ≡ reading page
        → page.live ≡ some id
        → page.error ≡ none
        → page.paste ≡ none
        → Step app (with_page (reading (on_failure id reason page)) app)
    toggled :
        (page : DocsPage) (n : ℕ)
        → app.shown ≡ browsing page
        → Step app (with_page (browsing (haste_server.Docs.Rows.on_toggle n page)) app)
    typed :
        (page : DocsPage) (n : ℕ) (form : TryIt)
        → app.shown ≡ browsing page
        → Step app (with_page (browsing (record page { rows = change n form page.rows })) app)

  -- From any address, with the state that the browser has kept for it.
  pub data Reach : App → Type 0 where
    loaded :
        (path : List Text) (handoff : Option Paste)
        → Reach (visit path handoff (record { path = path; shown = blank; left = [] }))
    next : {app app' : App} → Reach app → Step app app' → Reach app'
