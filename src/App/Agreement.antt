-- ===== src/App/Agreement.antt =====
-- What stands on the screen of web/src/App.tsx, against the address.
use haste_server.Prelude.{
  ◌≡◌, ◌≢◌, inl, inr, refl, sym, ◌∙◌, List, [], ◌∷◌, ◌++◌, map, Option, none, some, Bool-cases,
}
use mathlib.Core.Path.{subst}
use haste_server.Text.{Text, codes, text_eq, is_empty, lower}
use haste_server.Api.{Paste, ServerConfig}
use haste_server.Editor.{on_created}
use haste_server.Editor.Events
use haste_server.Editor.Events.{System}
use haste_server.SharedConfig.{fallback_config}
use haste_server.Docs.Rows
use haste_server.Docs.Rows.{DocsPage, open_docs}
use haste_server.PastePage.{Page, open_page, on_code}
use haste_server.PastePage.Loading
use haste_server.PastePage.Loading.Address.{
  on_code-code, open_page-code, on_result-code, on_failure-code,
}
use haste_server.App.{
  Router, routes, Screen, editor_screen, docs_screen, missing_screen, blank_screen, paste_screen,
}
use haste_server.App.Routes.{page_at, screen-page_at}
use haste_server.App.Visits.{
  Shown, editing, browsing, reading, missing, blank, App, opening, display, visit, follow,
  with_page, configure, on_saved, on_left_saved, Step, visited, configured, edited, saved,
  left_saved, answered, refused, toggled, typed, Reach, loaded, next,
}

page_at-blank : (path : List Text) → page_at path ≢ blank_screen
page_at-blank [] e = cc e
page_at-blank (x ∷ []) e = elim (Bool-cases (is_empty x)) [
  | inl h ↦ cc (rw (page_at, h) at e)
  | inr h ↦ elim (Bool-cases (text_eq (map lower x) (codes "docs"))) [
    | inl d ↦ cc (rw (page_at, h, d) at e)
    | inr d ↦ cc (rw (page_at, h, d) at e)
  ]
]
page_at-blank (x ∷ y ∷ path) e = cc e

module _ (detect : Text → Text) where
  -- The page is the one to be shown, in a state that it comes to by its own events; and the page of a paste
  -- is of the code that is asked for.
  pub data Agrees : Screen → Shown → Type 0 where
    edits :
        {config : ServerConfig} {sys : System}
        → haste_server.Editor.Events.Reach detect config sys
        → Agrees editor_screen (editing sys)
    browses :
        {page : DocsPage} → haste_server.Docs.Rows.Reach page → Agrees docs_screen (browsing page)
    reads :
        {page : Page} {code : Text}
        → page.code ≡ code
        → haste_server.PastePage.Loading.Reach page
        → Agrees (paste_screen code) (reading page)
    misses : Agrees missing_screen missing

  -- What is on the screen before an address is first shown, or behind it.
  data Sound : Shown → Type 0 where
    started : Sound blank
    agreed : {s : Screen} {shown : Shown} → Agrees s shown → Sound shown

  open_editor : Agrees editor_screen (editing opening)
  open_editor = edits haste_server.Editor.Events.opened

  open_reference : Agrees docs_screen (browsing (open_docs fallback_config))
  open_reference = browses (haste_server.Docs.Rows.opened fallback_config)

  open_paste :
      (code : Text) (handoff : Option Paste)
      → Agrees (paste_screen code) (reading (open_page code handoff))
  open_paste code handoff =
      reads (open_page-code code handoff) (haste_server.PastePage.Loading.opened code handoff)

  display-Agrees :
      (next : Screen) (handoff : Option Paste) (shown : Shown)
      → next ≢ blank_screen
      → Sound shown
      → Agrees next (display next handoff shown)
  unfolding display
  display-Agrees editor_screen handoff blank h v = open_editor
  display-Agrees editor_screen handoff missing h v = open_editor
  display-Agrees editor_screen handoff (reading page) h v = open_editor
  display-Agrees editor_screen handoff (browsing page) h v = open_editor
  display-Agrees editor_screen handoff (editing sys) h (agreed (edits r)) = edits r
  display-Agrees docs_screen handoff blank h v = open_reference
  display-Agrees docs_screen handoff missing h v = open_reference
  display-Agrees docs_screen handoff (reading page) h v = open_reference
  display-Agrees docs_screen handoff (editing sys) h v = open_reference
  display-Agrees docs_screen handoff (browsing page) h (agreed (browses r)) = browses r
  display-Agrees (paste_screen code) handoff blank h v = open_paste code handoff
  display-Agrees (paste_screen code) handoff missing h v = open_paste code handoff
  display-Agrees (paste_screen code) handoff (editing sys) h v = open_paste code handoff
  display-Agrees (paste_screen code) handoff (browsing page) h v = open_paste code handoff
  display-Agrees (paste_screen code) handoff (reading page) h (agreed (reads same r)) =
      reads (on_code-code code page)
        (haste_server.PastePage.Loading.later r (haste_server.PastePage.Loading.to_code code))
  display-Agrees missing_screen handoff shown h v = misses
  display-Agrees blank_screen handoff shown h v = absurd (h refl)

  module _ (router : Router routes) where
    abbrev IsTrue : App → Type 0
    IsTrue app = Agrees (page_at app.path) app.shown

    visit-IsTrue :
        (path : List Text) (handoff : Option Paste) (app : App)
        → Sound app.shown
        → IsTrue (visit router detect path handoff app)
    unfolding visit
    visit-IsTrue path handoff app v =
        subst (λ s. Agrees (page_at path) (display s handoff app.shown))
          (sym (screen-page_at router path))
          (display-Agrees (page_at path) handoff app.shown (page_at-blank path) v)

    follow-IsTrue :
        (to : Option (Text × Paste)) (app : App) → IsTrue app → IsTrue (follow router detect to app)
    unfolding follow
    follow-IsTrue none app v = v
    follow-IsTrue (some (code, paste)) app v =
        visit-IsTrue (router.segments (b'/' ∷ code)) (some paste) app (agreed v)

    configure-Agrees :
        (config : ServerConfig) (s : Screen) (shown : Shown)
        → Agrees s shown
        → Agrees s (configure router detect config shown)
    unfolding configure
    configure-Agrees config s shown (edits r) = edits (
        haste_server.Editor.Events.next r
          (haste_server.Editor.Events.event (haste_server.Editor.Events.config_arrival config) tt))
    configure-Agrees config s shown (browses r) =
        browses (haste_server.Docs.Rows.configured config r)
    configure-Agrees config s shown (reads same r) = reads same r
    configure-Agrees config s shown misses = misses

    -- The three pages take their own steps.
    edit-Agrees :
        (s : Screen) {sys sys' : System}
        → Agrees s (editing sys)
        → haste_server.Editor.Events.Step detect sys sys'
        → Agrees s (editing sys')
    edit-Agrees s (edits r) step = edits (haste_server.Editor.Events.next r step)

    read-Agrees :
        (s : Screen) {page page' : Page}
        → Agrees s (reading page)
        → haste_server.PastePage.Loading.Step page page'
        → page'.code ≡ page.code
        → Agrees s (reading page')
    read-Agrees s (reads same r) step kept =
        reads (kept ∙ same) (haste_server.PastePage.Loading.later r step)

    browse-Agrees :
        (s : Screen) {page page' : DocsPage}
        → Agrees s (browsing page)
        → (haste_server.Docs.Rows.Reach page → haste_server.Docs.Rows.Reach page')
        → Agrees s (browsing page')
    browse-Agrees s (browses r) step = browses (step r)

    Step-IsTrue : {app app' : App} → Step router detect app app' → IsTrue app → IsTrue app'
    unfolding with_page on_saved on_left_saved
    Step-IsTrue {app} (visited path handoff) v = visit-IsTrue path handoff app (agreed v)
    Step-IsTrue {app} (configured config) v = configure-Agrees config (page_at app.path) app.shown v
    Step-IsTrue {app} (edited sys e is allowed) v =
        edit-Agrees (page_at app.path) (subst (Agrees (page_at app.path)) is v)
          (haste_server.Editor.Events.event e allowed)
    Step-IsTrue {app} (saved sys request rest outcome is waits) v = follow-IsTrue _ _ (
        edit-Agrees (page_at app.path) (subst (Agrees (page_at app.path)) is v)
          (haste_server.Editor.Events.answer request rest outcome waits))
    Step-IsTrue {app} (left_saved before after request outcome gone is) v =
        follow-IsTrue _ (record app { left = before ++ after }) v
    Step-IsTrue {app} (answered page id result is live clean) v =
        read-Agrees (page_at app.path) (subst (Agrees (page_at app.path)) is v)
          (haste_server.PastePage.Loading.answer id result live clean)
          (on_result-code id result page)
    Step-IsTrue {app} (refused page id reason is live clean empty) v =
        read-Agrees (page_at app.path) (subst (Agrees (page_at app.path)) is v)
          (haste_server.PastePage.Loading.failure id reason live clean empty)
          (on_failure-code id reason page)
    Step-IsTrue {app} (toggled page n is) v =
        browse-Agrees (page_at app.path) (subst (Agrees (page_at app.path)) is v)
          (haste_server.Docs.Rows.toggled n)
    Step-IsTrue {app} (typed page n form is) v =
        browse-Agrees (page_at app.path) (subst (Agrees (page_at app.path)) is v)
          (haste_server.Docs.Rows.changed n form)

    pub Reach-Agrees : {app : App} → Reach router detect app → Agrees (page_at app.path) app.shown
    unfolding visit
    Reach-Agrees (loaded path handoff) =
        visit-IsTrue path handoff (record { path = path; shown = blank; left = [] }) started
    Reach-Agrees (next r step) = Step-IsTrue step (Reach-Agrees r)
