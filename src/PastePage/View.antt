-- ===== src/PastePage/View.antt =====
-- web/src/routes/paste.tsx: what the page returns, and the keys of what it shows.
use mathlib.Core.Path.{subst}
use haste_server.Prelude.{
  false, ℕ, ◌≡◌, ◌≢◌, ◌⊎◌, inl, inr, refl, sym, ap, ◌∙◌, true, false, Option, none, some,
  Option-cases, Bool-cases,
}
use haste_server.Text.{Text, codes, text_eq, text_eq_iff}
use haste_server.I18n.{Translate}
use haste_server.Lines.{LineRange}
use haste_server.Api.{Paste, ApiError, Failure}
use haste_server.Timestamps.{Calendar}
use haste_server.NotFound.{Props, DeadLink, paste_props, not_found}
use haste_server.NotFound.Laws.{props_of, throws, not_found-throws, not_found-some}
use haste_server.PastePage.{
  Page, language, content_of, selection, on_result, on_failure, error_of, fetch_again, settle,
}
use haste_server.PastePage.StatusBar.{StatusBar, status_bar}
use haste_server.PastePage.Loading.{
  IsSettled, Reach, Reach-IsSettled, on_result-live, on_failure-live, settle-own, load-own,
  settle-refetches,
}

-- A paste that is read: the props of the code view, and the status bar.
pub record Reading : Type 0 where
  pub code : Text
  pub language : Text
  pub selection : Option LineRange
  pub status : StatusBar

-- The page for a dead link; nothing, as its rendering has thrown; the placeholder rows with `paste.loading` in the status bar; or the paste.
pub data View : Type 0 where
  dead : DeadLink → View
  crashed : View
  loading : Text → View
  shown : Reading → View

module _ {ℓ} {Instant : Type ℓ} (calendar : Calendar Instant) (get_time : Text → Option ℕ)
    (t : Translate) (detect label : Text → Text) (to_locale_string : ℕ → Text)
    (cleanup_every_secs now : ℕ) where
  unfoldable pub reading : Text → Paste → Reading
  reading hash p = record {
    code = content_of p.content;
    language = language detect (some p);
    selection = selection hash (some p);
    status = status_bar calendar get_time t detect label to_locale_string cleanup_every_secs now p;
  }

  -- `toLowerCase` and the `pathname` of the page for a dead link.
  module _ (to_lower_case : Text → Text) (path : Text) where
    unfoldable pub view_of : Text → Option Props → Option Paste → View
    view_of hash (some props) paste = elim (not_found to_lower_case t path props) [
      | none ↦ crashed
      | some sheet ↦ dead sheet
    ]
    view_of hash none none = loading (t (codes "paste.loading") none)
    view_of hash none (some p) = shown (reading hash p)

    unfoldable pub view : Text → Page → View
    view hash page = view_of hash (paste_props t page) page.paste

    -- What is seen of an error: the page for a dead link that is rendered of it, or nothing where its code
    -- is the name of a property of `Object.prototype`, unless that is a 404 for a code that is not empty.
    pub data Told (code : Text) (e : ApiError) (v : View) : Type 0 where
      as_page :
          (sheet : DeadLink)
          → throws code e ≡ false
          → not_found to_lower_case t path (props_of t code e) ≡ some sheet
          → v ≡ dead sheet
          → Told code e v
      as_crash : throws code e ≡ true → v ≡ crashed → Told code e v

    -- What can be seen: the error, the paste of the code in the address, or that it is loading, and then a
    -- request is waited for.
    pub data Sight (hash : Text) (page : Page) : Type 0 where
      fails :
          (e : ApiError) → page.error ≡ some e → Told page.code e (view hash page) → Sight hash page
      reads :
          (p : Paste)
          → page.paste ≡ some p
          → p.key ≡ page.code
          → view hash page ≡ shown (reading hash p)
          → Sight hash page
      waits :
          (id : ℕ)
          → page.live ≡ some id
          → (page.paste ≡ none) × (page.error ≡ none)
          → view hash page ≡ loading (t (codes "paste.loading") none)
          → Sight hash page

    abbrev rendered : Option DeadLink → View
    rendered none = crashed
    rendered (some sheet) = dead sheet

    view-rendered :
        (hash : Text) (page : Page) (e : ApiError)
        → page.error ≡ some e
        → (o : Option DeadLink) → not_found to_lower_case t path (props_of t page.code e) ≡ o
        → view hash page ≡ rendered o
    unfolding view view_of paste_props
    view-rendered hash page e h none is = rw (h, paste_props, view_of, is) refl
    view-rendered hash page e h (some sheet) is = rw (h, paste_props, view_of, is) refl

    view-error :
        (hash : Text) (page : Page) (e : ApiError)
        → page.error ≡ some e
        → Told page.code e (view hash page)
    view-error hash page e h = elim (Bool-cases (throws page.code e)) [
      | inl odd ↦
          as_crash odd (
            view-rendered hash page e h none
              (not_found-throws to_lower_case t path page.code e odd))
      | inr fine ↦
          let (sheet, is, _, _, _) = not_found-some to_lower_case t path page.code e fine in
          as_page sheet fine is (view-rendered hash page e h (some sheet) is)
    ]

    view-paste :
        (hash : Text) (page : Page) (p : Paste)
        → page.error ≡ none
        → page.paste ≡ some p
        → view hash page ≡ shown (reading hash p)
    unfolding view view_of paste_props
    view-paste hash page p clean held = rw (clean, held, paste_props, view_of) refl

    view-waits :
        (hash : Text) (page : Page)
        → page.error ≡ none
        → page.paste ≡ none
        → view hash page ≡ loading (t (codes "paste.loading") none)
    unfolding view view_of paste_props
    view-waits hash page clean empty = rw (clean, empty, paste_props, view_of) refl

    IsSettled-Sight : (hash : Text) (page : Page) → IsSettled page → Sight hash page
    IsSettled-Sight hash page v = elim (Option-cases page.paste) [
      | inr (p, held) ↦
          let (own, clean) = v.own p held in reads p held own (view-paste hash page p clean held)
      | inl empty ↦ elim (Option-cases page.error) [
        | inr (e, h) ↦ fails e h (view-error hash page e h)
        | inl clean ↦ elim (v.waits empty) [
          | inl dirty ↦ absurd (dirty clean)
          | inr waiting ↦ elim (Option-cases page.live) [
            | inl nothing ↦ absurd (waiting nothing)
            | inr (id, live) ↦ waits id live (empty, clean) (view-waits hash page clean empty)
          ]
        ]
      ]
    ]

    -- However the reader has moved between codes and whatever the server has answered, the page is never
    -- blank but over an error whose rendering throws: it shows the page for a dead link with the error that
    -- it was left with, or the paste of the code in the address, or that it is loading; and then it waits
    -- for a request.
    pub Reach-Sight : (hash : Text) {page : Page} → Reach page → Sight hash page
    Reach-Sight hash {page} r = IsSettled-Sight hash page (Reach-IsSettled r)

    -- A page that shows neither an error nor a paste is one that loads.
    loading-empty :
        (hash said : Text) (page : Page)
        → view hash page ≡ loading said
        → IsSettled page
        → (id : ℕ) × (page.live ≡ some id) × (page.paste ≡ none) × (page.error ≡ none)
    loading-empty hash said page h v = from (IsSettled-Sight hash page v)
      where
        from :
            Sight hash page
            → (id : ℕ) × (page.live ≡ some id) × (page.paste ≡ none) × (page.error ≡ none)
        from (fails e _ (as_page sheet _ _ is)) = absurd (cc (sym is ∙ h))
        from (fails e _ (as_crash _ is)) = absurd (cc (sym is ∙ h))
        from (reads p _ _ is) = absurd (cc (sym is ∙ h))
        from (waits id live (empty, clean) is) = (id, live, empty, clean)

    result-own :
        (hash : Text) (page : Page) (result : Paste)
        → page.error ≡ none
        → text_eq result.key page.code ≡ true
        → view hash (settle (record page { paste = some result })) ≡ shown (reading hash result)
    result-own hash page result clean own =
        let page' = record page { paste = some result } in
        ap (view hash) (settle-own page' result refl own ∙ load-own page' result refl own)
        ∙ view-paste hash (record page' { live = none }) result clean refl

    result-foreign :
        (hash : Text) (page : Page) (result : Paste)
        → text_eq result.key page.code ≡ false
        → view hash (settle (record page { paste = some result }))
          ≡ loading (t (codes "paste.loading") none)
    unfolding fetch_again
    result-foreign hash page result foreign =
        let page' = record page { paste = some result } in
        ap (view hash) (settle-refetches page' result refl foreign)
        ∙ view-waits hash (fetch_again (fetch_again page')) refl refl

    -- A page that loads waits for a request, and its answer ends that: a paste of the code in the address is
    -- shown, a failure is shown as the page for a dead link, and only a paste of another code leaves
    -- the page loading. But where the code of the error is the name of a property of `Object.prototype`, and
    -- it is not a 404 for a code that is not empty, the rendering throws.
    pub loading-answered :
        (hash said : Text) (page : Page) (result : Paste) (failure : Failure)
        → Reach page
        → view hash page ≡ loading said
        → (id : ℕ) × (page.live ≡ some id)
          × (((result.key ≡ page.code)
                × (view hash (on_result id result page) ≡ shown (reading hash result)))
              ⊎ ((result.key ≢ page.code)
                  × (view hash (on_result id result page)
                      ≡ loading (t (codes "paste.loading") none))))
          × Told page.code (error_of failure) (view hash (on_failure id failure page))
    loading-answered hash said page result failure r h =
        let (id, live, _, clean) = loading-empty hash said page h (Reach-IsSettled r) in
        let is = ap (view hash) (on_result-live id result page live) in
        (
          id,
          live,
          elim (Bool-cases (text_eq result.key page.code)) [
            | inl own ↦ inl ((text_eq_iff _ _).0 own, is ∙ result-own hash page result clean own)
            | inr foreign ↦ inr (
              (λ same. absurd (cc (sym foreign ∙ (text_eq_iff _ _).1 same))),
              is ∙ result-foreign hash page result foreign,
            )
          ],
          subst (λ p. Told page.code (error_of failure) (view hash p))
              (sym (on_failure-live id failure page live))
              (view-error hash (record page { error = some (error_of failure) }) (error_of failure)
                refl),
        )
