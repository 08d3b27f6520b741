-- ===== src/App/Routes.antt =====
-- The routes of web/src/App.tsx against a plain account of which page an address is for.
use haste_server.Prelude.{
  ◌≡◌, ◌≢◌, ◌⊎◌, inl, inr, refl, sym, ap, ◌∙◌, false, List, [], ◌∷◌, some, map, Memᴰ, if◌then◌else◌,
  Bool-cases, Option-cases,
}
use mathlib.Core.Path.{subst}
use haste_server.Text.{Text, codes, text_eq, text_eq_iff, is_empty, lower}
use haste_server.App.{
  fixed, param, Route, home, docs, shared, catch_all, routes, Fits, at_end, at_fixed, at_param,
  at_splat, fixed_param, param_splat, end_splat, Router, Screen, editor_screen, docs_screen,
  missing_screen, paste_screen, code_param, screen_of, screen,
}

-- Nothing is the editor, one segment a paste unless it spells `docs`, and more are no page.
abbrev pub page_at : List Text → Screen
page_at [] = editor_screen
page_at (x ∷ []) =
    if is_empty x
    then missing_screen
    else if text_eq (map lower x) (codes "docs")
    then docs_screen
    else paste_screen x
page_at (x ∷ y ∷ path) = missing_screen

pub is_route :
    {r : Route} → Memᴰ r routes → (r ≡ home) ⊎ (r ≡ docs) ⊎ (r ≡ shared) ⊎ (r ≡ catch_all)
unfolding routes
is_route (Memᴰ.head e) = inl e
is_route (Memᴰ.tail (Memᴰ.head e)) = inr (inl e)
is_route (Memᴰ.tail (Memᴰ.tail (Memᴰ.head e))) = inr (inr (inl e))
is_route (Memᴰ.tail (Memᴰ.tail (Memᴰ.tail (Memᴰ.head e)))) = inr (inr (inr e))
is_route (Memᴰ.tail (Memᴰ.tail (Memᴰ.tail (Memᴰ.tail m)))) = elim m [ ]

pub home-member : Memᴰ home routes
unfolding routes
home-member = Memᴰ.head refl

pub docs-member : Memᴰ docs routes
unfolding routes
docs-member = Memᴰ.tail (Memᴰ.head refl)

pub shared-member : Memᴰ shared routes
unfolding routes
shared-member = Memᴰ.tail (Memᴰ.tail (Memᴰ.head refl))

pub catch_all-member : Memᴰ catch_all routes
unfolding routes
catch_all-member = Memᴰ.tail (Memᴰ.tail (Memᴰ.tail (Memᴰ.head refl)))

pub filled : (x : Text) → x ≢ [] → is_empty x ≡ false
filled [] h = absurd (h refl)
filled (c ∷ x) h = refl

pub docs-lower : map lower (codes "docs") ≡ codes "docs"
docs-lower = refl

docs-filled : (x : Text) → map lower x ≡ codes "docs" → is_empty x ≡ false
docs-filled [] h = absurd (cc h)
docs-filled (c ∷ x) h = refl

pub page_at-docs : (x : Text) → map lower x ≡ codes "docs" → page_at (x ∷ []) ≡ docs_screen
page_at-docs x h = rw (docs-filled x h, (text_eq_iff (map lower x) (codes "docs")).1 h) refl

pub page_at-paste :
    (x : Text)
    → x ≢ []
    → text_eq (map lower x) (codes "docs") ≡ false
    → page_at (x ∷ []) ≡ paste_screen x
page_at-paste x h other = rw (filled x h, other) refl

module _ (router : Router routes) where
  of_home : {path : List Text} → Fits [] path → screen_of (some home) path ≡ page_at path
  unfolding screen_of
  of_home at_end = refl

  of_docs :
      {path : List Text}
      → Fits (fixed (codes "docs") ∷ []) path
      → screen_of (some docs) path ≡ page_at path
  unfolding screen_of
  of_docs (at_fixed {x = x} h at_end) = sym (page_at-docs x (h ∙ docs-lower))

  of_shared :
      {path : List Text}
      → router.choose path ≡ some shared
      → Fits (param (codes "code") ∷ []) path
      → screen_of (some shared) path ≡ page_at path
  unfolding screen_of code_param
  of_shared chosen (at_param {x = x} h at_end) =
      elim (Bool-cases (text_eq (map lower x) (codes "docs"))) [
        | inr other ↦ sym (page_at-paste x h other)
        | inl is ↦ absurd (
            router.best (x ∷ []) shared docs chosen docs-member
              (at_fixed ((text_eq_iff _ _).0 is ∙ sym docs-lower) at_end) fixed_param)
      ]

  of_catch_all :
      (path : List Text)
      → router.choose path ≡ some catch_all
      → screen_of (some catch_all) path ≡ page_at path
  unfolding screen_of
  of_catch_all [] chosen =
      absurd (router.best [] catch_all home chosen home-member at_end end_splat)
  of_catch_all ([] ∷ []) chosen = refl
  of_catch_all ((c ∷ x) ∷ []) chosen = absurd (
      router.best ((c ∷ x) ∷ []) catch_all shared chosen shared-member
        (at_param (λ e. absurd (cc e)) at_end) param_splat)
  of_catch_all (x ∷ y ∷ path) chosen = refl

  -- Whatever the address, one page is shown and it is never blank: the editor at `/`, the API reference at
  -- `/docs` in any case of its letters, the paste of that code at any other path of one segment, and at any
  -- deeper path the page for a dead link.
  pub screen-page_at : (path : List Text) → screen router path ≡ page_at path
  unfolding screen
  screen-page_at path = elim (Option-cases (router.choose path)) [
    | inl nothing ↦ absurd (router.complete path catch_all catch_all-member at_splat nothing)
    | inr (r, chosen) ↦ ap (λ o. screen_of o path) chosen ∙ by_route r chosen
  ]
    where
      by_route : (r : Route) → router.choose path ≡ some r → screen_of (some r) path ≡ page_at path
      by_route r chosen =
          let (member, fits) = router.sound path r chosen in
          elim (is_route member) [
            | inl e ↦
                ap (λ q. screen_of (some q) path) e
                ∙ of_home (subst (λ (q : Route). Fits q.pattern path) e fits)
            | inr (inl e) ↦
                ap (λ q. screen_of (some q) path) e
                ∙ of_docs (subst (λ (q : Route). Fits q.pattern path) e fits)
            | inr (inr (inl e)) ↦
                ap (λ q. screen_of (some q) path) e
                ∙ of_shared (chosen ∙ ap some e) (subst (λ (q : Route). Fits q.pattern path) e fits)
            | inr (inr (inr e)) ↦
                ap (λ q. screen_of (some q) path) e ∙ of_catch_all path (chosen ∙ ap some e)
          ]
