-- ===== src/App/Tests.antt =====
-- The app under a router that tries the routes from the most specific one on.
use haste_server.Prelude.{
  ℕ, ◌<◌, arith, ◌≡◌, ◌≢◌, inl, inr, refl, sym, ◌∙◌, Bool, true, false, List, [], ◌∷◌, map, none,
  some, Memᴰ, Bool-cases, All, ◌==◌, if◌then◌else◌,
}
use mathlib.Core.Path.{subst}
use mathlib.Core.Option.{some-injective}
use haste_server.Text.{Text, codes, text_eq, text_eq_iff, is_empty, is_word, lower}
use haste_server.App.{
  Segment, fixed, param, splat, Route, home, docs, shared, catch_all, routes, Fits, at_end,
  at_fixed, at_param, at_splat, Beats, fixed_param, fixed_splat, param_splat, behind, Router,
  screen,
}
use haste_server.Api.{Paste, NewPaste, ok}
use haste_server.SharedConfig.{fallback_config}
use haste_server.Editor.{start, plain}
use haste_server.Editor.Events.{System}
use haste_server.PastePage.{Page}
use haste_server.App.Visits.{App, blank, editing, reading, visit, on_saved}
use haste_server.App.Created.{on_saved-shown}
use haste_server.App.Routes.{
  page_at, is_route, home-member, docs-member, shared-member, catch_all-member, docs-lower,
  screen-page_at,
}

choose_by : Bool → Bool → Route
choose_by true docs' = catch_all
choose_by false true = docs
choose_by false false = shared

pub pick : List Text → Route
unfolding choose_by
pick [] = home
pick (x ∷ []) = choose_by (is_empty x) (text_eq (map lower x) (codes "docs"))
pick (x ∷ y ∷ path) = catch_all

pub pick-member : (path : List Text) → Memᴰ (pick path) routes
unfolding pick choose_by
pick-member [] = home-member
pick-member ([] ∷ []) = catch_all-member
pick-member ((c ∷ x) ∷ []) = elim (Bool-cases (text_eq (map lower (c ∷ x)) (codes "docs"))) [
  | inl is ↦ rw is docs-member
  | inr other ↦ rw other shared-member
]
pick-member (x ∷ y ∷ path) = catch_all-member

pub pick-Fits : (path : List Text) → Fits (pick path).pattern path
unfolding pick choose_by
pick-Fits [] = at_end
pick-Fits ([] ∷ []) = at_splat
pick-Fits ((c ∷ x) ∷ []) = elim (Bool-cases (text_eq (map lower (c ∷ x)) (codes "docs"))) [
  | inl is ↦ rw is (at_fixed ((text_eq_iff _ _).0 is ∙ sym docs-lower) at_end)
  | inr other ↦ rw other (at_param (λ e. cc e) at_end)
]
pick-Fits (x ∷ y ∷ path) = at_splat

Fits-end : {x : Text} {path : List Text} → Fits [] (x ∷ path) → ⊥
Fits-end f = elim f [ ]

Beats-end : {p : List Segment} → Beats p [] → ⊥
Beats-end b = elim b [ ]

-- No pattern of the routes beats itself.
kind : Segment → ℕ
kind (fixed s) = 0
kind (param name) = 1
kind splat = 2

single-kind : {s t : Segment} → Beats (s ∷ []) (t ∷ []) → kind s < kind t
unfolding kind
single-kind fixed_param = omega arith
single-kind fixed_splat = omega arith
single-kind param_splat = omega arith
single-kind (behind b) = absurd (Beats-end b)

Beats-self : (s : Segment) → Beats (s ∷ []) (s ∷ []) → ⊥
Beats-self s b = let less = single-kind b in absurd (omega arith)

deeper :
    {s : Segment} {x y : Text} {path : List Text} → s ≢ splat → Fits (s ∷ []) (x ∷ y ∷ path) → ⊥
deeper h (at_fixed e f) = Fits-end f
deeper h (at_param e f) = Fits-end f
deeper h at_splat = h refl

Fits-docs : {x : Text} → Fits docs.pattern (x ∷ []) → map lower x ≡ codes "docs"
Fits-docs (at_fixed h f) = h ∙ docs-lower

Fits-shared : {x : Text} → Fits shared.pattern (x ∷ []) → x ≢ []
Fits-shared (at_param h f) = h

-- Nothing that fits beats what is picked, of each of the routes.
abbrev pub Unbeaten : List Text → Route → Type 0
Unbeaten path q = Fits q.pattern path → Beats q.pattern (pick path).pattern → ⊥

home-Unbeaten : (path : List Text) → Unbeaten path home
unfolding pick
home-Unbeaten [] f b = Beats-end b
home-Unbeaten (x ∷ path) f b = Fits-end f

catch_all-Unbeaten : (path : List Text) → Unbeaten path catch_all
unfolding pick choose_by
catch_all-Unbeaten [] f b = Beats-end b
catch_all-Unbeaten ([] ∷ []) f b = Beats-self splat b
catch_all-Unbeaten ((c ∷ x) ∷ []) f b =
    elim (Bool-cases (text_eq (map lower (c ∷ x)) (codes "docs"))) [
      | inl is ↦ elim (rw is at b) [ ]
      | inr other ↦ elim (rw other at b) [ ]
    ]
catch_all-Unbeaten (x ∷ y ∷ path) f b = Beats-self splat b

docs-Unbeaten : (path : List Text) → Unbeaten path docs
unfolding pick choose_by
docs-Unbeaten [] f b = Beats-end b
docs-Unbeaten ([] ∷ []) f b = cc (Fits-docs f)
docs-Unbeaten ((c ∷ x) ∷ []) f b =
    Beats-self (fixed (codes "docs"))
      (rw ((text_eq_iff (map lower (c ∷ x)) (codes "docs")).1 (Fits-docs f)) at b)
docs-Unbeaten (x ∷ y ∷ path) f b = deeper (λ e. cc e) f

shared-Unbeaten : (path : List Text) → Unbeaten path shared
unfolding pick choose_by
shared-Unbeaten [] f b = Beats-end b
shared-Unbeaten ([] ∷ []) f b = Fits-shared f refl
shared-Unbeaten ((c ∷ x) ∷ []) f b =
    elim (Bool-cases (text_eq (map lower (c ∷ x)) (codes "docs"))) [
      | inl is ↦ elim (rw is at b) [ ]
      | inr other ↦ Beats-self (param (codes "code")) (rw other at b)
    ]
shared-Unbeaten (x ∷ y ∷ path) f b = deeper (λ e. cc e) f

pub unbeaten : (path : List Text) (q : Route) → Memᴰ q routes → Unbeaten path q
unbeaten path q m = elim (is_route m) [
  | inl e ↦ subst (Unbeaten path) (sym e) (home-Unbeaten path)
  | inr (inl e) ↦ subst (Unbeaten path) (sym e) (docs-Unbeaten path)
  | inr (inr (inl e)) ↦ subst (Unbeaten path) (sym e) (shared-Unbeaten path)
  | inr (inr (inr e)) ↦ subst (Unbeaten path) (sym e) (catch_all-Unbeaten path)
]

pub picked : (path : List Text) → some (pick path) ≢ none
picked path e = cc e

split_path : Text → List Text
split_path [] = [] ∷ []
split_path (c ∷ s) = if c == b'/' then [] ∷ split_path s else onto c (split_path s)
  where
    onto : ℕ → List Text → List Text
    onto c [] = (c ∷ []) ∷ []
    onto c (x ∷ xs) = (c ∷ x) ∷ xs

split_path-word : (x : Text) → All (λ c. is_word c ≡ true) x → split_path x ≡ x ∷ []
unfolding split_path
split_path-word [] _ = refl
split_path-word (c ∷ s) (word, words) =
    let inside : (c == b'/') ≡ false = ground arith in rw (inside, split_path-word s words) refl

pub segments : Text → List Text
unfolding split_path
segments [] = []
segments (c ∷ s) = split_path s

pub segments-word :
    (x : Text) → x ≢ [] → All (λ c. is_word c ≡ true) x → segments (b'/' ∷ x) ≡ x ∷ []
unfolding segments
segments-word x filled words = split_path-word x words

abbrev pub router : Router routes
router = record {
  segments = segments;
  segment = segments-word;
  choose = λ path. some (pick path);
  sound = λ path r e.
      subst (λ (q : Route). Memᴰ q routes × Fits q.pattern path) (some-injective _ _ e)
        (pick-member path, pick-Fits path);
  complete = λ path r m f e. picked path e;
  best = λ path r q e m f b.
      unbeaten path q m f
        (subst (λ (o : Route). Beats q.pattern o.pattern) (sym (some-injective _ _ e)) b);
}

screen-page_at_example : screen router (codes "DOCS" ∷ []) ≡ page_at (codes "DOCS" ∷ [])
screen-page_at_example = screen-page_at router (codes "DOCS" ∷ [])

pub detect : Text → Text
detect s = plain

abbrev pub paste : Paste
paste = record {
  key = codes "k7";
  url = codes "https://h/k7";
  raw_url = codes "https://h/raw/k7";
  download_url = codes "https://h/download/k7";
  filename = codes "k7.txt";
  language = none;
  title = none;
  chars = 2;
  bytes = 2;
  created_at = codes "2026-01-01T00:00:00Z";
  expires_at = none;
  content = some (codes "hi");
}

abbrev start_app : App
start_app = record { path = []; shown = blank; left = [] }

-- The reader opens the editor and follows a link to a paste.
abbrev followed : App
followed = visit router detect (codes "k7" ∷ []) none (visit router detect [] none start_app)

abbrev request : NewPaste
request = record { content = codes "hi"; language = []; title = []; expires_in = 0 }

abbrev saving : System
saving = record { page = start fallback_config; pending = request ∷ []; sent = [] }

abbrev answered_app : App
answered_app =
    on_saved router detect request (ok paste) saving []
      (record start_app { shown = editing saving })

on_saved-shown_example :
    (page : Page) × (answered_app.path ≡ codes "k7" ∷ [])
    × (answered_app.shown ≡ reading page)
    × (page.paste ≡ some paste)
    × (page.error ≡ none)
    × (page.live ≡ none)
on_saved-shown_example =
    on_saved-shown router detect request paste saving []
      (record start_app { shown = editing saving }) (λ e. cc e) (refl, (refl, tt)) refl
