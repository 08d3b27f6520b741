-- ===== src/App.antt =====
-- web/src/App.tsx: the routes, and the page that stands at an address. Which route an address matches is
-- for react-router to say, as far as it documents that: the first parameter.
pub mod Routes
pub mod Visits
pub mod Agreement
pub mod Created
pub mod ShareLink
mod Tests
mod LinkTests
use haste_server.Prelude.{
  All, true, ◌≡◌, ◌≢◌, Bool, List, [], ◌∷◌, Option, none, some, map, Memᴰ, if◌then◌else◌,
}
use haste_server.Text.{Text, codes, text_eq, is_empty, is_word, lower}

-- A segment of a route's path: `docs`, `:code` or `*`. The path `/` has none.
pub data Segment : Type 0 where
  fixed : Text → Segment
  param : Text → Segment
  splat : Segment

abbrev pub Pattern : Type 0
Pattern = List Segment

pub data Element : Type 0 where
  editor_page docs_page paste_page missing_page : Element

pub record Route : Type 0 where
  pub pattern : Pattern
  pub element : Element

abbrev pub home : Route
home = record { pattern = []; element = editor_page }

abbrev pub docs : Route
docs = record { pattern = fixed (codes "docs") ∷ []; element = docs_page }

abbrev pub shared : Route
shared = record { pattern = param (codes "code") ∷ []; element = paste_page }

abbrev pub catch_all : Route
catch_all = record { pattern = splat ∷ []; element = missing_page }

-- The children of `<Routes>`.
unfoldable pub routes : List Route
routes = home ∷ docs ∷ shared ∷ catch_all ∷ []

-- When a path fits a pattern, segment by segment: in any case of the letters, a parameter takes one
-- segment that is not empty, and `*` takes what is left.
pub data Fits : Pattern → List Text → Type 0 where
  at_end : Fits [] []
  at_fixed :
      {s x : Text} {p : Pattern} {path : List Text}
      → map lower x ≡ map lower s
      → Fits p path
      → Fits (fixed s ∷ p) (x ∷ path)
  at_param :
      {name x : Text} {p : Pattern} {path : List Text}
      → x ≢ []
      → Fits p path
      → Fits (param name ∷ p) (x ∷ path)
  at_splat : {path : List Text} → Fits (splat ∷ []) path

-- A pattern that is more specific than another: a fixed segment before a parameter, and either before `*`,
-- which also comes behind the end.
pub data Beats : Pattern → Pattern → Type 0 where
  fixed_param : {s name : Text} {p q : Pattern} → Beats (fixed s ∷ p) (param name ∷ q)
  fixed_splat : {s : Text} {p q : Pattern} → Beats (fixed s ∷ p) (splat ∷ q)
  param_splat : {name : Text} {p q : Pattern} → Beats (param name ∷ p) (splat ∷ q)
  end_splat : {q : Pattern} → Beats [] (splat ∷ q)
  behind : {s : Segment} {p q : Pattern} → Beats p q → Beats (s ∷ p) (s ∷ q)

-- What react-router documents of matching the segments of a path against a list of routes: the route is
-- one of them and fits, there is one if any fits, and none that fits is more specific. And the segments of
-- the path that an address given to `navigate` leads to, of which nothing is said but this: behind a slash,
-- letters, digits and underscores are one segment, as they stand.
pub record Router (table : List Route) : Type 0 where
  pub segments : Text → List Text
  pub segment : (x : Text) → x ≢ [] → All (λ c. is_word c ≡ true) x → segments (b'/' ∷ x) ≡ x ∷ []
  pub choose : List Text → Option Route
  pub sound :
      (path : List Text) (r : Route) → choose path ≡ some r → Memᴰ r table × Fits r.pattern path
  pub complete :
      (path : List Text) (r : Route) → Memᴰ r table → Fits r.pattern path → choose path ≢ none
  pub best :
      (path : List Text) (r q : Route)
      → choose path ≡ some r
      → Memᴰ q table
      → Fits q.pattern path
      → Beats q.pattern r.pattern
      → ⊥

-- What is to be shown: the page, and for a paste its code.
pub data Screen : Type 0 where
  editor_screen docs_screen missing_screen blank_screen : Screen
  paste_screen : Text → Screen

-- `useParams().code`, or the empty text.
unfoldable pub code_param : Pattern → List Text → Text
code_param [] path = []
code_param (s ∷ p) [] = []
code_param (fixed s ∷ p) (x ∷ path) = code_param p path
code_param (param name ∷ p) (x ∷ path) =
    if text_eq name (codes "code") then x else code_param p path
code_param (splat ∷ p) (x ∷ path) = []

unfoldable pub screen_of : Option Route → List Text → Screen
screen_of none path = blank_screen
screen_of (some r) path = elim r.element [
  | editor_page ↦ editor_screen
  | docs_page ↦ docs_screen
  | paste_page ↦ paste_screen (code_param r.pattern path)
  | missing_page ↦ missing_screen
]

unfoldable pub screen : Router routes → List Text → Screen
screen router path = screen_of (router.choose path) path
