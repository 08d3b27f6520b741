-- ===== src/PastePage/Shortcuts.antt =====
-- web/src/routes/paste.tsx: the page's bare keys, and its buttons for copying.
use haste_server.Prelude.{
  ◌≡◌, ◌⊎◌, refl, sym, ap, ◌∙◌, Bool, true, false, ◌||◌, List, [], ◌∷◌, Option, none, some, map,
  ◌↔◌, inl, inr, Bool-cases, arith, if◌then◌else◌,
}
use haste_server.Text.{Text, codes, text_eq, text_eq_iff, is_empty, lower}
use haste_server.Lines.{LineRange}
use haste_server.Api.{Paste, ApiError}
use haste_server.PastePage.{Page, link}

-- A key press and where it was aimed.
pub record Press : Type 0 where
  pub key : Text
  pub meta_key : Bool
  pub ctrl_key : Bool
  pub alt_key : Bool
  pub is_content_editable : Bool
  pub tag_name : Text

pub data Action : Type 0 where
  go_home : Action
  copy : Text → Action
  open_location : Text → Action

unfoldable pub is_some : Option ApiError → Bool
is_some none = false
is_some (some e) = true

-- `/^(INPUT|TEXTAREA|SELECT)$/`
unfoldable pub takes_text : Press → Bool
takes_text press =
    press.is_content_editable
    || text_eq press.tag_name (codes "INPUT")
    || text_eq press.tag_name (codes "TEXTAREA")
    || text_eq press.tag_name (codes "SELECT")

-- Nothing without a paste, which the page then shows no more than the key does.
unfoldable pub with_paste : (Paste → Text) → Option Paste → List Action
with_paste address none = []
with_paste address (some p) = open_location (address p) ∷ []

-- `copyLink`
unfoldable pub copy_link : Text → Page → Option LineRange → List Action
copy_link href page current = copy (link href page.paste current) ∷ []

-- `copyContent`
unfoldable pub copy_content : Page → List Action
copy_content page = elim page.paste [
  | none ↦ []
  | some p ↦ elim p.content [ none ↦ [] | some s ↦ if is_empty s then [] else copy s ∷ [] ]
]

unfoldable pub on_key : Text → Text → Page → Option LineRange → List Action × Bool
unfolding with_paste
on_key key href page current =
    if text_eq key (codes "n")
    then (go_home ∷ [], true)
    else if text_eq key (codes "c")
    then (copy_link href page current, true)
    else if text_eq key (codes "r")
    then (with_paste (λ p. p.raw_url) page.paste, true)
    else if text_eq key (codes "s")
    then (with_paste (λ p. p.download_url) page.paste, true)
    else ([], false)

-- The early returns of `onKeyDown`, which is not bound over an error.
unfoldable pub is_muted : Press → Page → Bool
unfolding is_some
is_muted press page =
    is_some page.error || press.meta_key || press.ctrl_key || press.alt_key || takes_text press

-- `onKeyDown`: what it starts, and whether the default is prevented.
unfoldable pub on_key_down : Press → Text → Page → Option LineRange → List Action × Bool
unfolding is_muted
on_key_down press href page current =
    if is_muted press page then ([], false) else on_key (map lower press.key) href page current

-- What the page asks of a press before it looks at the key.
pub record IsHeard (press : Press) (page : Page) : Type 0 where
  pub no_error : page.error ≡ none
  pub bare : (press.meta_key ≡ false) × (press.ctrl_key ≡ false) × (press.alt_key ≡ false)
  pub aimed_elsewhere : takes_text press ≡ false

-- The keys of the page.
abbrev pub IsShortcut : Text → Type 0
IsShortcut key = (key ≡ codes "n") ⊎ (key ≡ codes "c") ⊎ (key ≡ codes "r") ⊎ (key ≡ codes "s")

on_key-prevented :
    (key href : Text) (page : Page) (current : Option LineRange)
    → ((on_key key href page current).1 ≡ true) ↔ IsShortcut key
unfolding on_key
on_key-prevented key href page current = ground (
  arith,
  text_eq_iff key (codes "n"),
  text_eq_iff key (codes "c"),
  text_eq_iff key (codes "r"),
  text_eq_iff key (codes "s"),
)

is_some-none : (o : Option ApiError) → (is_some o ≡ false) ↔ (o ≡ none)
unfolding is_some
is_some-none none = ((λ _. refl), (λ _. refl))
is_some-none (some e) = ((λ h. absurd (cc h)), (λ h. absurd (cc h)))

pub is_muted-IsHeard :
    (press : Press) (page : Page) → (is_muted press page ≡ false) ↔ IsHeard press page
unfolding is_muted
is_muted-IsHeard press page = (
  (λ h. record {
    no_error = (is_some-none page.error).0 (ground arith);
    bare = (ground arith, ground arith, ground arith);
    aimed_elsewhere = ground arith;
  }),
  (λ v.
      simp
        ((is_some-none page.error).1 v.no_error, v.bare.0, v.bare.1, v.bare.2, v.aimed_elsewhere)),
)

on_key-quiet :
    (key href : Text) (page : Page) (current : Option LineRange)
    → ((on_key key href page current).1 ≡ true) ⊎ (on_key key href page current ≡ ([], false))
unfolding on_key
on_key-quiet key href page current = ground arith

pub on_key_down-muted :
    (press : Press) (href : Text) (page : Page) (current : Option LineRange)
    → is_muted press page ≡ true
    → on_key_down press href page current ≡ ([], false)
unfolding on_key_down
on_key_down-muted press href page current h =
    ap (λ b. if b then ([], false) else on_key (map lower press.key) href page current) h

pub on_key_down-heard :
    (press : Press) (href : Text) (page : Page) (current : Option LineRange)
    → is_muted press page ≡ false
    → on_key_down press href page current ≡ on_key (map lower press.key) href page current
unfolding on_key_down
on_key_down-heard press href page current h =
    ap (λ b. if b then ([], false) else on_key (map lower press.key) href page current) h

-- A press is taken from the browser exactly when the page shows no error, no modifier but shift is
-- held, the press is not aimed at a field that takes text, and its key is one of the four, in
-- either case; any other press starts nothing.
pub on_key_down-prevented :
    (press : Press) (href : Text) (page : Page) (current : Option LineRange)
    → (((on_key_down press href page current).1 ≡ true)
        ↔ (IsHeard press page × IsShortcut (map lower press.key)))
      × (((on_key_down press href page current).1 ≡ true)
          ⊎ (on_key_down press href page current ≡ ([], false)))
on_key_down-prevented press href page current = elim (Bool-cases (is_muted press page)) [
  | inl muted ↦ rw (on_key_down-muted press href page current muted) (
    ((λ h. absurd (cc h)), (λ (v, _). absurd (cc (sym muted ∙ (is_muted-IsHeard press page).1 v)))),
    inr refl,
  )
  | inr open' ↦
      let key = map lower press.key in
      let (taken, wanted) = on_key-prevented key href page current in
      rw (on_key_down-heard press href page current open') (
        ((λ h. ((is_muted-IsHeard press page).0 open', taken h)), (λ (_, w). wanted w)),
        on_key-quiet key href page current,
      )
]
