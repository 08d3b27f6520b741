-- ===== src/NotFound.antt =====
-- web/src/components/not-found.tsx: what the page for a dead link says, and its key; with what
-- web/src/routes/paste.tsx and the catch-all route of web/src/App.tsx hand to it.
pub mod Laws
mod Tests
use haste_server.Prelude.{
  Bool, true, false, not, ◌&&◌, ◌||◌, List, [], ◌∷◌, ◌++◌, Option, none, some, ◌==◌, if◌then◌else◌,
}
use haste_server.Text.{Text, codes, text_eq, is_empty}
use haste_server.I18n.{Translate}
use haste_server.Api.{ApiError, api_error}
use haste_server.Api.Errors.{Shown, text, inherited_value, describe_error}
use haste_server.PastePage.{Page}
use haste_server.PastePage.Shortcuts.{Press, Action, go_home}

-- The props. What `describeError` hands over as `message` is no string where it is inherited.
pub record Props : Type 0 where
  pub code : Text
  pub message : Shown
  pub missing : Bool

-- `code || path`
unfoldable pub asked : Props → Text → Text
asked props path = if is_empty props.code then path else props.code

unfoldable pub header : Props → Text → Text
header props path = if is_empty props.code then path else b'/' ∷ props.code

unfoldable pub tag : Props → Text
tag props = if props.missing then codes "404" else codes "error"

-- `.replace(/\.$/, "")`
unfoldable pub drop_full_stop : Text → Text
drop_full_stop [] = []
drop_full_stop (c ∷ []) = if c == b'.' then [] else c ∷ []
drop_full_stop (c ∷ d ∷ s) = c ∷ drop_full_stop (d ∷ s)

-- `missing && code`
unfoldable pub is_dead_code : Props → Bool
is_dead_code props = props.missing && not (is_empty props.code)

-- `toLowerCase` is an argument.
module _ (to_lower_case : Text → Text) where
  unfoldable pub lower_first : Text → Text
  lower_first [] = to_lower_case []
  lower_first (c ∷ s) = to_lower_case (c ∷ []) ++ s

  -- `none` where `lowerFirst` throws, as `charAt` is no method of what is inherited.
  unfoldable pub reason : Translate → Props → Option Text
  reason t props =
      if is_dead_code props then some (t (codes "nf.noPaste") none) else elim props.message [
        | text message ↦ some (drop_full_stop (lower_first message))
        | inherited_value ↦ none
      ]

-- Below the panel: the reasons why a code can be dead, each with its body, or one sentence.
pub data Advice : Type 0 where
  reasons : Text → List (Text × Text) → Advice
  sentence : Text → Advice

abbrev pub causes : Translate → Advice
causes t = reasons (t (codes "nf.reasons") none) (
    (t (codes "nf.temporary") none, t (codes "nf.temporaryBody") none)
    ∷ (t (codes "nf.reclaimed") none, t (codes "nf.reclaimedBody") none)
    ∷ [])

unfoldable pub advice : Translate → Props → Advice
advice t props =
    if is_dead_code props
    then causes t
    else sentence (t (if props.missing then codes "nf.notAPaste" else codes "nf.loadFailed") none)

-- The button that reloads the page.
unfoldable pub shows_retry : Props → Bool
shows_retry props = not props.missing

-- What is rendered: the title bar, the command that it makes of what was asked for, its error, what stands
-- below, and whether there is the button to try again.
pub record DeadLink : Type 0 where
  pub title : Text
  pub status : Text
  pub command : Text
  pub error : Text
  pub below : Advice
  pub offers_retry : Bool

-- `none` where the rendering throws; `path` is the `pathname` of the address.
unfoldable pub not_found : (Text → Text) → Translate → Text → Props → Option DeadLink
not_found to_lower_case t path props = elim (reason to_lower_case t props) [
  | none ↦ none
  | some said ↦ some (record {
    title = header props path;
    status = tag props;
    command = codes "haste get " ++ asked props path;
    error = codes "error: " ++ said;
    below = advice t props;
    offers_retry = shows_retry props;
  })
]

-- `onKeyDown`, with what `event.key.toLowerCase()` is; true if the default is prevented.
unfoldable pub on_key_down : Text → Press → List Action × Bool
on_key_down key press =
    if press.meta_key || press.ctrl_key || press.alt_key
    then ([], false)
    else if not (text_eq key (codes "n"))
    then ([], false)
    else (go_home ∷ [], true)

-- What the paste page hands over of its error, `none` while there is none.
unfoldable pub paste_props : Translate → Page → Option Props
paste_props t page = elim page.error [
  | none ↦ none
  | some e ↦ some (record {
    code = page.code;
    message = describe_error t (api_error e) (codes "nf.loadFailed");
    missing = e.status == 404;
  })
]

-- The catch-all route.
unfoldable pub missing_page : Translate → Props
missing_page t = record { code = []; message = text (t (codes "nf.noPage") none); missing = true }
