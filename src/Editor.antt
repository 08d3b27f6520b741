-- ===== src/Editor.antt =====
-- web/src/routes/editor.tsx, with the guards of web/src/components/save-dialog.tsx: the state of the
-- page, its handlers as functions from a state to a state and the effects they start, and what is
-- shown enabled.
pub mod Events
pub mod Saving
pub mod Fates
pub mod Keys
pub mod Language
pub mod Dialog
pub mod View
mod Tests
use haste_server.Prelude.{
  ℕ, ◌+◌, Bool, true, false, not, ◌&&◌, ◌||◌, List, [], ◌∷◌, ◌++◌, Option, none, some, ltb, leb,
  ◌==◌, if◌then◌else◌, take, drop,
}
use haste_server.Text.{Text, codes, text_eq, trim, is_empty}
use haste_server.CodePoints.{count_code_points}
use haste_server.Api.{Paste, ServerConfig, NewPaste, Outcome, ok, failed, Failure}
use haste_server.Expiry.{no_expiry, includes}

-- `AUTO` and `PLAIN`
abbrev pub auto : Text
auto = codes "auto"

abbrev pub plain : Text
plain = codes "text"

pub record Editor : Type 0 where
  pub content : Text
  -- `useDeferredValue(content)`: a copy that lags behind.
  pub deferred : Text
  pub choice : Text
  pub expires_in : ℕ
  pub title : Text
  pub confirming : Bool
  pub saving : Bool
  pub dragging : Bool
  pub tab_exits : Bool
  pub config : ServerConfig

-- What a handler starts outside the page's state.
pub data Effect : Type 0 where
  create : NewPaste → Effect
  toast_over_limit : Effect
  toast_no_expiry : Effect
  toast_failed : Failure → Effect
  toast_file_too_big : Effect
  navigate_to : Paste → Effect
  caret : ℕ → Effect

abbrev pub Handled : Type 0
Handled = Editor × List Effect

abbrev pub silent : Editor → Handled
silent s = (s, [])

unfoldable pub start : ServerConfig → Editor
start config = record {
  content = [];
  deferred = [];
  choice = auto;
  expires_in = no_expiry;
  title = [];
  confirming = false;
  saving = false;
  dragging = false;
  tab_exits = false;
  config = config;
}

unfoldable pub over_limit : Editor → Bool
over_limit s = ltb s.config.max_chars (count_code_points s.content)

unfoldable pub empty : Editor → Bool
empty s = is_empty (trim s.content)

-- `tooLong` of the save dialog.
unfoldable pub too_long : Editor → Bool
too_long s = ltb s.config.max_title_chars (count_code_points (trim s.title))

unfoldable pub ask_to_save : Editor → Handled
ask_to_save s =
    if s.saving || empty s
    then silent s
    else if over_limit s
    then (s, toast_over_limit ∷ [])
    else silent (record s { confirming = true })

-- The detector of web/src/lib/languages.ts is an argument of the handlers here.
module _ (detect_language : Text → Text) where
  unfoldable pub language : Editor → Text
  language s = if text_eq s.choice auto then detect_language s.deferred else s.choice

  unfoldable pub payload : Editor → NewPaste
  payload s = record {
    content = s.content;
    language = if text_eq (language s) plain then [] else language s;
    title = trim s.title;
    expires_in = s.expires_in;
  }

  -- `save`, up to its `await`.
  unfoldable pub save : Editor → Handled
  save s =
      if s.saving || empty s || over_limit s
      then silent s
      else (record s { saving = true }, create (payload s) ∷ [])

  -- Ctrl or Cmd with `s` or Enter, on the window.
  unfoldable pub on_save_chord : Editor → Handled
  on_save_chord s = if s.confirming then save s else ask_to_save s

  -- Enter in the title field of the dialog, which is on the page while `confirming`.
  unfoldable pub on_title_enter : Editor → Handled
  on_title_enter s = if s.confirming && not (too_long s) && not s.saving then save s else silent s

  -- A click on the dialog's Save button, which is disabled while saving and over a too long title.
  unfoldable pub on_confirm_click : Editor → Handled
  on_confirm_click s = if s.confirming && not (s.saving || too_long s) then save s else silent s

-- `save`, behind its `await`, in the closure that read `expires_in` when it was sent.
unfoldable pub on_created : ℕ → Outcome Paste → Editor → Handled
on_created expires_in (ok paste) s = (
  s,
  if expires_in == no_expiry
      then toast_no_expiry ∷ navigate_to paste ∷ []
      else navigate_to paste ∷ [],
)
on_created expires_in (failed error) s = (record s { saving = false }, toast_failed error ∷ [])

-- The Save button of the status bar.
unfoldable pub on_save_click : Editor → Handled
on_save_click s = if s.saving || empty s then silent s else ask_to_save s

unfoldable pub on_open_change : Bool → Editor → Editor
on_open_change next s = if s.saving then s else record s { confirming = next }

unfoldable pub on_title_change : Text → Editor → Editor
on_title_change title s = record s { title = title }

unfoldable pub on_expiry_change : ℕ → Editor → Editor
on_expiry_change seconds s = record s { expires_in = seconds }

unfoldable pub on_language_change : Text → Editor → Editor
on_language_change choice s = record s { choice = choice }

unfoldable pub on_change : Text → Editor → Editor
on_change content s = record s { content = content }

unfoldable pub on_deferred : Editor → Editor
on_deferred s = record s { deferred = s.content }

-- The effect on `[config.expiryOptionsSecs, expiresIn]`.
unfoldable pub settle_expiry : Editor → Editor
settle_expiry s =
    if not (s.expires_in == no_expiry) && not (includes s.expires_in s.config.expiry_options_secs)
    then record s { expires_in = no_expiry }
    else s

-- The server's configuration arrives; the effect runs behind the render.
unfoldable pub on_config : ServerConfig → Editor → Editor
unfolding settle_expiry
on_config config s = settle_expiry (record s { config = config })

unfoldable pub on_drag_over : Editor → Editor
on_drag_over s = record s { dragging = true }

unfoldable pub on_drag_leave : Editor → Editor
on_drag_leave s = record s { dragging = false }

-- `onDrop`; `readFile` comes with its text later.
unfoldable pub on_drop : Editor → Editor
on_drop s = record s { dragging = false }

unfoldable pub on_file_text : Text → Editor → Handled
on_file_text text s = (
  record s { content = text },
  if ltb s.config.max_chars (count_code_points text) then toast_file_too_big ∷ [] else [],
)

-- The keys that the text area tells apart.
pub data Key : Type 0 where
  escape tab another : Key

-- `onTextareaKeyDown`, with the selection of the text area; true if the default is prevented.
unfoldable pub on_textarea_key : Key → ℕ → ℕ → Editor → Handled × Bool
on_textarea_key escape first last s = (silent (record s { tab_exits = true }), false)
on_textarea_key another first last s = (silent (record s { tab_exits = false }), false)
on_textarea_key tab first last s =
    if s.tab_exits then (silent (record s { tab_exits = false }), false) else (
      (
        record s { content = take first s.content ++ (codes "  " ++ drop last s.content) },
        caret (first + 2) ∷ [],
      ),
      true,
    )
