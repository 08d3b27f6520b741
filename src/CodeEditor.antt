-- ===== src/CodeEditor.antt =====
-- web/src/components/code-editor.tsx: which layer the editor shows under its text area, the request
-- for a grammar that it has in flight, and the size above which it stops colouring.
pub mod Coloring
pub mod Colored
mod Tests
use haste_server.Prelude.{
  ℕ, ◌+◌, Bool, true, false, not, ◌&&◌, Option, none, some, ltb, ◌==◌, if◌then◌else◌, length,
}
use haste_server.Text.{Text, text_eq, is_empty}
use haste_server.Highlighter.{Highlighter, highlight_sync}

unfoldable pub live_highlight_limit : ℕ
live_highlight_limit = 50_000

-- A call of `ensureHighlighter`, with the language that its closure captured.
pub record Request : Type 0 where
  pub id : ℕ
  pub language : Text

-- The props `value` and `language`, the language of `ready`, and the request that is not cancelled.
pub record CodeEditor : Type 0 where
  pub value : Text
  pub language : Text
  pub ready : Option Text
  pub live : Option Request
  pub next_request : ℕ

unfoldable pub is_too_large : Text → Bool
is_too_large value = ltb live_highlight_limit (length value)

-- The effect: its cleanup has cancelled the request before it.
unfoldable pub ask_grammar : CodeEditor → CodeEditor
ask_grammar ed = if is_too_large ed.value then record ed { live = none } else record ed {
  live = some (record { id = ed.next_request; language = ed.language });
  next_request = ed.next_request + 1;
}

unfoldable pub open_editor : Text → Text → CodeEditor
open_editor value language =
    ask_grammar
      (record { value = value; language = language; ready = none; live = none; next_request = 0 })

unfoldable pub same_size : Bool → Bool → Bool
same_size true large = large
same_size false large = not large

-- New props: the effect runs again where one of `[language, value.length > LIVE_HIGHLIGHT_LIMIT]`
-- has changed.
unfoldable pub on_props : Text → Text → CodeEditor → CodeEditor
unfolding same_size
on_props value language ed =
    if text_eq language ed.language && same_size (is_too_large value) (is_too_large ed.value)
    then record ed { value = value }
    else ask_grammar (record ed { value = value; language = language })

is_live : ℕ → Option Request → Bool
is_live id none = false
is_live id (some request) = request.id == id

-- `ensureHighlighter(language)` resolves.
unfoldable pub on_ensured : Request → CodeEditor → CodeEditor
unfolding is_live
on_ensured request ed =
    if is_live request.id ed.live then record ed { ready = some request.language } else ed

-- It rejects, and the plain layer stays in place.
unfoldable pub on_rejected : Request → CodeEditor → CodeEditor
on_rejected request ed = ed

is_ready : Text → Option Text → Bool
is_ready language none = false
is_ready language (some ready) = text_eq ready language

-- What stands under the text area: Shiki's markup, or the text itself.
pub data Layer : Type 0 where
  markup : Text → Layer
  pre : Text → Layer

-- `codeToHtml` of the highlighter: the text and the language it is given.
module _ (code_to_html : Text → Text → Text) where
  unfoldable pub html : Highlighter → CodeEditor → Option Text
  unfolding is_ready
  html shiki ed =
      if is_too_large ed.value
      then none
      else if is_ready ed.language ed.ready
      then some (code_to_html ed.value (highlight_sync shiki ed.language))
      else none

  unfoldable pub layer : Highlighter → CodeEditor → Layer
  layer shiki ed = elim (html shiki ed) [
    | none ↦ pre ed.value
    | some markup_text ↦ if is_empty markup_text then pre ed.value else markup markup_text
  ]
