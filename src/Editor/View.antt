-- ===== src/Editor/View.antt =====
-- What web/src/routes/editor.tsx shows of its state: over the text area, and in the status bar.
use haste_server.Prelude.{
  ℕ, ◌≡◌, ◌⊎◌, Bool, true, false, ◌||◌, List, [], ◌∷◌, ◌++◌, Option, none, some, if◌then◌else◌,
}
use haste_server.Text.{Text, codes}
use haste_server.I18n.{Translate}
use haste_server.CodePoints.{count_code_points}
use haste_server.Languages.Conditions.{re, holds}
use haste_server.Languages.Picker.{picker_label}
use haste_server.Editor.{
  Editor, toast_over_limit, silent, over_limit, empty, on_save_click, language,
}
use haste_server.Editor.Dialog.{DialogView, dialog}

-- `modKey` of web/src/lib/utils.ts.
unfoldable pub mod_key : Text → Text
mod_key user_agent = if holds (re "Mac|iPhone|iPad") user_agent then codes "⌘" else codes "Ctrl+"

-- `Welcome`: the three hints, the last with the keys that save, and the limit.
pub record Welcome : Type 0 where
  pub heading : Text
  pub tagline : Text
  pub type_hint : Text
  pub drop_hint : Text
  pub save_hint : Text × Text
  pub limit : Text

-- Over the text area: the welcome, or the place to drop a file.
pub data Overlay : Type 0 where
  welcome : Welcome → Overlay
  dropzone : Text → Overlay
  nothing : Overlay

-- The tooltip of the Save button: why nothing can be saved, or the keys that save.
pub data Tip : Type 0 where
  explains : Text → Tip
  shortcut : Text → Text → Tip

pub record StatusBar : Type 0 where
  pub counter : Text
  pub counter_is_error : Bool
  pub language_label : Text
  pub save_disabled : Bool
  pub is_spinning : Bool
  pub tip : Tip

pub record EditorView : Type 0 where
  pub code : Text
  pub language : Text
  pub invalid : Bool
  pub overlay : Overlay
  pub status : StatusBar
  pub dialog : DialogView

-- `label` names a language, `to_locale_string` writes a number in the browser's way.
module _ (t : Translate) (label : Text → Text) (to_locale_string : ℕ → Text) (user_agent : Text)
    (detect : Text → Text) where
  abbrev pub limit_of : Editor → Option (List (Text × Text))
  limit_of s = some ((codes "max", to_locale_string s.config.max_chars) ∷ [])

  unfoldable pub welcome_of : Editor → Welcome
  welcome_of s = record {
    heading = codes "Haste";
    tagline = t (codes "editor.tagline") none;
    type_hint = t (codes "editor.hint.type") none;
    drop_hint = t (codes "editor.hint.drop") none;
    save_hint = (mod_key user_agent ++ codes "S", t (codes "editor.hint.save") none);
    limit = t (codes "editor.hint.limit") (limit_of s);
  }

  unfoldable pub overlay : Editor → Overlay
  overlay s =
      if s.dragging
      then dropzone (t (codes "editor.dropzone") none)
      else if empty s
      then welcome (welcome_of s)
      else nothing

  unfoldable pub tip : Editor → Tip
  tip s =
      if over_limit s
      then explains (t (codes "editor.overLimit") (limit_of s))
      else shortcut (t (codes "editor.save") none) (mod_key user_agent ++ codes "S")

  unfoldable pub status_bar : Editor → StatusBar
  status_bar s = record {
    counter =
        to_locale_string (count_code_points s.content)
        ++ (codes " / " ++ to_locale_string s.config.max_chars);
    counter_is_error = over_limit s;
    language_label = picker_label label (t (codes "lang.auto") none) s.choice (detect s.deferred);
    save_disabled = s.saving || empty s;
    is_spinning = s.saving;
    tip = tip s;
  }

  unfoldable pub editor_view : Editor → EditorView
  editor_view s = record {
    code = s.content;
    language = language detect s;
    invalid = over_limit s;
    overlay = overlay s;
    status = status_bar s;
    dialog = dialog t label (detect s.deferred) s;
  }

  -- What the page says of saving, and what a click on Save then does.
  pub data SaveSight (s : Editor) : Type 0 where
    off : (editor_view s).status.save_disabled ≡ true → on_save_click s ≡ silent s → SaveSight s
    over :
        (editor_view s).status.save_disabled ≡ false
        → ((editor_view s).invalid ≡ true) × ((editor_view s).status.counter_is_error ≡ true)
        → (editor_view s).status.tip ≡ explains (t (codes "editor.overLimit") (limit_of s))
        → on_save_click s ≡ (s, toast_over_limit ∷ [])
        → SaveSight s
    ready :
        (editor_view s).status.save_disabled ≡ false
        → ((editor_view s).invalid ≡ false) × ((editor_view s).status.counter_is_error ≡ false)
        → ((editor_view s).overlay ≡ nothing) ⊎ (s.dragging ≡ true)
        → (editor_view (on_save_click s).0).dialog.is_open ≡ true
        → (on_save_click s).1 ≡ []
        → SaveSight s
