-- ===== src/Editor/Events.antt =====
-- web/src/routes/editor.tsx: the page as a system of events, with the requests that it has sent.
use haste_server.Prelude.{ℕ, ◌≡◌, Bool, List, [], ◌∷◌, ◌++◌, map, filter, ltb, Memᴰ}
use haste_server.Text.{Text}
use haste_server.Api.{Paste, ServerConfig, NewPaste, Outcome}
use haste_server.Expiry.{no_expiry}
use haste_server.Editor.{
  Editor, Effect, create, toast_over_limit, toast_no_expiry, toast_failed, toast_file_too_big,
  navigate_to, caret, Handled, silent, start, Key, on_save_chord, on_title_enter, on_confirm_click,
  on_save_click, on_created, on_open_change, on_title_change, on_expiry_change, on_language_change,
  on_change, on_deferred, on_config, on_drag_over, on_drag_leave, on_drop, on_file_text,
  on_textarea_key,
}

pub data Event : Type 0 where
  save_chord title_enter confirm_click save_click : Event
  open_change : Bool → Event
  title_change : Text → Event
  expiry_change : ℕ → Event
  language_change : Text → Event
  change : Text → Event
  deferred_update drag_over drag_leave drop : Event
  config_arrival : ServerConfig → Event
  file_text : Text → Event
  textarea_key : Key → ℕ → ℕ → Event

unfoldable pub handle : (Text → Text) → Event → Editor → Handled
handle detect save_chord s = on_save_chord detect s
handle detect title_enter s = on_title_enter detect s
handle detect confirm_click s = on_confirm_click detect s
handle detect save_click s = on_save_click s
handle detect (open_change next) s = silent (on_open_change next s)
handle detect (title_change title) s = silent (on_title_change title s)
handle detect (expiry_change seconds) s = silent (on_expiry_change seconds s)
handle detect (language_change choice) s = silent (on_language_change choice s)
handle detect (change content) s = silent (on_change content s)
handle detect deferred_update s = silent (on_deferred s)
handle detect drag_over s = silent (on_drag_over s)
handle detect drag_leave s = silent (on_drag_leave s)
handle detect drop s = silent (on_drop s)
handle detect (config_arrival config) s = silent (on_config config s)
handle detect (file_text text) s = on_file_text text s
handle detect (textarea_key key first last) s = (on_textarea_key key first last s).0

-- The menu offers "no expiry" and the positive lifetimes of the ladder in force.
abbrev pub IsAllowed : Event → Editor → Type 0
IsAllowed (expiry_change seconds) s =
    Memᴰ seconds (no_expiry ∷ filter (ltb 0) s.config.expiry_options_secs)
IsAllowed _ s = Unit

abbrev pub creates : List Effect → List NewPaste
creates [] = []
creates (create p ∷ rest) = p ∷ creates rest
creates (toast_over_limit ∷ rest) = creates rest
creates (toast_no_expiry ∷ rest) = creates rest
creates (toast_failed f ∷ rest) = creates rest
creates (toast_file_too_big ∷ rest) = creates rest
creates (navigate_to p ∷ rest) = creates rest
creates (caret n ∷ rest) = creates rest

-- The page, the requests that wait for their answer, and all that were sent, each with the
-- configuration that was in force.
pub record System : Type 0 where
  pub page : Editor
  pub pending : List NewPaste
  pub sent : List (ServerConfig × NewPaste)

abbrev pub absorb : System → Handled → System
absorb sys (s, effects) = record {
  page = s;
  pending = creates effects ++ sys.pending;
  sent = map (λ p. (sys.page.config, p)) (creates effects) ++ sys.sent;
}

module _ (detect : Text → Text) where
  pub data Step (sys : System) : System → Type 0 where
    event : (e : Event) → IsAllowed e sys.page → Step sys (absorb sys (handle detect e sys.page))
    answer :
        (p : NewPaste) (rest : List NewPaste) (outcome : Outcome Paste)
        → sys.pending ≡ p ∷ rest
        → Step sys
            (record sys { page = (on_created p.expires_in outcome sys.page).0; pending = rest })

  -- From a freshly opened page.
  pub data Reach (config : ServerConfig) : System → Type 0 where
    opened : Reach config (record { page = start config; pending = []; sent = [] })
    next : {sys sys' : System} → Reach config sys → Step sys sys' → Reach config sys'
