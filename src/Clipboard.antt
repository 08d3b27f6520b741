-- ===== src/Clipboard.antt =====
-- web/src/lib/clipboard.ts: copying through `navigator.clipboard`, else through a text area that is in
-- the document while `execCommand` runs.
pub mod Laws
mod Tests
use haste_server.Prelude.{
  ℕ, ◌+◌, Bool, true, false, List, [], ◌∷◌, ◌++◌, Option, none, some, ◌==◌, if◌then◌else◌,
}
use haste_server.Text.{Text}

-- What the browser does: `writeText`, `none` where there is none, else whether its promise resolves;
-- `execCommand("copy")`, `none` where it throws; and the text that a text area gives back of a value.
pub record Platform : Type 0 where
  pub write_text : Option Bool
  pub copy_command : Option Bool
  pub api_value : Text → Text

-- A child of `document.body`: its identity, and its value where it is a text area.
pub record Node : Type 0 where
  pub id : ℕ
  pub value : Text

pub record Desk : Type 0 where
  pub clipboard : Text
  pub body : List Node
  pub next_id : ℕ

-- `document.body.appendChild(textarea)`
unfoldable pub append_child : Node → Desk → Desk
append_child node desk = record desk { body = desk.body ++ node ∷ [] }

without : ℕ → List Node → List Node
without id [] = []
without id (node ∷ rest) =
    let later = without id rest in if node.id == id then rest else node ∷ later

-- `document.body.removeChild(textarea)`
unfoldable pub remove_child : ℕ → Desk → Desk
unfolding without
remove_child id desk = record desk { body = without id desk.body }

-- `document.execCommand("copy")` with the text area selected.
unfoldable pub exec_copy : Platform → Node → Desk → Desk × Bool
exec_copy platform textarea desk = elim platform.copy_command [
  | none ↦ (desk, false)
  | some false ↦ (desk, false)
  | some true ↦ (record desk { clipboard = platform.api_value textarea.value }, true)
]

-- From `document.createElement` on.
unfoldable pub copy_by_command : Platform → Text → Desk → Desk × Bool
copy_by_command platform text desk =
    let textarea : Node = record { id = desk.next_id; value = text } in
    let shown = append_child textarea (record desk { next_id = desk.next_id + 1 }) in
    let (after, copied) = exec_copy platform textarea shown in
    (remove_child textarea.id after, copied)

unfoldable pub copy_text : Platform → Text → Desk → Desk × Bool
copy_text platform text desk = elim platform.write_text [
  | some true ↦ (record desk { clipboard = text }, true)
  | some false ↦ copy_by_command platform text desk
  | none ↦ copy_by_command platform text desk
]
