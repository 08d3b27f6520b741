-- ===== src/Clipboard/Laws.antt =====
-- What `copyText` leaves behind.
use haste_server.Prelude.{
  ℕ, ◌<◌, ◌≡◌, refl, Bool, true, false, List, [], ◌∷◌, ◌++◌, Option, none, some, ◌==◌, ==_refl,
  ==_iff, if◌then◌else◌, All, arith, Bool-cases, inl, inr,
}
use haste_server.Text.{Text}
use haste_server.Clipboard.{
  Platform, Node, Desk, append_child, without, remove_child, exec_copy, copy_by_command, copy_text,
}

-- No child has an identity that is still to be given.
abbrev pub IsFresh : Desk → Type 0
IsFresh desk = All (λ (node : Node). node.id < desk.next_id) desk.body

without-append :
    (body : List Node) (id : ℕ) (value : Text)
    → All (λ (node : Node). node.id < id) body
    → without id (body ++ record { id = id; value = value } ∷ []) ≡ body
unfolding without
without-append [] id value _ = rw (==_refl id) refl
without-append (node ∷ rest) id value (below, all_below) = elim (Bool-cases (node.id == id)) [
  | inl same ↦ let e = (==_iff node.id id).0 same in absurd (omega arith)
  | inr differs ↦ rw (differs, without-append rest id value all_below) refl
]

-- The document has the children that it had; the clipboard holds the text where `true` is answered and
-- what it held where `false` is.
abbrev pub Leaves : Text → Desk → Desk × Bool → Type 0
Leaves text desk result =
    (result.0.body ≡ desk.body) × (result.0.clipboard ≡ (if result.1 then text else desk.clipboard))

module _ (platform : Platform) (text : Text) (desk : Desk) where
  copy_by_command-Leaves :
      IsFresh desk
      → platform.api_value text ≡ text
      → Leaves text desk (copy_by_command platform text desk)
  unfolding copy_by_command exec_copy append_child remove_child
  copy_by_command-Leaves fresh kept = by_outcome platform.copy_command refl
    where
      removed :
          without desk.next_id (desk.body ++ record { id = desk.next_id; value = text } ∷ [])
          ≡ desk.body
      removed = without-append desk.body desk.next_id text fresh

      by_outcome :
          (outcome : Option Bool)
          → platform.copy_command ≡ outcome
          → Leaves text desk (copy_by_command platform text desk)
      by_outcome none e = rw (copy_by_command, exec_copy, e) (removed, refl)
      by_outcome (some false) e = rw (copy_by_command, exec_copy, e) (removed, refl)
      by_outcome (some true) e = rw (copy_by_command, exec_copy, e) (removed, kept)

  -- Whatever of the two ways there is and however they fail: the document has the children that it had,
  -- and the clipboard holds the text where `true` is answered and what it held where `false` is,
  -- provided that a text area gives the text back as it was put in.
  pub copy_text-Leaves :
      IsFresh desk
      → platform.api_value text ≡ text
      → Leaves text desk (copy_text platform text desk)
  unfolding copy_text
  copy_text-Leaves fresh kept = by_outcome platform.write_text refl
    where
      by_outcome :
          (outcome : Option Bool)
          → platform.write_text ≡ outcome
          → Leaves text desk (copy_text platform text desk)
      by_outcome none e = rw (copy_text, e) (copy_by_command-Leaves fresh kept)
      by_outcome (some false) e = rw (copy_text, e) (copy_by_command-Leaves fresh kept)
      by_outcome (some true) e = rw (copy_text, e) (refl, refl)
