-- ===== src/Editor/Keys.antt =====
-- The keyboard: the save chord against the dialog's other ways to confirm, and Tab.
use haste_server.Prelude.{
  ℕ, ◌+◌, ◌<◌, ◌≡◌, refl, true, false, [], ◌∷◌, ◌++◌, arith, take, drop, length, length-append,
  take-length-append, drop-length-append, append_assoc, sym, ap, ap₂, ◌∙◌,
}
use haste_server.Text.{Text, codes}
use haste_server.CodePoints.{count_code_points}
use haste_server.Editor.{
  Editor, create, over_limit, empty, too_long, payload, save, on_save_chord, on_title_enter,
  on_confirm_click, silent, escape, tab, caret, on_textarea_key,
}

-- While the dialog is open over a title that is too long, with content that may be saved and no save
-- running, the title's Enter and the Save button do nothing, but the save chord sends the request,
-- whose title is longer than the configuration allows.
pub on_save_chord-too_long :
    (detect : Text → Text) (s : Editor)
    → s.confirming ≡ true
    → s.saving ≡ false
    → empty s ≡ false
    → over_limit s ≡ false
    → too_long s ≡ true
    → (on_title_enter detect s ≡ silent s)
      × (on_confirm_click detect s ≡ silent s)
      × (on_save_chord detect s ≡ (record s { saving = true }, create (payload detect s) ∷ []))
      × (s.config.max_title_chars < count_code_points (payload detect s).title)
unfolding on_title_enter on_confirm_click on_save_chord save payload
on_save_chord-too_long detect s open' idle filled fits long = (
  simp (open', long),
  simp (open', long, idle),
  simp (open', idle, filled, fits),
  unfold too_long in ground arith,
)

-- Escape lets exactly the next Tab leave the editor: that Tab keeps its default and the content, and
-- the Tab behind it indents again.
on_textarea_key-escape :
    (s : Editor) (first last : ℕ)
    → let armed = (on_textarea_key escape first last s).0.0 in
      let after = on_textarea_key tab first last armed in
      (after.1 ≡ false)
      × (after.0.0.content ≡ s.content)
      × ((on_textarea_key tab first last after.0.0).1 ≡ true)
unfolding on_textarea_key
on_textarea_key-escape s first last = (refl, refl, refl)

-- A Tab over a selection replaces it by two spaces and puts the caret behind them: what stands before
-- and after the selection is kept.
pub on_textarea_key-tab :
    (s : Editor) (before selected after : Text)
    → s.tab_exits ≡ false
    → s.content ≡ before ++ (selected ++ after)
    → (on_textarea_key tab (length before) (length before + length selected) s).0 ≡ (
      record s { content = before ++ (codes "  " ++ after) },
      caret (length (before ++ codes "  ")) ∷ [],
    )
unfolding on_textarea_key
on_textarea_key-tab s before selected after idle e =
    let head : take (length before) s.content ≡ before =
      ap (take (length before)) e ∙ take-length-append before (selected ++ after) in
    let tail : drop (length before + length selected) s.content ≡ after =
      ap₂ drop (sym (length-append before selected)) (e ∙ sym (append_assoc before selected after))
      ∙ drop-length-append (before ++ selected) after in
    let end : length before + 2 ≡ length (before ++ codes "  ") =
      sym (length-append before (codes "  ")) in
    simp (idle, head, tail, end)
