-- ===== src/Editor/Fates.antt =====
-- web/src/routes/editor.tsx: one event either starts no request or is a save.
use haste_server.Prelude.{
  ◌≡◌, ◌⊎◌, inl, inr, refl, Bool, true, false, not, ◌&&◌, ◌||◌, [], ◌∷◌, arith, Bool-cases,
  if◌then◌else◌,
}
use haste_server.Text.{Text}
use haste_server.Editor.{
  Editor, create, Handled, silent, over_limit, empty, too_long, payload, save, ask_to_save,
  on_save_chord, on_title_enter, on_confirm_click, on_save_click, on_open_change, on_title_change,
  on_expiry_change, on_language_change, on_change, on_deferred, on_config, settle_expiry,
  on_drag_over, on_drag_leave, on_drop, on_file_text, on_textarea_key, escape, tab, another,
}
use haste_server.Editor.Events.{
  Event, save_chord, title_enter, confirm_click, save_click, open_change, title_change,
  expiry_change, language_change, change, deferred_update, drag_over, drag_leave, drop,
  config_arrival, file_text, textarea_key, handle, creates,
}

module _ (detect : Text → Text) (s : Editor) where
  -- A handler that sends nothing keeps `saving`.
  abbrev pub IsQuiet : Handled → Type 0
  IsQuiet h = (creates h.1 ≡ []) × (h.0.saving ≡ s.saving)

  -- A handler that sends: no save was running, the content is not blank and within the limit.
  pub record IsSave (h : Handled) : Type 0 where
    pub idle : s.saving ≡ false
    pub filled : empty s ≡ false
    pub fits : over_limit s ≡ false
    pub result : h ≡ (record s { saving = true }, create (payload detect s) ∷ [])

  abbrev pub Fate : Handled → Type 0
  Fate h = IsQuiet h ⊎ IsSave h

  silent-Fate : Fate (silent s)
  silent-Fate = inl (refl, refl)

  save-Fate : Fate (save detect s)
  unfolding save
  save-Fate = elim (Bool-cases (s.saving || empty s || over_limit s)) [
    | inl blocked ↦ rw (blocked, save) silent-Fate
    | inr free ↦
        rw (free, save)
          (inr (record {
            idle = ground arith;
            filled = ground arith;
            fits = ground arith;
            result = refl;
          }))
  ]

  if-Fate : (b : Bool) {h k : Handled} → Fate h → Fate k → Fate (if b then h else k)
  if-Fate true p q = p
  if-Fate false p q = q

  ask_to_save-Fate : Fate (ask_to_save s)
  unfolding ask_to_save
  ask_to_save-Fate =
      if-Fate (s.saving || empty s) silent-Fate
        (if-Fate (over_limit s) (inl (refl, refl)) (inl (refl, refl)))

  pub handle-Fate : (e : Event) → Fate (handle detect e s)
  unfolding handle on_save_chord on_title_enter on_confirm_click on_save_click on_open_change
      on_title_change on_expiry_change on_language_change on_change on_deferred on_config
      settle_expiry on_drag_over on_drag_leave on_drop on_file_text on_textarea_key
  handle-Fate save_chord = if-Fate s.confirming save-Fate ask_to_save-Fate
  handle-Fate title_enter =
      if-Fate (s.confirming && not (too_long s) && not s.saving) save-Fate silent-Fate
  handle-Fate confirm_click =
      if-Fate (s.confirming && not (s.saving || too_long s)) save-Fate silent-Fate
  handle-Fate save_click = if-Fate (s.saving || empty s) silent-Fate ask_to_save-Fate
  handle-Fate (open_change next) = inl (refl, ground arith)
  handle-Fate (title_change title) = inl (refl, refl)
  handle-Fate (expiry_change seconds) = inl (refl, refl)
  handle-Fate (language_change choice) = inl (refl, refl)
  handle-Fate (change content) = inl (refl, refl)
  handle-Fate deferred_update = inl (refl, refl)
  handle-Fate drag_over = inl (refl, refl)
  handle-Fate drag_leave = inl (refl, refl)
  handle-Fate drop = inl (refl, refl)
  handle-Fate (config_arrival config) = inl (refl, ground arith)
  handle-Fate (file_text text) = inl (ground arith, refl)
  handle-Fate (textarea_key escape first last) = inl (refl, refl)
  handle-Fate (textarea_key another first last) = inl (refl, refl)
  handle-Fate (textarea_key tab first last) = inl (ground arith, ground arith)
