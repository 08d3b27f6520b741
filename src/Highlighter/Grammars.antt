-- ===== src/Highlighter/Grammars.antt =====
-- Which language is coloured, and when.
use haste_server.Prelude.{◌≡◌, ◌⊎◌, inl, inr, refl, true, ◌∷◌, Bool-cases, arith}
use haste_server.Text.{Text, text_eq_refl}
use haste_server.Languages.{grammar, loader_for}
use haste_server.Highlighter.{
  Highlighter, Creation, created, ask, has_loader, is_loaded, ensure_highlighter, highlight_sync,
}

is_loaded-cons :
    (l other : Text) (h : Highlighter) (c : Creation)
    → is_loaded h other ≡ true
    → is_loaded (record { creation = c; loaded = l ∷ h.loaded }) other ≡ true
unfolding is_loaded
is_loaded-cons l other h c e = ground arith

is_loaded-same :
    (other : Text) (h : Highlighter)
    → is_loaded h other ≡ true
    → is_loaded (record { creation = created; loaded = h.loaded }) other ≡ true
unfolding is_loaded
is_loaded-same other h e = e

is_loaded-head :
    (l : Text) (h : Highlighter)
    → is_loaded (record { creation = created; loaded = l ∷ h.loaded }) l ≡ true
unfolding is_loaded
is_loaded-head l h = rw text_eq_refl refl

-- What one successful call leaves loaded.
loads-language :
    (h : Highlighter) (language module_name : Text)
    → ask true h.creation ≡ created
    → loader_for language ≡ grammar module_name
    → ((ensure_highlighter true true language h).0
        ≡ record { creation = created; loaded = language ∷ h.loaded })
      ⊎ (((ensure_highlighter true true language h).0
            ≡ record { creation = created; loaded = h.loaded })
          × (is_loaded h language ≡ true))
unfolding ensure_highlighter has_loader
loads-language h language module_name c g = elim (Bool-cases (is_loaded h language)) [
  | inl old ↦ inr (rw (c, ensure_highlighter, g, old) refl, old)
  | inr new ↦ inl (rw (c, ensure_highlighter, g, new) refl)
]

-- A language that has a grammar, asked for when the highlighter can be created and the grammar
-- loads, is coloured as itself at once, and so is still any language that was loaded before.
pub ensure_highlighter-highlight_sync :
    (h : Highlighter) (language module_name other : Text)
    → ask true h.creation ≡ created
    → loader_for language ≡ grammar module_name
    → is_loaded h other ≡ true
    → let h' = (ensure_highlighter true true language h).0 in
      (highlight_sync h' language ≡ language) × (highlight_sync h' other ≡ other)
unfolding highlight_sync
ensure_highlighter-highlight_sync h language module_name other c g e =
    elim (loads-language h language module_name c g) [
      | inl new ↦
          rw new (
            rw (is_loaded-head language h) refl,
            rw (is_loaded-cons language other h created e) refl,
          )
      | inr (same, old) ↦
          rw same (rw (is_loaded-same language h old) refl, rw (is_loaded-same other h e) refl)
    ]
