-- ===== src/Highlighter/Tests.antt =====
-- The highlighter on concrete states.
use haste_server.Prelude.{◌≡◌, refl, true, [], ◌∷◌}
use haste_server.Text.{codes}
use haste_server.Text.Objects.{get}
use haste_server.Languages.{loader_for}
use haste_server.Highlighter.{
  Highlighter, created, ask, is_loaded, ensure_highlighter, highlight_sync,
}
use haste_server.Highlighter.Grammars.{ensure_highlighter-highlight_sync}

abbrev with_go : Highlighter
with_go = record { creation = created; loaded = codes "go" ∷ [] }

ensure_highlighter-highlight_sync_example :
    (highlight_sync (ensure_highlighter true true (codes "dart") with_go).0 (codes "dart")
      ≡ codes "dart")
    × (highlight_sync (ensure_highlighter true true (codes "dart") with_go).0 (codes "go")
        ≡ codes "go")
unfolding loader_for is_loaded ask get
ensure_highlighter-highlight_sync_example =
    ensure_highlighter-highlight_sync with_go (codes "dart") (codes "dart") (codes "go") refl refl
      refl
