-- ===== src/CodeEditor/Tests.antt =====
-- The editor on a concrete text.
use haste_server.Prelude.{◌≡◌, refl, [], ◌∷◌, ◌++◌}
use haste_server.Text.{Text, codes}
use haste_server.Highlighter.{Highlighter, created, highlight_sync}
use haste_server.CodeEditor.{
  live_highlight_limit, ask_grammar, Request, CodeEditor, is_too_large, open_editor, on_props,
  on_ensured, layer, markup,
}
use haste_server.CodeEditor.Coloring.{Reach, opened, later, props, ensured}
use haste_server.CodeEditor.Colored.{Typing, resolved, typed, late, Typing-layer}

abbrev shiki : Highlighter
shiki = record { creation = created; loaded = codes "go" ∷ [] }

abbrev code_to_html : Text → Text → Text
code_to_html value language = b'<' ∷ (language ++ (b'>' ∷ value))

-- The language is changed and changed back, and the first grammar arrives too late.
abbrev edited : CodeEditor
edited =
    on_ensured (record { id = 0; language = codes "go" })
      (on_props (codes "x") (codes "go")
        (on_props (codes "x") (codes "text") (open_editor [] (codes "go"))))

edited-Reach : Reach edited
edited-Reach =
    later
      (later (later (opened [] (codes "go")) (props (codes "x") (codes "text")))
        (props (codes "x") (codes "go")))
      (ensured (record { id = 0; language = codes "go" }))

abbrev asked : Request
asked = record { id = 2; language = codes "go" }

-- Its grammar arrives, the text changes, and the second one arrives too late.
abbrev colored : CodeEditor
colored =
    on_ensured (record { id = 1; language = codes "text" })
      (on_props (codes "xy") (codes "go") (on_ensured asked edited))

colored-Typing : Typing asked edited colored
unfolding on_ensured is_too_large live_highlight_limit on_props open_editor ask_grammar
colored-Typing =
    late (record { id = 1; language = codes "text" }) (λ e. cc e) (typed (codes "xy") refl resolved)

Typing-layer_example :
    (codes "go" ≡ edited.language)
    × (colored.language ≡ edited.language)
    × (layer code_to_html shiki colored
        ≡ markup (code_to_html colored.value (highlight_sync shiki colored.language)))
unfolding is_too_large live_highlight_limit on_ensured on_props open_editor ask_grammar
Typing-layer_example =
    Typing-layer code_to_html shiki asked (λ value language. refl) edited-Reach refl refl
      colored-Typing
