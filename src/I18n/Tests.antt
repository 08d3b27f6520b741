-- ===== src/I18n/Tests.antt =====
-- The languages and the translator on concrete inputs.
use haste_server.Prelude.{◌≡◌, List, refl, [], ◌∷◌, ◌++◌, arith}
use haste_server.Text.{Text, codes}
use haste_server.Storage.Memory.{memory}
use haste_server.I18n.Locales.{ja_jp}
use haste_server.I18n.Provider.{Provider, fixed, mount, set_preference, locale}
use haste_server.I18n.Provider.Laws.{resolve, mount-set_preference}
use haste_server.I18n.{Vars, replace}
use haste_server.I18n.Template.{Segment, literal, hole, print, render, replace-print}

abbrev vars : Vars
vars = (codes "n", codes "7") ∷ []

abbrev line_segments : List Segment
line_segments =
    literal (codes "Line ")
    ∷ hole (codes "n")
    ∷ literal (codes "}")
    ∷ hole (codes "m")
    ∷ hole (codes "valueOf")
    ∷ []

-- How one of the engines prints a function of its own.
abbrev native : Text → Text
native name = codes "function " ++ (name ++ codes "() { [native code] }")

replace-print_example : replace native vars (print line_segments) ≡ render native vars line_segments
replace-print_example = replace-print native vars line_segments (ground arith)

abbrev start_provider : Provider memory
start_provider = mount memory [] (codes "en-GB" ∷ [])

mount-set_preference_example :
    let q =
      mount memory (set_preference memory (fixed ja_jp) start_provider).store (codes "fr" ∷ []) in
    (q.preference ≡ fixed ja_jp) × (locale memory q ≡ resolve (fixed ja_jp) (codes "fr" ∷ []))
unfolding mount
mount-set_preference_example =
    mount-set_preference memory start_provider (fixed ja_jp) (codes "fr" ∷ []) refl
