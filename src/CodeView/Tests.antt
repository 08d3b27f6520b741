-- ===== src/CodeView/Tests.antt =====
-- The code view on a text of three lines.
use haste_server.CodeView.Highlighting.{
  Props, View, same_props, highlight_again, open_view, on_props, on_highlighted,
}
use haste_server.CodeView.Highlighting.Current.{Reach, opened, changed, highlighted, Reach-html}
use haste_server.Prelude.{ℕ, ◌≡◌, refl, Bool, true, false, List, [], ◌∷◌, Option, some, Memᴰ}
use haste_server.Text.{Text, codes}
use haste_server.Lines.{LineRange}
use haste_server.CodeView.{Line, paint}
use haste_server.CodeView.Painting.{marked_by, covers, paint-covers}

abbrev label : ℕ → Text
label n = codes "Line"

abbrev line : ℕ → Bool → Line
line n shown = record { number = n; href = []; label = []; text = []; highlighted = shown }

abbrev three : List Line
three = line 1 true ∷ line 2 false ∷ line 3 false ∷ []

abbrev last_two : Option LineRange
last_two = some (record { start = 2; end = 3 })

paint-covers_example : paint last_two three ≡ marked_by (covers last_two) three
paint-covers_example = paint-covers last_two 1 three (refl, (refl, (refl, tt)))

abbrev go : Props
go = record { code = codes "x"; language = codes "go"; locale = codes "en-US" }

abbrev plain : Props
plain = record { code = codes "x"; language = codes "text"; locale = codes "en-US" }

-- The markup of a call names its language.
abbrev Made : Props → Text → Type 0
Made props result = result ≡ props.language

-- The language is changed, and both answers arrive, the one of the cancelled call last.
abbrev viewed : View
viewed =
    on_highlighted (record { id = 0; props = go }) (codes "go")
      (on_highlighted (record { id = 1; props = plain }) (codes "text")
        (on_props plain (open_view go)))

viewed-Reach :
    Reach Made (record { id = 1; props = plain } ∷ record { id = 0; props = go } ∷ []) viewed
unfolding same_props open_view highlight_again
viewed-Reach =
    highlighted _ (codes "go")
      (highlighted _ (codes "text") (changed plain (opened go) refl) (Memᴰ.head refl) refl)
      (Memᴰ.tail (Memᴰ.head refl)) refl

Reach-html_example : Made plain (codes "text")
unfolding on_highlighted on_props open_view highlight_again same_props
Reach-html_example = Reach-html Made (codes "text") viewed-Reach refl
