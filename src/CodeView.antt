-- ===== src/CodeView.antt =====
-- web/src/components/code-view.tsx: the plain rendering, the highlighted lines, scrolling and clicks.
pub mod Painting
pub mod Rendering
pub mod Highlighting
mod Tests
use haste_server.Prelude.{
  ℕ, zero, suc, ◌+◌, ◌-◌, Bool, true, false, List, [], ◌∷◌, ◌++◌, Option, none, some, ltb, ◌==◌,
  if◌then◌else◌, map, any,
}
use haste_server.Text.{Text, codes, split}
use haste_server.Text.Decimal.{decimal}
use haste_server.Lines.{LineRange}

-- A `.line` of the markup: `data-line`, the link in it and `data-highlighted`.
pub record Line : Type 0 where
  pub number : ℕ
  pub href : Text
  pub label : Text
  pub text : Text
  pub highlighted : Bool

-- The lines of the plain rendering, from the index `i`.
unfoldable pub lines_from : (ℕ → Text) → ℕ → List Text → List Line
lines_from label i [] = []
lines_from label i (text ∷ rest) =
    record {
      number = i + 1;
      href = codes "#L" ++ decimal (i + 1);
      label = label (i + 1);
      text = text;
      highlighted = false;
    }
    ∷ lines_from label (i + 1) rest

unfoldable pub plain_lines : (ℕ → Text) → Text → List Line
plain_lines label code = lines_from label 0 (split b'\n' code)

-- `delete el.dataset.highlighted`
unfoldable pub unmark : Line → Line
unmark l = record l { highlighted = false }

-- The first line with this number is marked.
unfoldable pub mark : ℕ → List Line → List Line
mark n [] = []
mark n (l ∷ rest) =
    let marked = mark n rest in
    if l.number == n then record l { highlighted = true } ∷ rest else l ∷ marked

-- The loop over `count` line numbers from `line`.
unfoldable pub mark_range : ℕ → ℕ → List Line → List Line
mark_range zero line ls = ls
mark_range (suc count) line ls = mark_range count (line + 1) (mark line ls)

-- The effect on `[selection, html]`.
unfoldable pub paint : Option LineRange → List Line → List Line
paint none ls = map unmark ls
paint (some r) ls = mark_range (r.end + 1 - r.start) r.start (map unmark ls)

-- The effect that scrolls: `hasScrolled` after it, and the line that is scrolled to.
unfoldable pub scroll : Option LineRange → Bool → List Line → Bool × Option ℕ
scroll none has_scrolled ls = (has_scrolled, none)
scroll (some r) true ls = (true, none)
scroll (some r) false ls =
    if any (λ l. l.number == r.start) ls then (true, some r.start) else (false, none)

-- `onClick`: the line whose link was clicked, and whether the range is extended.
unfoldable pub on_click : Option Line → Bool → Option (ℕ × Bool)
on_click none shift_key = none
on_click (some l) shift_key = if ltb l.number 1 then none else some (l.number, shift_key)
