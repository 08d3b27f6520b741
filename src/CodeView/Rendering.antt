-- ===== src/CodeView/Rendering.antt =====
-- The plain rendering, its links and the scrolling of web/src/components/code-view.tsx.
use haste_server.Prelude.{
  ℕ, ◌+◌, ◌≤◌, ◌<◌, ◌^◌, ◌≡◌, refl, sym, ==_refl, ap, ◌∙◌, Bool, true, false, List, [], ◌∷◌, ◌++◌,
  Option, none, some, map, arith, Memᴰ, any, ◌==◌,
}
use mathlib.Core.Path.{subst}
use haste_server.Text.{Text, codes, split}
use haste_server.Text.Decimal.{decimal}
use haste_server.Lines.{LineRange, parse_line_hash, format_line_hash}
use haste_server.Lines.Parsing.{parse_line_hash-format_line_hash}
use haste_server.CodeView.{Line, lines_from, plain_lines, on_click, scroll}
use haste_server.CodeView.Painting.{Numbered}

lines_from-Numbered :
    (label : ℕ → Text) (i : ℕ) (ts : List Text) → Numbered (i + 1) (lines_from label i ts)
unfolding lines_from
lines_from-Numbered label i [] = tt
lines_from-Numbered label i (t ∷ ts) = (refl, lines_from-Numbered label (i + 1) ts)

lines_from-text :
    (label : ℕ → Text) (i : ℕ) (ts : List Text)
    → map (λ (l : Line). l.text) (lines_from label i ts) ≡ ts
unfolding lines_from
lines_from-text label i [] = refl
lines_from-text label i (t ∷ ts) = ap (λ rest. t ∷ rest) (lines_from-text label (i + 1) ts)

-- The plain rendering shows the lines of the code in order, numbered from 1.
plain_lines-text :
    (label : ℕ → Text) (code : Text)
    → (map (λ (l : Line). l.text) (plain_lines label code) ≡ split b'\n' code)
      × Numbered 1 (plain_lines label code)
unfolding plain_lines
plain_lines-text label code =
    (lines_from-text label 0 (split b'\n' code), lines_from-Numbered label 0 (split b'\n' code))

-- The range of one line.
abbrev pub one_line : ℕ → LineRange
one_line n = record { start = n; end = n }

format_line_hash-one_line : (n : ℕ) → format_line_hash (one_line n) ≡ codes "#L" ++ decimal n
unfolding format_line_hash
format_line_hash-one_line n = rw (==_refl n) refl

lines_from-link :
    (label : ℕ → Text) (i : ℕ) (ts : List Text) (l : Line)
    → Memᴰ l (lines_from label i ts)
    → (l.href ≡ format_line_hash (one_line l.number)) × (1 ≤ l.number)
unfolding lines_from
lines_from-link label i [] l m = elim m [ ]
lines_from-link label i (t ∷ ts) l (Memᴰ.tail m) = lines_from-link label (i + 1) ts l m
lines_from-link label i (t ∷ ts) l (Memᴰ.head e) = (
  subst (λ (k : Line). k.href ≡ format_line_hash (one_line k.number)) (sym e)
      (sym (format_line_hash-one_line (i + 1))),
  omega (arith, ap (λ (k : Line). k.number) e),
)

-- A line of the plain rendering, up to number 2^53 - 1: its link is the fragment that selects just
-- that line, and a click on it passes on its number and the shift key.
pub plain_lines-link :
    (label : ℕ → Text) (code : Text) (l : Line) (shift_key : Bool)
    → Memᴰ l (plain_lines label code)
    → l.number < 2 ^ 53
    → (parse_line_hash l.href ≡ some (one_line l.number))
      × (on_click (some l) shift_key ≡ some (l.number, shift_key))
unfolding plain_lines on_click
plain_lines-link label code l shift_key m small =
    let (e, first) = lines_from-link label 0 (split b'\n' code) l m in
    (
      ap parse_line_hash e
          ∙ parse_line_hash-format_line_hash (one_line l.number)
              (record { positive = first; in_order = omega arith }) small,
      ground arith,
    )

scroll-done :
    (selection : Option LineRange) (ls : List Line) → scroll selection true ls ≡ (true, none)
unfolding scroll
scroll-done none ls = refl
scroll-done (some r) ls = refl

scroll-found :
    (r : LineRange) (ls : List Line)
    → any (λ l. l.number == r.start) ls ≡ true
    → scroll (some r) false ls ≡ (true, some r.start)
unfolding scroll
scroll-found r ls there = rw there refl

-- A selection whose first line is there is scrolled to, and from then on the view does not scroll
-- again, whatever is selected and whatever lines come.
pub scroll-once :
    (r : LineRange) (later : Option LineRange) (ls more : List Line)
    → any (λ l. l.number == r.start) ls ≡ true
    → (scroll (some r) false ls ≡ (true, some r.start))
      × (scroll later (scroll (some r) false ls).0 more ≡ (true, none))
scroll-once r later ls more there =
    let e = scroll-found r ls there in
    (e, ap (λ (s : Bool × Option ℕ). scroll later s.0 more) e ∙ scroll-done later more)
