-- ===== src/Lines.antt =====
-- web/src/lib/lines.ts: the line selection in the URL fragment. `null` is `none`.
pub mod Parsing
pub mod Selection
mod Tests
use Prim.Native.Nat.{min, max}
use haste_server.Prelude.{
  ℕ, Bool, true, false, not, ◌||◌, [], ◌∷◌, ◌++◌, Option, none, some, ltb, ◌==◌, if◌then◌else◌,
}
use haste_server.Text.{Text, is_digit, is_empty, trim, codes}
use haste_server.Text.Decimal.{decimal, number}

pub record LineRange : Type 0 where
  pub start : ℕ
  pub end : ℕ

-- `\d*`: the longest run of digits in front, and what follows it.
span_digits : Text → Text × Text
span_digits [] = ([], [])
span_digits (c ∷ s) =
    let (ds, rest) = span_digits s in if is_digit c then (c ∷ ds, rest) else ([], c ∷ s)

-- An optional code unit in front, `c?`.
skip_optional : ℕ → Text → Text
skip_optional c [] = []
skip_optional c (d ∷ s) = if d == c then s else d ∷ s

-- `(?:-L?(\d+))?$` behind the first number.
match_bound : Text → Text → Option (Text × Option Text)
unfolding span_digits skip_optional
match_bound first [] = some (first, none)
match_bound first (c ∷ s) =
    let (second, rest) = span_digits (skip_optional b'L' s) in
    if not (c == b'-') || is_empty second || not (is_empty rest)
    then none
    else some (first, some second)

-- `^#?L(\d+)(?:-L?(\d+))?$`, with its two groups.
match_first : Text → Option (Text × Option Text)
unfolding span_digits match_bound
match_first [] = none
match_first (c ∷ s) =
    let (first, rest) = span_digits s in
    if not (c == b'L') || is_empty first then none else match_bound first rest

match_hash : Text → Option (Text × Option Text)
unfolding match_first skip_optional
match_hash s = match_first (skip_optional b'#' s)

-- `Number(s)`, refused unless it is an integer (not Infinity) of at least 1.
line_number : Text → Option ℕ
line_number s = elim (number s) [ none ↦ none | some n ↦ if ltb n 1 then none else some n ]

ordered : Option ℕ → Option ℕ → Option LineRange
ordered none second = none
ordered (some first) none = none
ordered (some first) (some second) =
    some (record { start = min first second; end = max first second })

range_of : Option (Text × Option Text) → Option LineRange
unfolding ordered line_number
range_of none = none
range_of (some (first, none)) = ordered (line_number first) (line_number first)
range_of (some (first, some second)) = ordered (line_number first) (line_number second)

unfoldable pub parse_line_hash : Text → Option LineRange
unfolding match_hash range_of
parse_line_hash hash = range_of (match_hash (trim hash))

unfoldable pub format_line_hash : LineRange → Text
format_line_hash range =
    if range.start == range.end
    then codes "#L" ++ decimal range.start
    else codes "#L" ++ (decimal range.start ++ (codes "-L" ++ decimal range.end))

unfoldable pub select_line : Option LineRange → ℕ → Bool → LineRange
select_line current line false = record { start = line; end = line }
select_line none line true = record { start = line; end = line }
select_line (some current) line true = record {
  start = min current.start line;
  end = max current.start line;
}

unfoldable pub clamp_range : Option LineRange → ℕ → Option LineRange
clamp_range none line_count = none
clamp_range (some range) line_count =
    if ltb line_count range.start
    then none
    else some (record { start = range.start; end = min range.end line_count })
