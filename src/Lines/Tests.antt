-- ===== src/Lines/Tests.antt =====
-- web/src/lib/lines.test.ts and the selections of web/src/lib/lines.ts on concrete values.
use haste_server.Prelude.{◌≡◌, refl, none, some, arith}
use haste_server.Text.{codes, trim}
use haste_server.Text.Decimal.{decimal, number}
use haste_server.Lines.{LineRange, parse_line_hash, format_line_hash}
use haste_server.Lines.Selection.{IsRange}
use haste_server.Lines.Parsing.{parse_line_hash-format_line_hash}

reads :
    (parse_line_hash (codes " #L17-25 ") ≡ some (record { start = 17; end = 25 }))
    × (parse_line_hash (codes "L25-L17") ≡ some (record { start = 17; end = 25 }))
    × (parse_line_hash (codes "#L-5") ≡ none)
    × (parse_line_hash (codes "#L0") ≡ none)
    × (parse_line_hash (codes "#L1x") ≡ none)
unfolding parse_line_hash trim number
reads = (refl, refl, refl, refl, refl)

writes : format_line_hash (record { start = 120; end = 4000 }) ≡ codes "#L120-L4000"
unfolding format_line_hash decimal
writes = refl

abbrev lines_2_9 : LineRange
lines_2_9 = record { start = 2; end = 9 }

lines_2_9-IsRange : IsRange lines_2_9
lines_2_9-IsRange = record { positive = omega arith; in_order = omega arith }

parse_line_hash-format_line_hash_example :
    parse_line_hash (format_line_hash lines_2_9) ≡ some lines_2_9
parse_line_hash-format_line_hash_example =
    parse_line_hash-format_line_hash lines_2_9 lines_2_9-IsRange (omega arith)
