-- ===== src/Languages/Detection/Tests.antt =====
-- Cases of web/src/lib/languages.test.ts.
use haste_server.Prelude.{◌≡◌, refl, arith}
use haste_server.Text.{Text, codes, is_space, trim, trim_start, trim_end, split}
use haste_server.Regex.{run, test}
use haste_server.Regex.Parser.{regex}
use haste_server.Languages.Conditions.{holds}
use haste_server.Languages.Content.{is_dart, is_json, is_log, is_yaml, is_csv}
use haste_server.Languages.Rules.{rules}
use haste_server.Languages.Json.{parses, reads, step}
use haste_server.Text.Decimal.{decimal}
use haste_server.Languages.Json.Printing.{number, no_items, item, print}
use haste_server.Languages.Detection.Printed.{Holder, a_list, value_of, detect_language-print}
use haste_server.Languages.Detection.Json.{detect_language-is_json}
use haste_server.Languages.Detection.{detect_language, sample_of}

detects :
    (detect_language (codes "package main\n\nfunc main() {}") ≡ codes "go")
    × (detect_language (codes "{\"a\": [1, 2.5e3, true]}") ≡ codes "json")
unfolding detect_language trim is_space rules holds regex test run is_dart is_json is_log is_yaml
    is_csv split
detects = (refl, refl)

-- JSON over several lines.
abbrev object_text : Text
object_text = codes "{\n  \"diff\": [1, 2],\n  \"a\": null\n}"

detect_language-is_json_example : detect_language object_text ≡ codes "json"
unfolding sample_of trim trim_start trim_end is_space is_json parses reads step
detect_language-is_json_example = detect_language-is_json object_text refl (omega arith) refl

-- A line separator in a string is no control character to JSON, but a line ends there for a pattern.
separated : detect_language (codes "[\"\u{2028}diff --git a b\"]") ≡ codes "diff"
unfolding detect_language trim is_space rules holds regex test run is_dart is_json is_log is_yaml
    is_csv split
separated = refl

abbrev numbers : Holder
numbers = a_list (item (number 12345678) (item (number 9) no_items))

detect_language-print_example : detect_language (print (value_of numbers)) ≡ codes "json"
unfolding print decimal
detect_language-print_example = detect_language-print numbers (omega arith) (omega arith) refl
