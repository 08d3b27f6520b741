-- ===== src/Languages/Content.antt =====
-- web/src/lib/languages.ts: the tests of a text that are functions, over its lines and its markers.
pub mod Laws
use haste_server.Prelude.{
  ℕ, ◌*◌, String, Bool, true, false, not, ◌&&◌, ◌||◌, List, [], ◌∷◌, map, ltb, leb, ◌==◌,
  if◌then◌else◌, length, take, any, all, filter,
}
use haste_server.Text.{Text, is_empty, trim, trim_start, split, starts_with}
use haste_server.Languages.Json.{parses}
use haste_server.Languages.Conditions.{Condition, holds, re, re_m, re_i}

unfoldable pub dart_strong : List Condition
dart_strong =
    re_m "^\\s*import\\s+'(?:dart|package):"
    ∷ re "@override\\b"
    ∷ re "\\b(?:StatelessWidget|StatefulWidget|BuildContext|runApp|setState)\\b"
    ∷ re "\\b(?:WidgetRef|ConsumerWidget|ChangeNotifier|StateNotifier|StateProvider)\\b"
    ∷ re "\\bextends\\s+State<"
    ∷ re "\\brequired\\s+this\\.\\w+"
    ∷ re "\\bsuper\\.key\\b"
    ∷ re "\\blate\\s+(?:final|var)\\b"
    ∷ re "\\bWidget\\s+build\\s*\\("
    ∷ re "\\)\\s*async\\s*\\{"
    ∷ re "\\b(?:double|int|String|bool|num|void)\\s+get\\s+\\w+"
    ∷ []

unfoldable pub dart_weak : List Condition
dart_weak =
    re "\\bvoid\\s+main\\s*\\(\\s*\\)"
    ∷ re "<\\s*[A-Z]\\w*\\s*>\\s*\\["
    ∷ re "\\bfor\\s*\\(\\s*final\\s+\\w+\\s+in\\b"
    ∷ re "\\.toList\\(\\)"
    ∷ re "\\bfinal\\s+\\w+\\s*="
    ∷ re "\\bprint\\('"
    ∷ []

unfoldable pub is_dart : Text → Bool
unfolding dart_strong dart_weak
is_dart text =
    any (λ c. holds c text) dart_strong || leb 2 (length (filter (λ c. holds c text) dart_weak))

unfoldable pub is_json : Text → Bool
unfolding parses
is_json [] = false
is_json (c ∷ text) = (c == b'{' || c == b'[') && parses (c ∷ text)

-- The lines that are not blank and no comments.
unfoldable pub content_lines : Text → List Text
unfolding trim trim_start split
content_lines text =
    filter (λ l. not (is_empty (trim l)) && not (starts_with (trim_start l) (b'#' ∷ [])))
      (split b'\n' text)

-- `part / whole > tenths / 10`, without rounding.
abbrev pub above_tenths : ℕ → ℕ → ℕ → Bool
above_tenths tenths part whole = ltb (tenths * whole) (10 * part)

abbrev pub yaml_line : Condition
yaml_line = re "^\\s*(-\\s+\\S|[\\w.$-]+ *:( |$))"

unfoldable pub is_yaml : Text → Bool
unfolding content_lines
is_yaml text =
    let lines = content_lines text in
    if holds (re_m "[{};]\\s*$") text
    then false
    else if ltb (length lines) 2
    then false
    else above_tenths 7 (length (filter (λ l. holds yaml_line l) lines)) (length lines)

abbrev pub log_line : Condition
log_line =
    re_i
      "^\\s*(\\[?\\d{4}-\\d{2}-\\d{2}[T ]\\d{2}:\\d{2}|\\d{2}:\\d{2}:\\d{2}|\\[?(TRACE|DEBUG|INFO|WARN(ING)?|ERROR|FATAL)\\b)"

unfoldable pub is_log : Text → Bool
unfolding content_lines
is_log text =
    let lines = content_lines text in
    if ltb (length lines) 2
    then false
    else above_tenths 6 (length (filter (λ l. holds log_line l) lines)) (length lines)

-- `counts[0] > 1 && counts.every((c) => c === counts[0])`
same_counts : List ℕ → Bool
same_counts [] = false
same_counts (n ∷ counts) = ltb 1 n && all (λ c. c == n) counts

unfoldable pub is_csv : Text → Bool
unfolding content_lines same_counts
is_csv text =
    let lines = content_lines text in
    if ltb (length lines) 2
    then false
    else same_counts (map (λ l. length (split b',' l)) (take 20 lines))
