-- ===== src/Languages/Conditions.antt =====
-- web/src/lib/languages.ts: the tests of the rules, which combine patterns and functions on the text.
pub mod Laws
use haste_server.Prelude.{
  String, Bool, true, false, not, ◌&&◌, ◌||◌, List, [], ◌∷◌, ◌++◌, Option, none, some,
}
use haste_server.Text.{Text, codes}
use haste_server.Regex.{Regex, test}
use haste_server.Regex.Parser.{Flags, regex}

pub data Condition : Type 0 where
  pattern : Flags → String → Condition
  both either : Condition → Condition → Condition
  lacks : Condition → Condition
  code : (Text → Bool) → Condition

abbrev pub no_flags : Flags
no_flags = record { ignore_case = false; multiline = false; dot_all = false }

-- `/…/`, `/…/m`, `/…/i` and `/…/s`.
abbrev pub re : String → Condition
re p = pattern no_flags p

abbrev pub re_m : String → Condition
re_m p = pattern (record no_flags { multiline = true }) p

abbrev pub re_i : String → Condition
re_i p = pattern (record no_flags { ignore_case = true }) p

abbrev pub re_s : String → Condition
re_s p = pattern (record no_flags { dot_all = true }) p

unfoldable pub test_if : Option Regex → Text → Bool
test_if none t = false
test_if (some r) t = test r t

unfoldable pub holds : Condition → Text → Bool
unfolding test_if
holds (pattern flags p) t = test_if (regex flags (codes p)) t
holds (both a b) t = holds a t && holds b t
holds (either a b) t = holds a t || holds b t
holds (lacks a) t = not (holds a t)
holds (code f) t = f t

is_some : Option Regex → Bool
is_some none = false
is_some (some r) = true

-- Whether every pattern of a condition can be read.
unfoldable pub readable : Condition → Bool
unfolding is_some
readable (pattern flags p) = is_some (regex flags (codes p))
readable (both a b) = readable a && readable b
readable (either a b) = readable a && readable b
readable (lacks a) = readable a
readable (code f) = true
