-- ===== src/Languages/Detection.antt =====
-- web/src/lib/languages.ts: `detectLanguage`, the first rule whose test a sample passes.
pub mod Laws
mod Tests
mod Corpus
pub mod Shebang
pub mod Json
pub mod Printed
use haste_server.Prelude.{String, List, [], ◌∷◌, ltb, if◌then◌else◌, length, take}
use haste_server.Text.{Text, codes, trim}
use haste_server.Languages.{plain}
use haste_server.Languages.Conditions.{holds}
use haste_server.Languages.Rules.{Rule, rules}

-- The loop over the rules.
unfoldable pub first_match : List Rule → Text → Text
first_match [] sample = plain
first_match (rule ∷ rest) sample =
    if holds rule.test sample then codes rule.id else first_match rest sample

unfoldable pub sample_of : Text → Text
sample_of text = trim (take 4000 text)

unfoldable pub detect_language : Text → Text
unfolding first_match sample_of
detect_language text =
    if ltb (length (sample_of text)) 12 then plain else first_match rules (sample_of text)
