-- ===== src/Languages/Conditions/Laws.antt =====
-- What a pattern of web/src/lib/languages.ts holds of, against what it is to match.
use haste_server.Prelude.{◌≡◌, ◌↔◌, refl, sym, ap, ◌∙◌, true, Option, none, some, String}
use haste_server.Text.{Text, codes}
use haste_server.Regex.{Regex, test}
use haste_server.Regex.Matching.{Found, test-Found}
use haste_server.Regex.Parser.{Flags, regex}
use haste_server.Languages.Conditions.{pattern, test_if, holds, is_some, readable}

-- A pattern that can be read is read as a regular expression, and it holds of exactly the texts in which
-- that expression has a match at some place.
pub holds-Found :
    (flags : Flags) (p : String) (text : Text)
    → readable (pattern flags p) ≡ true
    → (r : Regex) × (regex flags (codes p) ≡ some r)
      × ((holds (pattern flags p) text ≡ true) ↔ Found r none text)
unfolding readable holds is_some test_if
holds-Found flags p text can_read = read_as (regex flags (codes p)) refl can_read
  where
    none_fails : is_some none ≡ true → ⊥
    none_fails h = cc h

    read_as :
        (o : Option Regex)
        → regex flags (codes p) ≡ o
        → is_some o ≡ true
        → (r : Regex) × (regex flags (codes p) ≡ some r)
          × ((holds (pattern flags p) text ≡ true) ↔ Found r none text)
    read_as none e h = absurd (none_fails h)
    read_as (some r) e h =
        let same : holds (pattern flags p) text ≡ test r text = ap (λ o. test_if o text) e in
        let (to, from) = test-Found r text in
        (r, e, ((λ k. to (sym same ∙ k)), (λ k. same ∙ from k)))
