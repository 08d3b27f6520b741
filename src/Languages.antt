-- ===== src/Languages.antt =====
-- web/src/lib/languages.ts: the catalogue, its labels and its grammars, with the search of
-- web/src/components/language-picker.tsx and the label of web/src/hooks/use-language-label.ts.
mod Loaders
mod Catalogue
pub mod Coverage
pub mod Picker
pub mod Menu
pub mod Conditions
pub mod Json
pub mod Content
pub mod Rules
pub mod Detection
mod Tests
unfoldable pub use Loaders.{loader_entries}
pub use Catalogue.{CatalogueEntry}
unfoldable pub use Catalogue.{catalogue}
use haste_server.Prelude.{
  String, Bool, true, false, List, [], ◌∷◌, map, Option, none, some, any, if◌then◌else◌,
}
use haste_server.Text.{Text, codes, text_eq, is_empty}
use haste_server.Text.Objects.{get, object, inherited_names}

pub record LanguageOption : Type 0 where
  pub id : Text
  pub label : Text
  pub aliases : Option Text

abbrev pub plain : Text
plain = codes "text"

text_of : Option String → Option Text
text_of none = none
text_of (some s) = some (codes s)

option_of : CatalogueEntry → LanguageOption
unfolding text_of
option_of e = record { id = codes e.id; label = codes e.label; aliases = text_of e.aliases }

options_of : List CatalogueEntry → List LanguageOption
unfolding option_of
options_of [] = []
options_of (e ∷ rest) = option_of e ∷ options_of rest

unfoldable pub languages : List LanguageOption
unfolding options_of catalogue
languages = options_of catalogue

-- `new Map(…).get(id)`: of entries with one key the last counts.
find_label : Text → List LanguageOption → Option Text
find_label id [] = none
find_label id (l ∷ rest) =
    let own = if text_eq l.id id then some l.label else none in
    elim (find_label id rest) [ some later ↦ some later | none ↦ own ]

label_of : Text → Option Text
unfolding find_label languages
label_of id = find_label id languages

label_or : Text → Text → Text
unfolding label_of
label_or id default = elim (label_of id) [ some label ↦ label | none ↦ default ]

-- An `id` that is undefined or empty is plain text, whose label the code asserts to exist; one that
-- has no label is shown as it is.
unfoldable pub language_label : Option Text → Text
unfolding label_or
language_label none = label_or plain []
language_label (some id) = if is_empty id then label_or plain [] else label_or id id

-- `loaders[id]`: a grammar's own loader, a function of `Object.prototype`, or undefined.
pub data Loader : Type 0 where
  grammar : Text → Loader
  inherited : Loader
  missing : Loader

unfoldable pub loader_for : Text → Loader
unfolding loader_entries
loader_for id = elim (get id (object loader_entries)) [
  | some module_name ↦ grammar module_name
  | none ↦ if any (text_eq id) inherited_names then inherited else missing
]

-- `useLanguageLabel`, with the translator's answer for `lang.plain`.
unfoldable pub translated_label : Text → Text → Text
translated_label plain_text id =
    if is_empty id
    then plain_text
    else if text_eq id plain
    then plain_text
    else language_label (some id)
