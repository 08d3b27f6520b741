-- ===== src/I18n.antt =====
-- web/src/lib/i18n/index.tsx: the translator and the counts with their units. A `MessageKey` is a
-- text, and `vars` an optional object whose values are already turned into strings.
pub mod Messages
pub mod Locales
pub mod Provider
pub mod Template
pub mod Completeness
mod Tests
use haste_server.Prelude.{
  ℕ, List, [], ◌∷◌, ◌++◌, Option, none, some, ◌==◌, if◌then◌else◌, ◌&&◌, not, any,
}
use haste_server.Text.{Text, codes, text_eq, is_word, is_empty}
use haste_server.Text.Decimal.{decimal}
use haste_server.Text.Objects.{get, object, inherited_names}
use Locales.{Locale, zh_tw, en_us, ja_jp}
use Messages.{en_entries, zh_tw_entries, ja_jp_entries}

abbrev pub Vars : Type 0
Vars = List (Text × Text)

abbrev pub Dictionary : Type 0
Dictionary = List (Text × Text)

unfoldable pub messages : Locale → Dictionary
unfolding en_entries zh_tw_entries ja_jp_entries
messages en_us = object en_entries
messages zh_tw = object zh_tw_entries
messages ja_jp = object ja_jp_entries

-- `String()` of the property that every object inherits under a name is an argument.
module _ (inherited_text : Text → Text) where
  -- `name in vars ? String(vars[name]) : whole`; `in` finds inherited properties as well.
  unfoldable pub fill : Vars → Text → Text
  fill vars name = elim (get name vars) [
    | some v ↦ v
    | none ↦
        if any (text_eq name) inherited_names
        then inherited_text name
        else b'{' ∷ (name ++ b'}' ∷ [])
  ]

  -- The replacement of `/\{(\w+)\}/g`. `open` is the name read behind a `{`, while it is one.
  replace_from : Vars → Text → Option Text → Text
  replace_from vars [] none = []
  replace_from vars [] (some name) = b'{' ∷ name
  replace_from vars (c ∷ s) none =
      let outside = c ∷ replace_from vars s none in
      let inside = replace_from vars s (some []) in if c == b'{' then inside else outside
  replace_from vars (c ∷ s) (some name) =
      let longer = replace_from vars s (some (name ++ c ∷ [])) in
      let filled = fill vars name ++ replace_from vars s none in
      let again = (b'{' ∷ name) ++ replace_from vars s (some []) in
      let literal = (b'{' ∷ name) ++ c ∷ replace_from vars s none in
      if is_word c
      then longer
      else if c == b'}' && not (is_empty name)
      then filled
      else if c == b'{'
      then again
      else literal

  unfoldable pub replace : Vars → Text → Text
  unfolding replace_from fill
  replace vars template = replace_from vars template none

-- `dict[key] ?? messages[FALLBACK][key] ?? key`
unfoldable pub template_of : Locale → Text → Text
template_of locale key = elim (get key (messages locale)) [
  | some template ↦ template
  | none ↦ elim (get key (messages en_us)) [ some template ↦ template | none ↦ key ]
]

abbrev pub Translate : Type 0
Translate = Text → Option Vars → Text

unfoldable pub translate : (Text → Text) → Locale → Translate
translate inherited_text locale key none = template_of locale key
translate inherited_text locale key (some vars) =
    replace inherited_text vars (template_of locale key)

pub data TimeUnit : Type 0 where
  second minute hour day : TimeUnit

abbrev pub unit_name : TimeUnit → Text
unit_name second = codes "second"
unit_name minute = codes "minute"
unit_name hour = codes "hour"
unit_name day = codes "day"

unfoldable pub format_count : Translate → TimeUnit → ℕ → Text
format_count t unit count =
    decimal count
    ++ (b' '
        ∷ t
            (codes "unit."
              ++ (unit_name unit
                  ++ (codes "." ++ (if count == 1 then codes "one" else codes "other"))))
            none)

unfoldable pub format_count_short : Translate → TimeUnit → ℕ → Text
format_count_short t unit count = decimal count ++ t (codes "unit.short." ++ unit_name unit) none
