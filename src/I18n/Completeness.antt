-- ===== src/I18n/Completeness.antt =====
-- The dictionaries of web/src/lib/i18n/messages.ts side by side.
use haste_server.Prelude.{
  ◌≡◌, ◌≢◌, refl, Bool, true, false, not, ◌&&◌, List, [], ◌∷◌, ◌++◌, Option, none, some, ◌==◌, all,
  any, all_sound, Memᴰ, if◌then◌else◌, &&-eq-true,
}
use haste_server.Text.{Text, is_word, is_empty, text_eq, trim}
use haste_server.Text.Objects.{get}
use haste_server.I18n.{messages, template_of, Dictionary}
use haste_server.I18n.Locales.{Locale, zh_tw, en_us, ja_jp}

keys_of : Dictionary → List Text
keys_of [] = []
keys_of ((k, v) ∷ rest) = k ∷ keys_of rest

-- The `MessageKey`s, which are the keys of the English dictionary.
unfoldable pub message_keys : List Text
unfolding keys_of messages
message_keys = keys_of (messages en_us)

-- The names that `/\{(\w+)\}/g` finds.
holes_from : Text → Option Text → List Text
holes_from [] state = []
holes_from (c ∷ s) none =
    let inside = holes_from s (some []) in
    let outside = holes_from s none in if c == b'{' then inside else outside
holes_from (c ∷ s) (some name) =
    let longer = holes_from s (some (name ++ c ∷ [])) in
    let found = name ∷ holes_from s none in
    let again = holes_from s (some []) in
    let lost = holes_from s none in
    if is_word c
    then longer
    else if c == b'}' && not (is_empty name)
    then found
    else if c == b'{'
    then again
    else lost

pub holes : Text → List Text
unfolding holes_from
holes s = holes_from s none

has : Text → List Text → Bool
has name names = any (λ n. text_eq n name) names

-- The same names, in any order.
pub same_names : List Text → List Text → Bool
unfolding has
same_names a b = all (λ n. has n b) a && all (λ n. has n a) b

is_complete : Locale → Text → Bool
is_complete locale key = elim (get key (messages locale)) [
  | none ↦ false
  | some text ↦
      not (is_empty (trim text)) && same_names (holes text) (holes (template_of en_us key))
]

zh_tw_complete : all (is_complete zh_tw) message_keys ≡ true
unfolding message_keys is_complete messages get template_of holes same_names trim
zh_tw_complete = refl

en_us_complete : all (is_complete en_us) message_keys ≡ true
unfolding message_keys is_complete messages get template_of holes same_names trim
en_us_complete = refl

ja_jp_complete : all (is_complete ja_jp) message_keys ≡ true
unfolding message_keys is_complete messages get template_of holes same_names trim
ja_jp_complete = refl

is_complete-key :
    (locale : Locale) (key : Text) → Memᴰ key message_keys → is_complete locale key ≡ true
is_complete-key zh_tw key m = all_sound (is_complete zh_tw) message_keys zh_tw_complete m
is_complete-key en_us key m = all_sound (is_complete en_us) message_keys en_us_complete m
is_complete-key ja_jp key m = all_sound (is_complete ja_jp) message_keys ja_jp_complete m

-- What a key has in a language: a text of its own there, which the translator takes, which is not
-- blank, and whose placeholders are those of the English text.
pub record IsComplete (locale : Locale) (key : Text) : Type 0 where
  pub text : Text
  pub found : get key (messages locale) ≡ some text
  pub taken : template_of locale key ≡ text
  pub not_blank : trim text ≢ []
  pub same_holes : same_names (holes text) (holes (template_of en_us key)) ≡ true

not_blank_of : (s : Text) → not (is_empty s) ≡ true → s ≢ []
not_blank_of [] h = cc
not_blank_of (c ∷ s) h = cc

is_complete-IsComplete :
    (locale : Locale) (key : Text) (o : Option Text)
    → get key (messages locale) ≡ o
    → is_complete locale key ≡ true
    → IsComplete locale key
unfolding is_complete
is_complete-IsComplete locale key none e h = absurd (cc (rw (e, is_complete) at h))
is_complete-IsComplete locale key (some text) e h =
    let (blank, same) = &&-eq-true _ _ (rw (e, is_complete) at h) in
    record {
      text = text;
      found = e;
      taken = unfold template_of in rw (e, template_of) refl;
      not_blank = not_blank_of (trim text) blank;
      same_holes = same;
    }

-- In every language every message key has a text of its own, which is not blank and has the
-- placeholders of the English text; so the translator never falls back.
pub message_keys-IsComplete :
    (locale : Locale) (key : Text) → Memᴰ key message_keys → IsComplete locale key
message_keys-IsComplete locale key m =
    is_complete-IsComplete locale key (get key (messages locale)) refl
      (is_complete-key locale key m)
