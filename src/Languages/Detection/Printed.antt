-- ===== src/Languages/Detection/Printed.antt =====
-- `detectLanguage` of web/src/lib/languages.ts on compact JSON texts.
use haste_server.Prelude.{
  ℕ, zero, suc, ◌≤◌, ◌≡◌, refl, sym, ap, ◌∙◌, true, false, [], ◌∷◌, ◌++◌, append_assoc, any, length,
  take, arith,
}
use mathlib.Core.Path.{subst}
use haste_server.Text.{Text, codes, trim, trim_start, trim_end, trim_end-append, is_space}
use haste_server.Languages.Json.Printing.{
  Value, Items, no_items, item, Members, no_members, member, list_of, record_of, print, print_items,
  print_members, print_units,
}
use haste_server.Languages.Content.{is_json}
use haste_server.Languages.Content.Laws.{is_json-print}
use haste_server.Languages.Detection.Json.{is_separator, detect_language-is_json}
use haste_server.Languages.Detection.{detect_language, sample_of}

take-short : (n : ℕ) (s : Text) → length s ≤ n → take n s ≡ s
take-short zero [] h = refl
take-short zero (c ∷ s) h = absurd (omega arith)
take-short (suc n) [] h = refl
take-short (suc n) (c ∷ s) h = ap (λ r. c ∷ r) (take-short n s (omega arith))

-- A text that ends in a unit that is no space.
record EndsIn (c : ℕ) (s : Text) : Type 0 where
  before : Text
  whole : s ≡ before ++ c ∷ []

EndsIn-append : (c : ℕ) (front s : Text) → EndsIn c s → EndsIn c (front ++ s)
EndsIn-append c front s e = record {
  before = front ++ e.before;
  whole = ap (λ r. front ++ r) e.whole ∙ sym (append_assoc front e.before (c ∷ []));
}

trim-EndsIn :
    (b c : ℕ) (s : Text)
    → is_space b ≡ false
    → is_space c ≡ false
    → EndsIn c (b ∷ s)
    → trim (b ∷ s) ≡ b ∷ s
unfolding trim trim_start
trim-EndsIn b c s opens closes e =
    rw (trim, trim_start, opens)
      (subst (λ t. trim_end t ≡ t) (sym e.whole) (trim_end-append e.before c closes))

items-EndsIn : (xs : Items) → EndsIn b']' (print_items xs)
unfolding print
items-EndsIn no_items = record { before = []; whole = refl }
items-EndsIn (item v xs) = EndsIn-append b']' (b',' ∷ print v) (print_items xs) (items-EndsIn xs)

members-EndsIn : (ms : Members) → EndsIn b'}' (print_members ms)
unfolding print
members-EndsIn no_members = record { before = []; whole = refl }
members-EndsIn (member k v ms) =
    EndsIn-append b'}' (b',' ∷ b'"' ∷ print_units k) (b':' ∷ (print v ++ print_members ms))
      (EndsIn-append b'}' (b':' ∷ print v) (print_members ms) (members-EndsIn ms))

list-EndsIn : (xs : Items) → EndsIn b']' (print (list_of xs))
unfolding print
list-EndsIn no_items = record { before = b'[' ∷ []; whole = refl }
list-EndsIn (item v xs) = EndsIn-append b']' (b'[' ∷ print v) (print_items xs) (items-EndsIn xs)

record-EndsIn : (ms : Members) → EndsIn b'}' (print (record_of ms))
unfolding print
record-EndsIn no_members = record { before = b'{' ∷ []; whole = refl }
record-EndsIn (member k v ms) =
    EndsIn-append b'}' (b'{' ∷ b'"' ∷ print_units k) (b':' ∷ (print v ++ print_members ms))
      (EndsIn-append b'}' (b':' ∷ print v) (print_members ms) (members-EndsIn ms))

list-trim : (xs : Items) → trim (print (list_of xs)) ≡ print (list_of xs)
unfolding print is_space
list-trim no_items = trim-EndsIn b'[' b']' _ refl refl (list-EndsIn no_items)
list-trim (item v xs) = trim-EndsIn b'[' b']' _ refl refl (list-EndsIn (item v xs))

record-trim : (ms : Members) → trim (print (record_of ms)) ≡ print (record_of ms)
unfolding print is_space
record-trim no_members = trim-EndsIn b'{' b'}' _ refl refl (record-EndsIn no_members)
record-trim (member k v ms) = trim-EndsIn b'{' b'}' _ refl refl (record-EndsIn (member k v ms))

-- An array or an object.
pub data Holder : Type 0 where
  a_list : Items → Holder
  a_record : Members → Holder

abbrev pub value_of : Holder → Value
value_of (a_list xs) = list_of xs
value_of (a_record ms) = record_of ms

sample_of-print :
    (h : Holder)
    → length (print (value_of h)) ≤ 4_000
    → sample_of (print (value_of h)) ≡ print (value_of h)
unfolding sample_of
sample_of-print (a_list xs) short =
    ap trim (take-short 4_000 (print (list_of xs)) short) ∙ list-trim xs
sample_of-print (a_record ms) short =
    ap trim (take-short 4_000 (print (record_of ms)) short) ∙ record-trim ms

is_json-value_of : (h : Holder) → is_json (print (value_of h)) ≡ true
is_json-value_of (a_list xs) = (is_json-print xs no_members).0
is_json-value_of (a_record ms) = (is_json-print no_items ms).1

-- Every array and every object, of natural numbers, texts, truth values and nulls however deep, is taken
-- for JSON when it is printed without white space, with its quotes, backslashes and control characters
-- escaped, provided that this has 12 to 4000 code units and no U+2028 or U+2029.
pub detect_language-print :
    (h : Holder)
    → 12 ≤ length (print (value_of h))
    → length (print (value_of h)) ≤ 4_000
    → any is_separator (print (value_of h)) ≡ false
    → detect_language (print (value_of h)) ≡ codes "json"
detect_language-print h long short plain =
    let same = sym (sample_of-print h short) in
    detect_language-is_json (print (value_of h))
      (subst (λ s. is_json s ≡ true) same (is_json-value_of h))
      (subst (λ s. 12 ≤ length s) same long) (subst (λ s. any is_separator s ≡ false) same plain)
