-- ===== src/Languages/Picker.antt =====
-- web/src/components/language-picker.tsx: the trigger's label and the search.
use haste_server.Prelude.{
  ◌≡◌, ◌≢◌, refl, ap, sym, ◌∙◌, Bool, true, List, [], ◌∷◌, ◌++◌, map, none, some, if◌then◌else◌,
  Memᴰ, append_assoc, append-nil, arith,
}
use mathlib.Core.List.{map-append}
use mathlib.Core.Path.{subst}
use haste_server.Text.{
  Text, codes, text_eq, is_empty, lower, starts_with, contains, contains-append, starts_with-append,
}
use haste_server.Languages.{LanguageOption, plain}

-- The label on the picker's button; `label` names a language, `auto_text` is the word for "auto".
unfoldable pub picker_label : (Text → Text) → Text → Text → Text → Text
picker_label label auto_text value detected =
    if text_eq value (codes "auto")
    then if text_eq detected plain
      then auto_text
      else auto_text ++ (b'(' ∷ (label detected ++ (b')' ∷ [])))
    else label value

-- The scores 1, 0.5 and 0 of an item.
pub data Score : Type 0 where
  full half zero : Score

-- `texts.join(" ")`
join : List Text → Text
join [] = []
join (s ∷ []) = s
join (s ∷ t ∷ rest) = s ++ (b' ' ∷ join (t ∷ rest))

unfoldable pub score : Text → Text → List Text → Score
unfolding join
score item search keywords =
    let haystack = map lower (join (item ∷ keywords)) in
    let needle = map lower search in
    if is_empty needle
    then full
    else if starts_with haystack needle
    then full
    else if contains haystack needle
    then half
    else zero

-- The keywords of a language: its label, and its aliases or the empty text.
unfoldable pub keywords_of : LanguageOption → List Text
keywords_of l = l.label ∷ (elim l.aliases [ none ↦ [] | some a ↦ a ]) ∷ []

record Infix (k s : Text) : Type 0 where
  before : Text
  after : Text
  whole : s ≡ before ++ (k ++ after)

join-Infix : (k : Text) (ks : List Text) → Memᴰ k ks → Infix k (join ks)
unfolding join
join-Infix k [] m = elim m [ ]
join-Infix k (s ∷ []) (Memᴰ.head e) = record {
  before = [];
  after = [];
  whole = sym e ∙ sym (append-nil k);
}
join-Infix k (s ∷ []) (Memᴰ.tail m) = elim m [ ]
join-Infix k (s ∷ t ∷ rest) (Memᴰ.head e) = record {
  before = [];
  after = b' ' ∷ join (t ∷ rest);
  whole = ap (λ r. r ++ (b' ' ∷ join (t ∷ rest))) (sym e);
}
join-Infix k (s ∷ t ∷ rest) (Memᴰ.tail m) =
    let i = join-Infix k (t ∷ rest) m in
    record {
      before = s ++ (b' ' ∷ i.before);
      after = i.after;
      whole =
          ap (λ r. s ++ (b' ' ∷ r)) i.whole ∙ sym (append_assoc s (b' ' ∷ i.before) (k ++ i.after));
    }

contains_of_Infix : (p s : Text) → Infix p s → contains s p ≡ true
contains_of_Infix p s i = rw i.whole (contains-append i.before p i.after)

Infix-lower : (p s : Text) → Infix p s → Infix (map lower p) (map lower s)
Infix-lower p s i = record {
  before = map lower i.before;
  after = map lower i.after;
  whole =
      ap (map lower) i.whole
      ∙ map-append lower i.before (p ++ i.after)
      ∙ ap (λ u. map lower i.before ++ u) (map-append lower p i.after);
}

join-prefix :
    (item : Text) (keywords : List Text) → (rest : Text) × (join (item ∷ keywords) ≡ item ++ rest)
unfolding join
join-prefix item [] = ([], sym (append-nil item))
join-prefix item (k ∷ keywords) = (b' ' ∷ join (k ∷ keywords), refl)

ranked-ne-zero :
    (a b c : Bool)
    → c ≡ true
    → (if a then full else if b then full else if c then half else zero) ≢ zero
ranked-ne-zero a b c h = ground arith

Infix-trans : (r s t : Text) → Infix r s → Infix s t → Infix r t
Infix-trans r s t i j = record {
  before = j.before ++ i.before;
  after = i.after ++ j.after;
  whole =
      j.whole
      ∙ ap (λ u. j.before ++ (u ++ j.after)) i.whole
      ∙ ap (λ u. j.before ++ u) (append_assoc i.before (r ++ i.after) j.after)
      ∙ ap (λ u. j.before ++ (i.before ++ u)) (append_assoc r i.after j.after)
      ∙ sym (append_assoc j.before i.before (r ++ (i.after ++ j.after)));
}

ranked-full :
    (a b c : Bool)
    → b ≡ true
    → (if a then full else if b then full else if c then half else zero) ≡ full
ranked-full a b c h = ground arith

-- Typing any part of an item's name or of one of its keywords, in any case of its letters, keeps the
-- item in the list.
pub score-ne-zero :
    (item k before search after : Text) (keywords : List Text)
    → Memᴰ k (item ∷ keywords)
    → map lower k ≡ map lower (before ++ (search ++ after))
    → score item search keywords ≢ zero
unfolding score
score-ne-zero item k before search after keywords m e =
    let here =
      Infix-lower search (before ++ (search ++ after))
        (record { before = before; after = after; whole = refl }) in
    let in_k = subst (Infix (map lower search)) (sym e) here in
    let in_all =
      Infix-trans (map lower search) (map lower k) (map lower (join (item ∷ keywords))) in_k
        (Infix-lower k (join (item ∷ keywords)) (join-Infix k (item ∷ keywords) m)) in
    ranked-ne-zero (is_empty (map lower search)) _ _ (contains_of_Infix _ _ in_all)

-- Typing the beginning of an item's name, in any case of its letters, ranks the item first.
score-prefix :
    (item search after : Text) (keywords : List Text)
    → map lower item ≡ map lower (search ++ after)
    → score item search keywords ≡ full
unfolding score
score-prefix item search after keywords e =
    let (rest, whole) = join-prefix item keywords in
    let begins : starts_with (map lower (join (item ∷ keywords))) (map lower search) ≡ true =
      rw (whole, map-append, e, map-append, append_assoc)
        (starts_with-append (map lower search) (map lower after ++ map lower rest)) in
    ranked-full (is_empty (map lower search)) _ _ begins
