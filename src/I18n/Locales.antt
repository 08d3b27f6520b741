-- ===== src/I18n/Locales.antt =====
-- web/src/lib/i18n/index.tsx: the locales and their detection from the browser's languages.
use haste_server.Prelude.{
  ◌≡◌, ◌≢◌, ◌⊎◌, inl, inr, refl, ap, ◌∙◌, List, [], ◌∷◌, ◌++◌, map, ◌==◌, Bool-cases, arith, All,
  if◌then◌else◌, String, sym, append-nil, append_assoc,
}
use mathlib.Core.List.{map-append}
use haste_server.Text.{Text, codes, text_eq, lower, split, split_from, text_eq_iff}

pub data Locale : Type 0 where
  zh_tw en_us ja_jp : Locale

abbrev pub locales : List Locale
locales = zh_tw ∷ en_us ∷ ja_jp ∷ []

abbrev pub locale_tag : Locale → Text
locale_tag zh_tw = codes "zh-TW"
locale_tag en_us = codes "en-US"
locale_tag ja_jp = codes "ja-JP"

abbrev pub locale_name : Locale → String
locale_name zh_tw = "繁體中文"
locale_name en_us = "English"
locale_name ja_jp = "日本語"

abbrev pub fallback : Locale
fallback = en_us

-- `split` never returns an empty array.
abbrev pub first_piece : List Text → Text
first_piece [] = []
first_piece (s ∷ rest) = s

unfoldable pub primary : Text → Text
primary tag = first_piece (split b'-' (map lower tag))

unfoldable pub detect_locale : List Text → Locale
unfolding primary
detect_locale [] = fallback
detect_locale (tag ∷ rest) =
    if text_eq (primary tag) (codes "zh")
    then zh_tw
    else if text_eq (primary tag) (codes "ja")
    then ja_jp
    else if text_eq (primary tag) (codes "en")
    then en_us
    else detect_locale rest

-- The default argument: `navigator.languages` where it lists something, else `navigator.language`.
unfoldable pub browser_languages : List Text → Text → List Text
browser_languages [] language = language ∷ []
browser_languages (l ∷ ls) language = l ∷ ls

-- A tag of `l`: a primary subtag without a dash that reads, in any case, as that of `l`, alone or
-- before a dash.
abbrev pub subtag : Locale → Text
subtag zh_tw = codes "zh"
subtag en_us = codes "en"
subtag ja_jp = codes "ja"

pub record IsTag (l : Locale) (tag : Text) : Type 0 where
  pub head : Text
  pub rest : Text
  pub spelled : map lower head ≡ subtag l
  pub whole : (tag ≡ head) ⊎ (tag ≡ head ++ b'-' ∷ rest)

split_from-head :
    (s rest cur : Text)
    → All (λ c. c ≢ b'-') s
    → first_piece (split_from b'-' (s ++ b'-' ∷ rest) cur) ≡ cur ++ s
unfolding split_from
split_from-head [] rest cur _ = sym (append-nil cur)
split_from-head (c ∷ s) rest cur (p, q) =
    ground (arith, split_from-head s rest (cur ++ c ∷ []) q, append_assoc cur (c ∷ []) s)

split_from-whole :
    (s cur : Text) → All (λ c. c ≢ b'-') s → first_piece (split_from b'-' s cur) ≡ cur ++ s
unfolding split_from
split_from-whole [] cur _ = sym (append-nil cur)
split_from-whole (c ∷ s) cur (p, q) =
    ground (arith, split_from-whole s (cur ++ c ∷ []) q, append_assoc cur (c ∷ []) s)

subtag-plain : (l : Locale) → All (λ c. c ≢ b'-') (subtag l)
subtag-plain zh_tw = omega arith
subtag-plain en_us = omega arith
subtag-plain ja_jp = omega arith

pub primary_of_IsTag : (l : Locale) (tag : Text) → IsTag l tag → primary tag ≡ subtag l
unfolding primary split
primary_of_IsTag l tag t = elim t.whole [
  | inl e ↦ rw (e, t.spelled) (split_from-whole (subtag l) [] (subtag-plain l))
  | inr e ↦
      rw (e, map-append, t.spelled)
        (split_from-head (subtag l) (map lower t.rest) [] (subtag-plain l))
]

record Pieces (tag cur : Text) : Type 0 where
  head : Text
  rest : Text
  whole : (tag ≡ head) ⊎ (tag ≡ head ++ b'-' ∷ rest)
  first : first_piece (split_from b'-' (map lower tag) cur) ≡ cur ++ map lower head

pieces : (tag cur : Text) → Pieces tag cur
unfolding split_from
pieces [] cur = record { head = []; rest = []; whole = inl refl; first = sym (append-nil cur) }
pieces (c ∷ s) cur = elim (Bool-cases (lower c == b'-')) [
  | inl dash ↦
      let e : c ≡ b'-' = ground arith in
      record {
        head = [];
        rest = s;
        whole = inr (ap (λ d. d ∷ s) e);
        first = rw (split_from, dash) (sym (append-nil cur));
      }
  | inr other ↦
      let p = pieces s (cur ++ lower c ∷ []) in
      record {
        head = c ∷ p.head;
        rest = p.rest;
        whole = elim p.whole [ inl e ↦ inl (ap (λ t. c ∷ t) e) | inr e ↦ inr (ap (λ t. c ∷ t) e) ];
        first =
            rw (split_from, other) (p.first ∙ append_assoc cur (lower c ∷ []) (map lower p.head));
      }
]

IsTag-primary : (l : Locale) (tag : Text) → primary tag ≡ subtag l → IsTag l tag
unfolding primary split
IsTag-primary l tag e =
    let p = pieces tag [] in
    record { head = p.head; rest = p.rest; spelled = sym p.first ∙ e; whole = p.whole }

-- A tag of none of the three.
abbrev pub IsForeign : Text → Type 0
IsForeign tag = (l : Locale) → ¬ IsTag l tag

foreign-primary : (l : Locale) (tag : Text) → IsForeign tag → primary tag ≢ subtag l
foreign-primary l tag h e = h l (IsTag-primary l tag e)

detect_locale-foreign :
    (tag : Text) (rest : List Text)
    → IsForeign tag
    → detect_locale (tag ∷ rest) ≡ detect_locale rest
unfolding detect_locale
detect_locale-foreign tag rest h = ground (
  arith,
  foreign-primary zh_tw tag h,
  foreign-primary en_us tag h,
  foreign-primary ja_jp tag h,
  text_eq_iff (primary tag) (subtag zh_tw),
  text_eq_iff (primary tag) (subtag en_us),
  text_eq_iff (primary tag) (subtag ja_jp),
)

detect_locale-tag :
    (l : Locale) (tag : Text) (rest : List Text) → IsTag l tag → detect_locale (tag ∷ rest) ≡ l
unfolding detect_locale
detect_locale-tag zh_tw tag rest t = rw (primary_of_IsTag zh_tw tag t) refl
detect_locale-tag en_us tag rest t = rw (primary_of_IsTag en_us tag t) refl
detect_locale-tag ja_jp tag rest t = rw (primary_of_IsTag ja_jp tag t) refl

-- The first of the browser's tags whose primary subtag the client speaks decides the language,
-- whatever follows it and whatever unspoken languages stand before it.
pub detect_locale-first :
    (before : List Text) (l : Locale) (tag : Text) (rest : List Text)
    → All IsForeign before
    → IsTag l tag
    → detect_locale (before ++ tag ∷ rest) ≡ l
detect_locale-first [] l tag rest _ t = detect_locale-tag l tag rest t
detect_locale-first (b ∷ before) l tag rest (f, fs) t =
    detect_locale-foreign b (before ++ tag ∷ rest) f ∙ detect_locale-first before l tag rest fs t

-- Where the client speaks none of the browser's languages, the fallback is taken.
pub detect_locale-none : (tags : List Text) → All IsForeign tags → detect_locale tags ≡ fallback
detect_locale-none [] _ = unfold detect_locale in refl
detect_locale-none (tag ∷ tags) (f, fs) =
    detect_locale-foreign tag tags f ∙ detect_locale-none tags fs
