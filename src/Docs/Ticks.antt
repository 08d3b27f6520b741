-- ===== src/Docs/Ticks.antt =====
-- `Ticks` of web/src/routes/docs.tsx: the spans of a text that stand between backticks.
use haste_server.Prelude.{
  All, All-append, ◌≢◌, ◌≡◌, refl, sym, ap, ◌∙◌, Bool, true, false, not, List, [], ◌∷◌, ◌++◌,
  append_assoc, append-nil, Option, none, some, ◌==◌, ==_iff, if◌then◌else◌, Bool-cases, inl, inr,
}
use haste_server.Text.{Text, is_empty}

-- `text.split(/`([^`]+)`/g)`: the piece being read, and the span that may have begun behind it.
unfoldable pub split_from : Text → Text → Option Text → List Text
split_from [] piece none = piece ∷ []
split_from [] piece (some span) = (piece ++ b'`' ∷ span) ∷ []
split_from (c ∷ s) piece none =
    let opened = split_from s piece (some []) in
    let longer = split_from s (piece ++ c ∷ []) none in if c == b'`' then opened else longer
split_from (c ∷ s) piece (some span) =
    let again = split_from s (piece ++ b'`' ∷ []) (some []) in
    let closed = piece ∷ span ∷ split_from s [] none in
    let longer = split_from s piece (some (span ++ c ∷ [])) in
    if c == b'`' then (if is_empty span then again else closed) else longer

-- A part of the text, and whether it is shown as code: the parts at the odd places are.
unfoldable pub alternate : Bool → List Text → List (Text × Bool)
alternate is_code [] = []
alternate is_code (part ∷ rest) = (part, is_code) ∷ alternate (not is_code) rest

unfoldable pub ticks : Text → List (Text × Bool)
unfolding split_from alternate
ticks text = alternate false (split_from text [] none)

-- The text that the parts are of.
abbrev pub written : List (Text × Bool) → Text
written [] = []
written ((part, false) ∷ rest) = part ++ written rest
written ((part, true) ∷ rest) = b'`' ∷ (part ++ (b'`' ∷ written rest))

abbrev opening : Option Text → Text
opening none = []
opening (some span) = b'`' ∷ span

written-split_from :
    (s piece : Text) (span : Option Text)
    → written (alternate false (split_from s piece span)) ≡ piece ++ (opening span ++ s)
unfolding split_from alternate
written-split_from [] piece none = refl
written-split_from [] piece (some span) =
    append-nil _ ∙ ap (λ t. piece ++ b'`' ∷ t) (sym (append-nil span))
written-split_from (c ∷ s) piece none = elim (Bool-cases (c == b'`')) [
  | inl tick ↦ rw tick (
      written-split_from s piece (some [])
      ∙ ap (λ d. piece ++ d ∷ s) (sym ((==_iff c b'`').0 tick)))
  | inr plain ↦
      rw plain (written-split_from s (piece ++ c ∷ []) none ∙ append_assoc piece (c ∷ []) s)
]
written-split_from (c ∷ s) piece (some []) = elim (Bool-cases (c == b'`')) [
  | inl tick ↦ rw tick (
      written-split_from s (piece ++ b'`' ∷ []) (some [])
      ∙ append_assoc piece (b'`' ∷ []) (b'`' ∷ s)
      ∙ ap (λ d. piece ++ b'`' ∷ d ∷ s) (sym ((==_iff c b'`').0 tick)))
  | inr plain ↦ rw plain (written-split_from s piece (some (c ∷ [])))
]
written-split_from (c ∷ s) piece (some (d ∷ span)) = elim (Bool-cases (c == b'`')) [
  | inl tick ↦ rw tick (
      ap (λ t. piece ++ b'`' ∷ ((d ∷ span) ++ b'`' ∷ t)) (written-split_from s [] none)
      ∙ ap (λ e. piece ++ b'`' ∷ ((d ∷ span) ++ e ∷ s)) (sym ((==_iff c b'`').0 tick)))
  | inr plain ↦ rw plain (
      written-split_from s piece (some ((d ∷ span) ++ c ∷ []))
      ∙ ap (λ t. piece ++ b'`' ∷ t) (append_assoc (d ∷ span) (c ∷ []) s))
]

abbrev pub HasNoTick : Text → Type 0
HasNoTick = All (λ c. (c == b'`') ≡ false)

-- A span of code is not empty and holds no backtick.
abbrev pub IsSpan : Text × Bool → Type 0
IsSpan (part, false) = Unit
IsSpan (part, true) = (part ≢ []) × HasNoTick part

abbrev Opened : Option Text → Type 0
Opened none = Unit
Opened (some span) = HasNoTick span

split_from-IsSpan :
    (s piece : Text) (span : Option Text)
    → Opened span
    → All IsSpan (alternate false (split_from s piece span))
unfolding split_from alternate
split_from-IsSpan [] piece none _ = (tt, tt)
split_from-IsSpan [] piece (some span) _ = (tt, tt)
split_from-IsSpan (c ∷ s) piece none _ = elim (Bool-cases (c == b'`')) [
  | inl tick ↦ rw tick (split_from-IsSpan s piece (some []) tt)
  | inr plain ↦ rw plain (split_from-IsSpan s (piece ++ c ∷ []) none tt)
]
split_from-IsSpan (c ∷ s) piece (some []) _ = elim (Bool-cases (c == b'`')) [
  | inl tick ↦ rw tick (split_from-IsSpan s (piece ++ b'`' ∷ []) (some []) tt)
  | inr plain ↦ rw plain (split_from-IsSpan s piece (some (c ∷ [])) (plain, tt))
]
split_from-IsSpan (c ∷ s) piece (some (d ∷ span)) clean = elim (Bool-cases (c == b'`')) [
  | inl tick ↦ rw tick (tt, (((λ e. cc e), clean), split_from-IsSpan s [] none tt))
  | inr plain ↦ rw plain (
      split_from-IsSpan s piece (some ((d ∷ span) ++ c ∷ []))
        (All-append _ (d ∷ span) (c ∷ []) clean (plain, tt)))
]

-- The parts that are shown, with the backticks around those shown as code, are the text, so nothing of
-- a translated sentence is lost or added; and no part shown as code is empty or holds a backtick.
pub ticks-written : (text : Text) → (written (ticks text) ≡ text) × All IsSpan (ticks text)
unfolding ticks
ticks-written text = (written-split_from text [] none, split_from-IsSpan text [] none tt)
