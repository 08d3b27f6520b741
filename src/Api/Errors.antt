-- ===== src/Api/Errors.antt =====
-- web/src/lib/i18n/errors.ts: what to show when a request failed.
use haste_server.Prelude.{
  Bool, Option, Option-cases, false, ap, ◌∙◌, ◌≡◌, refl, true, String, List, [], ◌∷◌, none, some,
  any, if◌then◌else◌, any_sound, all, all_sound, inl, inr, sym,
}
use haste_server.Text.{Text, text_eq, text_eq_iff}
use haste_server.Text.Objects.{get, object, inherited_names}
use haste_server.I18n.{Translate}
use haste_server.Api.{Failure, api_error, other, ApiError}

translated_entries : List (String × String)
translated_entries =
    ("network", "err.network")
    ∷ ("not_found", "err.not_found")
    ∷ ("empty", "err.empty")
    ∷ ("too_large", "err.too_large")
    ∷ ("bad_expiry", "err.bad_expiry")
    ∷ ("bad_title", "err.bad_title")
    ∷ ("rate_limited", "err.rate_limited")
    ∷ ("busy", "err.busy")
    ∷ ("no_room", "err.no_room")
    ∷ []

unfoldable pub translated : List (Text × Text)
unfolding translated_entries
translated = object translated_entries

-- What `TRANSLATED[code]` is: an own property, one inherited from `Object.prototype` (a function or
-- an object, which is truthy), or undefined.
pub data Property : Type 0 where
  own : Text → Property
  inherited : Property
  undefined : Property

property : Text → Property
unfolding translated
property code = elim (get code translated) [
  | some key ↦ own key
  | none ↦ if any (text_eq code) inherited_names then inherited else undefined
]

-- What is shown: a text, or the inherited value itself, which `t` finds in no dictionary and so
-- returns.
pub data Shown : Type 0 where
  text : Text → Shown
  inherited_value : Shown

unfoldable pub describe_error : Translate → Failure → Text → Shown
unfolding property
describe_error t other fallback = text (t fallback none)
describe_error t (api_error e) fallback = elim (property e.code) [
  | own key ↦ text (t key none)
  | inherited ↦ inherited_value
  | undefined ↦ text e.message
]

abbrev is_none : Option Text → Bool
is_none none = true
is_none (some key) = false

no_code_inherited : all (λ name. is_none (get name translated)) inherited_names ≡ true
unfolding translated get
no_code_inherited = refl

-- An error whose code is the name of a property of `Object.prototype` is told by the value of that
-- property, which is no text; any other is told by a text.
pub describe_error-inherited :
    (t : Translate) (e : ApiError) (fallback : Text)
    → any (text_eq e.code) inherited_names ≡ true
    → describe_error t (api_error e) fallback ≡ inherited_value
unfolding describe_error
describe_error-inherited t e fallback odd =
    let (name, m, same) = any_sound (text_eq e.code) inherited_names odd in
    let unlisted =
      all_sound (λ name. is_none (get name translated)) inherited_names no_code_inherited m in
    let here = ap (λ n. is_none (get n translated)) ((text_eq_iff e.code name).0 same) ∙ unlisted in
    elim (Option-cases (get e.code translated)) [
      | inl nothing ↦ rw (nothing, property, odd, describe_error) refl
      | inr (key, found) ↦ absurd (cc (sym here ∙ ap is_none found))
    ]

pub describe_error-text :
    (t : Translate) (e : ApiError) (fallback : Text)
    → any (text_eq e.code) inherited_names ≡ false
    → (message : Text) × (describe_error t (api_error e) fallback ≡ text message)
unfolding describe_error
describe_error-text t e fallback plain = elim (Option-cases (get e.code translated)) [
  | inl nothing ↦ (e.message, rw (nothing, property, plain, describe_error) refl)
  | inr (key, found) ↦ (t key none, rw (found, property, describe_error) refl)
]
