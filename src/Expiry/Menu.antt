-- ===== src/Expiry/Menu.antt =====
-- web/src/components/expiry-picker.tsx: the trigger and the menu of the lifetimes.
pub mod Picking
use haste_server.Prelude.{
  ℕ, Bool, true, false, not, List, [], ◌∷◌, map, filter, Option, none, some, ◌==◌, if◌then◌else◌,
}
use haste_server.Text.{Text, codes}
use haste_server.I18n.{Translate}
use haste_server.Expiry.{ExpiryOption, no_expiry, format_interval}

-- `options.find((o) => o.seconds === value)`
unfoldable pub find_option : ℕ → List ExpiryOption → Option ExpiryOption
find_option value [] = none
find_option value (o ∷ rest) =
    let later = find_option value rest in if o.seconds == value then some o else later

first_option : List ExpiryOption → Option ExpiryOption
first_option [] = none
first_option (o ∷ rest) = some o

-- `… ?? options[0]`, which is undefined of an empty list.
unfoldable pub current : ℕ → List ExpiryOption → Option ExpiryOption
unfolding first_option
current value options = elim (find_option value options) [
  | some o ↦ some o
  | none ↦ first_option options
]

-- `Choice`: the option, and whether its tick shows.
pub record Choice : Type 0 where
  pub option : ExpiryOption
  pub ticked : Bool

unfoldable pub choice : ℕ → ExpiryOption → Choice
choice value option = record { option = option; ticked = option.seconds == value }

-- The two groups of the menu, on either side of its first separator.
unfoldable pub permanent_choices : ℕ → List ExpiryOption → List Choice
permanent_choices value options = map (choice value) (filter (λ o. o.seconds == no_expiry) options)

unfoldable pub timed_choices : ℕ → List ExpiryOption → List Choice
timed_choices value options =
    map (choice value) (filter (λ o. not (o.seconds == no_expiry)) options)

pub record Picker : Type 0 where
  pub aria_label : Text
  pub is_permanent : Bool
  pub label : Text
  pub hint : Text
  pub permanent : List Choice
  pub timed : List Choice
  pub note : Text

-- What is shown with an option to name.
unfoldable pub picker_for : Translate → ℕ → List ExpiryOption → ℕ → ExpiryOption → Picker
picker_for t value options cleanup_every_secs o = record {
  aria_label = t (codes "expiry.aria") (some ((codes "value", o.label) ∷ []));
  is_permanent = value == no_expiry;
  label = o.label;
  hint =
      if value == no_expiry
      then t (codes "expiry.noneHint") none
      else t (codes "expiry.afterHint") (some ((codes "value", o.label) ∷ []));
  permanent = permanent_choices value options;
  timed = timed_choices value options;
  note =
      t (codes "expiry.note")
        (some ((codes "interval", format_interval t cleanup_every_secs) ∷ []));
}

-- `none` where there is no option to name, over which the component throws.
unfoldable pub expiry_picker : Translate → ℕ → List ExpiryOption → ℕ → Option Picker
expiry_picker t value options cleanup_every_secs = elim (current value options) [
  | none ↦ none
  | some o ↦ some (picker_for t value options cleanup_every_secs o)
]
