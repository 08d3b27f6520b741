-- ===== src/Editor/Dialog.antt =====
-- web/src/components/save-dialog.tsx: what the dialog shows of the page's state.
use haste_server.Prelude.{
  ℕ, ◌≡◌, inl, inr, refl, sym, ap, ◌∙◌, Bool, true, false, ◌||◌, List, [], ◌∷◌, ◌++◌, map, filter,
  Option, none, some, ltb, ◌==◌, ==_iff, if◌then◌else◌, Bool-cases, Memᴰ, any_complete, any_sound,
  filter_sound, arith,
}
use mathlib.Core.Path.{subst}
use haste_server.Text.{Text, codes, trim}
use haste_server.Text.Decimal.{decimal}
use haste_server.CodePoints.{count_code_points}
use haste_server.I18n.{Translate}
use haste_server.Expiry.{
  ExpiryOption, no_expiry, none_option, describe_seconds, expiry_options, expiry_option, includes,
}
use haste_server.Expiry.Ladder.{expiry_option-Memᴰ, describe_seconds-seconds}
use haste_server.Expiry.Menu.{Picker, find_option, current, expiry_picker, picker_for}
use haste_server.Expiry.Menu.Picking.{current-listed, current-missing}
use haste_server.Languages.Picker.{picker_label}
use haste_server.Editor.{Editor, too_long}

pub record DialogView : Type 0 where
  pub is_open : Bool
  pub counter : Text
  pub counter_is_error : Bool
  pub title_error : Option Text
  pub expiry : Option Picker
  pub language_label : Text
  pub cancel_disabled : Bool
  pub confirm_disabled : Bool
  pub is_spinning : Bool

-- `label` names a language; `detected` is the one that was detected.
unfoldable pub dialog : Translate → (Text → Text) → Text → Editor → DialogView
dialog t label detected s = record {
  is_open = s.confirming;
  counter =
      decimal (count_code_points (trim s.title))
      ++ (codes " / " ++ decimal s.config.max_title_chars);
  counter_is_error = too_long s;
  title_error =
      if too_long s
      then some (
          t (codes "save.titleTooLong")
            (some ((codes "max", decimal s.config.max_title_chars) ∷ [])))
      else none;
  expiry =
      expiry_picker t s.expires_in (expiry_options t s.config.expiry_options_secs)
        s.config.cleanup_every_secs;
  language_label = picker_label label (t (codes "lang.auto") none) s.choice detected;
  cancel_disabled = s.saving;
  confirm_disabled = s.saving || too_long s;
  is_spinning = s.saving;
}

find_option-absent :
    (t : Translate) (value : ℕ) (secs : List ℕ)
    → includes value secs ≡ false
    → find_option value (map (describe_seconds t) secs) ≡ none
unfolding find_option
find_option-absent t value [] h = refl
find_option-absent t value (s ∷ secs) h = elim (Bool-cases (s == value)) [
  | inl same ↦ absurd (cc (sym h ∙ any_complete (λ n. n == value) (s ∷ secs) (Memᴰ.head refl) same))
  | inr differs ↦
      let e : ((describe_seconds t s).seconds == value) ≡ false =
        ap (λ n. n == value) (describe_seconds-seconds t s) ∙ differs in
      rw e (find_option-absent t value secs (ground arith))
]

-- A lifetime that the server offers none of is kept out by `filter` too.
includes-filter :
    (value : ℕ) (secs : List ℕ)
    → includes value secs ≡ false
    → includes value (filter (ltb 0) secs) ≡ false
includes-filter value secs h = elim (Bool-cases (includes value (filter (ltb 0) secs))) [
  | inl there ↦
      let (n, m, e) = any_sound (λ n. n == value) (filter (ltb 0) secs) there in
      absurd (cc (sym h ∙ any_complete (λ k. k == value) secs (filter_sound (ltb 0) secs m) e))
  | inr absent ↦ absent
]

-- An option with the value's own seconds is the current one.
current-own :
    (t : Translate) (value : ℕ) (secs : List ℕ) (o : ExpiryOption)
    → Memᴰ o (expiry_options t secs)
    → o.seconds ≡ value
    → current value (expiry_options t secs) ≡ some o
current-own t value secs o m e =
    subst (λ n. current n (expiry_options t secs) ≡ some o) e (current-listed t secs m)

-- The option that the picker names, looked up among those of its menu, is the one that `expiryOption`
-- computes for the value and the server's lifetimes, whatever both are.
pub current-expiry_option :
    (t : Translate) (value : ℕ) (secs : List ℕ)
    → current value (expiry_options t secs) ≡ some (expiry_option t value secs)
current-expiry_option t value secs = elim (Bool-cases (value == no_expiry)) [
  | inl zero ↦ current-own t value secs _ (expiry_option-Memᴰ t value secs) (own_zero zero)
  | inr differs ↦ elim (Bool-cases (includes value secs)) [
    | inl offered ↦
        current-own t value secs _ (expiry_option-Memᴰ t value secs) (own_offered differs offered)
    | inr absent ↦ fallen_back differs absent
  ]
]
  where
    own_zero : (value == no_expiry) ≡ true → (expiry_option t value secs).seconds ≡ value
    own_zero zero = unfold expiry_option in rw zero (sym ((==_iff value 0).0 zero))

    own_offered :
        (value == no_expiry) ≡ false
        → includes value secs ≡ true
        → (expiry_option t value secs).seconds ≡ value
    own_offered differs offered =
        unfold expiry_option in rw (differs, offered) (describe_seconds-seconds t value)

    fallen_back :
        (value == no_expiry) ≡ false
        → includes value secs ≡ false
        → current value (expiry_options t secs) ≡ some (expiry_option t value secs)
    fallen_back differs absent =
        let other : (no_expiry == value) ≡ false = ground arith in
        let missing : find_option value
              (none_option t ∷ map (describe_seconds t) (filter (ltb 0) secs))
            ≡ none =
          unfold find_option in
          rw other (
            find_option-absent t value (filter (ltb 0) secs) (includes-filter value secs absent)) in
        unfold expiry_option expiry_options in
        rw (differs, absent)
          (current-missing value (none_option t) (map (describe_seconds t) (filter (ltb 0) secs))
            missing)

-- The dialog can always be shown, as there is a lifetime to name, and it names the one that `expiryOption`
-- has for the page's choice and the lifetimes that the server offers.
pub dialog-expiry :
    (t : Translate) (label : Text → Text) (detected : Text) (s : Editor)
    → (picker : Picker) × ((dialog t label detected s).expiry ≡ some picker)
      × (picker.label ≡ (expiry_option t s.expires_in s.config.expiry_options_secs).label)
unfolding dialog expiry_picker picker_for
dialog-expiry t label detected s =
    let named = current-expiry_option t s.expires_in s.config.expiry_options_secs in
    (
      picker_for t s.expires_in (expiry_options t s.config.expiry_options_secs)
          s.config.cleanup_every_secs (expiry_option t s.expires_in s.config.expiry_options_secs),
      rw (expiry_picker, named) refl,
      refl,
    )
