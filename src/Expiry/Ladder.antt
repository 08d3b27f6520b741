-- ===== src/Expiry/Ladder.antt =====
-- The ladder of lifetimes and the option shown for a chosen value.
use haste_server.Prelude.{
  ℕ, ◌*◌, ◌/◌, ◌%◌, ◌≡◌, inl, inr, refl, ap, true, List, [], ◌∷◌, map, filter, Memᴰ, ltb, ◌==◌,
  arith, Bool-cases, any_sound, filter_complete, map_complete,
}
use mathlib.Core.Path.{subst}
use haste_server.I18n.{Translate, TimeUnit, second, minute, hour, day, format_count}
use haste_server.Expiry.{
  ExpiryOption, no_expiry, round_div, describe_seconds, expiry_options, expiry_option, includes,
}

pub includes-Memᴰ : (n : ℕ) (secs : List ℕ) → includes n secs ≡ true → Memᴰ n secs
includes-Memᴰ n secs h =
    let (s, m, e) = any_sound (λ s. s == n) secs h in
    let same : s ≡ n = ground arith in subst (λ s. Memᴰ s secs) same m

-- Whatever value is chosen and whatever ladder the server publishes, the option that is shown is one
-- of those that the picker lists.
pub expiry_option-Memᴰ :
    (t : Translate) (seconds : ℕ) (secs : List ℕ)
    → Memᴰ (expiry_option t seconds secs) (expiry_options t secs)
unfolding expiry_option expiry_options
expiry_option-Memᴰ t seconds secs = elim (Bool-cases (seconds == no_expiry)) [
  | inl e ↦ rw e (Memᴰ.head refl)
  | inr pos ↦ rw pos (elim (Bool-cases (includes seconds secs)) [
    | inl offered ↦ rw offered (
        Memᴰ.tail (
          map_complete (describe_seconds t) (filter (ltb 0) secs)
            (filter_complete (ltb 0) secs (includes-Memᴰ seconds secs offered) (ground arith))))
    | inr not_offered ↦ rw not_offered (Memᴰ.head refl)
  ])
]

pub describe_seconds-seconds : (t : Translate) (s : ℕ) → (describe_seconds t s).seconds ≡ s
unfolding describe_seconds
describe_seconds-seconds t s = ground arith

map-seconds :
    (t : Translate) (secs : List ℕ)
    → map (λ (o : ExpiryOption). o.seconds) (map (describe_seconds t) secs) ≡ secs
map-seconds t [] = refl
map-seconds t (s ∷ secs) = cc (describe_seconds-seconds t s, map-seconds t secs)

-- The picker lists "no expiry" first and then the server's positive lifetimes, in the server's order.
pub expiry_options-seconds :
    (t : Translate) (secs : List ℕ)
    → map (λ (o : ExpiryOption). o.seconds) (expiry_options t secs)
      ≡ no_expiry ∷ filter (ltb 0) secs
unfolding expiry_options
expiry_options-seconds t secs = ap (λ l. no_expiry ∷ l) (map-seconds t (filter (ltb 0) secs))

abbrev pub unit_seconds : TimeUnit → ℕ
unit_seconds second = 1
unit_seconds minute = 60
unit_seconds hour = 3_600
unit_seconds day = 86_400

-- The label of a lifetime of whole minutes counts it exactly: the count times its unit is the
-- lifetime.
pub describe_seconds_exact :
    (t : Translate) (s : ℕ)
    → s % 60 ≡ 0
    → (u : TimeUnit) × (n : ℕ) × ((describe_seconds t s).label ≡ format_count t u n)
      × (n * unit_seconds u ≡ s)
unfolding describe_seconds
describe_seconds_exact t s h = elim (Bool-cases (s % 86_400 == 0)) [
  | inl days ↦ rw days (day, s / 86_400, refl, ground arith)
  | inr part ↦ rw part (elim (Bool-cases (s % 3_600 == 0)) [
    | inl hours ↦ rw hours (hour, s / 3_600, refl, ground arith)
    | inr rest ↦ rw rest (minute, round_div s 60, refl, omega arith)
  ])
]
