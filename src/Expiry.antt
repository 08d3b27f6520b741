-- ===== src/Expiry.antt =====
-- web/src/lib/expiry.ts, with `formatInterval` of web/src/components/expiry-picker.tsx and the tick
-- of web/src/routes/paste.tsx. Instants are milliseconds since the epoch.
pub mod Ladder
pub mod Countdown
pub mod Menu
pub mod Ticking
mod Tests
use Prim.Native.Nat.{max}
use haste_server.Prelude.{
  ℕ, ◌+◌, ◌-◌, ◌/◌, ◌%◌, Bool, true, false, List, [], ◌∷◌, ◌++◌, map, filter, any, Option, none,
  some, ltb, leb, ◌==◌, if◌then◌else◌, length,
}
use haste_server.Text.{Text, codes}
use haste_server.Text.Decimal.{decimal}
use haste_server.I18n.{
  Translate, TimeUnit, second, minute, hour, day, format_count, format_count_short,
}

abbrev pub no_expiry : ℕ
no_expiry = 0

pub record ExpiryOption : Type 0 where
  pub seconds : ℕ
  pub label : Text

abbrev pub none_option : Translate → ExpiryOption
none_option t = record { seconds = no_expiry; label = t (codes "expiry.none") none }

-- `unit`
abbrev pub unit_option : Translate → ℕ → ℕ → TimeUnit → ExpiryOption
unit_option t seconds count name = record { seconds = seconds; label = format_count t name count }

-- `Math.round(n / d)` for non-negative integers, halves rounded up.
abbrev pub round_div : ℕ → ℕ → ℕ
round_div n d = (n + d / 2) / d

unfoldable pub describe_seconds : Translate → ℕ → ExpiryOption
describe_seconds t seconds =
    if seconds % 86_400 == 0
    then unit_option t seconds (seconds / 86_400) day
    else if seconds % 3_600 == 0
    then unit_option t seconds (seconds / 3_600) hour
    else unit_option t seconds (round_div seconds 60) minute

unfoldable pub expiry_options : Translate → List ℕ → List ExpiryOption
expiry_options t secs = none_option t ∷ map (describe_seconds t) (filter (ltb 0) secs)

-- `array.includes(n)`
abbrev pub includes : ℕ → List ℕ → Bool
includes n secs = any (λ s. s == n) secs

unfoldable pub expiry_option : Translate → ℕ → List ℕ → ExpiryOption
expiry_option t seconds secs =
    if seconds == no_expiry
    then none_option t
    else if includes seconds secs
    then describe_seconds t seconds
    else none_option t

unfoldable pub format_interval : Translate → ℕ → Text
format_interval t seconds =
    if ltb seconds 3600
    then format_count t minute (max (round_div seconds 60) 1)
    else format_count t hour (round_div seconds 3600)

pub record Parts : Type 0 where
  pub days : ℕ
  pub hours : ℕ
  pub minutes : ℕ
  pub seconds : ℕ

abbrev pub parts_of : ℕ → Parts
parts_of total = record {
  days = total / 86_400;
  hours = total % 86_400 / 3_600;
  minutes = total % 3_600 / 60;
  seconds = total % 60;
}

-- `s.padStart(2, "0")`
unfoldable pub pad_start : Text → Text
pad_start [] = b'0' ∷ b'0' ∷ []
pad_start (c ∷ []) = b'0' ∷ c ∷ []
pad_start (c ∷ d ∷ s) = c ∷ d ∷ s

-- `get_time` is `new Date(iso).getTime()`, `none` for NaN.
module _ (get_time : Text → Option ℕ) where
  -- `left` is positive just where `now` is below the instant.
  unfoldable pub countdown_parts : Text → ℕ → Option Parts
  countdown_parts iso now = elim (get_time iso) [
    | none ↦ none
    | some at ↦ if leb at now then none else some (parts_of ((at - now) / 1000))
  ]

  unfoldable pub countdown : Translate → Text → ℕ → Option Text
  countdown t iso now = elim (countdown_parts iso now) [
    | none ↦ none
    | some left ↦ some (
        if ltb 0 left.days
        then format_count_short t day left.days ++ (b' ' ∷ format_count_short t hour left.hours)
        else if ltb 0 left.hours
        then format_count_short t hour left.hours
          ++ (b' ' ∷ format_count_short t minute left.minutes)
        else decimal left.minutes ++ (b':' ∷ pad_start (decimal left.seconds)))
  ]

  unfoldable pub countdown_long : Translate → Text → ℕ → Option Text
  countdown_long t iso now = elim (countdown_parts iso now) [
    | none ↦ none
    | some left ↦ some (
        if ltb 0 left.days
        then format_count t day left.days ++ (b' ' ∷ format_count t hour left.hours)
        else if ltb 0 left.hours
        then format_count t hour left.hours ++ (b' ' ∷ format_count t minute left.minutes)
        else format_count t minute left.minutes ++ (b' ' ∷ format_count t second left.seconds))
  ]

  -- `useCountdownTick`: the interval between two reads of the clock, in milliseconds.
  unfoldable pub tick_interval : Text → ℕ → ℕ
  tick_interval iso now = elim (get_time iso) [
    | none ↦ 30_000
    | some at ↦ if ltb at (now + 3_600_000) then 1_000 else 30_000
  ]
