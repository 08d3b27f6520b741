-- ===== src/Expiry/Tests.antt =====
-- The lifetimes and the countdown on concrete values.
use haste_server.Expiry.Ticking.{next_tick, after_ticks, after_ticks-expired}
use haste_server.Prelude.{ℕ, ◌+◌, ◌-◌, ◌≤◌, ◌<◌, ◌≡◌, refl, [], ◌∷◌, Option, none, some, arith}
use haste_server.Text.{Text}
use haste_server.I18n.{Translate, translate}
use haste_server.I18n.Locales.{en_us}
use haste_server.Expiry.{Parts, countdown_parts, countdown, countdown_long}
use haste_server.Expiry.Countdown.{span, IsClock, countdown_parts-left}

abbrev t : Translate
t = translate (λ name. []) en_us

-- A deadline 125.5 seconds after the epoch.
abbrev get_time : Text → Option ℕ
get_time iso = some 125_500

countdown_parts-left_example :
    (p : Parts) × (countdown_parts get_time [] 500 ≡ some p)
    × IsClock p
    × (span p ≤ 125_500 - 500)
    × (125_500 - 500 < span p + 1_000)
countdown_parts-left_example = countdown_parts-left get_time [] 500 125_500 refl (omega arith)

-- Three ticks, of which the second is late, from two seconds before the deadline.
after_ticks-expired_example :
    (next_tick get_time [] 5 123_500 < 125_500 + 1_000 + 5)
    × (countdown get_time t [] (after_ticks get_time [] (0 ∷ 40 ∷ 0 ∷ []) 123_500) ≡ none)
    × (countdown_long get_time t [] (after_ticks get_time [] (0 ∷ 40 ∷ 0 ∷ []) 123_500) ≡ none)
after_ticks-expired_example =
    after_ticks-expired get_time t [] 125_500 123_500 5 (0 ∷ 40 ∷ 0 ∷ []) refl (omega arith)
      (omega arith)
