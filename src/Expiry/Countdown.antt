-- ===== src/Expiry/Countdown.antt =====
-- The countdown of web/src/lib/expiry.ts against the time that is left.
use haste_server.Prelude.{
  ℕ, ◌+◌, ◌-◌, ◌*◌, ◌/◌, ◌%◌, ◌≤◌, ◌<◌, ◌≡◌, ◌↔◌, inl, inr, refl, true, false, [], ◌∷◌, ◌++◌,
  Option, none, some, ltb, leb, if◌then◌else◌, arith, Bool-cases, Option-cases, all_below,
  all_below_sound,
}
use haste_server.Text.{Text, text_eq, text_eq_iff}
use haste_server.Text.Decimal.{decimal}
use haste_server.I18n.{Translate}
use haste_server.Expiry.{
  Parts, parts_of, countdown_parts, countdown, countdown_long, tick_interval, pad_start,
}

-- The milliseconds that the parts stand for.
abbrev pub span : Parts → ℕ
span p = (p.days * 86_400 + p.hours * 3_600 + p.minutes * 60 + p.seconds) * 1_000

-- Parts in their usual ranges.
abbrev pub IsClock : Parts → Type 0
IsClock p = (p.hours < 24) × (p.minutes < 60) × (p.seconds < 60)

parts_of-span : (total : ℕ) → (span (parts_of total) ≡ total * 1_000) × IsClock (parts_of total)
parts_of-span total = (omega arith, (omega arith, omega arith, omega arith))

module _ (get_time : Text → Option ℕ) (iso : Text) (now : ℕ) where
  -- Before a deadline the parts are in range, say no more time than is left, and fall short of it by
  -- less than a second.
  pub countdown_parts-left :
      (at : ℕ)
      → get_time iso ≡ some at
      → now < at
      → (p : Parts) × (countdown_parts get_time iso now ≡ some p)
        × IsClock p
        × (span p ≤ at - now)
        × (at - now < span p + 1_000)
  unfolding countdown_parts
  countdown_parts-left at e h =
      let total = (at - now) / 1_000 in
      let (whole, clock) = parts_of-span total in
      (
        parts_of total,
        rw (e, countdown_parts) (ground arith),
        clock,
        omega (arith, whole),
        omega (arith, whole),
      )

  -- No valid deadline is ahead.
  abbrev pub IsOver : Type 0
  IsOver = (at : ℕ) → get_time iso ≡ some at → at ≤ now

  countdown_parts-none : IsOver → countdown_parts get_time iso now ≡ none
  unfolding countdown_parts
  countdown_parts-none over = elim (Option-cases (get_time iso)) [
    | inl bad ↦ rw (bad, countdown_parts) refl
    | inr (at, e) ↦ let late = over at e in rw (e, countdown_parts) (ground arith)
  ]

  countdown_parts-ahead :
      (at : ℕ) → countdown_parts get_time iso now ≡ none → get_time iso ≡ some at → at ≤ now
  unfolding countdown_parts
  countdown_parts-ahead at h e = elim (Bool-cases (leb at now)) [
    | inl late ↦ ground arith
    | inr early ↦ absurd (cc (rw (e, countdown_parts, early) at h))
  ]

  countdown-parts :
      (t : Translate)
      → countdown get_time t iso now ≡ none
      → countdown_parts get_time iso now ≡ none
  unfolding countdown
  countdown-parts t h = elim (Option-cases (countdown_parts get_time iso now)) [
    | inl over ↦ over
    | inr (p, e) ↦ absurd (cc (rw (e, countdown) at h))
  ]

  countdown_long-parts :
      (t : Translate)
      → countdown_long get_time t iso now ≡ none
      → countdown_parts get_time iso now ≡ none
  unfolding countdown_long
  countdown_long-parts t h = elim (Option-cases (countdown_parts get_time iso now)) [
    | inl over ↦ over
    | inr (p, e) ↦ absurd (cc (rw (e, countdown_long) at h))
  ]

  -- Both countdowns say nothing exactly from the deadline on, or where there is no valid deadline.
  pub countdown-none_iff :
      (t : Translate)
      → ((countdown get_time t iso now ≡ none) ↔ IsOver)
        × ((countdown_long get_time t iso now ≡ none) ↔ IsOver)
  unfolding countdown countdown_long
  countdown-none_iff t = (
    (
      λ h at e. countdown_parts-ahead at (countdown-parts t h) e,
      λ over. rw (countdown_parts-none over, countdown) refl,
    ),
    (
      λ h at e. countdown_parts-ahead at (countdown_long-parts t h) e,
      λ over. rw (countdown_parts-none over, countdown_long) refl,
    ),
  )

  -- The clock is read every second exactly while the parts show no days and no hours, which is when
  -- the countdown shows seconds.
  pub tick_interval-seconds :
      (p : Parts)
      → countdown_parts get_time iso now ≡ some p
      → (tick_interval get_time iso now ≡ 1_000) ↔ ((p.days ≡ 0) × (p.hours ≡ 0))
  unfolding countdown_parts tick_interval
  tick_interval-seconds p h = elim (Option-cases (get_time iso)) [
    | inl bad ↦ absurd (cc (rw (bad, countdown_parts) at h))
    | inr (at, e) ↦ rw (e, tick_interval) (tick at (rw (e, countdown_parts) at h))
  ]
    where
      tick :
          (at : ℕ)
          → (if leb at now then none else some (parts_of ((at - now) / 1000))) ≡ some p
          → (◌≡◌ {A = ℕ} (if ltb at (now + 3_600_000) then 1_000 else 30_000) 1_000)
            ↔ ((p.days ≡ 0) × (p.hours ≡ 0))
      tick at k = ground arith

-- The two digits of a number below 60.
abbrev pub two_digits : ℕ → Text
two_digits n = (b'0' + n / 10) ∷ (b'0' + n % 10) ∷ []

pad_start-decimal : all_below 60 (λ n. text_eq (pad_start (decimal n)) (two_digits n)) ≡ true
unfolding pad_start decimal
pad_start-decimal = refl

-- In the last hour the countdown is the minutes, a colon and always two digits of seconds.
pub countdown-last_hour :
    (get_time : Text → Option ℕ) (t : Translate) (iso : Text) (now at : ℕ)
    → get_time iso ≡ some at
    → now < at
    → at < now + 3_600_000
    → countdown get_time t iso now
      ≡ some (decimal ((at - now) / 60_000) ++ (b':' ∷ two_digits ((at - now) / 1_000 % 60)))
unfolding countdown countdown_parts
countdown-last_hour get_time t iso now at e h k =
    let total = (at - now) / 1_000 in
    let late : leb at now ≡ false = ground arith in
    let days : total / 86_400 ≡ 0 = omega arith in
    let hours : total % 86_400 / 3_600 ≡ 0 = omega arith in
    let minutes : total % 3_600 / 60 ≡ (at - now) / 60_000 = omega arith in
    let digits : pad_start (decimal (total % 60)) ≡ two_digits (total % 60) = (text_eq_iff _ _).0 (
      all_below_sound 60 (λ x. text_eq (pad_start (decimal x)) (two_digits x)) (total % 60)
        pad_start-decimal (omega arith)) in
    rw (e, countdown, countdown_parts, late) (rw (days, hours, minutes, digits) refl)
