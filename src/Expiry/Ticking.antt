-- ===== src/Expiry/Ticking.antt =====
-- `useCountdownTick` of web/src/routes/paste.tsx: the clock as it is re-read, and when it passes a
-- deadline.
use haste_server.Prelude.{
  ℕ, ◌+◌, ◌-◌, ◌*◌, ◌/◌, ◌≤◌, ◌<◌, ◌≡◌, inl, inr, refl, true, List, [], ◌∷◌, Option, none, some,
  ltb, leb, length, arith, Bool-cases, if◌then◌else◌,
}
use haste_server.Text.{Text}
use haste_server.I18n.{Translate}
use haste_server.Expiry.{tick_interval, countdown_parts, countdown, countdown_long}

module _ (get_time : Text → Option ℕ) where
  -- The clock at the next tick: the interval later, and whatever the timer is late by.
  unfoldable pub next_tick : Text → ℕ → ℕ → ℕ
  next_tick iso late now = now + tick_interval get_time iso now + late

  -- The clock after ticks that were late by so much each.
  unfoldable pub after_ticks : Text → List ℕ → ℕ → ℕ
  after_ticks iso [] now = now
  after_ticks iso (late ∷ rest) now = after_ticks iso rest (next_tick iso late now)

  tick_interval-at_least : (iso : Text) (now : ℕ) → 1_000 ≤ tick_interval get_time iso now
  unfolding tick_interval
  tick_interval-at_least iso now = by_time (get_time iso)
    where
      by_time :
          (o : Option ℕ)
          → 1_000 ≤ (elim o [
            | none ↦ 30_000
            | some at ↦ if ltb at (now + 3_600_000) then 1_000 else 30_000
          ])
      by_time none = omega arith
      by_time (some at) = elim (Bool-cases (ltb at (now + 3_600_000))) [
        | inl e ↦ rw e (omega arith)
        | inr e ↦ rw e (omega arith)
      ]

  after_ticks-at_least :
      (iso : Text) (lates : List ℕ) (now : ℕ)
      → now + length lates * 1_000 ≤ after_ticks iso lates now
  unfolding after_ticks next_tick
  after_ticks-at_least iso [] now = omega arith
  after_ticks-at_least iso (late ∷ rest) now =
      let later = after_ticks-at_least iso rest (next_tick iso late now) in
      let step = tick_interval-at_least iso now in omega arith

  countdown-expired :
      (t : Translate) (iso : Text) (at now : ℕ)
      → get_time iso ≡ some at
      → at ≤ now
      → (countdown get_time t iso now ≡ none) × (countdown_long get_time t iso now ≡ none)
  unfolding countdown countdown_long countdown_parts
  countdown-expired t iso at now e h =
      let past : leb at now ≡ true = ground arith in
      (
        rw (countdown, countdown_parts, e, past) refl,
        rw (countdown_long, countdown_parts, e, past) refl,
      )

  tick_interval-near :
      (iso : Text) (at now : ℕ)
      → get_time iso ≡ some at
      → now < at
      → now + tick_interval get_time iso now < at + 1_000
  unfolding tick_interval
  tick_interval-near iso at now e before = elim (Bool-cases (ltb at (now + 3_600_000))) [
    | inl soon ↦ rw (tick_interval, e, soon) (omega arith)
    | inr far ↦ rw (tick_interval, e, far) (ground arith)
  ]

  -- From before the deadline, the next tick comes less than a second and what it is late by behind the
  -- deadline; and however late each tick is, once there have been as many as the seconds that were left
  -- and one more, the countdown says that the paste has expired, in both its forms.
  pub after_ticks-expired :
      (t : Translate) (iso : Text) (at now late : ℕ) (lates : List ℕ)
      → get_time iso ≡ some at
      → now < at
      → (at - now) / 1_000 < length lates
      → (next_tick iso late now < at + 1_000 + late)
        × (countdown get_time t iso (after_ticks iso lates now) ≡ none)
        × (countdown_long get_time t iso (after_ticks iso lates now) ≡ none)
  unfolding next_tick
  after_ticks-expired t iso at now late lates e before h =
      let near = tick_interval-near iso at now e before in
      let far = after_ticks-at_least iso lates now in
      let (short, long) = countdown-expired t iso at (after_ticks iso lates now) e (omega arith) in
      ((omega arith), short, long)
