-- ===== src/Timestamps/Laws.antt =====
-- How the three forms of an instant of web/src/lib/utils.ts are related.
use haste_server.Prelude.{
  ℕ, ◌≡◌, ◌⊎◌, inl, inr, refl, ap, List, [], ◌∷◌, ◌++◌, none, some, length, take, drop,
  Option-cases, arith,
}
use haste_server.Text.{Text, codes}
use haste_server.Timestamps.{
  Calendar, display_time_zone, from_entries, part, full_stamp, short_stamp, parts_in,
  format_timestamp, format_time_of_day, describe_timestamp,
}

-- The options of the format: a year of four units, the other parts of two.
pub record IsPadded (p : List (Text × Text)) : Type 0 where
  pub year : length (part (codes "year") p) ≡ 4
  pub month : length (part (codes "month") p) ≡ 2
  pub day : length (part (codes "day") p) ≡ 2
  pub hour : length (part (codes "hour") p) ≡ 2
  pub minute : length (part (codes "minute") p) ≡ 2
  pub second : length (part (codes "second") p) ≡ 2

two_of : (s : Text) → length s ≡ 2 → (a : ℕ) × (b : ℕ) × (s ≡ a ∷ b ∷ [])
two_of [] h = absurd (omega arith)
two_of (a ∷ []) h = absurd (omega arith)
two_of (a ∷ b ∷ []) h = (a, b, refl)
two_of (a ∷ b ∷ c ∷ s) h = absurd (omega arith)

four_of :
    (s : Text) → length s ≡ 4 → (a : ℕ) × (b : ℕ) × (c : ℕ) × (d : ℕ) × (s ≡ a ∷ b ∷ c ∷ d ∷ [])
four_of [] h = absurd (omega arith)
four_of (a ∷ []) h = absurd (omega arith)
four_of (a ∷ b ∷ []) h = absurd (omega arith)
four_of (a ∷ b ∷ c ∷ []) h = absurd (omega arith)
four_of (a ∷ b ∷ c ∷ d ∷ []) h = (a, b, c, d, refl)
four_of (a ∷ b ∷ c ∷ d ∷ e ∷ s) h = absurd (omega arith)

-- The six parts, at their places in a stamp.
abbrev pub IsRead : Text → List (Text × Text) → Type 0
IsRead s p =
    (take 4 s ≡ part (codes "year") p)
    × (take 2 (drop 5 s) ≡ part (codes "month") p)
    × (take 2 (drop 8 s) ≡ part (codes "day") p)
    × (take 2 (drop 11 s) ≡ part (codes "hour") p)
    × (take 2 (drop 14 s) ≡ part (codes "minute") p)
    × (take 2 (drop 17 s) ≡ part (codes "second") p)

-- The stamp of parts of the documented widths has 19 units; each part can be read back from its
-- place in it, and the short form is the 11 units from the month on.
pub full_stamp-parts :
    (p : List (Text × Text))
    → IsPadded p
    → (length (full_stamp p) ≡ 19)
      × IsRead (full_stamp p) p
      × (short_stamp p ≡ take 11 (drop 5 (full_stamp p)))
unfolding full_stamp short_stamp
full_stamp-parts p padded =
    let (a, b, c, d, y) = four_of _ padded.year in
    let (m1, m2, m) = two_of _ padded.month in
    let (d1, d2, dd) = two_of _ padded.day in
    let (h1, h2, h) = two_of _ padded.hour in
    let (i1, i2, i) = two_of _ padded.minute in
    let (s1, s2, s) = two_of _ padded.second in
    rw (y, m, dd, h, i, s) (refl, (refl, refl, refl, refl, refl, refl), refl)

-- The parts of an instant, as the object that the stamps read.
abbrev pub parts_at {ℓ} :
    {Instant : Type ℓ} → Calendar Instant → Text → Instant → List (Text × Text)
parts_at calendar zone date = from_entries (calendar.format_to_parts zone date)

module _ {ℓ} {Instant : Type ℓ} (calendar : Calendar Instant) (iso : Text) where
  parts_in-some :
      (zone : Text) (date : Instant)
      → calendar.instant iso ≡ some date
      → parts_in calendar iso zone ≡ some (parts_at calendar zone date)
  unfolding parts_in
  parts_in-some zone date e = rw (parts_in, e) refl

  -- Of a text that is no instant there is no stamp of any form. Of an instant whose parts have the
  -- documented widths there are all three: the short form is the part of the full one from the month to
  -- the minute, and the description is the full one, the zone it is in, and the full stamp in UTC.
  pub describe_timestamp-forms :
      ((date : Instant) → IsPadded (parts_at calendar display_time_zone date))
      → ((format_timestamp calendar iso ≡ none)
          × (format_time_of_day calendar iso ≡ none)
          × (describe_timestamp calendar iso ≡ none)
          × (calendar.instant iso ≡ none))
        ⊎ ((date : Instant) × (s : Text) × (calendar.instant iso ≡ some date)
            × (format_timestamp calendar iso ≡ some s)
            × IsRead s (parts_at calendar display_time_zone date)
            × (format_time_of_day calendar iso ≡ some (take 11 (drop 5 s)))
            × (describe_timestamp calendar iso
                ≡ some (
                    s
                    ++ (codes " (UTC+8) · "
                        ++ (full_stamp (parts_at calendar (codes "UTC") date) ++ codes " UTC")))))
  unfolding format_timestamp format_time_of_day describe_timestamp parts_in
  describe_timestamp-forms padded = elim (Option-cases (calendar.instant iso)) [
    | inl e ↦ inl (
      rw (format_timestamp, parts_in, e) refl,
      rw (format_time_of_day, parts_in, e) refl,
      rw (describe_timestamp, format_timestamp, parts_in, e) refl,
      e,
    )
    | inr (date, e) ↦
        let p = parts_at calendar display_time_zone date in
        let local = parts_in-some display_time_zone date e in
        let utc = parts_in-some (codes "UTC") date e in
        let (_, read, short) = full_stamp-parts p (padded date) in
        inr (
          date,
          full_stamp p,
          e,
          rw (format_timestamp, local) refl,
          read,
          rw (format_time_of_day, local) (ap some short),
          rw (describe_timestamp, format_timestamp, local, utc) refl,
        )
  ]
