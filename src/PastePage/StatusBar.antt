-- ===== src/PastePage/StatusBar.antt =====
-- web/src/routes/paste.tsx: the status bar under a paste, with the popover of its lifetime.
use haste_server.Prelude.{
  ℕ, ◌≡◌, ◌⊎◌, inl, inr, refl, [], ◌∷◌, ◌++◌, Option, none, some, Option-cases,
}
use haste_server.Text.{Text, codes}
use haste_server.I18n.{Translate}
use haste_server.Api.{Paste}
use haste_server.Expiry.{Parts, countdown_parts, countdown, countdown_long, format_interval}
use haste_server.Timestamps.{Calendar, format_timestamp, format_time_of_day, describe_timestamp}
use haste_server.PastePage.{language}

-- The button with the countdown, and what its popover says.
pub record ExpiryView : Type 0 where
  pub label : Text
  pub instant : Option Text
  pub left : Text
  pub detail : Text

pub record StatusBar : Type 0 where
  pub badge : Text
  pub title : Option Text
  pub chars : Text
  pub expiry : Option ExpiryView
  pub saved_title : Text
  pub time_of_day : Option Text
  pub timestamp : Option Text

or_else : Option Text → Text → Text
or_else none default = default
or_else (some s) default = s

-- `value && …`: the text where there is one that is not empty.
unfoldable pub given : Option Text → Option Text
given none = none
given (some []) = none
given (some (c ∷ s)) = some (c ∷ s)

module _ {ℓ} {Instant : Type ℓ} (calendar : Calendar Instant) (get_time : Text → Option ℕ)
    (t : Translate) where
  -- `Expiry`, at the clock that was read last. `countdownLong` is never empty.
  unfoldable pub expiry_view : ℕ → Text → ℕ → ExpiryView
  unfolding or_else
  expiry_view cleanup_every_secs at now = record {
    label = or_else (countdown get_time t at now) (t (codes "paste.expired") none);
    instant = format_timestamp calendar at;
    left = elim (countdown_long get_time t at now) [
      | none ↦ t (codes "paste.expired") none
      | some long ↦ t (codes "paste.left") (some ((codes "value", long) ∷ []))
    ];
    detail =
        t (codes "paste.expiryDetail")
          (some ((codes "interval", format_interval t cleanup_every_secs) ∷ []));
  }

  expiry_of : ℕ → ℕ → Option Text → Option ExpiryView
  expiry_of cleanup_every_secs now none = none
  expiry_of cleanup_every_secs now (some at) = some (expiry_view cleanup_every_secs at now)

  -- `label` names a language and `to_locale_string` writes a number in the browser's way.
  unfoldable pub status_bar : (Text → Text) → (Text → Text) → (ℕ → Text) → ℕ → ℕ → Paste → StatusBar
  unfolding or_else expiry_of
  status_bar detect label to_locale_string cleanup_every_secs now p = record {
    badge = label (language detect (some p));
    title = given p.title;
    chars = t (codes "paste.chars") (some ((codes "count", to_locale_string p.chars) ∷ []));
    expiry = expiry_of cleanup_every_secs now (given p.expires_at);
    saved_title =
        t (codes "paste.savedAt") none
        ++ (codes " · " ++ or_else (describe_timestamp calendar p.created_at) []);
    time_of_day = format_time_of_day calendar p.created_at;
    timestamp = format_timestamp calendar p.created_at;
  }

  countdown-some :
      (at : Text) (now : ℕ) (parts : Parts)
      → countdown_parts get_time at now ≡ some parts
      → (short : Text) × (countdown get_time t at now ≡ some short)
  unfolding countdown
  countdown-some at now parts e = elim (Option-cases (countdown get_time t at now)) [
    | inl nothing ↦ absurd (cc (rw (countdown, e) at nothing))
    | inr found ↦ found
  ]

  countdown_long-some :
      (at : Text) (now : ℕ) (parts : Parts)
      → countdown_parts get_time at now ≡ some parts
      → (long : Text) × (countdown_long get_time t at now ≡ some long)
  unfolding countdown_long
  countdown_long-some at now parts e = elim (Option-cases (countdown_long get_time t at now)) [
    | inl nothing ↦ absurd (cc (rw (countdown_long, e) at nothing))
    | inr found ↦ found
  ]

  -- The button and its popover say together that the paste has expired, or together how much of the same
  -- time is left.
  pub expiry_view-agrees :
      (cleanup_every_secs : ℕ) (at : Text) (now : ℕ)
      → ((countdown_parts get_time at now ≡ none)
          × ((expiry_view cleanup_every_secs at now).label ≡ t (codes "paste.expired") none)
          × ((expiry_view cleanup_every_secs at now).left ≡ t (codes "paste.expired") none))
        ⊎ ((parts : Parts) × (short : Text) × (long : Text) × (countdown_parts get_time at now
              ≡ some parts)
            × (countdown get_time t at now ≡ some short)
            × (countdown_long get_time t at now ≡ some long)
            × ((expiry_view cleanup_every_secs at now).label ≡ short)
            × ((expiry_view cleanup_every_secs at now).left
                ≡ t (codes "paste.left") (some ((codes "value", long) ∷ []))))
  unfolding expiry_view countdown countdown_long or_else
  expiry_view-agrees cleanup_every_secs at now =
      elim (Option-cases (countdown_parts get_time at now)) [
        | inl e ↦ inl (
          e,
          rw (expiry_view, countdown, or_else, e) refl,
          rw (expiry_view, countdown_long, e) refl,
        )
        | inr (parts, e) ↦
            let (short, s) = countdown-some at now parts e in
            let (long, l) = countdown_long-some at now parts e in
            inr (
              parts,
              short,
              long,
              e,
              s,
              l,
              rw (expiry_view, s, or_else) refl,
              rw (expiry_view, l) refl,
            )
      ]
