-- ===== src/Timestamps.antt =====
-- web/src/lib/utils.ts: an instant as text in the one zone that every reader sees. `Date` and `Intl`
-- are arguments.
pub mod Laws
mod Tests
use haste_server.Prelude.{String, List, [], ◌∷◌, ◌++◌, Option, none, some}
use haste_server.Text.{Text, codes}
use haste_server.Text.Objects.{get}

-- What the platform gives: the instant of a text, `none` where `new Date` is invalid, and the parts
-- that `formatToParts` has for an instant in a zone, each a type and a value.
pub record Calendar {ℓ} (Instant : Type ℓ) : Type ℓ where
  pub instant : Text → Option Instant
  pub format_to_parts : Text → Instant → List (Text × Text)

unfoldable pub display_time_zone : Text
display_time_zone = codes "Asia/Taipei"

-- The object that `Object.fromEntries` makes holds the last value of a key.
unfoldable pub from_entries : List (Text × Text) → List (Text × Text)
from_entries [] = []
from_entries (entry ∷ rest) = from_entries rest ++ entry ∷ []

-- `${p.key}`
unfoldable pub part : Text → List (Text × Text) → Text
part key parts = elim (get key parts) [ none ↦ codes "undefined" | some value ↦ value ]

-- `${p.year}-${p.month}-${p.day} ${p.hour}:${p.minute}:${p.second}`
unfoldable pub full_stamp : List (Text × Text) → Text
full_stamp p =
    part (codes "year") p
    ++ (codes "-"
        ++ (part (codes "month") p
            ++ (codes "-"
                ++ (part (codes "day") p
                    ++ (codes " "
                        ++ (part (codes "hour") p
                            ++ (codes ":"
                                ++ (part (codes "minute") p
                                    ++ (codes ":" ++ part (codes "second") p)))))))))

-- `${p.month}-${p.day} ${p.hour}:${p.minute}`
unfoldable pub short_stamp : List (Text × Text) → Text
short_stamp p =
    part (codes "month") p
    ++ (codes "-"
        ++ (part (codes "day") p
            ++ (codes " " ++ (part (codes "hour") p ++ (codes ":" ++ part (codes "minute") p)))))

module _ {ℓ} {Instant : Type ℓ} (calendar : Calendar Instant) where
  unfoldable pub parts_in : Text → Text → Option (List (Text × Text))
  parts_in iso time_zone = elim (calendar.instant iso) [
    | none ↦ none
    | some date ↦ some (from_entries (calendar.format_to_parts time_zone date))
  ]

  unfoldable pub format_timestamp : Text → Option Text
  format_timestamp iso = elim (parts_in iso display_time_zone) [
    | none ↦ none
    | some p ↦ some (full_stamp p)
  ]

  unfoldable pub format_time_of_day : Text → Option Text
  format_time_of_day iso = elim (parts_in iso display_time_zone) [
    | none ↦ none
    | some p ↦ some (short_stamp p)
  ]

  -- A stamp is never empty, so `!local` holds only of null.
  unfoldable pub describe_timestamp : Text → Option Text
  describe_timestamp iso = elim (format_timestamp iso) [
    | none ↦ none
    | some local ↦ elim (parts_in iso (codes "UTC")) [
      | none ↦ none
      | some utc ↦ some (local ++ (codes " (UTC+8) · " ++ (full_stamp utc ++ codes " UTC")))
    ]
  ]
