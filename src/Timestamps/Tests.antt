-- ===== src/Timestamps/Tests.antt =====
-- The stamps of a concrete instant.
use haste_server.Prelude.{Bool, true, ◌≡◌, refl, [], ◌∷◌, none, some}
use haste_server.Text.{Text, codes, text_eq}
use haste_server.Text.Objects.{object}
use haste_server.Timestamps.{
  Calendar, display_time_zone, from_entries, part, full_stamp, format_timestamp, parts_in,
}

-- A calendar of one instant.
abbrev calendar : Calendar Bool
calendar = record {
  instant = λ iso. elim iso [ [] ↦ none | c ∷ s ↦ some true ];
  format_to_parts = λ zone date. object (
      ("day", "18")
      ∷ ("literal", "/")
      ∷ ("month", "08")
      ∷ ("literal", "/")
      ∷ ("year", "2026")
      ∷ ("literal", ", ")
      ∷ ("hour", "05")
      ∷ ("literal", ":")
      ∷ ("minute", "36")
      ∷ ("literal", ":")
      ∷ ("second", "10")
      ∷ []);
}

stamped :
    format_timestamp calendar (codes "2026-08-17T21:36:10Z") ≡ some (codes "2026-08-18 05:36:10")
unfolding format_timestamp parts_in full_stamp part from_entries display_time_zone
    haste_server.Text.Objects.get
stamped = refl
