-- ===== src/App/LinkTests.antt =====
-- A copied link to a line, opened under the router of the other tests.
use haste_server.Prelude.{ℕ, ◌≡◌, refl, [], ◌∷◌, ◌++◌, Option, none, some, arith}
use haste_server.Text.{Text, codes, trim, split}
use haste_server.Text.Decimal.{number}
use haste_server.I18n.{Translate}
use haste_server.Timestamps.{Calendar}
use haste_server.Lines.{LineRange, format_line_hash, parse_line_hash, clamp_range}
use haste_server.PastePage.{Page, on_result, selection, line_count, link}
use haste_server.PastePage.View.{shown, view}
use haste_server.App.Tests.{router, detect, paste}
use haste_server.App.Visits.{reading, visit}
use haste_server.App.ShareLink.{loading_at, read_at, link-shown}

abbrev calendar : Calendar Text
calendar = record { instant = λ iso. none; format_to_parts = λ zone date. [] }

abbrev untranslated : Translate
untranslated key vars = key

abbrev get_time : Text → Option ℕ
get_time at = none

abbrev named : Text → Text
named id = id

abbrev digits : ℕ → Text
digits n = []

abbrev first_line : LineRange
first_line = record { start = 1; end = 1 }

link-shown_example :
    (page : Page) × (id : ℕ) × (link
        (codes "https://h/k7")
        (some paste)
        (selection (codes "#L1") (some paste))
      ≡ paste.url ++ format_line_hash first_line)
    × ((visit router detect (paste.key ∷ []) none (loading_at paste.key)).shown ≡ reading page)
    × (page.live ≡ some id)
    × (view calendar get_time untranslated detect named digits 3_600 0 named []
          (format_line_hash first_line)
          (on_result id paste page)
        ≡ shown (
            read_at router detect calendar get_time untranslated named digits 3_600 0 named []
              (format_line_hash first_line)
              paste))
    × ((read_at router detect calendar get_time untranslated named digits 3_600 0 named []
          (format_line_hash first_line)
          paste).selection
        ≡ some first_line)
unfolding selection line_count parse_line_hash clamp_range trim number split
link-shown_example =
    link-shown router detect calendar get_time untranslated named digits 3_600 0 named []
      (codes "https://h/k7") (codes "#L1") paste first_line (λ e. cc e) refl refl (omega arith)
