-- ===== src/PastePage/ViewTests.antt =====
-- What the page of a paste shows, on a page that has just opened.
use haste_server.Prelude.{ℕ, ◌≡◌, ◌≢◌, ◌⊎◌, refl, [], Option, none, some}
use haste_server.Text.{Text, codes}
use haste_server.I18n.{Translate}
use haste_server.Timestamps.{Calendar}
use haste_server.Api.{other}
use haste_server.NotFound.{paste_props}
use haste_server.PastePage.Tests.{paste}
use haste_server.PastePage.{
  Page, open_page, settle, settle_from, load, fetch_again, has_key, on_result, on_failure, error_of,
}
use haste_server.PastePage.Loading.{opened}
use haste_server.PastePage.View.{
  View, Told, loading, shown, reading, view, view_of, loading-answered,
}

-- Of the clock and the platform nothing is asked here.
abbrev calendar : Calendar Text
calendar = record { instant = λ iso. none; format_to_parts = λ zone date. [] }

abbrev untranslated : Translate
untranslated key vars = key

abbrev get_time : Text → Option ℕ
get_time at = none

abbrev as_is : Text → Text
as_is s = s

abbrev digits : ℕ → Text
digits n = []

abbrev opening : Page
opening = open_page (codes "k7") none

abbrev seen : Page → View
seen page = view calendar get_time untranslated as_is as_is digits 3_600 0 as_is [] [] page

loading-answered_example :
    (id : ℕ) × (opening.live ≡ some id)
    × (((paste.key ≡ opening.code)
          × (seen (on_result id paste opening)
              ≡ shown (reading calendar get_time untranslated as_is as_is digits 3_600 0 [] paste)))
        ⊎ ((paste.key ≢ opening.code)
            × (seen (on_result id paste opening) ≡ loading (codes "paste.loading"))))
    × Told calendar get_time untranslated as_is as_is digits 3_600 0 as_is [] opening.code
        (error_of other)
        (seen (on_failure id other opening))
unfolding view view_of paste_props open_page settle settle_from load fetch_again has_key
loading-answered_example =
    loading-answered calendar get_time untranslated as_is as_is digits 3_600 0 as_is [] []
      (codes "paste.loading") opening paste other (opened (codes "k7") none) refl
