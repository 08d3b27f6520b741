-- ===== src/PastePage/Keys.antt =====
-- The keys of what web/src/routes/paste.tsx shows: the page's own listener on the window, and that of
-- web/src/components/not-found.tsx while the page for a dead link is there.
use haste_server.Prelude.{◌≡◌, ◌≢◌, ◌⊎◌, Bool, false, ◌||◌, List, ◌++◌, Option, none, some, map}
use haste_server.Text.{Text, codes, lower}
use haste_server.Lines.{LineRange}
use haste_server.Api.{ApiError}
use haste_server.NotFound
use haste_server.PastePage.{Page}
use haste_server.PastePage.Shortcuts.{Press, Action, takes_text, on_key_down}

-- The other listener, where there is an error.
unfoldable pub with_dead_link : Press → Option ApiError → List Action × Bool → List Action × Bool
with_dead_link press none (own, taken) = (own, taken)
with_dead_link press (some e) (own, taken) =
    let (others, prevented) = haste_server.NotFound.on_key_down (map lower press.key) press in
    (own ++ others, taken || prevented)

unfoldable pub window_keys : Press → Text → Page → Option LineRange → List Action × Bool
window_keys press href page current =
    with_dead_link press page.error (on_key_down press href page current)

abbrev pub IsBare : Press → Type 0
IsBare press = (press.meta_key ≡ false) × (press.ctrl_key ≡ false) × (press.alt_key ≡ false)

-- A press that is to lead home.
abbrev pub LeadsHome : Press → Page → Type 0
LeadsHome press page =
    IsBare press
    × (map lower press.key ≡ codes "n")
    × ((page.error ≢ none) ⊎ (takes_text press ≡ false))
