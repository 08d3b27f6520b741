-- ===== src/Docs/Tests.antt =====
-- The corpus totals, under a configuration that serves them.
use haste_server.Prelude.{
  false, ◌≡◌, refl, true, ◌&&◌, [], ◌∷◌, Option, none, some, Memᴰ, any, leb, ltb, if◌then◌else◌,
}
use haste_server.Text.{Text, codes, trim, trim_start, trim_end, is_space}
use haste_server.Api.{ServerConfig}
use haste_server.Docs.{Endpoint, stats, endpoints, listed}
use haste_server.Docs.Trying.{
  open_form, needs_code, is_disabled, on_code, request_for, send, on_click, on_response,
}
use haste_server.Docs.Rows.{toggle_form}
use haste_server.Docs.Trying.Stuck.{click-dead}
use haste_server.Docs.Trying.Sending.{
  System, asks, Phase, Later-Phase, click, later, here, code, clicked, answered,
}

abbrev pub public_config : ServerConfig
public_config = record {
  max_chars = 40_000;
  max_title_chars = 15;
  expiry_options_secs = [];
  cleanup_every_secs = 3_600;
  base_url = none;
  stats_public = some true;
}

pub stats-listed : Memᴰ stats (listed public_config)
unfolding listed endpoints
stats-listed = Memᴰ.tail (
    Memᴰ.tail
      (Memᴰ.tail (Memᴰ.tail (Memᴰ.tail (Memᴰ.tail (Memᴰ.tail (Memᴰ.tail (Memᴰ.head refl))))))))

abbrev reads : Endpoint
reads = record stats { path = codes "/raw/{code}" }

-- An encoder that throws on a lone surrogate.
abbrev encode : Text → Option Text
encode s = if any (λ c. leb 0xd800 c && ltb c 0xe000) s then none else some s

abbrev reformat : Text → Option Text
reformat s = none

abbrev typed : System
typed = record { form = on_code (codes "k7") (open_form reads); pending = [] }

abbrev answered_once : System
answered_once = record (click encode reformat reads typed) {
  form = on_response reformat 200 (codes "OK") [] (click encode reformat reads typed).form;
  pending = [];
}

Later-Phase_example : Phase encode reformat reads answered_once
unfolding click on_click send is_disabled needs_code request_for open_form trim trim_end trim_start
    is_space on_code asks
Later-Phase_example = Later-Phase encode reformat reads (
    later (later (later here (code (codes "k7"))) clicked) (answered 200 (codes "OK") [] _ [] refl))

abbrev lone : System
lone = record { form = on_code (0xd800 ∷ []) (open_form reads); pending = [] }

click-dead_example :
    (is_disabled reads (click encode reformat reads lone).form ≡ true)
    × ((click encode reformat reads lone).pending ≡ [])
    × (toggle_form reads (toggle_form reads (some (click encode reformat reads lone).form))
        ≡ some (open_form reads))
    × ((open_form reads).sending ≡ false)
unfolding is_disabled needs_code open_form trim trim_end trim_start is_space on_code asks
click-dead_example = click-dead encode reformat reads lone refl refl refl here
