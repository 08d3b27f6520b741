-- ===== src/Docs/PageTests.antt =====
-- The rows, the page and a copy button of the API reference on concrete states.
use haste_server.Prelude.{◌≡◌, refl, true, false, [], ◌∷◌, some, Memᴰ, arith}
use haste_server.Text.{Text, codes, contains}
use haste_server.Text.Decimal.{decimal}
use haste_server.I18n.{translate}
use haste_server.I18n.Locales.{zh_tw}
use haste_server.Docs.{Field}
use haste_server.Docs.Fields.{field_view, field_view-limit}
use haste_server.SharedConfig.{fallback_config}
use haste_server.Docs.{Endpoint, stats, endpoints, listed}
use haste_server.Docs.Trying.{open_form}
use haste_server.Docs.Tests.{public_config}
use haste_server.Docs.Rows.{
  Row, DocsPage, open_docs, on_toggle, toggle, toggle_form, on_config, opened, toggled,
  on_config-keeps, closed,
}
use haste_server.Docs.CopyButton.{
  CopyButton, start, on_copied, advance, copied, mounted, Reach-clears, advance-cut_short,
}

abbrev copied_once : CopyButton
copied_once = (on_copied true (start 0)).0

Reach-clears_example :
    ((advance 1_200 copied_once).done ≡ false) × ((advance 1_200 copied_once).timers ≡ [])
Reach-clears_example = Reach-clears 1_200 (copied true (mounted 0)) (omega arith)

advance-cut_short_example :
    let first = advance 1_000 (on_copied true (start 0)).0 in
    let second = advance 200 (on_copied true first).0 in
    (first.done ≡ true) × (second.done ≡ false) × (second.timers ≡ 2_200 ∷ [])
unfolding start
advance-cut_short_example = advance-cut_short 1_000 (start 0) refl (omega arith) (omega arith)

-- The reader opens the first row before the configuration arrives.
abbrev opened_first : DocsPage
opened_first = on_toggle 0 (open_docs fallback_config)

abbrev creates : Endpoint
creates = elim endpoints [ [] ↦ stats | e ∷ rest ↦ e ]

abbrev open_row : Row
open_row = record { endpoint = creates; form = some (open_form creates) }

on_config-keeps_example : Memᴰ open_row (on_config public_config opened_first).rows
unfolding endpoints listed on_toggle toggle toggle_form open_docs closed
on_config-keeps_example =
    on_config-keeps public_config open_row (toggled 0 (opened fallback_config)) (Memᴰ.head refl)
      (Memᴰ.head refl)

abbrev title_field : Field
title_field = record {
  name = codes "title";
  type_name = codes "string";
  required = false;
  desc = codes "docs.p.title";
}

abbrev unnamed : Text → Text
unnamed name = []

field_view-limit_example :
    contains
      (field_view (translate unnamed zh_tw) public_config title_field).desc
      (decimal public_config.max_title_chars)
    ≡ true
field_view-limit_example = field_view-limit unnamed zh_tw public_config title_field refl
