-- ===== src/Docs/Pages.antt =====
-- What web/src/routes/docs.tsx shows: the page, its rows and the detail of a row that is open.
use haste_server.Prelude.{
  ℕ, Bool, map_sound, map_complete, ◌≡◌, sym, ap, ◌∙◌, true, false, List, ◌++◌, Option, none, some,
  map, Memᴰ,
}
use mathlib.Core.Path.{subst}
use mathlib.Core.Option.{some-injective}
use haste_server.Text.{Text, codes, contains}
use haste_server.I18n.{Translate}
use haste_server.Api.{ServerConfig}
use haste_server.Docs.{Endpoint, listed, base_url, path_for, Tone, status_tone}
use haste_server.Docs.Ticks.{ticks}
use haste_server.Docs.Fields.{FieldView, field_view}
use haste_server.Docs.Examples.{curl_for, sample_code, curl_for-listed}
use haste_server.Docs.Rows.{Row, DocsPage, Reach, Reach-listed, method_name}
use haste_server.Docs.Trying.{TryIt}

-- Of a row that is open. The sections of the parameters and of the body are left out where they are empty.
pub record Detail : Type 0 where
  pub summary : Text
  pub note : Option (List (Text × Bool))
  pub params : List FieldView
  pub body : List FieldView
  pub command : Text
  pub responses : List (ℕ × Tone × Text)
  pub form : TryIt

pub record RowView : Type 0 where
  pub method : Text
  pub path : Text
  pub summary : Text
  pub detail : Option Detail

pub record PageView : Type 0 where
  pub title : Text
  pub subtitle : Text
  pub base_url : Text
  pub rows : List RowView
  pub error_shape : List (Text × Bool)
  pub back : Text

module _ (t : Translate) (config : ServerConfig) (origin : Text) where
  note_of : Option Text → Option (List (Text × Bool))
  note_of none = none
  note_of (some key) = some (ticks (t key none))

  unfoldable pub detail : Endpoint → TryIt → Detail
  unfolding note_of
  detail e form = record {
    summary = t e.summary none;
    note = note_of e.note;
    params = map (field_view t config) e.params;
    body = map (field_view t config) e.body;
    command = curl_for e (base_url config origin);
    responses = map (λ (r : ℕ × Text). (r.0, status_tone r.0, t r.1 none)) e.responses;
    form = form;
  }

  unfoldable pub detail_of : Endpoint → Option TryIt → Option Detail
  detail_of e none = none
  detail_of e (some form) = some (detail e form)

  unfoldable pub row_view : Row → RowView
  row_view r = record {
    method = method_name r.endpoint.method;
    path = r.endpoint.path;
    summary = t r.endpoint.summary none;
    detail = detail_of r.endpoint r.form;
  }

unfoldable pub page_view : Translate → Text → DocsPage → PageView
page_view t origin page = record {
  title = t (codes "docs.title") none;
  subtitle = t (codes "docs.subtitle") none;
  base_url = base_url page.config origin;
  rows = map (row_view t page.config origin) page.rows;
  error_shape = ticks (t (codes "docs.errorShape") none);
  back = t (codes "docs.back") none;
}

detail_of-some :
    (t : Translate) (config : ServerConfig) (origin : Text) (e : Endpoint) (o : Option TryIt)
    (d : Detail)
    → detail_of t config origin e o ≡ some d
    → d.command ≡ curl_for e (base_url config origin)
unfolding detail_of detail
detail_of-some t config origin e none d h = cc h
detail_of-some t config origin e (some form) d h =
    ap (λ (x : Detail). x.command) (some-injective _ _ (sym h))

-- Whatever rows the reader has opened and whenever the configuration arrived, the command in an open row
-- is that of an endpoint which the configuration in force lists, the one whose path the row shows; and it
-- calls that path, with a code in the place for one, below the base URL at the top of the page.
pub page_view-command :
    (t : Translate) (origin : Text) (page : DocsPage) (v : RowView) (d : Detail)
    → Reach page
    → Memᴰ v (page_view t origin page).rows
    → v.detail ≡ some d
    → (e : Endpoint) × Memᴰ e (listed page.config)
      × (v.path ≡ e.path)
      × (contains d.command ((page_view t origin page).base_url ++ path_for sample_code e) ≡ true)
      × (contains (path_for sample_code e) (codes "{code}") ≡ false)
unfolding page_view row_view
page_view-command t origin page v d reached m opened =
    let (r, there, is) = map_sound (row_view t page.config origin) page.rows m in
    let e = r.endpoint in
    let member =
      subst (λ es. Memᴰ e es) (Reach-listed reached)
        (map_complete (λ (q : Row). q.endpoint) page.rows there) in
    let url = base_url page.config origin in
    let (calls, filled, _) = curl_for-listed page.config e url member in
    let command =
      detail_of-some t page.config origin e r.form d
        (sym (ap (λ (w : RowView). w.detail) is) ∙ opened) in
    (
      e,
      member,
      ap (λ (w : RowView). w.path) is,
      subst (λ c. contains c (url ++ path_for sample_code e) ≡ true) (sym command) calls,
      filled,
    )
