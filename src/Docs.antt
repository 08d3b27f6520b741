-- ===== src/Docs.antt =====
-- web/src/routes/docs.tsx: the API as data, what is listed of it and the path of a request.
pub mod Coverage
pub mod Ticks
pub mod CopyButton
pub mod Rows
pub mod Pages
pub mod Examples
pub mod Fields
pub mod Trying
mod Tests
mod PageTests
use haste_server.Prelude.{
  ℕ, ◌+◌, Bool, true, false, not, ◌&&◌, ◌||◌, List, [], ◌∷◌, ◌++◌, Option, none, some, ltb,
  if◌then◌else◌, any, drop, length,
}
use haste_server.Text.{Text, codes, text_eq, is_empty, trim, starts_with, contains}
use haste_server.Api.{ServerConfig}

pub data Method : Type 0 where
  get post : Method

pub record Field : Type 0 where
  pub name : Text
  pub type_name : Text
  pub required : Bool
  pub desc : Text

-- An absent list is the empty one, which the page shows in the same way.
pub record Endpoint : Type 0 where
  pub method : Method
  pub path : Text
  pub summary : Text
  pub note : Option Text
  pub params : List Field
  pub body : List Field
  pub example : Option Text
  pub responses : List (ℕ × Text)

abbrev pub code_param : Field
code_param = record {
  name = codes "code";
  type_name = codes "string";
  required = true;
  desc = codes "docs.p.code";
}

abbrev pub stats : Endpoint
stats = record {
  method = get;
  path = codes "/api/stats";
  summary = codes "docs.stats.summary";
  note = none;
  params = [];
  body = [];
  example = none;
  responses = (200, codes "docs.r.200stats") ∷ [];
}

abbrev pub create_example : Text
create_example =
    codes
      "{\n  \"content\": \"print(1)\",\n  \"title\": \"prod crash log\",\n  \"language\": \"python\",\n  \"expiresIn\": 21600\n}"

unfoldable pub endpoints : List Endpoint
endpoints =
    record {
      method = post;
      path = codes "/api/pastes";
      summary = codes "docs.create.summary";
      note = some (codes "docs.create.body");
      params = [];
      body =
          record {
            name = codes "content";
            type_name = codes "string";
            required = true;
            desc = codes "docs.p.content";
          }
          ∷ record {
            name = codes "title";
            type_name = codes "string";
            required = false;
            desc = codes "docs.p.title";
          }
          ∷ record {
            name = codes "language";
            type_name = codes "string";
            required = false;
            desc = codes "docs.p.language";
          }
          ∷ record {
            name = codes "expiresIn";
            type_name = codes "integer";
            required = false;
            desc = codes "docs.p.expiresIn";
          }
          ∷ [];
      example = some create_example;
      responses =
          (201, codes "docs.r.201")
          ∷ (400, codes "docs.r.400")
          ∷ (413, codes "docs.r.413")
          ∷ (429, codes "docs.r.429")
          ∷ (503, codes "docs.r.503")
          ∷ [];
    }
    ∷ record {
      method = get;
      path = codes "/api/pastes/{code}";
      summary = codes "docs.read.summary";
      note = none;
      params = code_param ∷ [];
      body = [];
      example = none;
      responses = (200, codes "docs.r.200") ∷ (404, codes "docs.r.404") ∷ [];
    }
    ∷ record {
      method = get;
      path = codes "/raw/{code}";
      summary = codes "docs.raw.summary";
      note = none;
      params = code_param ∷ [];
      body = [];
      example = none;
      responses = (200, codes "docs.r.200raw") ∷ (404, codes "docs.r.404") ∷ [];
    }
    ∷ record {
      method = get;
      path = codes "/download/{code}";
      summary = codes "docs.download.summary";
      note = some (codes "docs.download.body");
      params = code_param ∷ [];
      body = [];
      example = none;
      responses = (200, codes "docs.r.200download") ∷ (404, codes "docs.r.404") ∷ [];
    }
    ∷ record {
      method = get;
      path = codes "/api/config";
      summary = codes "docs.config.summary";
      note = some (codes "docs.config.body");
      params = [];
      body = [];
      example = none;
      responses = (200, codes "docs.r.200config") ∷ [];
    }
    ∷ record {
      method = get;
      path = codes "/healthz";
      summary = codes "docs.health.summary";
      note = none;
      params = [];
      body = [];
      example = none;
      responses = (200, codes "docs.r.200ok") ∷ [];
    }
    ∷ record {
      method = post;
      path = codes "/documents";
      summary = codes "docs.legacyCreate.summary";
      note = some (codes "docs.legacy.body");
      params = [];
      body = [];
      example = some (codes "print(1)");
      responses = (200, codes "docs.r.201") ∷ (400, codes "docs.r.400") ∷ [];
    }
    ∷ record {
      method = get;
      path = codes "/documents/{code}";
      summary = codes "docs.legacyRead.summary";
      note = some (codes "docs.legacy.body");
      params = code_param ∷ [];
      body = [];
      example = none;
      responses = (200, codes "docs.r.200") ∷ (404, codes "docs.r.404") ∷ [];
    }
    ∷ []

-- `config.baseUrl || window.location.origin`
unfoldable pub base_url : ServerConfig → Text → Text
base_url config origin = elim config.base_url [
  | none ↦ origin
  | some url ↦ if is_empty url then origin else url
]

-- `config.statsPublic ? [...ENDPOINTS, STATS] : ENDPOINTS`
unfoldable pub listed : ServerConfig → List Endpoint
listed config = elim config.stats_public [
  | none ↦ endpoints
  | some shown ↦ if shown then endpoints ++ stats ∷ [] else endpoints
]

-- `text.replace(what, by)`, which replaces the first occurrence of a text that is not empty.
unfoldable pub replace_first : Text → Text → Text → Text
replace_first what by [] = []
replace_first what by (c ∷ s) =
    let later = c ∷ replace_first what by s in
    if starts_with (c ∷ s) what then by ++ drop (length what) (c ∷ s) else later

-- The path with a code in the place of `{code}`.
unfoldable pub path_for : Text → Endpoint → Text
path_for code endpoint = replace_first (codes "{code}") code endpoint.path

-- The colours of a status: `text-success`, `text-warning` and `text-destructive`.
pub data Tone : Type 0 where
  success warning destructive : Tone

unfoldable pub status_tone : ℕ → Tone
status_tone status =
    if ltb status 300 then success else if ltb status 500 then warning else destructive
