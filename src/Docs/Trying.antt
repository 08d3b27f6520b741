-- ===== src/Docs/Trying.antt =====
-- `TryIt` of web/src/routes/docs.tsx: the form that runs a request against the server of the page.
pub mod Sending
pub mod Stuck
use haste_server.Prelude.{
  ℕ, ◌+◌, Bool, true, false, not, ◌&&◌, ◌||◌, List, [], ◌∷◌, ◌++◌, Option, none, some,
  if◌then◌else◌,
}
use haste_server.Text.{Text, codes, is_empty, trim, contains}
use haste_server.Text.Decimal.{decimal}
use haste_server.Docs.{Method, get, post, Endpoint, path_for}
use haste_server.Docs.Examples.{sends_json}

pub record TryIt : Type 0 where
  pub code : Text
  pub body : Text
  pub sending : Bool
  pub result : Option Text

-- What `fetch` is called with.
pub record Request : Type 0 where
  pub path : Text
  pub method : Method
  pub sends_json_type : Bool
  pub body : Option Text

body_or_empty : Option Text → Text
body_or_empty none = []
body_or_empty (some example) = example

unfoldable pub open_form : Endpoint → TryIt
unfolding body_or_empty
open_form endpoint = record {
  code = [];
  body = body_or_empty endpoint.example;
  sending = false;
  result = none;
}

unfoldable pub needs_code : Endpoint → Bool
needs_code endpoint = contains endpoint.path (codes "{code}")

-- The `disabled` of the button.
unfoldable pub is_disabled : Endpoint → TryIt → Bool
is_disabled endpoint form = form.sending || (needs_code endpoint && is_empty (trim form.code))

unfoldable pub on_code : Text → TryIt → TryIt
on_code code form = record form { code = code }

-- The text area is there for a POST only.
unfoldable pub on_body : Method → Text → TryIt → TryIt
on_body get body form = form
on_body post body form = record form { body = body }

body_for : Method → Text → Option Text
body_for get body = none
body_for post body = some body

-- The call of `fetch`, given the encoded code.
unfoldable pub request_for : Endpoint → TryIt → Text → Request
unfolding body_for
request_for endpoint form encoded = record {
  path = path_for encoded endpoint;
  method = endpoint.method;
  sends_json_type = sends_json endpoint;
  body = body_for endpoint.method form.body;
}

-- `encodeURIComponent` is an argument, `none` where it throws.
module _ (encode : Text → Option Text) (endpoint : Endpoint) where
  -- `send`, up to the `await` of the fetch, and the request if it comes to one: the `try` begins
  -- behind the encoding.
  unfoldable pub send : TryIt → TryIt × Option Request
  send form = (
    record form { sending = true; result = none },
    elim (encode (trim form.code)) [
      | none ↦ none
      | some encoded ↦ some (request_for endpoint form encoded)
    ],
  )

  -- A click on the button.
  unfoldable pub on_click : TryIt → TryIt × Option Request
  on_click form = if is_disabled endpoint form then (form, none) else send form

-- `JSON.stringify(JSON.parse(text), null, 2)` is an argument, `none` where it throws.
module _ (reformat : Text → Option Text) where
  unfoldable pub pretty : Text → Text
  pretty text = elim (reformat text) [ none ↦ text | some formatted ↦ formatted ]

  -- The response with its status, status text and text.
  unfoldable pub on_response : ℕ → Text → Text → TryIt → TryIt
  on_response status status_text text form = record form {
    result = some (decimal status ++ (b' ' ∷ (status_text ++ (codes "\n\n" ++ pretty text))));
    sending = false;
  }

-- The fetch or the reading of its text throws; `message` is `String(error)`.
unfoldable pub on_failure : Text → TryIt → TryIt
on_failure message form = record form { result = some message; sending = false }
