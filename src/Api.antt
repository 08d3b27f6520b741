-- ===== src/Api.antt =====
-- web/src/lib/api.ts: requests and their errors. `fetch` is the caller's argument: what comes back.
pub mod Errors
pub mod Requests
mod Tests
use haste_server.Prelude.{
  ℕ, ◌+◌, Bool, ◌&&◌, List, [], ◌∷◌, ◌++◌, Option, none, some, ltb, leb, if◌then◌else◌,
}
use haste_server.Text.{Text, codes}
use haste_server.Text.Decimal.{decimal}

pub record Paste : Type 0 where
  pub key : Text
  pub url : Text
  pub raw_url : Text
  pub download_url : Text
  pub filename : Text
  pub language : Option Text
  pub title : Option Text
  pub content : Option Text
  pub chars : ℕ
  pub bytes : ℕ
  pub created_at : Text
  pub expires_at : Option Text

pub record ServerConfig : Type 0 where
  pub max_chars : ℕ
  pub max_title_chars : ℕ
  pub expiry_options_secs : List ℕ
  pub cleanup_every_secs : ℕ
  pub base_url : Option Text
  pub stats_public : Option Bool

pub record ApiError : Type 0 where
  pub status : ℕ
  pub code : Text
  pub message : Text

-- What a failed request rejects with: an `ApiError`, or anything else.
pub data Failure : Type 0 where
  api_error : ApiError → Failure
  other : Failure

-- `error` and `message` of a parsed error body, `none` where they are null or absent (as they are of
-- a body that is no object).
pub record ErrorBody : Type 0 where
  pub error : Option Text
  pub message : Option Text

-- What `fetch` gives: a rejection, or a response with its status, its body as JSON (`none` where
-- `response.json()` rejects) and its body as an error envelope.
pub data Fetched {ℓ} (T : Type ℓ) : Type ℓ where
  unreachable : Fetched T
  response : ℕ → Option T → Option ErrorBody → Fetched T

pub data Outcome {ℓ} (T : Type ℓ) : Type ℓ where
  ok : T → Outcome T
  failed : Failure → Outcome T

-- `response.ok`
abbrev pub is_ok : ℕ → Bool
is_ok status = leb 200 status && ltb status 300

or_else : Option Text → Text → Text
or_else none default = default
or_else (some s) default = s

body_error : Option ErrorBody → Option Text
body_error none = none
body_error (some body) = body.error

body_message : Option ErrorBody → Option Text
body_message none = none
body_message (some body) = body.message

unfoldable pub request {ℓ} : {T : Type ℓ} → Fetched T → Outcome T
unfolding or_else body_error body_message
request unreachable = failed (
    api_error (record {
      status = 0;
      code = codes "network";
      message = codes "Could not reach the server.";
    }))
request (response status json body) =
    if is_ok status
    then elim json [ none ↦ failed other | some value ↦ ok value ]
    else failed (
        api_error (record {
          status = status;
          code = or_else (body_error body) (codes "http_error");
          message =
              or_else (body_message body)
                (codes "Request failed with status " ++ (decimal status ++ codes "."));
        }))

-- The envelope of `createPaste`.
pub record NewPaste : Type 0 where
  pub content : Text
  pub language : Text
  pub title : Text
  pub expires_in : ℕ
