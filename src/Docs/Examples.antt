-- ===== src/Docs/Examples.antt =====
-- `curlFor` of web/src/routes/docs.tsx: the command that the page shows for an endpoint.
use haste_server.Prelude.{
  ◌≡◌, refl, Bool, true, false, not, ◌&&◌, ◌||◌, [], ◌∷◌, ◌++◌, append-nil, Option, none, some,
  ◌==◌, if◌then◌else◌, all, all_sound, Memᴰ,
}
use mathlib.Core.Path.{subst}
use haste_server.Docs.Coverage.{listed-all}
use haste_server.Text.{Text, codes, is_space, trim_start, starts_with, contains, contains-append}
use haste_server.Api.{ServerConfig}
use haste_server.Languages.Json.{parses}
use haste_server.Docs.{Method, get, post, Endpoint, path_for, listed, endpoints, stats}

-- `.replace(/\n\s*/g, " ")`; the flag is set within a match.
unfoldable pub join_lines_from : Bool → Text → Text
join_lines_from inside [] = []
join_lines_from inside (c ∷ s) =
    let skipped = join_lines_from true s in
    let kept = c ∷ join_lines_from false s in
    if inside && is_space c then skipped else if c == b'\n' then b' ' ∷ skipped else kept

-- `.replace(/\s+}/, " }")`
unfoldable pub close_space : Text → Text
close_space [] = []
close_space (c ∷ s) =
    let later = c ∷ close_space s in
    if is_space c && starts_with (trim_start s) (codes "}") then b' ' ∷ trim_start s else later

unfoldable pub example_line : Text → Text
example_line example = close_space (join_lines_from false example)

unfoldable pub sample_code : Text
sample_code = codes "k7Qm2Xp9"

-- `endpoint.example?.startsWith("{")`
unfoldable pub sends_json : Endpoint → Bool
sends_json endpoint = elim endpoint.example [
  | none ↦ false
  | some example ↦ starts_with example (codes "{")
]

example_of : Option Text → Text
example_of none = []
example_of (some example) = example

-- `baseUrl + endpoint.path.replace("{code}", …)`
unfoldable pub example_url : Endpoint → Text → Text
example_url endpoint base_url = base_url ++ path_for sample_code endpoint

is_get : Method → Bool
is_get get = true
is_get post = false

unfoldable pub curl_for : Endpoint → Text → Text
unfolding example_of is_get
curl_for endpoint base_url =
    if is_get endpoint.method
    then codes "curl " ++ example_url endpoint base_url
    else if sends_json endpoint
    then codes "curl -X POST "
      ++ (example_url endpoint base_url
          ++ (codes " \\\n  -H 'Content-Type: application/json' \\\n  -d '"
              ++ (example_line (example_of endpoint.example) ++ codes "'")))
    else codes "curl --data-binary @file.txt " ++ example_url endpoint base_url

-- The body of the example, as it stands between the quotes of the command.
abbrev pub quoted : Endpoint → Text
unfolding example_of
quoted endpoint = example_line (example_of endpoint.example)

-- Where JSON is sent, the shell takes it as one word on one line, and it is JSON.
abbrev pub is_quotable : Endpoint → Bool
is_quotable endpoint =
    not (sends_json endpoint)
    || (all (λ c. not (c == b'\'' || c == b'\n')) (quoted endpoint) && parses (quoted endpoint))

endpoints-quotable : all is_quotable (endpoints ++ stats ∷ []) ≡ true
unfolding endpoints sends_json example_line close_space join_lines_from parses example_of trim_start
    is_space
endpoints-quotable = refl

examples-filled :
    all (λ e. not (contains (path_for sample_code e) (codes "{code}"))) (endpoints ++ stats ∷ [])
    ≡ true
unfolding endpoints sample_code path_for haste_server.Docs.replace_first
examples-filled = refl

curl_for-url :
    (e : Endpoint) (base_url : Text)
    → contains (curl_for e base_url) (example_url e base_url) ≡ true
unfolding curl_for is_get
curl_for-url e base_url = by_method e.method (sends_json e)
  where
    url : Text
    url = example_url e base_url

    at_end : (before : Text) → contains (before ++ url) url ≡ true
    at_end before =
        subst (λ s. contains (before ++ s) url ≡ true) (append-nil url)
          (contains-append before url [])

    by_method :
        (m : Method) (json : Bool)
        → contains
            (if is_get m
              then codes "curl " ++ url
              else if json
              then codes "curl -X POST "
                ++ (url
                    ++ (codes " \\\n  -H 'Content-Type: application/json' \\\n  -d '"
                        ++ (quoted e ++ codes "'")))
              else codes "curl --data-binary @file.txt " ++ url)
            url
          ≡ true
    by_method get json = at_end (codes "curl ")
    by_method post true = contains-append (codes "curl -X POST ") url _
    by_method post false = at_end (codes "curl --data-binary @file.txt ")

-- The command that is shown for an endpoint that the page lists holds its address below the base URL, with
-- no place for a code left in its path; and the JSON that it sends, if it sends any, stands on one
-- line without a single quote, and is JSON.
pub curl_for-listed :
    (config : ServerConfig) (e : Endpoint) (base_url : Text)
    → Memᴰ e (listed config)
    → (contains (curl_for e base_url) (base_url ++ path_for sample_code e) ≡ true)
      × (contains (path_for sample_code e) (codes "{code}") ≡ false)
      × (is_quotable e ≡ true)
unfolding example_url
curl_for-listed config e base_url m =
    let member = listed-all config m in
    (
      curl_for-url e base_url,
      not_true (contains (path_for sample_code e) (codes "{code}")) (
          all_sound (λ d. not (contains (path_for sample_code d) (codes "{code}")))
            (endpoints ++ stats ∷ []) examples-filled member),
      all_sound is_quotable (endpoints ++ stats ∷ []) endpoints-quotable member,
    )
  where
    not_true : (b : Bool) → not b ≡ true → b ≡ false
    not_true true h = cc h
    not_true false h = refl
