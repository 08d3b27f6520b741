-- ===== src/Api/Tests.antt =====
-- The requests and their errors on concrete answers.
use haste_server.Prelude.{ℕ, [], none, some}
use haste_server.Text.{Text, codes}
use haste_server.Api.{ApiError, Fetched, response, request}
use haste_server.Api.Requests.{Explains, request-Explains}

abbrev answer : Fetched ℕ
answer = response 404 none (some (record { error = some (codes "not_found"); message = none }))

request-Explains_example : Explains (request answer) answer
request-Explains_example = request-Explains answer

abbrev too_large : ApiError
too_large = record { status = 413; code = codes "too_large"; message = codes "paste is too large" }

abbrev unnamed : Text → Text
unnamed name = []
