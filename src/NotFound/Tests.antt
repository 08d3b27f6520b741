-- ===== src/NotFound/Tests.antt =====
-- The page for a dead link on concrete failures.
use haste_server.Prelude.{◌≡◌, ◌⊎◌, refl, true, false, [], none, some}
use haste_server.Text.{Text, codes}
use haste_server.Text.Objects.{get}
use haste_server.I18n.{translate}
use haste_server.I18n.Locales.{en_us}
use haste_server.Api.{Paste, ApiError, api_error, Fetched, response, request}
use haste_server.PastePage.{Page, error_of, on_failure}
use haste_server.Api.Errors.{describe_error}
use haste_server.NotFound.{Props, DeadLink, not_found, reason, is_dead_code, paste_props}
use haste_server.NotFound.Laws.{answers_404, props_of, throws, Offers, dead_link}

abbrev error : ApiError
error = record { status = 404; code = codes "not_found"; message = codes "no such paste" }

abbrev answer : Fetched Paste
answer =
    response 404 none
      (some (record { error = some (codes "not_found"); message = some (codes "no such paste") }))

abbrev waiting : Page
waiting = record { code = codes "m2"; paste = none; error = none; live = some 0; next_request = 1 }

-- An answer whose error code every object has as a property.
abbrev odd_error : ApiError
odd_error = record { status = 400; code = codes "constructor"; message = codes "Bad." }

abbrev as_is : Text → Text
as_is s = s

crashes :
    not_found as_is
      (translate as_is en_us)
      []
      (props_of (translate as_is en_us) (codes "m2") odd_error)
    ≡ none
unfolding not_found reason describe_error is_dead_code get
crashes = refl

dead_link_example :
    (props : Props) × (paste_props (translate as_is en_us) (on_failure 0 (api_error error) waiting)
      ≡ some props)
    × (props.code ≡ codes "m2")
    × (((throws (codes "m2") error ≡ true)
          × (not_found as_is (translate as_is en_us) (codes "/m2") props ≡ none))
        ⊎ ((throws (codes "m2") error ≡ false)
            × (sheet : DeadLink) × (not_found as_is (translate as_is en_us) (codes "/m2") props
                ≡ some sheet)
            × Offers (translate as_is en_us) (codes "m2") (answers_404 answer) sheet))
unfolding request error_of
dead_link_example =
    dead_link as_is (translate as_is en_us) (codes "/m2") 0 answer (api_error error) waiting refl
      refl
