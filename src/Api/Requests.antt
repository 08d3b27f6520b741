-- ===== src/Api/Requests.antt =====
-- What the outcome of a request says about the answer that came back.
use haste_server.Prelude.{
  ℕ, ◌≡◌, ◌≤◌, ◌<◌, ◌⊎◌, inl, inr, refl, true, false, Option, none, some, arith, Bool-cases,
}
use haste_server.Text.{codes}
use haste_server.Api.{
  api_error, other, Fetched, unreachable, response, Outcome, ok, failed, request, ErrorBody, is_ok,
}

-- A status in 200 to 299.
abbrev pub IsSuccess : ℕ → Type 0
IsSuccess status = (200 ≤ status) × (status < 300)

IsSuccess-is_ok : (status : ℕ) → is_ok status ≡ true → IsSuccess status
IsSuccess-is_ok status h = ground arith

not_IsSuccess : (status : ℕ) → is_ok status ≡ false → ¬ IsSuccess status
not_IsSuccess status h (p, q) = ground arith

module _ {ℓ} {T : Type ℓ} where
  -- The answer behind a value, behind an `ApiError` and behind another rejection.
  abbrev pub Explains : Outcome T → Fetched T → Type ℓ
  Explains (ok value) r =
      (status : ℕ) × (body : Option ErrorBody) × (r ≡ response status (some value) body)
      × IsSuccess status
  Explains (failed (api_error e)) r =
      ((r ≡ unreachable) × (e.status ≡ 0) × (e.code ≡ codes "network"))
      ⊎ ((json : Option T) × (body : Option ErrorBody) × (r ≡ response e.status json body)
          × (¬ IsSuccess e.status))
  Explains (failed other) r =
      (status : ℕ) × (body : Option ErrorBody) × (r ≡ response status none body) × IsSuccess status

  -- A request gives a value only where a 2xx response has a JSON body, which is the value; an
  -- `ApiError` only for another status, which it carries, or with status 0 and code `network` where
  -- no response came; and it rejects in another way only where a 2xx body is not JSON.
  pub request-Explains : (r : Fetched T) → Explains (request r) r
  unfolding request
  request-Explains unreachable = inl (refl, refl, refl)
  request-Explains (response status none body) = elim (Bool-cases (is_ok status)) [
    | inl good ↦ rw (good, request) (status, body, refl, IsSuccess-is_ok status good)
    | inr bad ↦ rw (bad, request) (inr (none, body, refl, not_IsSuccess status bad))
  ]
  request-Explains (response status (some value) body) = elim (Bool-cases (is_ok status)) [
    | inl good ↦ rw (good, request) (status, body, refl, IsSuccess-is_ok status good)
    | inr bad ↦ rw (bad, request) (inr (some value, body, refl, not_IsSuccess status bad))
  ]
