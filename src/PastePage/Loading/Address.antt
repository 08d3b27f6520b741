-- ===== src/PastePage/Loading/Address.antt =====
-- The loading effect of web/src/routes/paste.tsx and the code in the address.
use haste_server.Prelude.{
  ℕ, ◌+◌, ◌≡◌, ◌≢◌, inl, inr, sym, ap, ◌∙◌, false, Option, none, some, arith, Bool-cases,
  if◌then◌else◌,
}
use haste_server.Text.{Text, text_eq, text_eq_iff}
use haste_server.Api.{Paste, Failure}
use haste_server.PastePage.{
  Page, fetch_again, settle, open_page, on_code, is_live, on_result, error_of, on_failure,
}
use haste_server.PastePage.Loading.{
  Settling, kept, asked, settling, fetch_again-code, settle-refetches,
}

settle-code : (page : Page) → (settle page).code ≡ page.code
settle-code page = from (settling page)
  where
    from : Settling page → (settle page).code ≡ page.code
    from (kept p held own e) = ap (λ (q : Page). q.code) e
    from (asked before same e) = ap (λ (q : Page). q.code) e ∙ fetch_again-code before ∙ same

-- The page is of the code in the address.
pub open_page-code : (code : Text) (handoff : Option Paste) → (open_page code handoff).code ≡ code
unfolding open_page
open_page-code code handoff = settle-code _

pub on_code-code : (code : Text) (page : Page) → (on_code code page).code ≡ code
unfolding on_code
on_code-code code page = elim (Bool-cases (text_eq code page.code)) [
  | inl same ↦
      ap (λ b. (if b then page else settle (record page { code = code })).code) same
      ∙ sym ((text_eq_iff code page.code).0 same)
  | inr differs ↦
      ap (λ b. (if b then page else settle (record page { code = code })).code) differs
      ∙ settle-code (record page { code = code })
]

pub on_result-code :
    (id : ℕ) (result : Paste) (page : Page) → (on_result id result page).code ≡ page.code
unfolding on_result
on_result-code id result page = elim (Bool-cases (is_live id page.live)) [
  | inl live ↦
      ap (λ b. (if b then settle (record page { paste = some result }) else page).code) live
      ∙ settle-code (record page { paste = some result })
  | inr stale ↦
      ap (λ b. (if b then settle (record page { paste = some result }) else page).code) stale
]

pub on_failure-code :
    (id : ℕ) (reason : Failure) (page : Page) → (on_failure id reason page).code ≡ page.code
unfolding on_failure
on_failure-code id reason page = elim (Bool-cases (is_live id page.live)) [
  | inl live ↦
      ap (λ b. (if b then record page { error = some (error_of reason) } else page).code) live
  | inr stale ↦
      ap (λ b. (if b then record page { error = some (error_of reason) } else page).code) stale
]

on_code-other :
    (code : Text) (page : Page)
    → text_eq code page.code ≡ false
    → on_code code page ≡ settle (record page { code = code })
unfolding on_code
on_code-other code page differs =
    ap (λ b. if b then page else settle (record page { code = code })) differs

-- Going from a paste that is shown to another code sends two requests for that, as the effect runs again
-- once it has dropped the paste: the first is cancelled at once, and only the answer to the second counts.
pub on_code-asks_twice :
    (code : Text) (page : Page) (p : Paste)
    → page.paste ≡ some p
    → p.key ≡ page.code
    → code ≢ page.code
    → let after = on_code code page in
      (after.code ≡ code)
      × (after.paste ≡ none)
      × (after.next_request ≡ page.next_request + 2)
      × (after.live ≡ some (page.next_request + 1))
unfolding fetch_again
on_code-asks_twice code page p held own other =
    let differs = text_eq-ne code page.code other in
    let foreign = text_eq-ne p.key code (λ e. other (sym e ∙ own)) in
    let asked =
      on_code-other code page differs
      ∙ settle-refetches (record page { code = code }) p held foreign in
    (
      on_code-code code page,
      ap (λ (q : Page). q.paste) asked,
      ap (λ (q : Page). q.next_request) asked ∙ omega arith,
      ap (λ (q : Page). q.live) asked,
    )
  where
    text_eq-ne : (s s' : Text) → s ≢ s' → text_eq s s' ≡ false
    text_eq-ne s s' h = elim (Bool-cases (text_eq s s')) [
      | inl same ↦ absurd (h ((text_eq_iff s s').0 same))
      | inr differs ↦ differs
    ]
