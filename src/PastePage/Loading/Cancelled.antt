-- ===== src/PastePage/Loading/Cancelled.antt =====
-- The requests of web/src/routes/paste.tsx that the cleanup of its loading effect has cancelled.
use haste_server.Prelude.{
  ℕ, ◌<◌, ◌≡◌, ◌≢◌, inl, inr, sym, Bool, true, false, some, arith, Bool-cases, Option-cases,
  if◌then◌else◌,
}
use mathlib.Core.Path.{subst}
use mathlib.Core.Option.{some-injective}
use haste_server.Text.{Text, text_eq, text_eq_iff}
use haste_server.Api.{Paste, Failure}
use haste_server.PastePage.{Page, fetch_again, load, settle, on_code, on_result, on_failure}
use haste_server.PastePage.Loading.{
  Step, to_code, answer, failure, Reach, Reach-IsSettled, load-none, load-own, load-foreign,
  settle-none, settle-own, settle-foreign, on_result-live, on_failure-live, unchanged_by_other,
}

-- A request that was made and is cancelled.
record IsCancelled (id : ℕ) (page : Page) : Type 0 where
  numbered : id < page.next_request
  cancelled : page.live ≢ some id

fetch_again-IsCancelled :
    (id : ℕ) (page : Page) → id < page.next_request → IsCancelled id (fetch_again page)
unfolding fetch_again
fetch_again-IsCancelled id page h = record {
  numbered = omega arith;
  cancelled = λ e. let same = some-injective _ _ e in absurd (omega arith);
}

load-IsCancelled : (id : ℕ) (page : Page) → id < page.next_request → IsCancelled id (load page)
load-IsCancelled id page h = elim (Option-cases page.paste) [
  | inl nothing ↦
      subst (IsCancelled id) (sym (load-none page nothing)) (fetch_again-IsCancelled id page h)
  | inr (p, e) ↦ elim (Bool-cases (text_eq p.key page.code)) [
    | inl own ↦
        subst (IsCancelled id) (sym (load-own page p e own))
          (record { numbered = h; cancelled = λ none_live. cc none_live })
    | inr foreign ↦
        subst (IsCancelled id) (sym (load-foreign page p e foreign))
          (fetch_again-IsCancelled id page h)
  ]
]

-- The cleanup of the effect cancels every request that was made before it.
settle-IsCancelled : (id : ℕ) (page : Page) → id < page.next_request → IsCancelled id (settle page)
settle-IsCancelled id page h = elim (Option-cases page.paste) [
  | inl nothing ↦
      subst (IsCancelled id) (sym (settle-none page nothing)) (load-IsCancelled id page h)
  | inr (p, e) ↦ elim (Bool-cases (text_eq p.key page.code)) [
    | inl own ↦ subst (IsCancelled id) (sym (settle-own page p e own)) (load-IsCancelled id page h)
    | inr foreign ↦
        subst (IsCancelled id) (sym (settle-foreign page p e foreign))
          (load-IsCancelled id (load page) (load-IsCancelled id page h).numbered)
  ]
]

Step-IsCancelled :
    (id : ℕ) {page page' : Page} → Step page page' → IsCancelled id page → IsCancelled id page'
unfolding on_code
Step-IsCancelled id {page} (to_code code) v = by_code (text_eq code page.code)
  where
    by_code : (b : Bool) → IsCancelled id (if b then page else settle (record page { code = code }))
    by_code true = v
    by_code false = settle-IsCancelled id (record page { code = code }) v.numbered
Step-IsCancelled id {page} (answer live_id result live clean) v =
    subst (IsCancelled id) (sym (on_result-live live_id result page live))
      (settle-IsCancelled id (record page { paste = some result }) v.numbered)
Step-IsCancelled id {page} (failure live_id reason live clean empty) v =
    subst (IsCancelled id) (sym (on_failure-live live_id reason page live))
      (record { numbered = v.numbered; cancelled = v.cancelled })

-- What a page comes to.
pub data Later (page : Page) : Page → Type 0 where
  here : Later page page
  onward : {page' page'' : Page} → Later page page' → Step page' page'' → Later page page''

Later-IsCancelled :
    (id : ℕ) {page page' : Page} → Later page page' → IsCancelled id page → IsCancelled id page'
Later-IsCancelled id here v = v
Later-IsCancelled id (onward before step) v =
    Step-IsCancelled id step (Later-IsCancelled id before v)

-- Once the reader has gone on to another code, the request that was waited for is cancelled for good: at
-- any later time, codes and answers in between, its answer and its failure change nothing.
pub stale_answer :
    (id : ℕ) (code : Text) (result : Paste) (reason : Failure) {page page' : Page}
    → Reach page
    → page.live ≡ some id
    → code ≢ page.code
    → Later (on_code code page) page'
    → (on_result id result page' ≡ page') × (on_failure id reason page' ≡ page')
unfolding on_code
stale_answer id code result reason {page} {page'} r live other run =
    unchanged_by_other id result reason page' (Later-IsCancelled id run left).cancelled
  where
    left : IsCancelled id (on_code code page)
    left = elim (Bool-cases (text_eq code page.code)) [
      | inl same ↦ absurd (other ((text_eq_iff _ _).0 same))
      | inr differs ↦ rw differs (
          settle-IsCancelled id (record page { code = code })
            ((Reach-IsSettled r).numbered id live))
    ]
