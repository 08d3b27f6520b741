-- ===== src/PastePage/Loading.antt =====
-- The loading effect of web/src/routes/paste.tsx as a step relation.
pub mod Address
pub mod Cancelled
use haste_server.Prelude.{
  ℕ, ◌+◌, ◌<◌, ◌≡◌, ◌≢◌, ◌⊎◌, inl, inr, refl, sym, ap, ◌∙◌, true, false, Option, none, some, arith,
  Bool-cases, Option-cases, if◌then◌else◌, ◌==◌, ==_refl, ==_iff,
}
use mathlib.Core.Path.{subst}
use mathlib.Core.Option.{some-injective}
use haste_server.Text.{Text, text_eq, text_eq_iff}
use haste_server.Api.{Paste, Failure}
use haste_server.PastePage.{
  Page, has_key, fetch_again, load, settle_from, settle, open_page, on_code, is_live, on_result,
  error_of, on_failure,
}

-- A paste on the page is of the page's code and there is no error beside it; with no paste there is
-- an error, or a request whose answer counts; and no request is numbered like one to come.
pub record IsSettled (page : Page) : Type 0 where
  pub own : (p : Paste) → page.paste ≡ some p → (p.key ≡ page.code) × (page.error ≡ none)
  pub waits : page.paste ≡ none → (page.error ≢ none) ⊎ (page.live ≢ none)
  pub numbered : (n : ℕ) → page.live ≡ some n → n < page.next_request

fetch_again-IsSettled : (page : Page) → IsSettled (fetch_again page)
unfolding fetch_again
fetch_again-IsSettled page = record {
  own = λ p e. absurd (cc e);
  waits = λ _. inr (cc);
  numbered = λ n e. ground arith;
}

pub load-none : (page : Page) → page.paste ≡ none → load page ≡ fetch_again page
unfolding load
load-none page e = unfold has_key in rw (e, has_key) refl

pub load-foreign :
    (page : Page) (p : Paste)
    → page.paste ≡ some p
    → text_eq p.key page.code ≡ false
    → load page ≡ fetch_again page
unfolding load
load-foreign page p e k = unfold has_key in rw (e, has_key, k) refl

pub load-own :
    (page : Page) (p : Paste)
    → page.paste ≡ some p
    → text_eq p.key page.code ≡ true
    → load page ≡ record page { live = none }
unfolding load
load-own page p e k = unfold has_key in rw (e, has_key, k) refl

pub settle-none : (page : Page) → page.paste ≡ none → settle page ≡ load page
unfolding settle settle_from
settle-none page e = ap (λ o. settle_from o page) e

pub settle-own :
    (page : Page) (p : Paste)
    → page.paste ≡ some p
    → text_eq p.key page.code ≡ true
    → settle page ≡ load page
unfolding settle settle_from
settle-own page p e k =
    ap (λ o. settle_from o page) e ∙ ap (λ b. if b then load page else load (load page)) k

pub settle-foreign :
    (page : Page) (p : Paste)
    → page.paste ≡ some p
    → text_eq p.key page.code ≡ false
    → settle page ≡ load (load page)
unfolding settle settle_from
settle-foreign page p e k =
    ap (λ o. settle_from o page) e ∙ ap (λ b. if b then load page else load (load page)) k

-- What the effect comes to: it keeps a paste of the page's code, or asks for one.
pub data Settling (page : Page) : Type 0 where
  kept :
      (p : Paste)
      → page.paste ≡ some p
      → p.key ≡ page.code
      → settle page ≡ record page { live = none }
      → Settling page
  asked :
      (before : Page) → before.code ≡ page.code → settle page ≡ fetch_again before → Settling page

fetch_again-paste : (page : Page) → (fetch_again page).paste ≡ none
unfolding fetch_again
fetch_again-paste page = refl

pub fetch_again-code : (page : Page) → (fetch_again page).code ≡ page.code
unfolding fetch_again
fetch_again-code page = refl

-- A paste of another code is dropped, and the paste of this one is asked for twice: the effect runs once
-- more on the dropping.
pub settle-refetches :
    (page : Page) (p : Paste)
    → page.paste ≡ some p
    → text_eq p.key page.code ≡ false
    → settle page ≡ fetch_again (fetch_again page)
settle-refetches page p e foreign =
    settle-foreign page p e foreign
    ∙ ap load (load-foreign page p e foreign)
    ∙ load-none (fetch_again page) (fetch_again-paste page)

pub settling : (page : Page) → Settling page
settling page = elim (Option-cases page.paste) [
  | inl nothing ↦ asked page refl (settle-none page nothing ∙ load-none page nothing)
  | inr (p, e) ↦ elim (Bool-cases (text_eq p.key page.code)) [
    | inl own ↦ kept p e ((text_eq_iff _ _).0 own) (settle-own page p e own ∙ load-own page p e own)
    | inr foreign ↦
        asked (fetch_again page) (fetch_again-code page) (settle-refetches page p e foreign)
  ]
]

-- The effect settles any page that shows no error beside a paste of its code.
settle-IsSettled :
    (page : Page)
    → ((p : Paste) → page.paste ≡ some p → p.key ≡ page.code → page.error ≡ none)
    → IsSettled (settle page)
settle-IsSettled page clean = from (settling page)
  where
    from : Settling page → IsSettled (settle page)
    from (asked before c e) = rw e (fetch_again-IsSettled before)
    from (kept p held own e) = subst IsSettled (sym e) (record {
      own = λ q same. (
        ap (λ (r : Paste). r.key) (some-injective _ _ (sym same ∙ held)) ∙ own,
        clean p held own,
      );
      waits = λ nothing. absurd (cc (sym nothing ∙ held));
      numbered = λ n none_live. absurd (cc none_live);
    })

-- What can happen to the page: another code, or the answer that it waits for.
pub data Step (page : Page) : Page → Type 0 where
  to_code : (code : Text) → Step page (on_code code page)
  answer :
      (id : ℕ) (result : Paste)
      → page.live ≡ some id
      → page.error ≡ none
      → Step page (on_result id result page)
  failure :
      (id : ℕ) (reason : Failure)
      → page.live ≡ some id
      → page.error ≡ none
      → page.paste ≡ none
      → Step page (on_failure id reason page)

pub data Reach : Page → Type 0 where
  opened : (code : Text) (handoff : Option Paste) → Reach (open_page code handoff)
  later : {page page' : Page} → Reach page → Step page page' → Reach page'

open_page-IsSettled : (code : Text) (handoff : Option Paste) → IsSettled (open_page code handoff)
unfolding open_page
open_page-IsSettled code handoff = settle-IsSettled _ (λ p e k. refl)

on_code-IsSettled : (code : Text) (page : Page) → IsSettled page → IsSettled (on_code code page)
unfolding on_code
on_code-IsSettled code page v = elim (Bool-cases (text_eq code page.code)) [
  | inl same ↦ subst IsSettled (sym (pick same)) v
  | inr differs ↦
      subst IsSettled (sym (pick' differs))
        (settle-IsSettled (record page { code = code }) (λ p e k. (v.own p e).1))
]
  where
    pick :
        text_eq code page.code ≡ true
        → (if text_eq code page.code then page else settle (record page { code = code })) ≡ page
    pick h = rw h refl

    pick' :
        text_eq code page.code ≡ false
        → (if text_eq code page.code then page else settle (record page { code = code }))
          ≡ settle (record page { code = code })
    pick' h = rw h refl

is_live_self : (id : ℕ) (o : Option ℕ) → o ≡ some id → is_live id o ≡ true
unfolding is_live
is_live_self id o e = rw (e, is_live) (==_refl id)

pub on_result-live :
    (id : ℕ) (result : Paste) (page : Page)
    → page.live ≡ some id
    → on_result id result page ≡ settle (record page { paste = some result })
unfolding on_result
on_result-live id result page e =
    ap (λ b. if b then settle (record page { paste = some result }) else page)
      (is_live_self id page.live e)

pub on_failure-live :
    (id : ℕ) (reason : Failure) (page : Page)
    → page.live ≡ some id
    → on_failure id reason page ≡ record page { error = some (error_of reason) }
unfolding on_failure
on_failure-live id reason page e =
    ap (λ b. if b then record page { error = some (error_of reason) } else page)
      (is_live_self id page.live e)

Step-IsSettled : {page page' : Page} → Step page page' → IsSettled page → IsSettled page'
Step-IsSettled {page} (to_code code) v = on_code-IsSettled code page v
Step-IsSettled {page} (answer id result live clean) v =
    subst IsSettled (sym (on_result-live id result page live))
      (settle-IsSettled (record page { paste = some result }) (λ p e k. clean))
Step-IsSettled {page} (failure id reason live clean empty) v =
    subst IsSettled (sym (on_failure-live id reason page live)) (record {
      own = λ p e. absurd (cc (sym empty ∙ e));
      waits = λ _. inl (cc);
      numbered = v.numbered;
    })

-- However the reader moves between codes and whatever the server answers, once the page's effect has
-- run: a paste that is shown is of the code in the address, and no error stands beside it; and
-- where no paste is shown, there is an error to show or a request whose answer will be taken.
pub Reach-IsSettled : {page : Page} → Reach page → IsSettled page
Reach-IsSettled (opened code handoff) = open_page-IsSettled code handoff
Reach-IsSettled (later r st) = Step-IsSettled st (Reach-IsSettled r)

is_live-other : (id : ℕ) (o : Option ℕ) → o ≢ some id → is_live id o ≡ false
unfolding is_live
is_live-other id none h = refl
is_live-other id (some n) h = differs (Bool-cases (n == id))
  where
    differs : (((n == id) ≡ true) ⊎ ((n == id) ≡ false)) → (n == id) ≡ false
    differs (inl e) = absurd (h (ap some ((==_iff n id).0 e)))
    differs (inr e) = e

-- The answer and the failure of a request that is not waited for.
pub unchanged_by_other :
    (id : ℕ) (result : Paste) (reason : Failure) (page : Page)
    → page.live ≢ some id
    → (on_result id result page ≡ page) × (on_failure id reason page ≡ page)
unfolding on_result on_failure
unchanged_by_other id result reason page h = (
  ap (λ b. if b then settle (record page { paste = some result }) else page)
      (is_live-other id page.live h),
  ap (λ b. if b then record page { error = some (error_of reason) } else page)
      (is_live-other id page.live h),
)
