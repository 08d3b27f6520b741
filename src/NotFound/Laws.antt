-- ===== src/NotFound/Laws.antt =====
-- The page for a dead link behind a request that failed, and the reason that it prints.
use haste_server.Prelude.{
  any, append_assoc, ℕ, ◌≡◌, ◌≢◌, ◌⊎◌, inl, inr, refl, sym, ap, ◌∙◌, Bool, true, false, not, ◌&&◌,
  [], ◌∷◌, ◌++◌, Option, none, some, ◌==◌, ==_iff, if◌then◌else◌, Bool-cases, arith, ltb, leb,
  ltb→lt, &&-eq-true,
}
use haste_server.Text.{Text, codes, text_eq, is_empty}
use haste_server.I18n.{Translate}
use haste_server.Api.{
  Paste, ApiError, Failure, api_error, other, Fetched, unreachable, response, Outcome, ok, failed,
  is_ok, request,
}
use haste_server.Text.Objects.{inherited_names}
use haste_server.Api.Errors.{
  Shown, inherited_value, text, describe_error, describe_error-inherited, describe_error-text,
}
use haste_server.PastePage.{Page, on_failure, error_of}
use haste_server.PastePage.Loading.{on_failure-live}
use haste_server.NotFound.{
  DeadLink, not_found, asked, header, sentence, causes, advice, Props, tag, drop_full_stop,
  is_dead_code, lower_first, reason, shows_retry, paste_props,
}

-- A message that ends in a full stop loses it, and only that one; any other message is kept.
pub drop_full_stop-cases :
    (s : Text)
    → (drop_full_stop s ++ b'.' ∷ [] ≡ s)
      ⊎ ((drop_full_stop s ≡ s) × ((before : Text) → s ≢ before ++ b'.' ∷ []))
unfolding drop_full_stop
drop_full_stop-cases [] = inr (refl, λ before e. nil_snoc before e)
  where
    nil_snoc : (before : Text) → [] ≢ before ++ b'.' ∷ []
    nil_snoc [] e = cc e
    nil_snoc (b ∷ bs) e = cc e
drop_full_stop-cases (c ∷ []) = elim (Bool-cases (c == b'.')) [
  | inl stop ↦ inl (rw stop (ap (λ d. d ∷ []) (sym ((==_iff c b'.').0 stop))))
  | inr differs ↦ inr (rw differs refl, λ before e. one_snoc before e differs)
]
  where
    one_snoc : (before : Text) → c ∷ [] ≡ before ++ b'.' ∷ [] → (c == b'.') ≢ false
    one_snoc [] e h = cc (sym h ∙ (==_iff c b'.').1 (cc e))
    one_snoc (b ∷ []) e h = absurd (cc e)
    one_snoc (b ∷ d ∷ bs) e h = absurd (cc e)
drop_full_stop-cases (c ∷ d ∷ s) = elim (drop_full_stop-cases (d ∷ s)) [
  | inl e ↦ inl (ap (λ r. c ∷ r) e)
  | inr (e, no_stop) ↦ inr (ap (λ r. c ∷ r) e, λ before h. longer before h no_stop)
]
  where
    longer :
        (before : Text)
        → c ∷ d ∷ s ≡ before ++ b'.' ∷ []
        → ((b : Text) → d ∷ s ≢ b ++ b'.' ∷ [])
        → ⊥
    longer [] h no_stop = absurd (cc h)
    longer (b ∷ bs) h no_stop = no_stop bs (cc h)

-- Whether the server answered that there is no such paste.
abbrev pub answers_404 : Fetched Paste → Bool
answers_404 unreachable = false
answers_404 (response status json body) = status == 404

-- The status of the error that the page is left with; of none, a status that is no error.
status_of : Outcome Paste → ℕ
status_of (ok paste) = 200
status_of (failed failure) = (error_of failure).status

is_ok-404 : (status : ℕ) → is_ok status ≡ true → (status == 404) ≡ false
is_ok-404 status h =
    let high = (&&-eq-true (leb 200 status) (ltb status 300) h).1 in
    let below = ltb→lt status 300 high in
    elim (Bool-cases (status == 404)) [
      | inl same ↦ let e = (==_iff status 404).0 same in absurd (omega arith)
      | inr differs ↦ differs
    ]

status_of-ok :
    (json : Option Paste)
    → (status_of (elim json [ none ↦ failed other | some value ↦ ok value ]) == 404) ≡ false
unfolding status_of error_of
status_of-ok none = refl
status_of-ok (some paste) = refl

status_of-request :
    (fetched : Fetched Paste) → (status_of (request fetched) == 404) ≡ answers_404 fetched
unfolding request status_of error_of
status_of-request unreachable = refl
status_of-request (response status json body) = elim (Bool-cases (is_ok status)) [
  | inl fine ↦ rw (request, fine) (status_of-ok json ∙ sym (is_ok-404 status fine))
  | inr bad ↦ rw (request, bad, status_of, error_of) refl
]

abbrev pub props_of : Translate → Text → ApiError → Props
props_of t code e = record {
  code = code;
  message = describe_error t (api_error e) (codes "nf.loadFailed");
  missing = e.status == 404;
}

paste_props-on_failure :
    (t : Translate) (id : ℕ) (failure : Failure) (page : Page)
    → page.live ≡ some id
    → paste_props t (on_failure id failure page) ≡ some (props_of t page.code (error_of failure))
unfolding paste_props
paste_props-on_failure t id failure page live = rw (on_failure-live id failure page live) refl

-- The error whose rendering throws: its code is the name of a property of `Object.prototype`, and its
-- message is what is to be shown.
abbrev pub throws : Text → ApiError → Bool
throws code e = any (text_eq e.code) inherited_names && not (e.status == 404 && not (is_empty code))

module _ (to_lower_case : Text → Text) (t : Translate) (path code : Text) (e : ApiError) where
  abbrev reason_by : Bool → Shown → Option Text
  reason_by dead message = if dead then some (t (codes "nf.noPaste") none) else elim message [
    | text said ↦ some (drop_full_stop (lower_first to_lower_case said))
    | inherited_value ↦ none
  ]

  reason-props_of :
      reason to_lower_case t (props_of t code e)
      ≡ reason_by
          (e.status == 404 && not (is_empty code))
          (describe_error t (api_error e) (codes "nf.loadFailed"))
  unfolding reason is_dead_code
  reason-props_of = refl

  pub not_found-throws :
      throws code e ≡ true → not_found to_lower_case t path (props_of t code e) ≡ none
  unfolding not_found
  not_found-throws h =
      let (odd, alive) =
        &&-eq-true (any (text_eq e.code) inherited_names)
          (not (e.status == 404 && not (is_empty code))) h in
      let said = describe_error-inherited t e (codes "nf.loadFailed") odd in
      let plain : (e.status == 404 && not (is_empty code)) ≡ false = not_true _ alive in
      let none_said : reason to_lower_case t (props_of t code e) ≡ none =
        reason-props_of
        ∙ ap (λ b. reason_by b (describe_error t (api_error e) (codes "nf.loadFailed"))) plain
        ∙ ap (reason_by false) said in
      rw (not_found, none_said) refl
    where
      not_true : (b : Bool) → not b ≡ true → b ≡ false
      not_true true h = cc h
      not_true false h = refl

  reason-some :
      throws code e ≡ false
      → (said : Text) × (reason to_lower_case t (props_of t code e) ≡ some said)
  reason-some h = elim (Bool-cases (e.status == 404 && not (is_empty code))) [
    | inl dead ↦ (
      t (codes "nf.noPaste") none,
      reason-props_of
          ∙ ap (λ b. reason_by b (describe_error t (api_error e) (codes "nf.loadFailed"))) dead,
    )
    | inr alive ↦ elim (Bool-cases (any (text_eq e.code) inherited_names)) [
      | inl odd ↦ let bad : throws code e ≡ true = rw (odd, alive) refl in absurd (cc (sym h ∙ bad))
      | inr plain ↦
          let (message, said) = describe_error-text t e (codes "nf.loadFailed") plain in
          (
            drop_full_stop (lower_first to_lower_case message),
            reason-props_of
                ∙ ap (λ b. reason_by b (describe_error t (api_error e) (codes "nf.loadFailed")))
                    alive
                ∙ ap (reason_by false) said,
          )
    ]
  ]

  -- What is rendered of any other error.
  pub not_found-some :
      throws code e ≡ false
      → (sheet : DeadLink) × (not_found to_lower_case t path (props_of t code e) ≡ some sheet)
        × (sheet.status ≡ tag (props_of t code e))
        × (sheet.below ≡ advice t (props_of t code e))
        × (sheet.offers_retry ≡ shows_retry (props_of t code e))
  unfolding not_found
  not_found-some h =
      let (said, e') = reason-some h in
      let props = props_of t code e in
      (
        record {
          title = header props path;
          status = tag props;
          command = codes "haste get " ++ asked props path;
          error = codes "error: " ++ said;
          below = advice t props;
          offers_retry = shows_retry props;
        },
        rw (not_found, e') refl,
        refl,
        refl,
        refl,
      )

-- What the page for a dead link offers behind an answer to the request for a code.
abbrev pub Offers : Translate → Text → Bool → DeadLink → Type 0
Offers t code is_404 sheet =
    (sheet.offers_retry ≡ not is_404)
    × (sheet.status ≡ (if is_404 then codes "404" else codes "error"))
    × (sheet.below ≡ (
        if is_404 && not (is_empty code)
        then causes t
        else sentence (t (if is_404 then codes "nf.notAPaste" else codes "nf.loadFailed") none)))

-- When the request that the page waits for fails, the page for a dead link is rendered for the code in
-- the address. Where the code of the error is the name of a property of `Object.prototype`, and it is not
-- a 404 for a code that is not empty, the rendering throws. Otherwise it offers another try unless the
-- server has answered 404, says 404 exactly then, and lists the reasons why a code can be dead exactly
-- where 404 was answered for a code that is not empty.
pub dead_link :
    (to_lower_case : Text → Text) (t : Translate) (path : Text) (id : ℕ) (fetched : Fetched Paste)
    (failure : Failure) (page : Page)
    → request fetched ≡ failed failure
    → page.live ≡ some id
    → (props : Props) × (paste_props t (on_failure id failure page) ≡ some props)
      × (props.code ≡ page.code)
      × (((throws page.code (error_of failure) ≡ true)
            × (not_found to_lower_case t path props ≡ none))
          ⊎ ((throws page.code (error_of failure) ≡ false)
              × (sheet : DeadLink) × (not_found to_lower_case t path props ≡ some sheet)
              × Offers t page.code (answers_404 fetched) sheet))
unfolding shows_retry tag advice is_dead_code
dead_link to_lower_case t path id fetched failure page e live =
    let e' = error_of failure in
    let found : (e'.status == 404) ≡ answers_404 fetched =
      unfold status_of in ap (λ o. status_of o == 404) (sym e) ∙ status_of-request fetched in
    (
      props_of t page.code e',
      paste_props-on_failure t id failure page live,
      refl,
      elim (Bool-cases (throws page.code e')) [
        | inl odd ↦ inl (odd, not_found-throws to_lower_case t path page.code e' odd)
        | inr fine ↦
            let (sheet, is, status, below, retry) =
              not_found-some to_lower_case t path page.code e' fine in
            inr (
              fine,
              sheet,
              is,
              (
                retry ∙ ap not found,
                status ∙ ap (λ b. if b then codes "404" else codes "error") found,
                below
                    ∙ ap
                        (λ b.
                          if b && not (is_empty page.code)
                          then causes t
                          else sentence
                              (t (if b then codes "nf.notAPaste" else codes "nf.loadFailed") none))
                        found,
              ),
            )
      ],
    )

drop_full_stop-snoc : (before : Text) → drop_full_stop (before ++ b'.' ∷ []) ≡ before
unfolding drop_full_stop
drop_full_stop-snoc [] = refl
drop_full_stop-snoc (b ∷ []) = refl
drop_full_stop-snoc (b ∷ d ∷ before) = ap (λ r. b ∷ r) (drop_full_stop-snoc (d ∷ before))

-- A sentence, told as a shell would: its first letter lowered and its full stop gone. That is the
-- reason for all but a 404 of a code.
pub reason-sentence :
    (to_lower_case : Text → Text) (t : Translate) (props : Props) (c : ℕ) (s : Text)
    → is_dead_code props ≡ false
    → props.message ≡ text (c ∷ (s ++ b'.' ∷ []))
    → reason to_lower_case t props ≡ some (to_lower_case (c ∷ []) ++ s)
unfolding reason lower_first
reason-sentence to_lower_case t props c s alive message =
    rw (alive, message)
      (ap some (
        ap drop_full_stop (sym (append_assoc (to_lower_case (c ∷ [])) s (b'.' ∷ [])))
        ∙ drop_full_stop-snoc (to_lower_case (c ∷ []) ++ s)))
