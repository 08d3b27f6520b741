-- ===== src/Docs/Trying/Sending.antt =====
-- The form of web/src/routes/docs.tsx and its requests as a step relation.
use haste_server.Prelude.{
  ℕ, ◌≡◌, inl, inr, refl, sym, ap, ◌∙◌, true, false, List, [], ◌∷◌, Option, none, some, Bool-cases,
  Option-cases,
}
use mathlib.Core.Path.{subst}
use haste_server.Text.{Text, trim}
use haste_server.Docs.{Method, get, post, Endpoint}
use haste_server.Docs.Trying.{
  TryIt, Request, request_for, open_form, is_disabled, on_code, on_body, send, on_click,
  on_response, on_failure,
}

-- The form, and the requests that have not been answered.
pub record System : Type 0 where
  pub form : TryIt
  pub pending : List Request

abbrev pub start : Endpoint → System
start endpoint = record { form = open_form endpoint; pending = [] }

unfoldable pub asks : Option Request → List Request → List Request
asks none rest = rest
asks (some request) rest = request ∷ rest

module _ (encode : Text → Option Text) (reformat : Text → Option Text) (endpoint : Endpoint) where
  unfoldable pub click : System → System
  unfolding asks
  click sys =
      let (form, request) = on_click encode endpoint sys.form in
      record { form = form; pending = asks request sys.pending }

  pub data Step (sys : System) : System → Type 0 where
    code : (text : Text) → Step sys (record sys { form = on_code text sys.form })
    body : (text : Text) → Step sys (record sys { form = on_body endpoint.method text sys.form })
    clicked : Step sys (click sys)
    answered :
        (status : ℕ) (status_text text : Text) (request : Request) (rest : List Request)
        → sys.pending ≡ request ∷ rest
        → Step sys (record {
          form = on_response reformat status status_text text sys.form;
          pending = rest;
        })
    failed :
        (message : Text) (request : Request) (rest : List Request)
        → sys.pending ≡ request ∷ rest
        → Step sys (record { form = on_failure message sys.form; pending = rest })

  pub data Later (sys : System) : System → Type 0 where
    here : Later sys sys
    later : {sys' sys'' : System} → Later sys sys' → Step sys' sys'' → Later sys sys''

  -- The form is free and nothing is on its way; or it waits for the one request that is; or it waits
  -- though nothing is, and has done since a click on the free button with a code in the field that
  -- `encodeURIComponent` throws on.
  pub data Phase (sys : System) : Type 0 where
    idle : sys.form.sending ≡ false → sys.pending ≡ [] → Phase sys
    waiting :
        (request : Request)
        → sys.form.sending ≡ true
        → sys.form.result ≡ none
        → sys.pending ≡ request ∷ []
        → Phase sys
    stuck :
        (before : System)
        → Later (start endpoint) before
        → is_disabled endpoint before.form ≡ false
        → encode (trim before.form.code) ≡ none
        → Later (click before) sys
        → sys.form.sending ≡ true
        → sys.form.result ≡ none
        → sys.pending ≡ []
        → Phase sys

  pub click-busy : (sys : System) → is_disabled endpoint sys.form ≡ true → click sys ≡ sys
  unfolding click asks on_click
  click-busy sys h = rw (click, on_click, h) refl

  -- A form that is sending disables its button.
  pub sending-disabled : (form : TryIt) → form.sending ≡ true → is_disabled endpoint form ≡ true
  unfolding is_disabled
  sending-disabled form h = rw h refl

  pub click-free :
      (sys : System)
      → is_disabled endpoint sys.form ≡ false
      → click sys ≡ record {
        form = (send encode endpoint sys.form).0;
        pending = asks (send encode endpoint sys.form).1 sys.pending;
      }
  unfolding click on_click
  click-free sys h = rw (click, on_click, h) refl

  pub send-none :
      (form : TryIt) → encode (trim form.code) ≡ none → (send encode endpoint form).1 ≡ none
  unfolding send
  send-none form h = rw (send, h) refl

  send-some :
      (form : TryIt) (encoded : Text)
      → encode (trim form.code) ≡ some encoded
      → (send encode endpoint form).1 ≡ some (request_for endpoint form encoded)
  unfolding send
  send-some form encoded h = rw (send, h) refl

  pub send-waits :
      (form : TryIt)
      → ((send encode endpoint form).0.sending ≡ true)
        × ((send encode endpoint form).0.result ≡ none)
        × ((send encode endpoint form).0.code ≡ form.code)
  unfolding send
  send-waits form = (refl, refl, refl)

  Phase-same :
      (sys sys' : System)
      → sys'.form.sending ≡ sys.form.sending
      → sys'.form.result ≡ sys.form.result
      → sys'.pending ≡ sys.pending
      → Step sys sys'
      → Phase sys
      → Phase sys'
  Phase-same sys sys' s r p step (idle free nothing) = idle (s ∙ free) (p ∙ nothing)
  Phase-same sys sys' s r p step (waiting request busy empty one) =
      waiting request (s ∙ busy) (r ∙ empty) (p ∙ one)
  Phase-same sys sys' s r p step (stuck before reached free throws run busy empty nothing) =
      stuck before reached free throws (later run step) (s ∙ busy) (r ∙ empty) (p ∙ nothing)

  pub on_body-keeps :
      (m : Method) (text : Text) (form : TryIt)
      → ((on_body m text form).sending ≡ form.sending)
        × ((on_body m text form).result ≡ form.result)
  unfolding on_body
  on_body-keeps get text form = (refl, refl)
  on_body-keeps post text form = (refl, refl)

  click-Phase : (sys : System) → Later (start endpoint) sys → Phase sys → Phase (click sys)
  click-Phase sys reached phase = elim (Bool-cases (is_disabled endpoint sys.form)) [
    | inl busy ↦ subst Phase (sym (click-busy sys busy)) phase
    | inr free ↦ subst Phase (sym (click-free sys free)) (sent phase free)
  ]
    where
      asked :
          sys.pending ≡ []
          → is_disabled endpoint sys.form ≡ false
          → Phase (record {
            form = (send encode endpoint sys.form).0;
            pending = asks (send encode endpoint sys.form).1 sys.pending;
          })
      asked nothing free =
          let (busy, empty, _) = send-waits sys.form in
          elim (Option-cases (encode (trim sys.form.code))) [
            | inl throws ↦
                stuck sys reached free throws (subst (Later (click sys)) (click-free sys free) here)
                  busy empty
                  (ap (λ o. asks o sys.pending) (send-none sys.form throws)
                    ∙ unfold asks in nothing)
            | inr (encoded, e) ↦
                let is = send-some sys.form encoded e in
                let request = request_for endpoint sys.form encoded in
                waiting request busy empty
                  (ap (λ o. asks o sys.pending) is ∙ unfold asks in ap (λ p. request ∷ p) nothing)
          ]

      sent :
          Phase sys
          → is_disabled endpoint sys.form ≡ false
          → Phase (record {
            form = (send encode endpoint sys.form).0;
            pending = asks (send encode endpoint sys.form).1 sys.pending;
          })
      sent (idle _ nothing) free = asked nothing free
      sent (waiting request busy empty one) free =
          absurd (cc (sym free ∙ sending-disabled sys.form busy))
      sent (stuck _ _ _ _ _ busy empty nothing) free =
          absurd (cc (sym free ∙ sending-disabled sys.form busy))

  -- What an answer leaves: nothing on its way.
  last_one :
      (sys : System) (request : Request) (rest : List Request)
      → Phase sys
      → sys.pending ≡ request ∷ rest
      → rest ≡ []
  last_one sys request rest (idle free nothing) e = absurd (cc (sym nothing ∙ e))
  last_one sys request rest (waiting one busy empty only) e = cc (sym e ∙ only)
  last_one sys request rest (stuck _ _ _ _ _ busy empty nothing) e = absurd (cc (sym nothing ∙ e))

  Step-Phase :
      {sys sys' : System} → Later (start endpoint) sys → Step sys sys' → Phase sys → Phase sys'
  unfolding on_code on_response on_failure
  Step-Phase {sys} reached (code text) phase = Phase-same sys _ refl refl refl (code text) phase
  Step-Phase {sys} reached (body text) phase =
      let (s, r) = on_body-keeps endpoint.method text sys.form in
      Phase-same sys _ s r refl (body text) phase
  Step-Phase {sys} reached clicked phase = click-Phase sys reached phase
  Step-Phase {sys} reached (answered status status_text text request rest e) phase =
      idle refl (last_one sys request rest phase e)
  Step-Phase {sys} reached (failed message request rest e) phase =
      idle refl (last_one sys request rest phase e)

  start-Phase : Phase (start endpoint)
  unfolding open_form
  start-Phase = idle refl refl

  -- However the reader types and clicks and whatever the server answers: the form is free with nothing on
  -- its way, or it waits for exactly one request, or it is stuck with nothing on its way, and that only
  -- since an earlier click, on the button that was free, with a code in the field that
  -- `encodeURIComponent` throws on.
  pub Later-Phase : {sys : System} → Later (start endpoint) sys → Phase sys
  Later-Phase here = start-Phase
  Later-Phase (later before step) = Step-Phase before step (Later-Phase before)
