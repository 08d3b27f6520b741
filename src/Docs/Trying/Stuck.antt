-- ===== src/Docs/Trying/Stuck.antt =====
-- What becomes of the form of web/src/routes/docs.tsx after a code that cannot be encoded.
use haste_server.Prelude.{refl, ◌≡◌, sym, ap, ◌∙◌, true, false, [], Option, none, some}
use mathlib.Core.Path.{subst}
use haste_server.Text.{Text, trim}
use haste_server.Docs.{Endpoint}
use haste_server.Docs.Trying.{open_form, is_disabled, on_code}
use haste_server.Docs.Rows.{toggle_form}
use haste_server.Docs.Trying.Sending.{
  System, asks, click, Step, code, body, clicked, answered, failed, Later, here, later, click-busy,
  sending-disabled, on_body-keeps, click-free, send-none, send-waits,
}

module _ (encode : Text → Option Text) (reformat : Text → Option Text) (endpoint : Endpoint) where
  abbrev pub IsDead : System → Type 0
  IsDead sys = (sys.form.sending ≡ true) × (sys.pending ≡ [])

  Step-IsDead :
      {sys sys' : System} → Step encode reformat endpoint sys sys' → IsDead sys → IsDead sys'
  unfolding on_code
  Step-IsDead (code text) dead = dead
  Step-IsDead {sys} (body text) (busy, nothing) =
      ((on_body-keeps encode reformat endpoint endpoint.method text sys.form).0 ∙ busy, nothing)
  Step-IsDead {sys} clicked dead =
      subst IsDead
        (sym (
          click-busy encode reformat endpoint sys
            (sending-disabled encode reformat endpoint sys.form dead.0)))
        dead
  Step-IsDead (answered status status_text text request rest e) dead = absurd (cc (sym dead.1 ∙ e))
  Step-IsDead (failed message request rest e) dead = absurd (cc (sym dead.1 ∙ e))

  Later-IsDead :
      {sys sys' : System} → Later encode reformat endpoint sys sys' → IsDead sys → IsDead sys'
  Later-IsDead here dead = dead
  Later-IsDead (later before step) dead = Step-IsDead step (Later-IsDead before dead)

  -- A click with a code that `encodeURIComponent` throws on leaves the button disabled as long as the row
  -- stays open: whatever the reader types in the form and clicks on its button from then on, no request
  -- is sent. Closing the row and opening it again brings the form as it was at first, which is not
  -- sending.
  pub click-dead :
      (sys : System) {after : System}
      → is_disabled endpoint sys.form ≡ false
      → sys.pending ≡ []
      → encode (trim sys.form.code) ≡ none
      → Later encode reformat endpoint (click encode reformat endpoint sys) after
      → (is_disabled endpoint after.form ≡ true)
        × (after.pending ≡ [])
        × (toggle_form endpoint (toggle_form endpoint (some after.form))
            ≡ some (open_form endpoint))
        × ((open_form endpoint).sending ≡ false)
  unfolding toggle_form open_form
  click-dead sys {after} free nothing throws run =
      let (busy, _, _) = send-waits encode reformat endpoint sys.form in
      let dead = Later-IsDead run (
        subst IsDead (sym (click-free encode reformat endpoint sys free)) (
          busy,
          ap (λ o. asks o sys.pending) (send-none encode reformat endpoint sys.form throws)
              ∙ unfold asks in nothing,
        )) in
      (sending-disabled encode reformat endpoint after.form dead.0, dead.1, refl, refl)
