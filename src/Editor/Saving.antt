-- ===== src/Editor/Saving.antt =====
-- web/src/routes/editor.tsx: the requests that the page sends, in any order of its events.
use haste_server.Prelude.{
  ℕ, ◌≡◌, ◌≤◌, ◌≢◌, ◌⊎◌, inl, inr, refl, sym, ◌∙◌, Bool, true, false, ◌||◌, List, [], ◌∷◌, arith,
  Bool-cases, if◌then◌else◌, All, length, Memᴰ, ltb, ◌==◌, filter_sound,
}
use mathlib.Core.Path.{subst}
use haste_server.Text.{Text, trim, is_empty}
use haste_server.CodePoints.{count_code_points}
use haste_server.Api.{Paste, ServerConfig, NewPaste, Outcome, ok, failed}
use haste_server.Expiry.{no_expiry, includes}
use haste_server.Expiry.Ladder.{includes-Memᴰ}
use haste_server.Editor.{
  Editor, start, over_limit, empty, payload, silent, save, ask_to_save, on_save_chord,
  on_title_enter, on_confirm_click, on_save_click, on_open_change, on_title_change,
  on_expiry_change, on_language_change, on_change, on_deferred, on_config, settle_expiry,
  on_drag_over, on_drag_leave, on_drop, on_file_text, on_textarea_key, escape, tab, another,
  Handled, on_created,
}
use haste_server.Editor.Events.{
  Event, save_chord, title_enter, confirm_click, save_click, open_change, title_change,
  expiry_change, language_change, change, deferred_update, drag_over, drag_leave, drop,
  config_arrival, file_text, textarea_key, handle, IsAllowed, System, absorb, Step, event, answer,
  Reach, opened, next,
}
use haste_server.Editor.Fates.{IsQuiet, IsSave, handle-Fate}

-- No expiry, or a lifetime of the ladder.
abbrev pub Offered : ℕ → ServerConfig → Type 0
Offered seconds config = (seconds ≡ no_expiry) ⊎ Memᴰ seconds config.expiry_options_secs

-- A request that the server has no reason to refuse for its size, its emptiness or its lifetime.
pub record IsAcceptable (request : ServerConfig × NewPaste) : Type 0 where
  pub filled : trim request.1.content ≢ []
  pub fits : count_code_points request.1.content ≤ request.0.max_chars
  pub offered : Offered request.1.expires_in request.0

abbrev pub IsSettled : Editor → Type 0
IsSettled s = Offered s.expires_in s.config

if-IsSettled :
    (b : Bool) (h k : Handled) → IsSettled h.0 → IsSettled k.0 → IsSettled (if b then h else k).0
if-IsSettled true h k p q = p
if-IsSettled false h k p q = q

settle_expiry-IsSettled : (s : Editor) → IsSettled (settle_expiry s)
unfolding settle_expiry
settle_expiry-IsSettled s = elim (Bool-cases (s.expires_in == no_expiry)) [
  | inl zero ↦ rw (zero, settle_expiry) (inl (ground arith))
  | inr chosen ↦ elim (Bool-cases (includes s.expires_in s.config.expiry_options_secs)) [
    | inl listed ↦ rw (chosen, listed, settle_expiry) (inr (includes-Memᴰ _ _ listed))
    | inr dropped ↦ rw (chosen, dropped, settle_expiry) (inl refl)
  ]
]

ne_of_is_empty : (s : Text) → is_empty s ≡ false → s ≢ []
ne_of_is_empty [] h = cc
ne_of_is_empty (c ∷ s) h = cc

only_one : (p : NewPaste) (rest : List NewPaste) → length (p ∷ rest) ≤ 1 → rest ≡ []
only_one p [] h = refl
only_one p (q ∷ rest) h = absurd (omega arith)

module _ (detect : Text → Text) where
  save-IsSettled : (s : Editor) → IsSettled s → IsSettled (save detect s).0
  unfolding save
  save-IsSettled s h = if-IsSettled (s.saving || empty s || over_limit s) _ _ h h

  ask_to_save-IsSettled : (s : Editor) → IsSettled s → IsSettled (ask_to_save s).0
  unfolding ask_to_save
  ask_to_save-IsSettled s h =
      if-IsSettled (s.saving || empty s) (silent s) _ h (if-IsSettled (over_limit s) _ _ h h)

  -- The lifetime stays one that the ladder in force offers.
  handle-IsSettled :
      (e : Event) (s : Editor) → IsAllowed e s → IsSettled s → IsSettled (handle detect e s).0
  unfolding handle on_save_chord on_title_enter on_confirm_click on_save_click on_open_change
      on_title_change on_expiry_change on_language_change on_change on_deferred on_config
      on_drag_over on_drag_leave on_drop on_file_text on_textarea_key
  handle-IsSettled save_chord s _ h =
      if-IsSettled s.confirming _ _ (save-IsSettled s h) (ask_to_save-IsSettled s h)
  handle-IsSettled title_enter s _ h = if-IsSettled _ _ _ (save-IsSettled s h) h
  handle-IsSettled confirm_click s _ h = if-IsSettled _ _ _ (save-IsSettled s h) h
  handle-IsSettled save_click s _ h = if-IsSettled _ _ _ h (ask_to_save-IsSettled s h)
  handle-IsSettled (open_change open') s _ h = elim (Bool-cases s.saving) [
    | inl busy ↦ rw (busy, on_open_change) h
    | inr idle ↦ rw (idle, on_open_change) h
  ]
  handle-IsSettled (title_change title) s _ h = h
  handle-IsSettled (expiry_change seconds) s (Memᴰ.head e) h = inl e
  handle-IsSettled (expiry_change seconds) s (Memᴰ.tail m) h = inr (filter_sound (ltb 0) _ m)
  handle-IsSettled (language_change choice) s _ h = h
  handle-IsSettled (change content) s _ h = h
  handle-IsSettled deferred_update s _ h = h
  handle-IsSettled drag_over s _ h = h
  handle-IsSettled drag_leave s _ h = h
  handle-IsSettled drop s _ h = h
  handle-IsSettled (config_arrival config) s _ h =
      settle_expiry-IsSettled (record s { config = config })
  handle-IsSettled (file_text text) s _ h = h
  handle-IsSettled (textarea_key escape first last) s _ h = h
  handle-IsSettled (textarea_key another first last) s _ h = h
  handle-IsSettled (textarea_key tab first last) s _ h = elim (Bool-cases s.tab_exits) [
    | inl armed ↦ rw (armed, on_textarea_key) h
    | inr plain ↦ rw (plain, on_textarea_key) h
  ]

  -- The invariant: at most one request is in flight, `saving` is set while one is, the lifetime
  -- is settled, and every request that was sent was acceptable.
  pub record IsSound (sys : System) : Type 0 where
    pub one_pending : length sys.pending ≤ 1
    pub marked : (sys.pending ≡ []) ⊎ (sys.page.saving ≡ true)
    pub settled : IsSettled sys.page
    pub acceptable : All IsAcceptable sys.sent

  payload-IsAcceptable :
      (s : Editor)
      → IsSettled s
      → empty s ≡ false
      → over_limit s ≡ false
      → IsAcceptable (s.config, payload detect s)
  unfolding empty over_limit payload
  payload-IsAcceptable s h e o = record {
    filled = ne_of_is_empty (trim s.content) e;
    fits = ground arith;
    offered = h;
  }

  absorb-quiet :
      (sys : System) (h : Handled)
      → IsQuiet detect sys.page h
      → IsSettled h.0
      → IsSound sys
      → IsSound (absorb sys h)
  absorb-quiet sys h (c, same) settled v = record {
    one_pending = rw c v.one_pending;
    marked = rw c (elim v.marked [ inl idle ↦ inl idle | inr busy ↦ inr (same ∙ busy) ]);
    settled = settled;
    acceptable = rw c v.acceptable;
  }

  absorb-save :
      (sys : System) (h : Handled) → IsSave detect sys.page h → IsSound sys → IsSound (absorb sys h)
  absorb-save sys h w v =
      subst (λ k. IsSound (absorb sys k)) (sym w.result)
        (record {
          one_pending = rw (none_pending v.marked w.idle) (omega arith);
          marked = inr refl;
          settled = v.settled;
          acceptable = (payload-IsAcceptable sys.page v.settled w.filled w.fits, v.acceptable);
        })
    where
      none_pending :
          (sys.pending ≡ []) ⊎ (sys.page.saving ≡ true) → sys.page.saving ≡ false → sys.pending ≡ []
      none_pending (inl nothing) _ = nothing
      none_pending (inr busy) idle = absurd (cc (sym busy ∙ idle))

  on_created-IsSound :
      (p : NewPaste) (rest : List NewPaste) (outcome : Outcome Paste) (sys : System)
      → sys.pending ≡ p ∷ rest
      → IsSound sys
      → IsSound (record sys { page = (on_created p.expires_in outcome sys.page).0; pending = rest })
  unfolding on_created
  on_created-IsSound p rest (ok paste) sys e v =
      let last = only_one p rest (subst (λ l. length l ≤ 1) e v.one_pending) in
      record {
        one_pending = rw last (omega arith);
        marked = inl last;
        settled = v.settled;
        acceptable = v.acceptable;
      }
  on_created-IsSound p rest (failed error) sys e v =
      let last = only_one p rest (subst (λ l. length l ≤ 1) e v.one_pending) in
      record {
        one_pending = rw last (omega arith);
        marked = inl last;
        settled = v.settled;
        acceptable = v.acceptable;
      }

  Step-IsSound : {sys sys' : System} → Step detect sys sys' → IsSound sys → IsSound sys'
  Step-IsSound {sys} (event e allowed) v = elim (handle-Fate detect sys.page e) [
    | inl quiet ↦
        absorb-quiet sys (handle detect e sys.page) quiet
          (handle-IsSettled e sys.page allowed v.settled) v
    | inr saved ↦ absorb-save sys (handle detect e sys.page) saved v
  ]
  Step-IsSound {sys} (answer p rest outcome e) v = on_created-IsSound p rest outcome sys e v

  -- From a freshly opened page, through any sequence of its events and of the server's answers: at
  -- most one request waits for its answer, and `saving` is set while one does; the chosen lifetime is
  -- none or one of the ladder in force; and each request that was ever sent had content that is not
  -- blank, of at most the characters that the configuration then allowed, and a lifetime that it
  -- then offered.
  pub Reach-IsSound : {config : ServerConfig} {sys : System} → Reach detect config sys → IsSound sys
  Reach-IsSound opened = record {
    one_pending = omega arith;
    marked = inl refl;
    settled = unfold start in inl refl;
    acceptable = tt;
  }
  Reach-IsSound (next r st) = Step-IsSound st (Reach-IsSound r)
