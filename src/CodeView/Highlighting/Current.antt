-- ===== src/CodeView/Highlighting/Current.antt =====
-- The effect of web/src/components/code-view.tsx that highlights, as a step relation with the calls that
-- were made.
use haste_server.Prelude.{
  ℕ, ◌+◌, ◌<◌, ◌≡◌, refl, sym, ap, ◌∙◌, Bool, true, false, List, [], ◌∷◌, Option, some, arith,
  if◌then◌else◌, ◌==◌, ==_iff, ==_refl, Memᴰ,
}
use mathlib.Core.Path.{subst}
use mathlib.Core.Option.{some-injective}
use haste_server.Text.{Text}
use haste_server.CodeView.Highlighting.{
  Props, Call, View, same_props, highlight_again, open_view, on_props, is_live, on_highlighted,
  on_rejected, on_scrolled,
}

-- `Made props result`: the markup that `highlight` may give for these props.
module _ (Made : Props → Text → Type 0) where
  -- The markup on the page is of the props that the page has now. The call that counts is of them too;
  -- it is the only one of its number, and no call is numbered like one to come.
  pub record IsCurrent (calls : List Call) (view : View) : Type 0 where
    pub shown : (result : Text) → view.html ≡ some result → Made view.props result
    pub asked : (call : Call) × (view.live ≡ some call) × (call.props ≡ view.props)
    pub unique :
        (call live : Call)
        → Memᴰ call calls
        → view.live ≡ some live
        → call.id ≡ live.id
        → call.props ≡ live.props
    pub numbered : (call : Call) → Memᴰ call calls → call.id < view.next_call

  abbrev pub next_of : View → Call
  next_of view = record { id = view.next_call; props = view.props }

  -- The calls that were made, and the page: the answers of cancelled calls may still come.
  pub data Reach : List Call → View → Type 0 where
    opened : (props : Props) → Reach (record { id = 0; props = props } ∷ []) (open_view props)
    kept :
        {calls : List Call} {view : View} (props : Props)
        → Reach calls view
        → same_props props view.props ≡ true
        → Reach calls (on_props props view)
    changed :
        {calls : List Call} {view : View} (props : Props)
        → Reach calls view
        → same_props props view.props ≡ false
        → Reach (record { id = view.next_call; props = props } ∷ calls) (on_props props view)
    highlighted :
        {calls : List Call} {view : View} (call : Call) (result : Text)
        → Reach calls view
        → Memᴰ call calls
        → Made call.props result
        → Reach calls (on_highlighted call result view)
    rejected :
        {calls : List Call} {view : View} (call : Call)
        → Reach calls view
        → Reach calls (on_rejected call view)
    scrolled : {calls : List Call} {view : View} → Reach calls view → Reach calls (on_scrolled view)

  highlight_again-IsCurrent :
      (calls : List Call) (view : View)
      → ((call : Call) → Memᴰ call calls → call.id < view.next_call)
      → IsCurrent (next_of view ∷ calls) (highlight_again view)
  unfolding highlight_again
  highlight_again-IsCurrent calls view below = record {
    shown = λ result e. absurd (cc e);
    asked = (next_of view, refl, refl);
    unique = λ call live m e same. one call live m (some-injective _ _ e) same;
    numbered = λ call m. bound call m;
  }
    where
      one :
          (call live : Call)
          → Memᴰ call (next_of view ∷ calls)
          → next_of view ≡ live
          → call.id ≡ live.id
          → call.props ≡ live.props
      one call live (Memᴰ.head e) l same = ap (λ (c : Call). c.props) (e ∙ l)
      one call live (Memᴰ.tail m) l same =
          let low = below call m in
          let same' = same ∙ sym (ap (λ (c : Call). c.id) l) in absurd (omega arith)

      bound : (call : Call) → Memᴰ call (next_of view ∷ calls) → call.id < view.next_call + 1
      bound call (Memᴰ.head e) = let same = ap (λ (c : Call). c.id) e in omega arith
      bound call (Memᴰ.tail m) = let low = below call m in omega arith

  on_props-same :
      (props : Props) (view : View)
      → same_props props view.props ≡ true
      → on_props props view ≡ view
  unfolding on_props
  on_props-same props view h = rw h refl

  on_props-differs :
      (props : Props) (view : View)
      → same_props props view.props ≡ false
      → on_props props view ≡ highlight_again (record view { props = props })
  unfolding on_props
  on_props-differs props view h =
      ap (λ b. if b then view else highlight_again (record view { props = props })) h

  is_live-id :
      (id : ℕ) (live : Option Call) (call : Call)
      → live ≡ some call
      → is_live id live ≡ (call.id == id)
  unfolding is_live
  is_live-id id live call e = ap (λ o. is_live id o) e

  on_highlighted-IsCurrent :
      (calls : List Call) (view : View) (call : Call) (result : Text)
      → Memᴰ call calls
      → Made call.props result
      → IsCurrent calls view
      → IsCurrent calls (on_highlighted call result view)
  unfolding on_highlighted
  on_highlighted-IsCurrent calls view call result m made v =
      by_liveness (is_live call.id view.live) refl
    where
      by_liveness :
          (b : Bool)
          → is_live call.id view.live ≡ b
          → IsCurrent calls (if b then record view { html = some result } else view)
      by_liveness false e = v
      by_liveness true e =
          let (live, here, own) = v.asked in
          let number =
            (==_iff live.id call.id).0 (sym (is_live-id call.id view.live live here) ∙ e) in
          record {
            shown = λ r same.
                subst (λ t. Made view.props t) (some-injective _ _ same)
                  (subst (λ p. Made p result) (v.unique call live m here (sym number) ∙ own) made);
            asked = v.asked;
            unique = v.unique;
            numbered = v.numbered;
          }

  Reach-IsCurrent : {calls : List Call} {view : View} → Reach calls view → IsCurrent calls view
  unfolding open_view on_rejected on_scrolled
  Reach-IsCurrent (opened props) = highlight_again-IsCurrent [] _ (λ call m. elim m [ ])
  Reach-IsCurrent (kept {calls} {view} props r same) =
      subst (IsCurrent calls) (sym (on_props-same props view same)) (Reach-IsCurrent r)
  Reach-IsCurrent (changed {calls} {view} props r differs) =
      subst (IsCurrent (record { id = view.next_call; props = props } ∷ calls))
        (sym (on_props-differs props view differs))
        (highlight_again-IsCurrent calls (record view { props = props })
          (Reach-IsCurrent r).numbered)
  Reach-IsCurrent (highlighted {calls} {view} call result r m made) =
      on_highlighted-IsCurrent calls view call result m made (Reach-IsCurrent r)
  Reach-IsCurrent (rejected call r) = Reach-IsCurrent r
  Reach-IsCurrent (scrolled r) =
      let v = Reach-IsCurrent r in
      record { shown = v.shown; asked = v.asked; unique = v.unique; numbered = v.numbered }

  on_highlighted-live :
      (view : View) (call : Call) (result : Text)
      → view.live ≡ some call
      → (on_highlighted call result view).html ≡ some result
  unfolding on_highlighted is_live
  on_highlighted-live view call result e = rw (e, is_live, ==_refl call.id) refl

  -- However the document, the language and the locale change, and in whatever order the answers of the
  -- calls come: markup on the page is what `highlight` made of the document, in the language and the
  -- locale, that the page has now.
  pub Reach-html :
      {calls : List Call} {view : View} (result : Text)
      → Reach calls view
      → view.html ≡ some result
      → Made view.props result
  Reach-html result r e = (Reach-IsCurrent r).shown result e

  -- At every moment there is a call, for the document, the language and the locale of that moment, whose
  -- answer is on the page as soon as it comes.
  pub Reach-answered :
      {calls : List Call} {view : View} (result : Text)
      → Reach calls view
      → (call : Call) × (call.props ≡ view.props)
        × ((on_highlighted call result view).html ≡ some result)
  Reach-answered {calls} {view} result r =
      let (call, live, own) = (Reach-IsCurrent r).asked in
      (call, own, on_highlighted-live view call result live)
