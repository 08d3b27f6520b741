-- ===== src/CodeEditor/Coloring.antt =====
-- The effect of web/src/components/code-editor.tsx as a step relation, and the layer it leads to.
use haste_server.Prelude.{
  ◌<◌, ◌≡◌, ◌⊎◌, inl, inr, refl, sym, ap, ◌∙◌, Bool, true, false, ◌&&◌, none, some, arith,
  Bool-cases, if◌then◌else◌, ==_refl, &&-eq-true,
}
use mathlib.Core.Path.{subst}
use haste_server.Text.{Text, text_eq, text_eq_refl, is_empty}
use haste_server.Highlighter.{Highlighter, highlight_sync}
use haste_server.CodeEditor.{
  Request, CodeEditor, is_too_large, ask_grammar, open_editor, same_size, on_props, is_live,
  on_ensured, on_rejected, is_ready, markup, pre, html, layer,
}

-- Nothing is asked for a text that is too large. For any other there is a request whose answer counts, of the
-- language that the editor has now; and no request is numbered like one to come.
pub record IsAsked (ed : CodeEditor) : Type 0 where
  pub idle : is_too_large ed.value ≡ true → ed.live ≡ none
  pub asks :
      is_too_large ed.value ≡ false
      → (request : Request) × (ed.live ≡ some request) × (request.language ≡ ed.language)
  pub numbered : (request : Request) → ed.live ≡ some request → request.id < ed.next_request

ask_grammar-IsAsked : (ed : CodeEditor) → IsAsked (ask_grammar ed)
unfolding ask_grammar
ask_grammar-IsAsked ed = from (Bool-cases (is_too_large ed.value))
  where
    from :
        ((is_too_large ed.value ≡ true) ⊎ (is_too_large ed.value ≡ false))
        → IsAsked (ask_grammar ed)
    from (inl large) =
        rw (ask_grammar, large)
          (record {
            idle = λ _. refl;
            asks = λ small. absurd (cc (sym large ∙ small));
            numbered = λ r e. absurd (cc e);
          })
    from (inr small) =
        rw (ask_grammar, small)
          (record {
            idle = λ large. absurd (cc (sym large ∙ small));
            asks = λ _. (record { id = ed.next_request; language = ed.language }, refl, refl);
            numbered = λ r e. ground arith;
          })

same_size-eq : (a b : Bool) → same_size a b ≡ true → a ≡ b
unfolding same_size
same_size-eq true true h = refl
same_size-eq true false h = cc h
same_size-eq false true h = cc h
same_size-eq false false h = refl

abbrev pub is_same : Text → Text → CodeEditor → Bool
is_same value language ed =
    text_eq language ed.language && same_size (is_too_large value) (is_too_large ed.value)

pub on_props-same :
    (value language : Text) (ed : CodeEditor)
    → is_same value language ed ≡ true
    → on_props value language ed ≡ record ed { value = value }
unfolding on_props
on_props-same value language ed h =
    ap
      (λ b.
        if b
        then record ed { value = value }
        else ask_grammar (record ed { value = value; language = language }))
      h

on_props-differs :
    (value language : Text) (ed : CodeEditor)
    → is_same value language ed ≡ false
    → on_props value language ed ≡ ask_grammar (record ed { value = value; language = language })
unfolding on_props
on_props-differs value language ed h =
    ap
      (λ b.
        if b
        then record ed { value = value }
        else ask_grammar (record ed { value = value; language = language }))
      h

on_props-IsAsked :
    (value language : Text) (ed : CodeEditor) → IsAsked ed → IsAsked (on_props value language ed)
on_props-IsAsked value language ed v = elim (Bool-cases (is_same value language ed)) [
  | inl same ↦
      let size = same_size-eq _ _ (&&-eq-true _ _ same).1 in
      subst IsAsked (sym (on_props-same value language ed same)) (record {
        idle = λ large. v.idle (sym size ∙ large);
        asks = λ small. v.asks (sym size ∙ small);
        numbered = v.numbered;
      })
  | inr differs ↦
      subst IsAsked (sym (on_props-differs value language ed differs)) (ask_grammar-IsAsked _)
]

on_ensured-IsAsked :
    (request : Request) (ed : CodeEditor) → IsAsked ed → IsAsked (on_ensured request ed)
unfolding on_ensured
on_ensured-IsAsked request ed v = by_liveness (is_live request.id ed.live)
  where
    by_liveness :
        (b : Bool) → IsAsked (if b then record ed { ready = some request.language } else ed)
    by_liveness true = record { idle = v.idle; asks = v.asks; numbered = v.numbered }
    by_liveness false = v

-- What can happen to the editor, the answers to requests that were cancelled included.
pub data Step (ed : CodeEditor) : CodeEditor → Type 0 where
  props : (value language : Text) → Step ed (on_props value language ed)
  ensured : (request : Request) → Step ed (on_ensured request ed)
  rejected : (request : Request) → Step ed (on_rejected request ed)

pub data Reach : CodeEditor → Type 0 where
  opened : (value language : Text) → Reach (open_editor value language)
  later : {ed ed' : CodeEditor} → Reach ed → Step ed ed' → Reach ed'

Step-IsAsked : {ed ed' : CodeEditor} → Step ed ed' → IsAsked ed → IsAsked ed'
unfolding on_rejected
Step-IsAsked {ed} (props value language) v = on_props-IsAsked value language ed v
Step-IsAsked {ed} (ensured request) v = on_ensured-IsAsked request ed v
Step-IsAsked (rejected request) v = v

pub Reach-IsAsked : {ed : CodeEditor} → Reach ed → IsAsked ed
unfolding open_editor
Reach-IsAsked (opened value language) = ask_grammar-IsAsked _
Reach-IsAsked (later r st) = Step-IsAsked st (Reach-IsAsked r)

module _ (code_to_html : Text → Text → Text) (shiki : Highlighter) (ed : CodeEditor) where
  html-large : is_too_large ed.value ≡ true → html code_to_html shiki ed ≡ none
  unfolding html
  html-large large = rw large refl

  html-ready :
      (language : Text)
      → is_too_large ed.value ≡ false
      → ed.ready ≡ some language
      → language ≡ ed.language
      → html code_to_html shiki ed ≡ some (code_to_html ed.value (highlight_sync shiki ed.language))
  unfolding html is_ready
  html-ready language small ready same =
      rw (small, ready, is_ready, same, text_eq_refl ed.language) refl

  layer-large : is_too_large ed.value ≡ true → layer code_to_html shiki ed ≡ pre ed.value
  unfolding layer
  layer-large large = rw (layer, html-large large) refl

  pub layer-ready :
      (language : Text)
      → is_too_large ed.value ≡ false
      → ed.ready ≡ some language
      → language ≡ ed.language
      → is_empty (code_to_html ed.value (highlight_sync shiki ed.language)) ≡ false
      → layer code_to_html shiki ed
        ≡ markup (code_to_html ed.value (highlight_sync shiki ed.language))
  unfolding layer
  layer-ready language small ready same full =
      rw (layer, html-ready language small ready same, full) refl

pub on_ensured-live :
    (request : Request) (ed : CodeEditor)
    → ed.live ≡ some request
    → on_ensured request ed ≡ record ed { ready = some request.language }
unfolding on_ensured is_live
on_ensured-live request ed e = rw (e, is_live, ==_refl request.id) refl

-- However the text and the language change and whichever grammars arrive or fail: a text
-- over the limit is shown plain; for any other there is a request whose answer counts, and when it
-- resolves, the text of that moment is shown in the markup that Shiki makes of it in the language that
-- highlightSync picks for that moment's, provided that Shiki's markup is never empty.
pub Reach-layer :
    (code_to_html : Text → Text → Text) (shiki : Highlighter) {ed : CodeEditor}
    → ((value language : Text) → is_empty (code_to_html value language) ≡ false)
    → Reach ed
    → ((is_too_large ed.value ≡ true) × (layer code_to_html shiki ed ≡ pre ed.value))
      ⊎ ((request : Request) × (ed.live ≡ some request)
          × (layer code_to_html shiki (on_ensured request ed)
              ≡ markup (code_to_html ed.value (highlight_sync shiki ed.language))))
Reach-layer code_to_html shiki {ed} full r = elim (Bool-cases (is_too_large ed.value)) [
  | inl large ↦ inl (large, layer-large code_to_html shiki ed large)
  | inr small ↦
      let (request, live, same) = (Reach-IsAsked r).asks small in
      inr (
        request,
        live,
        subst
            (λ e.
              layer code_to_html shiki e
              ≡ markup (code_to_html ed.value (highlight_sync shiki ed.language)))
            (sym (on_ensured-live request ed live))
            (layer-ready code_to_html shiki (record ed { ready = some request.language })
              request.language small refl same (full _ _)),
      )
]
