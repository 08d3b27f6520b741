-- ===== src/CodeEditor/Colored.antt =====
-- The layer of web/src/components/code-editor.tsx from the moment that its grammar has arrived.
use haste_server.Prelude.{
  ℕ, ◌≡◌, ◌≢◌, refl, sym, ap, ◌∙◌, Bool, true, false, some, arith, if◌then◌else◌, ◌==◌,
}
use mathlib.Core.Path.{subst}
use mathlib.Core.Option.{some-injective}
use haste_server.Text.{Text, text_eq_refl, is_empty}
use haste_server.Highlighter.{Highlighter, highlight_sync}
use haste_server.CodeEditor.{
  Request, CodeEditor, is_too_large, same_size, on_props, is_live, on_ensured, on_rejected, markup,
  layer,
}
use haste_server.CodeEditor.Coloring.{
  Reach, Reach-IsAsked, is_same, on_props-same, on_ensured-live, layer-ready,
}

-- What can happen once a request has resolved: the text changes within the limit and the language stays, and
-- requests that are not the one that counts resolve or fail, too late.
pub data Typing (request : Request) (ed : CodeEditor) : CodeEditor → Type 0 where
  resolved : Typing request ed (on_ensured request ed)
  typed :
      {ed' : CodeEditor} (value : Text)
      → is_too_large value ≡ false
      → Typing request ed ed'
      → Typing request ed (on_props value ed'.language ed')
  late :
      {ed' : CodeEditor} (other : Request)
      → other.id ≢ request.id
      → Typing request ed ed'
      → Typing request ed (on_ensured other ed')
  failed :
      {ed' : CodeEditor} (other : Request)
      → Typing request ed ed'
      → Typing request ed (on_rejected other ed')

-- The grammar has arrived that the editor's language needs.
record IsColored (request : Request) (ed : CodeEditor) : Type 0 where
  small : is_too_large ed.value ≡ false
  live : ed.live ≡ some request
  ready : ed.ready ≡ some request.language
  same : request.language ≡ ed.language

same_size_refl : (a b : Bool) → a ≡ false → b ≡ false → same_size a b ≡ true
unfolding same_size
same_size_refl a b e f = rw (e, f) refl

typed-IsColored :
    (request : Request) (value : Text) (ed : CodeEditor)
    → is_too_large value ≡ false
    → IsColored request ed
    → IsColored request (on_props value ed.language ed)
typed-IsColored request value ed fits v =
    let same : is_same value ed.language ed ≡ true =
      rw (text_eq_refl ed.language) (same_size_refl _ _ fits v.small) in
    subst (IsColored request) (sym (on_props-same value ed.language ed same))
      (record { small = fits; live = v.live; ready = v.ready; same = v.same })

late-IsColored :
    (request other : Request) (ed : CodeEditor)
    → other.id ≢ request.id
    → IsColored request ed
    → IsColored request (on_ensured other ed)
unfolding on_ensured is_live
late-IsColored request other ed differs v =
    let cancelled : is_live other.id ed.live ≡ false =
      ap (is_live other.id) v.live ∙ different request.id other.id (λ e. differs (sym e)) in
    subst (IsColored request)
      (sym (ap (λ b. if b then record ed { ready = some other.language } else ed) cancelled)) v
  where
    different : (m n : ℕ) → m ≢ n → (m == n) ≡ false
    different m n h = ground arith

Typing-IsColored :
    {request : Request} {ed ed' : CodeEditor}
    → is_too_large ed.value ≡ false
    → ed.live ≡ some request
    → request.language ≡ ed.language
    → Typing request ed ed'
    → IsColored request ed'
unfolding on_rejected
Typing-IsColored {request} {ed} small live same resolved =
    subst (IsColored request) (sym (on_ensured-live request ed live))
      (record { small = small; live = live; ready = refl; same = same })
Typing-IsColored {request} small live same (typed {ed' = ed'} value fits before) =
    typed-IsColored request value ed' fits (Typing-IsColored small live same before)
Typing-IsColored {request} small live same (late {ed' = ed'} other differs before) =
    late-IsColored request other ed' differs (Typing-IsColored small live same before)
Typing-IsColored small live same (failed other before) = Typing-IsColored small live same before

-- However the text and the language have changed and whichever grammars have arrived, failed or come too
-- late: over a text within the limit, a request whose answer counts is for the editor's language, and
-- from the moment that it resolves, the text of the moment is shown in the markup that Shiki
-- makes of it, in the language that highlightSync picks for the editor's, however the text changes within
-- the limit and whichever other requests resolve or fail. Shiki's markup is taken never to be empty.
pub Typing-layer :
    (code_to_html : Text → Text → Text) (shiki : Highlighter) (request : Request)
    {ed ed' : CodeEditor}
    → ((value language : Text) → is_empty (code_to_html value language) ≡ false)
    → Reach ed
    → is_too_large ed.value ≡ false
    → ed.live ≡ some request
    → Typing request ed ed'
    → (request.language ≡ ed.language)
      × (ed'.language ≡ ed.language)
      × (layer code_to_html shiki ed'
          ≡ markup (code_to_html ed'.value (highlight_sync shiki ed'.language)))
Typing-layer code_to_html shiki request {ed} {ed'} full r small live run =
    let (_, live', same) = (Reach-IsAsked r).asks small in
    let own : request.language ≡ ed.language =
      ap (λ (q : Request). q.language) (some-injective _ _ (sym live ∙ live')) ∙ same in
    let v = Typing-IsColored small live own run in
    (
      own,
      sym v.same ∙ own,
      layer-ready code_to_html shiki ed' request.language v.small v.ready v.same (full _ _),
    )
