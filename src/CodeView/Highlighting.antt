-- ===== src/CodeView/Highlighting.antt =====
-- The effect of web/src/components/code-view.tsx that highlights a document: its props, the call that
-- is not cancelled and the markup that has arrived.
pub mod Current
use haste_server.Prelude.{
  ℕ, ◌+◌, ◌<◌, ◌≡◌, ◌⊎◌, inl, inr, refl, sym, ap, ◌∙◌, Bool, true, false, ◌&&◌, Option, none, some,
  arith, Bool-cases, Option-cases, if◌then◌else◌, ◌==◌, ==_iff, ==_refl,
}
use mathlib.Core.Path.{subst}
use haste_server.Text.{Text, text_eq}

-- What the effect depends on: `[code, language, t]`, a `t` being stable per locale.
pub record Props : Type 0 where
  pub code : Text
  pub language : Text
  pub locale : Text

pub record Call : Type 0 where
  pub id : ℕ
  pub props : Props

pub record View : Type 0 where
  pub props : Props
  pub html : Option Text
  pub has_scrolled : Bool
  pub live : Option Call
  pub next_call : ℕ

unfoldable pub same_props : Props → Props → Bool
same_props p q = text_eq p.code q.code && text_eq p.language q.language && text_eq p.locale q.locale

-- The effect: its cleanup has cancelled the call before it.
unfoldable pub highlight_again : View → View
highlight_again view = record view {
  html = none;
  has_scrolled = false;
  live = some (record { id = view.next_call; props = view.props });
  next_call = view.next_call + 1;
}

unfoldable pub open_view : Props → View
open_view props =
    highlight_again
      (record { props = props; html = none; has_scrolled = false; live = none; next_call = 0 })

unfoldable pub on_props : Props → View → View
on_props props view =
    if same_props props view.props then view else highlight_again (record view { props = props })

is_live : ℕ → Option Call → Bool
is_live id none = false
is_live id (some call) = call.id == id

-- `highlight(code, language, …)` of a call resolves with its markup.
unfoldable pub on_highlighted : Call → Text → View → View
unfolding is_live
on_highlighted call result view =
    if is_live call.id view.live then record view { html = some result } else view

-- It rejects, and the plain rendering stays in place.
unfoldable pub on_rejected : Call → View → View
on_rejected call view = view

-- The scrolling effect has brought the selection into view.
unfoldable pub on_scrolled : View → View
on_scrolled view = record view { has_scrolled = true }
