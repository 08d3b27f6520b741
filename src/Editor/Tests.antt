-- ===== src/Editor/Tests.antt =====
-- The editor page on concrete states.
use haste_server.Prelude.{ℕ, ◌≡◌, refl, true, [], ◌∷◌, ◌<◌, none}
use haste_server.Text.{Text, codes, trim}
use haste_server.CodePoints.{count_code_points}
use haste_server.Api.{ServerConfig}
use haste_server.Editor.{
  Editor, start, plain, create, over_limit, empty, too_long, payload, silent, on_save_chord,
  on_title_enter, on_confirm_click,
}
use haste_server.Editor.Events.{
  Event, change, save_chord, confirm_click, handle, System, absorb, Reach, opened, next, event,
}
use haste_server.I18n.{Translate}
use haste_server.Editor.Saving.{IsSound, Reach-IsSound}
use haste_server.Editor.Keys.{on_save_chord-too_long}

abbrev config : ServerConfig
config = record {
  max_chars = 40_000;
  max_title_chars = 3;
  expiry_options_secs = 3_600 ∷ [];
  cleanup_every_secs = 3_600;
  base_url = none;
  stats_public = none;
}

abbrev detect : Text → Text
detect s = plain

abbrev after : System → Event → System
after sys e = absorb sys (handle detect e sys.page)

abbrev opening : System
opening = record { page = start config; pending = []; sent = [] }

abbrev confirmed : System
confirmed = after (after (after opening (change (codes "hi"))) save_chord) confirm_click

-- A short paste is typed, asked to be saved and confirmed: one request is sent.
confirmed-Reach : Reach detect config confirmed
confirmed-Reach =
    next (next (next opened (event (change (codes "hi")) tt)) (event save_chord tt))
      (event confirm_click tt)

Reach-IsSound_example : IsSound detect confirmed
Reach-IsSound_example = Reach-IsSound detect confirmed-Reach

abbrev long_title : Editor
long_title = record (start config) { content = codes "hi"; title = codes "long"; confirming = true }

on_save_chord-too_long_example :
    (on_title_enter detect long_title ≡ silent long_title)
    × (on_confirm_click detect long_title ≡ silent long_title)
    × (on_save_chord detect long_title
        ≡ (record long_title { saving = true }, create (payload detect long_title) ∷ []))
    × (long_title.config.max_title_chars < count_code_points (payload detect long_title).title)
unfolding start empty over_limit too_long trim count_code_points
on_save_chord-too_long_example = on_save_chord-too_long detect long_title refl refl refl refl refl

abbrev typed : Editor
typed = record (start config) { content = codes "abc" }

abbrev translation : Translate
translation key vars = key

abbrev same_label : Text → Text
same_label id = id

abbrev no_digits : ℕ → Text
no_digits n = []
