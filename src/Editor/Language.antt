-- ===== src/Editor/Language.antt =====
-- The language that the editor saves with the detector of web/src/lib/languages.ts in its place.
use haste_server.Prelude.{
  ◌≡◌, ◌≢◌, ◌⊎◌, inl, inr, sym, ap, ◌∙◌, Memᴰ, [], Bool-cases, if◌then◌else◌,
}
use mathlib.Core.Path.{subst}
use haste_server.Text.{Text, text_eq, text_eq_iff}
use haste_server.Languages.{LanguageOption, languages}
use haste_server.Languages.Detection.{detect_language}
use haste_server.Languages.Detection.Laws.{detect_language-languages}
use haste_server.Editor.{Editor, auto, plain, language, payload}

-- The name of a language that the picker lists.
abbrev pub Listed : Text → Type 0
Listed id = (l : LanguageOption) × Memᴰ l languages × (l.id ≡ id)

language-Listed :
    (s : Editor) → (s.choice ≢ auto → Listed s.choice) → Listed (language detect_language s)
unfolding language
language-Listed s chosen = elim (Bool-cases (text_eq s.choice auto)) [
  | inl is_auto ↦
      subst Listed (sym (ap (λ b. if b then detect_language s.deferred else s.choice) is_auto))
        (detect_language-languages s.deferred)
  | inr picked ↦
      subst Listed (sym (ap (λ b. if b then detect_language s.deferred else s.choice) picked))
        (chosen (λ e. absurd (cc (sym picked ∙ (text_eq_iff s.choice auto).1 e))))
]

-- Where the choice is `auto` or a language of the picker, the language that is sent to the server is
-- either empty or a language of the picker other than plain text.
pub payload-languages :
    (s : Editor)
    → (s.choice ≢ auto → Listed s.choice)
    → ((payload detect_language s).language ≡ [])
      ⊎ (Listed (payload detect_language s).language
          × ((payload detect_language s).language ≢ plain))
unfolding payload
payload-languages s chosen = elim (Bool-cases (text_eq (language detect_language s) plain)) [
  | inl is_plain ↦ inl (ap (λ b. if b then [] else language detect_language s) is_plain)
  | inr other ↦
      let e : (payload detect_language s).language ≡ language detect_language s =
        ap (λ b. if b then [] else language detect_language s) other in
      inr (
        subst Listed (sym e) (language-Listed s chosen),
        λ p. absurd (cc (sym other ∙ (text_eq_iff _ plain).1 (sym e ∙ p))),
      )
]
