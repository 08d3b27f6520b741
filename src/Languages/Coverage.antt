-- ===== src/Languages/Coverage.antt =====
-- The catalogue against the grammars and the labels.
use haste_server.Prelude.{
  ◌≡◌, ◌⊎◌, inl, inr, refl, ap, Bool, true, false, ◌||◌, some, any, all, all_sound, any_sound, Memᴰ,
  Bool-cases,
}
use haste_server.Text.{Text, text_eq, text_eq_iff}
use haste_server.Text.Objects.{get, object}
use haste_server.Languages.{
  LanguageOption, plain, languages, language_label, Loader, grammar, inherited, missing, loader_for,
  loader_entries,
}

is_grammar_of : Text → Loader → Bool
is_grammar_of id (grammar m) = text_eq m id
is_grammar_of id inherited = false
is_grammar_of id missing = false

eq_of_is_grammar : (id : Text) (l : Loader) → is_grammar_of id l ≡ true → l ≡ grammar id
unfolding is_grammar_of
eq_of_is_grammar id (grammar m) h = ap grammar ((text_eq_iff m id).0 h)
eq_of_is_grammar id inherited h = absurd (cc h)
eq_of_is_grammar id missing h = absurd (cc h)

-- What the catalogue promises of one of its entries.
is_served : LanguageOption → Bool
is_served l = text_eq l.id plain || is_grammar_of l.id (loader_for l.id)

languages-is_served : all is_served languages ≡ true
unfolding is_served is_grammar_of loader_for languages get
languages-is_served = refl

-- Every language of the picker but plain text has a grammar to load, under its own name.
pub languages-grammar :
    (l : LanguageOption) → Memᴰ l languages → (l.id ≡ plain) ⊎ (loader_for l.id ≡ grammar l.id)
unfolding is_served
languages-grammar l m = elim (Bool-cases (text_eq l.id plain)) [
  | inl e ↦ inl ((text_eq_iff l.id plain).0 e)
  | inr e ↦ inr (
      eq_of_is_grammar l.id (loader_for l.id)
        (rw e at (all_sound is_served languages languages-is_served m)))
]

is_labelled : LanguageOption → Bool
is_labelled l = text_eq (language_label (some l.id)) l.label

languages-is_labelled : all is_labelled languages ≡ true
unfolding is_labelled language_label languages
languages-is_labelled = refl

-- Every language of the picker is shown by its own label.
language_label-languages :
    (l : LanguageOption) → Memᴰ l languages → language_label (some l.id) ≡ l.label
unfolding is_labelled
language_label-languages l m =
    (text_eq_iff _ _).0 (all_sound is_labelled languages languages-is_labelled m)

is_offered : Text × Text → Bool
is_offered entry = any (λ l. text_eq l.id entry.0) languages

loaders-is_offered : all is_offered (object loader_entries) ≡ true
unfolding is_offered languages loader_entries
loaders-is_offered = refl

-- Every grammar that can be loaded is offered by the picker.
loaders-languages :
    (id module_name : Text)
    → Memᴰ (id, module_name) (object loader_entries)
    → (l : LanguageOption) × Memᴰ l languages × (l.id ≡ id)
unfolding is_offered
loaders-languages id module_name m =
    let (l, found, e) =
      any_sound (λ (l : LanguageOption). text_eq l.id id) languages
        (all_sound is_offered (object loader_entries) loaders-is_offered m) in
    (l, found, (text_eq_iff l.id id).0 e)
