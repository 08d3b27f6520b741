-- ===== src/Docs/Fields.antt =====
-- `Fields` of web/src/routes/docs.tsx: what is shown of a parameter or of a field of a body.
use haste_server.Prelude.{
  not, all, ◌==◌, ==_iff, ◌≢◌, &&-eq-true, ◌≡◌, refl, sym, ap, ◌∙◌, Bool, true, List, [], ◌∷◌, ◌++◌,
  some, none, append-nil, if◌then◌else◌, All,
}
use mathlib.Core.Path.{subst}
use haste_server.Text.{Text, codes, contains, contains-append}
use haste_server.Text.Objects.{get}
use haste_server.Text.Decimal.{decimal}
use haste_server.I18n.{Vars, Translate, translate, template_of, replace, messages, fill}
use haste_server.I18n.Locales.{Locale, zh_tw, en_us, ja_jp}
use haste_server.I18n.Template.{Segment, literal, hole, IsSegment, print, render, replace-print}
use haste_server.Api.{ServerConfig}
use haste_server.Docs.{Field}

pub record FieldView : Type 0 where
  pub name : Text
  pub type_name : Text
  pub requirement : Text
  pub desc : Text

-- The limits that a description may quote.
unfoldable pub limits : ServerConfig → Vars
limits config = (codes "max", decimal config.max_title_chars) ∷ []

unfoldable pub field_view : Translate → ServerConfig → Field → FieldView
field_view t config f = record {
  name = f.name;
  type_name = f.type_name;
  requirement = t (if f.required then codes "docs.required" else codes "docs.optional") none;
  desc = t f.desc (some (limits config));
}

-- The description of the title, before the place for the limit and behind it.
abbrev before_max : Locale → Text
before_max en_us = codes "An optional name, at most "
before_max zh_tw = codes "選填的名稱，最多 "
before_max ja_jp = codes "任意の名前、最大 "

abbrev after_max : Locale → Text
after_max en_us = codes " characters. Replaces the generated summary in the link preview."
after_max zh_tw = codes " 個字。連結預覽會用它取代自動產生的摘要。"
after_max ja_jp = codes " 文字。リンクプレビューで自動生成の要約の代わりに使われます。"

abbrev title_segments : Locale → List Segment
title_segments l = literal (before_max l) ∷ hole (codes "max") ∷ literal (after_max l) ∷ []

title-print : (l : Locale) → template_of l (codes "docs.p.title") ≡ print (title_segments l)
unfolding template_of messages get
title-print en_us = refl
title-print zh_tw = refl
title-print ja_jp = refl

abbrev has_no_brace : Text → Bool
has_no_brace s = all (λ c. not (c == b'{')) s

no_brace : (s : Text) → has_no_brace s ≡ true → All (λ c. c ≢ b'{') s
no_brace [] h = tt
no_brace (c ∷ s) h =
    let (differs, rest) = &&-eq-true (not (c == b'{')) (has_no_brace s) h in
    ((λ e. cc (sym differs ∙ ap not ((==_iff c b'{').1 e))), no_brace s rest)

max-IsSegment : IsSegment (hole (codes "max"))
max-IsSegment = ((λ e. cc e), (refl, (refl, (refl, tt))))

title-no_brace :
    (l : Locale) → (has_no_brace (before_max l) ≡ true) × (has_no_brace (after_max l) ≡ true)
title-no_brace en_us = (refl, refl)
title-no_brace zh_tw = (refl, refl)
title-no_brace ja_jp = (refl, refl)

title-IsSegment : (l : Locale) → All IsSegment (title_segments l)
title-IsSegment l =
    let (before, after) = title-no_brace l in
    (no_brace (before_max l) before, (max-IsSegment, (no_brace (after_max l) after, tt)))

title-render :
    (inherited_text : Text → Text) (l : Locale) (config : ServerConfig)
    → render inherited_text (limits config) (title_segments l)
      ≡ before_max l ++ (decimal config.max_title_chars ++ after_max l)
unfolding limits fill get
title-render inherited_text l config =
    ap (λ s. before_max l ++ (decimal config.max_title_chars ++ s)) (append-nil (after_max l))

-- Whatever limit the server publishes for a title, the description of a field that is described as the
-- title is quotes that limit, in every language.
pub field_view-limit :
    (inherited_text : Text → Text) (l : Locale) (config : ServerConfig) (f : Field)
    → f.desc ≡ codes "docs.p.title"
    → contains
        (field_view (translate inherited_text l) config f).desc
        (decimal config.max_title_chars)
      ≡ true
unfolding field_view translate
field_view-limit inherited_text l config f title =
    let shown : replace inherited_text (limits config) (template_of l f.desc)
        ≡ before_max l ++ (decimal config.max_title_chars ++ after_max l) =
      ap (λ k. replace inherited_text (limits config) (template_of l k)) title
      ∙ ap (replace inherited_text (limits config)) (title-print l)
      ∙ replace-print inherited_text (limits config) (title_segments l) (title-IsSegment l)
      ∙ title-render inherited_text l config in
    subst (λ s. contains s (decimal config.max_title_chars) ≡ true) (sym shown)
      (contains-append (before_max l) (decimal config.max_title_chars) (after_max l))
