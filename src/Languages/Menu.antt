-- ===== src/Languages/Menu.antt =====
-- web/src/components/language-picker.tsx: the items of the open picker, its search and a choice.
use haste_server.Prelude.{
  suc, any, any_complete, &&-eq-true, ◌≡◌, ◌↔◌, refl, sym, ap, ◌∙◌, Bool, true, false, not, List,
  [], ◌∷◌, ◌++◌, map, filter, length, if◌then◌else◌, Memᴰ, map_sound, map_complete, inl, inr,
  Bool-cases,
}
use mathlib.Core.Path.{subst}
use haste_server.Text.{Text, codes, text_eq, text_eq_iff}
use haste_server.Text.Distinct.{is_distinct, filter-one}
use haste_server.Languages.{LanguageOption, plain, languages, catalogue}
use haste_server.Languages.Picker.{Score, zero, picker_label, score, keywords_of}

-- `CommandItem`: what it stands for, what is searched, what it says and whether its check mark is seen.
pub record Item : Type 0 where
  pub value : Text
  pub keywords : List Text
  pub text : Text
  pub checked : Bool

abbrev pub auto : Text
auto = codes "auto"

-- The picker's own state, and the choice, which is the page's.
pub record Picker : Type 0 where
  pub value : Text
  pub is_open : Bool

-- `select`: `onChange`, and the popover closes.
unfoldable pub select : Text → Picker → Picker
select next picker = record { value = next; is_open = false }

is_zero : Score → Bool
is_zero zero = true
is_zero other = false

module _ (label : Text → Text) (auto_text detected : Text) where
  -- "Auto", with what was detected if that says anything.
  unfoldable pub auto_label : Text
  auto_label =
      if text_eq detected plain
      then auto_text
      else auto_text ++ (b'(' ∷ (label detected ++ (b')' ∷ [])))

  unfoldable pub auto_item : Text → Item
  auto_item value = record {
    value = auto;
    keywords = codes "automatic" ∷ codes "detect" ∷ [];
    text = auto_label;
    checked = text_eq value auto;
  }

  unfoldable pub language_item : Text → LanguageOption → Item
  language_item value l = record {
    value = l.id;
    keywords = keywords_of l;
    text = label l.id;
    checked = text_eq value l.id;
  }

  unfoldable pub items : Text → List Item
  items value = auto_item value ∷ map (language_item value) languages

  -- What is left of them while something is searched.
  unfoldable pub found : Text → Text → List Item
  unfolding is_zero
  found search value = filter (λ i. not (is_zero (score i.value search i.keywords))) (items value)

  -- The values of the items: `auto` and every language.
  abbrev values : List Text
  values = auto ∷ map (λ (l : LanguageOption). l.id) languages

  values-distinct : is_distinct values ≡ true
  unfolding is_distinct languages catalogue
  values-distinct = refl

  language-auto : (l : LanguageOption) → Memᴰ l languages → text_eq l.id auto ≡ false
  unfolding is_distinct
  language-auto l m = elim (Bool-cases (text_eq l.id auto)) [
    | inr differs ↦ differs
    | inl same ↦
        let ids = map (λ (o : LanguageOption). o.id) languages in
        let there =
          any_complete (text_eq auto) ids (map_complete (λ (o : LanguageOption). o.id) languages m)
            ((text_eq_iff auto l.id).1 (sym ((text_eq_iff l.id auto).0 same))) in
        let fresh =
          (&&-eq-true (not (any (text_eq auto) ids)) (is_distinct ids) values-distinct).0 in
        absurd (cc (sym fresh ∙ ap not there))
  ]

  -- The trigger says what the item says that was chosen.
  label-auto : picker_label label auto_text auto detected ≡ auto_label
  unfolding picker_label auto_label
  label-auto = refl

  label-language :
      (l : LanguageOption)
      → Memᴰ l languages
      → picker_label label auto_text l.id detected ≡ label l.id
  unfolding picker_label
  label-language l m = rw (language-auto l m) refl

  count-languages :
      (value : Text) (ls : List LanguageOption)
      → length (filter (λ (i : Item). i.checked) (map (language_item value) ls))
        ≡ length (filter (text_eq value) (map (λ (l : LanguageOption). l.id) ls))
  unfolding language_item
  count-languages value [] = refl
  count-languages value (l ∷ ls) = elim (Bool-cases (text_eq value l.id)) [
    | inl same ↦ rw (filter, same) (ap (λ n. suc n) (count-languages value ls))
    | inr differs ↦ rw (filter, differs) (count-languages value ls)
  ]

  count-items :
      (value : Text)
      → length (filter (λ (i : Item). i.checked) (items value))
        ≡ length (filter (text_eq value) values)
  unfolding items auto_item
  count-items value = elim (Bool-cases (text_eq value auto)) [
    | inl same ↦ rw (filter, same) (ap (λ n. suc n) (count-languages value languages))
    | inr differs ↦ rw (filter, differs) (count-languages value languages)
  ]

  -- What is known of an item of the menu.
  record IsItem (value : Text) (i : Item) : Type 0 where
    listed : Memᴰ i.value values
    marked : i.checked ≡ text_eq value i.value
    said : picker_label label auto_text i.value detected ≡ i.text

  items-IsItem : (value : Text) (i : Item) → Memᴰ i (items value) → IsItem value i
  unfolding items auto_item language_item
  items-IsItem value i (Memᴰ.head e) =
      subst (IsItem value) (sym e)
        (record { listed = Memᴰ.head refl; marked = refl; said = label-auto })
  items-IsItem value i (Memᴰ.tail m) =
      let (l, there, e) = map_sound (language_item value) languages m in
      subst (IsItem value) (sym e) (record {
        listed = Memᴰ.tail (map_complete (λ (o : LanguageOption). o.id) languages there);
        marked = refl;
        said = label-language l there;
      })

  -- Whichever item is chosen, the menu closes, the picker's button then says what the item said, and in the
  -- menu as it opens next exactly one check mark is seen, at the item that was chosen.
  pub items-select :
      (picker : Picker) (i j : Item)
      → Memᴰ i (items picker.value)
      → Memᴰ j (items (select i.value picker).value)
      → let after = select i.value picker in
        (after.is_open ≡ false)
        × (picker_label label auto_text after.value detected ≡ i.text)
        × (length (filter (λ (k : Item). k.checked) (items after.value)) ≡ 1)
        × ((j.checked ≡ true) ↔ (j.value ≡ i.value))
  unfolding select
  items-select picker i j m n =
      let chosen = items-IsItem picker.value i m in
      let other = items-IsItem i.value j n in
      (
        refl,
        chosen.said,
        count-items i.value ∙ filter-one i.value values values-distinct chosen.listed,
        (
          (λ seen. sym ((text_eq_iff i.value j.value).0 (sym other.marked ∙ seen))),
          (λ same. other.marked ∙ (text_eq_iff i.value j.value).1 (sym same)),
        ),
      )
