-- ===== src/Languages/Detection/Laws.antt =====
-- What detection answers, against the table of its rules and the catalogue of the picker.
use haste_server.Prelude.{
  ◌≤◌, arith, ◌<◌, ◌≡◌, ◌⊎◌, inl, inr, refl, sym, ap, ◌∙◌, Bool, true, false, List, [], ◌∷◌, ◌++◌,
  All, Memᴰ, all, any, all_sound, any_sound, Bool-cases, ltb, ltb→lt, length,
}
use mathlib.Core.Path.{subst}
use haste_server.Text.{Text, codes, text_eq, text_eq_iff}
use haste_server.Languages.{LanguageOption, plain, languages, catalogue}
use haste_server.Regex.Parser.{regex}
use haste_server.Languages.Conditions.{holds, readable}
use haste_server.Languages.Rules.{Rule, rules}
use haste_server.Languages.Detection.{first_match, sample_of, detect_language}

-- Every pattern of the rules is read.
rules-readable : all (λ r. readable r.test) rules ≡ true
unfolding rules readable regex
rules-readable = refl

module _ (r : Rule) (table : List Rule) (sample : Text) where
  pub first_match_pass : holds r.test sample ≡ true → first_match (r ∷ table) sample ≡ codes r.id
  unfolding first_match
  first_match_pass h = rw h refl

  pub first_match_fail :
      holds r.test sample ≡ false → first_match (r ∷ table) sample ≡ first_match table sample
  unfolding first_match
  first_match_fail h = rw h refl

-- The rule that decides: the sample passes it and fails all before it.
pub record Decided (table : List Rule) (sample answer : Text) : Type 0 where
  pub before : List Rule
  pub rule : Rule
  pub after : List Rule
  pub whole : table ≡ before ++ rule ∷ after
  pub failed : All (λ r. holds r.test sample ≡ false) before
  pub passed : holds rule.test sample ≡ true
  pub named : answer ≡ codes rule.id

-- Plain text, where the sample fails them all.
abbrev pub Undecided : List Rule → Text → Text → Type 0
Undecided table sample answer = All (λ r. holds r.test sample ≡ false) table × (answer ≡ plain)

Outcome-cons :
    (r : Rule) (table : List Rule) (sample answer : Text)
    → holds r.test sample ≡ false
    → Decided table sample answer ⊎ Undecided table sample answer
    → Decided (r ∷ table) sample answer ⊎ Undecided (r ∷ table) sample answer
Outcome-cons r table sample answer fails (inl d) = inl (record {
  before = r ∷ d.before;
  rule = d.rule;
  after = d.after;
  whole = ap (λ t. r ∷ t) d.whole;
  failed = (fails, d.failed);
  passed = d.passed;
  named = d.named;
})
Outcome-cons r table sample answer fails (inr (none_passed, e)) = inr ((fails, none_passed), e)

first_match-Decided :
    (table : List Rule) (sample answer : Text)
    → answer ≡ first_match table sample
    → Decided table sample answer ⊎ Undecided table sample answer
first_match-Decided [] sample answer e = inr (tt, unfold first_match in e)
first_match-Decided (r ∷ table) sample answer e = elim (Bool-cases (holds r.test sample)) [
  | inl passes ↦ inl (record {
    before = [];
    rule = r;
    after = table;
    whole = refl;
    failed = tt;
    passed = passes;
    named = e ∙ first_match_pass r table sample passes;
  })
  | inr fails ↦
      Outcome-cons r table sample answer fails
        (first_match-Decided table sample answer (e ∙ first_match_fail r table sample fails))
]

detect_language-short :
    (text : Text) → ltb (length (sample_of text)) 12 ≡ true → detect_language text ≡ plain
unfolding detect_language
detect_language-short text h = rw h refl

pub detect_language-long :
    (text : Text)
    → ltb (length (sample_of text)) 12 ≡ false
    → detect_language text ≡ first_match rules (sample_of text)
unfolding detect_language
detect_language-long text h = rw h refl

-- A sample of fewer than 12 code units is plain text. Of one of 12 or more the answer is the language of
-- the first rule that its sample passes, where it passes any, and plain text where it passes none.
pub detect_language-Decided :
    (text : Text)
    → ((length (sample_of text) < 12) × (detect_language text ≡ plain))
      ⊎ ((12 ≤ length (sample_of text))
          × (Decided rules (sample_of text) (detect_language text)
              ⊎ Undecided rules (sample_of text) (detect_language text)))
detect_language-Decided text = elim (Bool-cases (ltb (length (sample_of text)) 12)) [
  | inl short ↦ inl (ltb→lt _ 12 short, detect_language-short text short)
  | inr long ↦ inr (
    ground arith,
    first_match-Decided rules (sample_of text) (detect_language text)
        (detect_language-long text long),
  )
]

Memᴰ-middle :
    {table : List Rule} (before : List Rule) (r : Rule) (after : List Rule)
    → table ≡ before ++ r ∷ after
    → Memᴰ r table
Memᴰ-middle before r after e = subst (Memᴰ r) (sym e) (inside before)
  where
    inside : (rs : List Rule) → Memᴰ r (rs ++ r ∷ after)
    inside [] = Memᴰ.head refl
    inside (q ∷ rs) = Memᴰ.tail (inside rs)

abbrev pub is_listed : Text → Bool
is_listed id = any (λ (l : LanguageOption). text_eq l.id id) languages

rules_listed : all (λ r. is_listed (codes r.id)) rules ≡ true
unfolding rules languages catalogue
rules_listed = refl

plain_listed : is_listed plain ≡ true
unfolding languages catalogue
plain_listed = refl

-- Whatever the text, the answer is a language that the picker lists.
pub detect_language-languages :
    (text : Text) → (l : LanguageOption) × Memᴰ l languages × (l.id ≡ detect_language text)
detect_language-languages text =
    entry_of (detect_language text) (listed (detect_language-Decided text))
  where
    entry_of :
        (id : Text) → is_listed id ≡ true → (l : LanguageOption) × Memᴰ l languages × (l.id ≡ id)
    entry_of id h =
        let (l, m, e) = any_sound (λ (l : LanguageOption). text_eq l.id id) languages h in
        (l, m, (text_eq_iff l.id id).0 e)

    listed :
        ((length (sample_of text) < 12) × (detect_language text ≡ plain))
          ⊎ ((12 ≤ length (sample_of text))
              × (Decided rules (sample_of text) (detect_language text)
                  ⊎ Undecided rules (sample_of text) (detect_language text)))
        → is_listed (detect_language text) ≡ true
    listed (inl (_, e)) = subst (λ id. is_listed id ≡ true) (sym e) plain_listed
    listed (inr (_, inr (_, e))) = subst (λ id. is_listed id ≡ true) (sym e) plain_listed
    listed (inr (_, inl d)) =
        subst (λ id. is_listed id ≡ true) (sym d.named)
          (all_sound (λ r. is_listed (codes r.id)) rules rules_listed
            (Memᴰ-middle d.before d.rule d.after d.whole))
