-- ===== src/Languages/Detection/Json.antt =====
-- `detectLanguage` of web/src/lib/languages.ts on JSON: the rules before `isJson` and why they fail.
use haste_server.Prelude.{
  ℕ, ◌≤◌, ◌≡◌, inl, inr, refl, sym, ap, ◌∙◌, Bool, true, false, ◌||◌, List, [], ◌∷◌, ◌++◌, Option,
  none, some, All, any, ge→ltb, length, take, drop, ==_iff, arith, Bool-cases, &&-eq-true, ◌==◌,
}
use haste_server.Text.{Text, codes}
use haste_server.Regex.{Regex, run, search_from, test}
use haste_server.Regex.Parser.{regex, is_terminator, starts}
use haste_server.Languages.Json.{Container, Mode, value, step, reads, parses}
use haste_server.Languages.Json.Lines.{
  between, is_sane, yields, step-sane, step-between, step-no_token, ends_line,
}
use haste_server.Languages.Conditions.{Condition, pattern, code, re, re_m, re_i, holds, test_if}
use haste_server.Languages.Content.{is_json}
use haste_server.Languages.Rules.{Rule, rules}
use haste_server.Languages.Detection.Laws.{detect_language-long, first_match_pass, first_match_fail}
use haste_server.Languages.Detection.{detect_language, sample_of, first_match}

-- A pattern that matches at the start of a text only is not found behind it.
search_from-later :
    (r : Regex)
    → ((c : ℕ) (s : Text) → run r (λ q. true) (some c, s) ≡ false)
    → (c : ℕ) (s : Text) → search_from r (some c) s ≡ false
unfolding search_from
search_from-later r h c [] = h c []
search_from-later r h c (d ∷ s) = rw (search_from, h c (d ∷ s)) (search_from-later r h d s)

-- The expression of a pattern.
abbrev regex_of : Condition → Regex
regex_of (pattern flags p) = elim (regex flags (codes p)) [ none ↦ Regex.empty | some r ↦ r ]
regex_of other = Regex.empty

-- The shebangs, PHP, XML and HTML, on a text that begins with a bracket.
abbrev Fail : List Rule → Text → Type 0
Fail table sample = All (λ (r : Rule). holds r.test sample ≡ false) table

brace-Fail : (s : Text) → Fail (take 6 rules) (b'{' ∷ s)
unfolding rules holds regex test run search_from test_if haste_server.Text.is_space
brace-Fail s = (
  search_from-later (regex_of (re "^#!.*\\b(?:ba|z|k)?sh\\b")) (λ c t. refl) b'{' s,
  (
    search_from-later (regex_of (re "^#!.*\\bpython[\\d.]*\\b")) (λ c t. refl) b'{' s,
    (
      search_from-later (regex_of (re "^#!.*\\bperl\\b")) (λ c t. refl) b'{' s,
      (
        search_from-later (regex_of (re "^\\s*<\\?php\\b")) (λ c t. refl) b'{' s,
        (
          search_from-later (regex_of (re "^\\s*<\\?xml\\b")) (λ c t. refl) b'{' s,
          (
            search_from-later (regex_of (re_i "^\\s*<!doctype html|^\\s*<html[\\s>]")) (λ c t. refl)
                b'{' s,
            tt,
          ),
        ),
      ),
    ),
  ),
)

bracket-Fail : (s : Text) → Fail (take 6 rules) (b'[' ∷ s)
unfolding rules holds regex test run search_from test_if haste_server.Text.is_space
bracket-Fail s = (
  search_from-later (regex_of (re "^#!.*\\b(?:ba|z|k)?sh\\b")) (λ c t. refl) b'[' s,
  (
    search_from-later (regex_of (re "^#!.*\\bpython[\\d.]*\\b")) (λ c t. refl) b'[' s,
    (
      search_from-later (regex_of (re "^#!.*\\bperl\\b")) (λ c t. refl) b'[' s,
      (
        search_from-later (regex_of (re "^\\s*<\\?php\\b")) (λ c t. refl) b'[' s,
        (
          search_from-later (regex_of (re "^\\s*<\\?xml\\b")) (λ c t. refl) b'[' s,
          (
            search_from-later (regex_of (re_i "^\\s*<!doctype html|^\\s*<html[\\s>]")) (λ c t. refl)
                b'[' s,
            tt,
          ),
        ),
      ),
    ),
  ),
)

abbrev diff : Condition
diff = re_m "^diff --git |^@@ -\\d+"

abbrev diff_regex : Regex
diff_regex = regex_of diff

-- `^diff --git ` and `^@@ -` at a position: there is nothing left, or it does not begin a line, or no `d`
-- and no `@` stands there.
diff-end : (prev : Option ℕ) → run diff_regex (λ q. true) (prev, []) ≡ false
unfolding regex run starts
diff-end none = refl
diff-end (some c) = elim (Bool-cases (is_terminator c)) [ inl h ↦ rw h refl | inr h ↦ rw h refl ]

diff-within :
    (c : ℕ) (s : Text) → is_terminator c ≡ false → run diff_regex (λ q. true) (some c, s) ≡ false
unfolding regex run starts
diff-within c s h = rw h refl

diff-other :
    (prev : Option ℕ) (c : ℕ) (s : Text)
    → (c == b'd' || c == b'@') ≡ false
    → run diff_regex (λ q. true) (prev, c ∷ s) ≡ false
unfolding regex run starts
diff-other prev c s h = from prev (ground arith) (ground arith)
  where
    from :
        (o : Option ℕ)
        → (c == b'd') ≡ false
        → (c == b'@') ≡ false
        → run diff_regex (λ q. true) (o, c ∷ s) ≡ false
    from none d at = rw (d, at) refl
    from (some b) d at = elim (Bool-cases (is_terminator b)) [
      | inl e ↦ rw (e, d, at) refl
      | inr e ↦ rw e refl
    ]

-- U+2028 and U+2029, which JSON allows in a string though they end a line.
abbrev pub is_separator : ℕ → Bool
is_separator c = c == 0x2028 || c == 0x2029

abbrev IsPlain : ℕ → Type 0
IsPlain c = is_separator c ≡ false

All-IsPlain : (t : Text) → any is_separator t ≡ false → All IsPlain t
All-IsPlain [] h = tt
All-IsPlain (c ∷ t) h = (ground arith, All-IsPlain t (ground arith))

-- What a text that is read has of its first unit.
reads-cons :
    (c : ℕ) (t : Text) (mode : Mode) (stack : List Container)
    → reads (c ∷ t) (mode, stack) ≡ true
    → (next : Mode × List Container) × (step mode stack c ≡ some next) × (reads t next ≡ true)
unfolding reads
reads-cons c t mode stack h = by_step (step mode stack c) refl
  where
    by_step :
        (o : Option (Mode × List Container))
        → step mode stack c ≡ o
        → (next : Mode × List Container) × (step mode stack c ≡ some next) × (reads t next ≡ true)
    by_step none e = absurd (cc (rw (reads, e) at h))
    by_step (some next) e = (next, e, rw (reads, e) at h)

-- Where a line begins, the text stands between two tokens.
abbrev Begins : Option ℕ → Mode → Type 0
Begins none mode = between mode ≡ true
Begins (some c) mode = is_terminator c ≡ true → between mode ≡ true

diff-here :
    (prev : Option ℕ) (c : ℕ) (t : Text) (mode : Mode) (stack : List Container)
    → reads (c ∷ t) (mode, stack) ≡ true
    → Begins prev mode
    → run diff_regex (λ q. true) (prev, c ∷ t) ≡ false
diff-here prev c t mode stack h begins = elim (Bool-cases (c == b'd' || c == b'@')) [
  | inr other ↦ diff-other prev c t other
  | inl marked ↦ at_mark prev begins marked
]
  where
    no_step : between mode ≡ true → (c == b'd' || c == b'@') ≡ true → ⊥
    no_step b marked =
        let (next, e, _) = reads-cons c t mode stack h in
        cc (sym (step-no_token mode stack c b marked) ∙ ap (yields (λ m. false)) e)

    at_mark :
        (o : Option ℕ)
        → Begins o mode
        → (c == b'd' || c == b'@') ≡ true
        → run diff_regex (λ q. true) (o, c ∷ t) ≡ false
    at_mark none b marked = absurd (no_step b marked)
    at_mark (some d) b marked = elim (Bool-cases (is_terminator d)) [
      | inl ends ↦ absurd (no_step (b ends) marked)
      | inr inside ↦ diff-within d (c ∷ t) inside
    ]

ends_line-terminator : (c : ℕ) → IsPlain c → is_terminator c ≡ true → ends_line c ≡ true
unfolding is_terminator
ends_line-terminator c plain h = ground arith

search_from-diff :
    (prev : Option ℕ) (t : Text) (mode : Mode) (stack : List Container)
    → reads t (mode, stack) ≡ true
    → is_sane mode ≡ true
    → Begins prev mode
    → All IsPlain t
    → search_from diff_regex prev t ≡ false
unfolding search_from
search_from-diff prev [] mode stack h sane begins plain = diff-end prev
search_from-diff prev (c ∷ t) mode stack h sane begins (here, rest) =
    let ((mode', stack'), e, h') = reads-cons c t mode stack h in
    rw (search_from, diff-here prev c t mode stack h begins)
      (search_from-diff (some c) t mode' stack' h'
        (sym (ap (yields is_sane) e) ∙ step-sane mode stack c sane)
        (λ ends.
          sym (ap (yields between) e)
          ∙ step-between mode stack c sane (ends_line-terminator c here ends))
        rest)

-- No line of a JSON text begins like a diff.
diff-fails : (t : Text) → parses t ≡ true → All IsPlain t → holds diff t ≡ false
unfolding parses holds test test_if regex
diff-fails t h plain = search_from-diff none t value [] h refl refl plain

first_match_skips :
    (before : List Rule) (r : Rule) (after : List Rule) (sample : Text)
    → Fail before sample
    → holds r.test sample ≡ true
    → first_match (before ++ r ∷ after) sample ≡ codes r.id
first_match_skips [] r after sample _ passes = first_match_pass r after sample passes
first_match_skips (q ∷ before) r after sample (fails, rest) passes =
    first_match_fail q (before ++ r ∷ after) sample fails
    ∙ first_match_skips before r after sample rest passes

abbrev json_rule : Rule
json_rule = record { id = "json"; test = code is_json }

first_match-json :
    (sample : Text)
    → Fail (take 6 rules) sample
    → holds diff sample ≡ false
    → is_json sample ≡ true
    → first_match rules sample ≡ codes "json"
unfolding rules holds
first_match-json sample (a, (b, (c, (d, (e, (f, _)))))) no_diff json =
    first_match_skips (take 7 rules) json_rule (drop 8 rules) sample
      (a, (b, (c, (d, (e, (f, (no_diff, tt))))))) json

first_match-is_json :
    (sample : Text)
    → is_json sample ≡ true
    → All IsPlain sample
    → first_match rules sample ≡ codes "json"
unfolding is_json
first_match-is_json [] json plain = absurd (cc json)
first_match-is_json (c ∷ s) json plain =
    let (opens, reads_it) = &&-eq-true (c == b'{' || c == b'[') (parses (c ∷ s)) json in
    let no_diff = diff-fails (c ∷ s) reads_it plain in
    elim (Bool-cases (c == b'{')) [
      | inl brace ↦
          let is = (==_iff c b'{').0 brace in
          first_match-json (c ∷ s) (rw is (brace-Fail s)) no_diff json
      | inr other ↦
          let is = (==_iff c b'[').0 (ground arith) in
          first_match-json (c ∷ s) (rw is (bracket-Fail s)) no_diff json
    ]

-- A text whose sample is an object or an array in JSON, over however many lines, is taken for JSON and for
-- nothing else, provided that the sample has the 12 code units that any guess takes and that no U+2028
-- and no U+2029 stands in it.
pub detect_language-is_json :
    (text : Text)
    → is_json (sample_of text) ≡ true
    → 12 ≤ length (sample_of text)
    → any is_separator (sample_of text) ≡ false
    → detect_language text ≡ codes "json"
detect_language-is_json text json long plain =
    detect_language-long text (ge→ltb (length (sample_of text)) 12 long)
    ∙ first_match-is_json (sample_of text) json (All-IsPlain (sample_of text) plain)
