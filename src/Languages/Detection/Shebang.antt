-- ===== src/Languages/Detection/Shebang.antt =====
-- `detectLanguage` of web/src/lib/languages.ts on a script whose first line names its shell.
use haste_server.Prelude.{
  ℕ, ◌≤◌, ◌≡◌, refl, ap, ◌∙◌, Bool, true, false, not, [], ◌∷◌, ◌++◌, Option, some, All, ltb, ge→ltb,
  length,
}
use haste_server.Text.{Text, codes, is_word}
use haste_server.Regex.{unit, star}
use haste_server.Regex.Matching.{Matches, unit_of, both, left, stop, round, last_unit, test-Found}
use haste_server.Regex.Parser.{regex, is_terminator, word_at, first, boundary}
use haste_server.Languages.Conditions.{re, holds}
use haste_server.Languages.Rules.{rules}
use haste_server.Languages.Detection.Laws.{detect_language-long, first_match_pass}
use haste_server.Languages.Detection.{detect_language, sample_of, first_match}

-- Units that pass a test are matched one by one.
star_units :
    (p : ℕ → Bool) (prev : Option ℕ) (line rest : Text)
    → All (λ c. p c ≡ true) line
    → Matches (star (unit p)) (prev, line ++ rest) (last_unit prev line, rest)
star_units p prev [] rest _ = stop
star_units p prev (c ∷ line) rest (here, more) =
    round (unit_of here) (star_units p (some c) line rest more)

-- `\b` between a unit that is no word character and one that is, and the other way round.
boundary-opens :
    (prev : Option ℕ) (c : ℕ) (s : Text)
    → word_at prev ≡ false
    → is_word c ≡ true
    → boundary prev (c ∷ s) ≡ true
unfolding boundary word_at first
boundary-opens prev c s before here = rw (boundary, before) here

boundary-closes :
    (c : ℕ) (s : Text) → is_word c ≡ true → word_at (first s) ≡ false → boundary (some c) s ≡ true
unfolding boundary
boundary-closes c s here after = unfold word_at in rw (boundary, after, word_at, here) refl

-- The line up to the shell's name, and what follows the name.
abbrev shebang : Text → Text → Text
shebang path rest = codes "#!" ++ (path ++ (codes "bash" ++ rest))

module _ (path rest : Text) where
  shebang-holds :
      All (λ c. not (is_terminator c) ≡ true) path
      → word_at (last_unit (some b'!') path) ≡ false
      → word_at (first rest) ≡ false
      → holds (re "^#!.*\\b(?:ba|z|k)?sh\\b") (shebang path rest) ≡ true
  unfolding holds regex
  shebang-holds line before after = (test-Found _ (shebang path rest)).1 (record {
    before = [];
    after = shebang path rest;
    whole = refl;
    end = _;
    found =
        both
          (both
            (both
              (both
                (both
                  (both (both (both (Matches.holds refl) (unit_of refl)) (unit_of refl))
                    (star_units _ (some b'!') path (codes "bash" ++ rest) line))
                  (Matches.holds (
                    boundary-opens (last_unit (some b'!') path) b'b' (codes "ash" ++ rest) before
                      refl)))
                (left (left (left (both (unit_of refl) (unit_of refl))))))
              (unit_of refl))
            (unit_of refl))
          (Matches.holds (boundary-closes b'h' rest refl after));
  })

  -- A text whose sample begins with `#!`, a path on the same line that does not end in a word character,
  -- and `bash` with no word character behind it is taken for a shell script, whatever the rest of it
  -- holds, provided that the sample has the 12 code units that any guess takes.
  pub detect_language-shebang :
      (text : Text)
      → sample_of text ≡ shebang path rest
      → 12 ≤ length (shebang path rest)
      → All (λ c. not (is_terminator c) ≡ true) path
      → word_at (last_unit (some b'!') path) ≡ false
      → word_at (first rest) ≡ false
      → detect_language text ≡ codes "bash"
  unfolding rules
  detect_language-shebang text sample long line before after =
      detect_language-long text
        (ap (λ s. ltb (length s) 12) sample ∙ ge→ltb (length (shebang path rest)) 12 long)
      ∙ ap (first_match rules) sample
      ∙ first_match_pass _ _ (shebang path rest) (shebang-holds line before after)
