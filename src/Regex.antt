-- ===== src/Regex.antt =====
-- Regular expressions as the client uses them: only `test`, on code units, with the flags i, m and s.
-- `Parser` reads the source's own notation, and `Matching` has the matches without an order of search.
pub mod Parser
pub mod Matching
mod Tests
use haste_server.Prelude.{
  ℕ, zero, suc, Bool, true, false, ◌&&◌, ◌||◌, [], ◌∷◌, Option, none, some, ltb, length,
}
use haste_server.Text.{Text}

-- Where a matcher stands: the code unit before, if there is one, and the rest of the text.
abbrev pub Position : Type 0
Position = Option ℕ × Text

-- A test of one code unit, a test of a position (`^`, `$`, `\b`), and the operators.
pub data Regex : Type 0 where
  unit : (ℕ → Bool) → Regex
  assertion : (Option ℕ → Text → Bool) → Regex
  empty : Regex
  seq alt : Regex → Regex → Regex
  star : Regex → Regex

-- A matcher takes what comes after it as a continuation, as ECMAScript's do.
abbrev pub Matcher : Type 0
Matcher = (Position → Bool) → Position → Bool

unfoldable pub match_unit : (ℕ → Bool) → Matcher
match_unit p k (prev, []) = false
match_unit p k (prev, c ∷ s) = p c && k (some c, s)

abbrev pub shorter : Position → Position → Bool
shorter q p = ltb (length q.1) (length p.1)

-- A round that reads nothing is refused, so there are at most as many rounds as code units.
unfoldable pub repeat : ℕ → Matcher → Matcher
repeat zero m k p = k p
repeat (suc f) m k p = k p || m (λ q. shorter q p && repeat f m k q) p

unfoldable pub run : Regex → Matcher
unfolding match_unit repeat
run (unit p) k pos = match_unit p k pos
run (assertion p) k pos = p pos.0 pos.1 && k pos
run empty k pos = k pos
run (seq a b) k pos = run a (run b k) pos
run (alt a b) k pos = run a k pos || run b k pos
run (star r) k pos = repeat (length pos.1) (run r) k pos

-- `re.test(s)` tries each position from the first on.
unfoldable pub search_from : Regex → Option ℕ → Text → Bool
search_from re prev [] = run re (λ q. true) (prev, [])
search_from re prev (c ∷ s) = run re (λ q. true) (prev, c ∷ s) || search_from re (some c) s

unfoldable pub test : Regex → Text → Bool
unfolding search_from
test re s = search_from re none s
