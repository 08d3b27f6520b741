-- ===== src/Regex/Matching.antt =====
-- What it means for an expression to match a piece of a text, beside the matcher.
use haste_server.Prelude.{
  ℕ, zero, suc, ◌≤◌, ◌<◌, ◌≡◌, ◌↔◌, ◌⊎◌, inl, inr, refl, sym, ap, ◌∙◌, Bool, true, false, ◌&&◌,
  ◌||◌, [], ◌∷◌, ◌++◌, Option, none, some, arith, length, &&-eq-true, lt→ltb,
}
use mathlib.Core.Path.{subst}
use haste_server.Text.{Text}
use haste_server.Regex.{
  Position, Regex, unit, assertion, empty, seq, alt, star, Matcher, match_unit, shorter, repeat,
  run, search_from, test,
}

-- `Matches r p q`: the expression matches what lies between two positions of a text.
pub data Matches : Regex → Position → Position → Type 0 where
  unit_of :
      {p : ℕ → Bool} {prev : Option ℕ} {c : ℕ} {s : Text}
      → p c ≡ true
      → Matches (unit p) (prev, c ∷ s) (some c, s)
  holds :
      {p : Option ℕ → Text → Bool} {pos : Position}
      → p pos.0 pos.1 ≡ true
      → Matches (assertion p) pos pos
  nothing : {pos : Position} → Matches empty pos pos
  both : {a b : Regex} {p q t : Position} → Matches a p q → Matches b q t → Matches (seq a b) p t
  left : {a b : Regex} {p q : Position} → Matches a p q → Matches (alt a b) p q
  right : {a b : Regex} {p q : Position} → Matches b p q → Matches (alt a b) p q
  stop : {r : Regex} {p : Position} → Matches (star r) p p
  round :
      {r : Regex} {p q t : Position} → Matches r p q → Matches (star r) q t → Matches (star r) p t

-- The continuation accepts where some match ends.
abbrev pub Accepts : Regex → (Position → Bool) → Position → Type 0
Accepts r k p = (q : Position) × Matches r p q × (k q ≡ true)

or_true : (a b : Bool) → (a || b) ≡ true → (a ≡ true) ⊎ (b ≡ true)
or_true true b h = inl refl
or_true false b h = inr h

or_left : (a b : Bool) → a ≡ true → (a || b) ≡ true
or_left a b h = ground arith

or_right : (a b : Bool) → b ≡ true → (a || b) ≡ true
or_right a b h = ground arith

-- The same position, or one further on.
abbrev Still : Position → Position → Type 0
Still p q = (p ≡ q) ⊎ (length q.1 < length p.1)

abbrev left_of : Position → ℕ
left_of p = length p.1

Still-trans : {p q t : Position} → Still p q → Still q t → Still p t
Still-trans (inl e) (inl f) = inl (e ∙ f)
Still-trans (inl e) (inr g) = inr (omega (arith, ap left_of e))
Still-trans (inr e) (inl f) = inr (omega (arith, ap left_of f))
Still-trans (inr e) (inr g) = inr (omega arith)

-- A match that reads nothing stays where it is.
Matches-Still : {r : Regex} {p q : Position} → Matches r p q → Still p q
Matches-Still (unit_of h) = inr (omega arith)
Matches-Still (holds h) = inl refl
Matches-Still nothing = inl refl
Matches-Still (both m n) = Still-trans (Matches-Still m) (Matches-Still n)
Matches-Still (left m) = Matches-Still m
Matches-Still (right m) = Matches-Still m
Matches-Still stop = inl refl
Matches-Still (round m n) = Still-trans (Matches-Still m) (Matches-Still n)

match_unit_sound :
    (p : ℕ → Bool) (k : Position → Bool) (pos : Position)
    → match_unit p k pos ≡ true
    → Accepts (unit p) k pos
unfolding match_unit
match_unit_sound p k (prev, []) h = absurd (cc h)
match_unit_sound p k (prev, c ∷ s) h =
    let (here, after) = &&-eq-true (p c) _ h in ((some c, s), unit_of here, after)

module _ (r : Regex) (m : Matcher) where
  repeat_sound :
      ((k : Position → Bool) (p : Position) → m k p ≡ true → Accepts r k p)
      → (f : ℕ) (k : Position → Bool) (p : Position) → repeat f m k p ≡ true
      → Accepts (star r) k p
  unfolding repeat
  repeat_sound sound zero k p h = (p, stop, h)
  repeat_sound sound (suc f) k p h = elim (or_true (k p) _ h) [
    | inl here ↦ (p, stop, here)
    | inr more ↦
        let (q, one_round, rest) = sound (λ q. shorter q p && repeat f m k q) p more in
        let (t, rounds, after) = repeat_sound sound f k q (&&-eq-true (shorter q p) _ rest).1 in
        (t, round one_round rounds, after)
  ]

  repeat_complete :
      ((k : Position → Bool) (p q : Position) → Matches r p q → k q ≡ true → m k p ≡ true)
      → (f : ℕ) (k : Position → Bool) {p q : Position} → length p.1 ≤ f
      → Matches (star r) p q
      → k q ≡ true
      → repeat f m k p ≡ true
  unfolding repeat
  repeat_complete complete zero k fuel stop h = h
  repeat_complete complete (suc f) k {p} fuel stop h = or_left (k p) _ h
  repeat_complete complete zero k fuel (round {p} {q} {t} a b) h = elim (Matches-Still a) [
    | inl e ↦ rw e (repeat_complete complete zero k (omega (arith, ap left_of e)) b h)
    | inr less ↦ absurd (omega arith)
  ]
  repeat_complete complete (suc f) k fuel (round {p} {q} {t} a b) h = elim (Matches-Still a) [
    | inl e ↦ rw e (repeat_complete complete (suc f) k (omega (arith, ap left_of e)) b h)
    | inr less ↦ or_right (k p) _ (
        complete (λ q. shorter q p && repeat f m k q) p q a
          (rw (lt→ltb (length q.1) (length p.1) less)
            (repeat_complete complete f k (omega arith) b h)))
  ]

run_sound : (r : Regex) (k : Position → Bool) (p : Position) → run r k p ≡ true → Accepts r k p
unfolding run
run_sound (unit c) k p h = match_unit_sound c k p h
run_sound (assertion c) k p h =
    let (here, after) = &&-eq-true (c p.0 p.1) _ h in (p, holds here, after)
run_sound empty k p h = (p, nothing, h)
run_sound (seq a b) k p h =
    let (q, m, more) = run_sound a (run b k) p h in
    let (t, n, after) = run_sound b k q more in (t, both m n, after)
run_sound (alt a b) k p h = elim (or_true (run a k p) _ h) [
  | inl here ↦ let (q, m, after) = run_sound a k p here in (q, left m, after)
  | inr there ↦ let (q, m, after) = run_sound b k p there in (q, right m, after)
]
run_sound (star r) k p h = repeat_sound r (run r) (run_sound r) (length p.1) k p h

run_complete :
    (r : Regex) (k : Position → Bool) (p q : Position)
    → Matches r p q
    → k q ≡ true
    → run r k p ≡ true
unfolding run match_unit
run_complete (unit c) k p q (unit_of here) h = rw here h
run_complete (assertion c) k p q (holds here) h = rw here h
run_complete empty k p q nothing h = h
run_complete (seq a b) k p t (both {q} m n) h =
    run_complete a (run b k) p q m (run_complete b k q t n h)
run_complete (alt a b) k p q (left m) h = or_left _ _ (run_complete a k p q m h)
run_complete (alt a b) k p q (right m) h = or_right _ _ (run_complete b k p q m h)
run_complete (star r) k p q m h =
    repeat_complete r (run r) (run_complete r) (length p.1) k (omega arith) m h

-- The matcher, with its order of search, its continuations and its bound on rounds, accepts exactly
-- where some match ends in a position that the continuation accepts.
pub run-Accepts :
    (r : Regex) (k : Position → Bool) (p : Position) → (run r k p ≡ true) ↔ Accepts r k p
run-Accepts r k p = (run_sound r k p, λ (q, m, h). run_complete r k p q m h)

-- The unit before a position that lies behind `s`.
abbrev pub last_unit : Option ℕ → Text → Option ℕ
last_unit prev [] = prev
last_unit prev (c ∷ s) = last_unit (some c) s

-- A match that begins somewhere in the text.
pub record Found (r : Regex) (prev : Option ℕ) (s : Text) : Type 0 where
  pub before : Text
  pub after : Text
  pub whole : s ≡ before ++ after
  pub end : Position
  pub found : Matches r (last_unit prev before, after) end

Found-cons :
    (r : Regex) (prev : Option ℕ) (c : ℕ) (s : Text) → Found r (some c) s → Found r prev (c ∷ s)
Found-cons r prev c s m = record {
  before = c ∷ m.before;
  after = m.after;
  whole = ap (λ t. c ∷ t) m.whole;
  end = m.end;
  found = m.found;
}

search_from_sound :
    (r : Regex) (prev : Option ℕ) (s : Text) → search_from r prev s ≡ true → Found r prev s
unfolding search_from
search_from_sound r prev [] h =
    let (q, m, _) = run_sound r (λ q. true) (prev, []) h in
    record { before = []; after = []; whole = refl; end = q; found = m }
search_from_sound r prev (c ∷ s) h = elim (or_true (run r (λ q. true) (prev, c ∷ s)) _ h) [
  | inl here ↦
      let (q, m, _) = run_sound r (λ q. true) (prev, c ∷ s) here in
      record { before = []; after = c ∷ s; whole = refl; end = q; found = m }
  | inr later ↦ Found-cons r prev c s (search_from_sound r (some c) s later)
]

search_from_complete :
    (r : Regex) (prev : Option ℕ) (before after : Text) (q : Position)
    → Matches r (last_unit prev before, after) q
    → search_from r prev (before ++ after) ≡ true
unfolding search_from
search_from_complete r prev [] [] q m = run_complete r (λ q. true) (prev, []) q m refl
search_from_complete r prev [] (c ∷ after) q m =
    or_left _ _ (run_complete r (λ q. true) (prev, c ∷ after) q m refl)
search_from_complete r prev (c ∷ before) after q m =
    or_right (run r (λ q. true) (prev, c ∷ (before ++ after))) _
      (search_from_complete r (some c) before after q m)

-- `re.test(s)` is true exactly where the expression matches some piece of the text.
pub test-Found : (r : Regex) (s : Text) → (test r s ≡ true) ↔ Found r none s
unfolding test
test-Found r s = (
  search_from_sound r none s,
  λ m.
      subst (λ t. search_from r none t ≡ true) (sym m.whole)
        (search_from_complete r none m.before m.after m.end m.found),
)
