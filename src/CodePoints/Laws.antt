-- ===== src/CodePoints/Laws.antt =====
-- The counter of web/src/lib/utils.ts against the code points that a string is made of.
use haste_server.Prelude.{
  Bool, ◌&&◌, leb, ℕ, ◌+◌, ◌-◌, ◌*◌, ◌/◌, ◌%◌, ◌≤◌, ◌<◌, ◌≡◌, ◌⊎◌, refl, true, false, List, [], ◌∷◌,
  ◌++◌, arith, length, All, Bool-cases, inl, inr, ap, ◌∙◌, ltb, ltb→lt,
}
use haste_server.Text.{Text, utf16}
use haste_server.CodePoints.{is_pair, count_from, count_code_points}

-- A leading surrogate before a trailing one, by the ranges that Unicode gives them.
starts_pair : ℕ → ℕ → Bool
starts_pair unit next = leb 0xd800 unit && ltb unit 0xdc00 && (leb 0xdc00 next && ltb next 0xe000)

abbrev pub IsUnit : ℕ → Type 0
IsUnit c = c < 0x10000

-- Of code units, the bits that the counter looks at tell those ranges.
is_pair-starts_pair :
    (unit next : ℕ) → IsUnit unit → IsUnit next → is_pair unit next ≡ starts_pair unit next
unfolding is_pair starts_pair
is_pair-starts_pair unit next h k = ground arith

-- What the string iterator yields, and so `Array.from(s)`: a pair of surrogates is one code point,
-- and any other code unit, a lone surrogate too, is one by itself.
pub code_points : Text → List ℕ
code_points [] = []
code_points (unit ∷ []) = unit ∷ []
code_points (unit ∷ next ∷ rest) = elim (starts_pair unit next) [
  | true ↦ (0x10000 + (unit - 0xd800) * 0x400 + (next - 0xdc00)) ∷ code_points rest
  | false ↦ unit ∷ code_points (next ∷ rest)
]

length-code_points-le : (s : Text) → length (code_points s) ≤ length s
unfolding code_points
length-code_points-le [] = omega arith
length-code_points-le (unit ∷ []) = omega arith
length-code_points-le (unit ∷ next ∷ rest) = elim (Bool-cases (starts_pair unit next)) [
  | inl pair ↦ rw (code_points, pair) (omega (arith, length-code_points-le rest))
  | inr lone ↦ rw (code_points, lone) (omega (arith, length-code_points-le (next ∷ rest)))
]

count_from-code_points :
    (s : Text) (extra : ℕ)
    → All IsUnit s
    → count_from (extra + length s) s ≡ extra + length (code_points s)
unfolding count_from code_points
count_from-code_points [] extra _ = refl
count_from-code_points (unit ∷ []) extra _ = refl
count_from-code_points (unit ∷ next ∷ rest) extra (u, (n, units)) =
    elim (Bool-cases (starts_pair unit next)) [
      | inl pair ↦
          let same = is_pair-starts_pair unit next u n ∙ pair in
          let shorter : extra + length (unit ∷ next ∷ rest) - 1 ≡ extra + 1 + length rest =
            omega arith in
          rw (count_from, code_points, same, pair, shorter)
            (omega (arith, count_from-code_points rest (extra + 1) units))
      | inr lone ↦
          let no_pair = is_pair-starts_pair unit next u n ∙ lone in
          let same : extra + length (unit ∷ next ∷ rest) ≡ extra + 1 + length (next ∷ rest) =
            omega arith in
          rw (count_from, code_points, no_pair, lone, same)
            (omega (arith, count_from-code_points (next ∷ rest) (extra + 1) (n, units)))
    ]

-- The counter, which only subtracts surrogate pairs from the UTF-16 length, gives the number of
-- code points that the string iterator yields, for every string of 16-bit code units, lone surrogates
-- included.
pub count_code_points-code_points :
    (s : Text) → All IsUnit s → count_code_points s ≡ length (code_points s)
unfolding count_code_points
count_code_points-code_points s units =
    let e : length s ≡ 0 + length s = omega arith in
    ap (λ n. count_from n s) e ∙ count_from-code_points s 0 units ∙ omega arith

-- A Unicode scalar value: a code point that is no surrogate.
abbrev pub IsScalar : ℕ → Type 0
IsScalar c = (c < 0x110000) × ((c < 0xd800) ⊎ (0xe000 ≤ c))

abbrev pub encode : List ℕ → Text
encode [] = []
encode (c ∷ cs) = utf16 c ++ encode cs

plain-starts_pair : (c next : ℕ) → (c < 0xd800) ⊎ (0xe000 ≤ c) → starts_pair c next ≡ false
unfolding starts_pair
plain-starts_pair c next h = ground arith

astral-starts_pair :
    (c : ℕ)
    → 0x10000 ≤ c
    → c < 0x110000
    → starts_pair (0xd800 + (c - 0x10000) / 0x400) (0xdc00 + (c - 0x10000) % 0x400) ≡ true
unfolding starts_pair
astral-starts_pair c h k =
    let hi : (c - 0x10000) / 0x400 < 0x400 = omega arith in
    let lo : (c - 0x10000) % 0x400 < 0x400 = omega arith in ground arith

code_points-plain :
    (c : ℕ) (s : Text) → (c < 0xd800) ⊎ (0xe000 ≤ c) → code_points (c ∷ s) ≡ c ∷ code_points s
unfolding code_points
code_points-plain c [] h = refl
code_points-plain c (next ∷ s) h = rw (code_points, plain-starts_pair c next h) refl

code_points-astral :
    (c : ℕ) (s : Text)
    → 0x10000 ≤ c
    → c < 0x110000
    → code_points ((0xd800 + (c - 0x10000) / 0x400) ∷ (0xdc00 + (c - 0x10000) % 0x400) ∷ s)
      ≡ c ∷ code_points s
unfolding code_points
code_points-astral c s h k =
    rw (code_points, astral-starts_pair c h k) (ap (λ n. n ∷ code_points s) (omega arith))

code_points-encode : (cs : List ℕ) → All IsScalar cs → code_points (encode cs) ≡ cs
code_points-encode [] _ = unfold code_points in refl
code_points-encode (c ∷ cs) ((below, scalar), rest) = elim (Bool-cases (ltb c 0x10000)) [
  | inl small ↦
      rw small
        (code_points-plain c (encode cs) scalar ∙ ap (λ t. c ∷ t) (code_points-encode cs rest))
  | inr large ↦ rw large (
      code_points-astral c (encode cs) (ground arith) below
      ∙ ap (λ t. c ∷ t) (code_points-encode cs rest))
]

encode-IsUnit : (cs : List ℕ) → All IsScalar cs → All IsUnit (encode cs)
encode-IsUnit [] _ = tt
encode-IsUnit (c ∷ cs) ((below, scalar), rest) = elim (Bool-cases (ltb c 0x10000)) [
  | inl small ↦ rw small (ltb→lt _ _ small, encode-IsUnit cs rest)
  | inr large ↦ rw large (omega arith, (omega arith, encode-IsUnit cs rest))
]

-- Of a text of Unicode scalar values, in UTF-16, the counter gives the number of those values, which
-- are the runes that the server counts.
pub count_code_points-encode :
    (cs : List ℕ) → All IsScalar cs → count_code_points (encode cs) ≡ length cs
count_code_points-encode cs h =
    count_code_points-code_points (encode cs) (encode-IsUnit cs h)
    ∙ ap length (code_points-encode cs h)
