-- ===== src/Text/Decimal.antt =====
-- `String(n)` and `Number(s)` on decimal digits.
use haste_server.Prelude.{
  ℕ, zero, suc, ◌+◌, ◌-◌, ◌*◌, ◌/◌, ◌%◌, ◌^◌, ◌≤◌, ◌<◌, ◌≡◌, refl, [], ◌∷◌, Option, none, some,
  arith, ltb, lt→ltb, ◌≢◌, ◌&&◌, ◌||◌, ap, ◌==◌, if◌then◌else◌, All,
}
use haste_server.Text.Base.{Text}

-- Digits of `n`, the last one first computed; the fuel bounds their number.
decimal_from : ℕ → ℕ → Text → Text
decimal_from zero n out = out
decimal_from (suc f) n out =
    let rest = decimal_from f (n / 10) ((b'0' + n % 10) ∷ out) in
    if ltb n 10 then (b'0' + n) ∷ out else rest

-- `String(n)` for a non-negative integer below 10^21.
unfoldable pub decimal : ℕ → Text
unfolding decimal_from
decimal n = decimal_from (suc n) n []

-- The number that digits spell, on top of `n`.
abbrev pub value : ℕ → Text → ℕ
value n [] = n
value n (c ∷ s) = value (n * 10 + (c - b'0')) s

-- The digit strings of `\d+`, and what `Number` reads from them.
abbrev pub Digits : Text → Type 0
Digits = All (λ c. (b'0' ≤ c) × (c ≤ b'9'))

decimal_from-Digits : (f n : ℕ) (out : Text) → Digits out → Digits (decimal_from f n out)
unfolding decimal_from
decimal_from-Digits zero n out h = h
decimal_from-Digits (suc f) n out h =
    ground (arith, decimal_from-Digits f (n / 10) ((b'0' + n % 10) ∷ out))

pub decimal-Digits : (n : ℕ) → Digits (decimal n)
unfolding decimal
decimal-Digits n = decimal_from-Digits (suc n) n [] tt

value-decimal_from : (f n : ℕ) (out : Text) → n < f → value 0 (decimal_from f n out) ≡ value n out
unfolding decimal_from
value-decimal_from zero n out h = elim h [ ]
value-decimal_from (suc f) n out h =
    ground (arith, value-decimal_from f (n / 10) ((b'0' + n % 10) ∷ out), last_digit n out)
  where
    last_digit : (n : ℕ) (out : Text) → value (n / 10) ((b'0' + n % 10) ∷ out) ≡ value n out
    last_digit n out = ap (λ k. value k out) (omega arith)

-- The digits that are printed spell the number.
pub value-decimal : (n : ℕ) → value 0 (decimal n) ≡ n
unfolding decimal
value-decimal n = value-decimal_from (suc n) n [] (omega arith)

decimal_from-ne-nil : (f n : ℕ) (out : Text) → out ≢ [] → decimal_from f n out ≢ []
unfolding decimal_from
decimal_from-ne-nil zero n out h = h
decimal_from-ne-nil (suc f) n out h =
    ground (arith, decimal_from-ne-nil f (n / 10) ((b'0' + n % 10) ∷ out))

pub decimal-ne-nil : (n : ℕ) → decimal n ≢ []
unfolding decimal decimal_from
decimal-ne-nil n = ground (arith, decimal_from-ne-nil n (n / 10) ((b'0' + n % 10) ∷ []))

-- A digit string without a leading zero.
abbrev pub Leading : Text → Type 0
Leading [] = ⊥
Leading (c ∷ s) = (b'1' ≤ c) × (c ≤ b'9')

decimal_from-Leading : (f n : ℕ) (out : Text) → n < f → 1 ≤ n → Leading (decimal_from f n out)
unfolding decimal_from
decimal_from-Leading zero n out h p = elim h [ ]
decimal_from-Leading (suc f) n out h p =
    ground (arith, decimal_from-Leading f (n / 10) ((b'0' + n % 10) ∷ out))

pub decimal-Leading : (n : ℕ) → 1 ≤ n → Leading (decimal n)
unfolding decimal
decimal-Leading n p = decimal_from-Leading (suc n) n [] (omega arith) p

-- The mantissa's shift: how often `n` is halved before it fits 53 bits.
excess_bits : ℕ → ℕ → ℕ
excess_bits zero n = 0
excess_bits (suc f) n = let rest = excess_bits f (n / 2) in if ltb n (2 ^ 53) then 0 else suc rest

-- `n` to the nearest multiple of `2 ^ e`, ties to the even multiple.
round_even : ℕ → ℕ → ℕ
round_even n e =
    let q = n / 2 ^ e in
    let r = n % 2 ^ e in
    let up = ltb (2 ^ e) (2 * r) || (2 * r == 2 ^ e && q % 2 == 1) in
    (if up then q + 1 else q) * 2 ^ e

-- The double nearest to `n`; `none` is Infinity. 971 halvings bring all numbers below `2 ^ 1024`
-- under 53 bits.
unfoldable pub to_double : ℕ → Option ℕ
unfolding excess_bits round_even
to_double n =
    let v = round_even n (excess_bits 971 n) in
    if ltb n (2 ^ 53) then some n else if ltb v (2 ^ 1024) then some v else none

-- `Number(s)` on a string of digits.
unfoldable pub number : Text → Option ℕ
unfolding to_double
number s = to_double (value 0 s)

-- Integers below 2^53 are represented exactly.
pub number-decimal : (n : ℕ) → n < 2 ^ 53 → number (decimal n) ≡ some n
unfolding number to_double
number-decimal n h = rw value-decimal (rw (lt→ltb n (2 ^ 53) h) refl)

rounding : (to_double 9007199254740993 ≡ some 9007199254740992) × (to_double (10 ^ 400) ≡ none)
unfolding to_double
rounding = (refl, refl)
