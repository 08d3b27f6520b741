-- ===== src/Languages/Json/Lines.antt =====
-- Where a line of a JSON text may begin: between two tokens, as a string holds no raw control character.
use haste_server.Prelude.{
  ℕ, zero, suc, ◌≡◌, refl, Bool, true, false, ◌||◌, List, [], ◌∷◌, Option, none, some, arith, leb,
  ◌==◌, all,
}
use haste_server.Languages.Json.{
  Container, array, object, Mode, State, value, after_value, first_item, first_key, key, colon,
  string_in, escape_in, hex_in, word, minus, leading_zero, integer, point, fraction, exponent,
  exponent_sign, exponent_digits, step, after_step, begin_value,
}

-- The modes between two tokens.
abbrev pub between : Mode → Bool
between value = true
between after_value = true
between first_item = true
between first_key = true
between key = true
between colon = true
between other = false

-- The rest of a word has no control character.
abbrev pub is_sane : Mode → Bool
is_sane (word rest) = all (λ c. leb 32 c) rest
is_sane other = true

-- What holds of the mode behind a step, if there is one.
abbrev pub yields : (Mode → Bool) → Option State → Bool
yields p none = true
yields p (some s) = p s.0

sane_after_step : (stack : List Container) (c : ℕ) → yields is_sane (after_step stack c) ≡ true
unfolding after_step
sane_after_step [] c = refl
sane_after_step (array ∷ stack) c = ground arith
sane_after_step (object ∷ stack) c = ground arith

sane_begin_value : (stack : List Container) (c : ℕ) → yields is_sane (begin_value stack c) ≡ true
unfolding begin_value
sane_begin_value stack c = ground arith

pub step-sane :
    (mode : Mode) (stack : List Container) (c : ℕ)
    → is_sane mode ≡ true
    → yields is_sane (step mode stack c) ≡ true
unfolding step
step-sane value stack c h = ground (arith, sane_begin_value stack c)
step-sane after_value stack c h = ground (arith, sane_after_step stack c)
step-sane first_item stack c h = ground (arith, sane_begin_value stack c, sane_after_step stack c)
step-sane first_key stack c h = ground (arith, sane_after_step stack c)
step-sane key stack c h = ground arith
step-sane colon stack c h = ground arith
step-sane (string_in true) stack c h = ground arith
step-sane (string_in false) stack c h = ground arith
step-sane (escape_in is_key) stack c h = ground arith
step-sane (hex_in is_key zero) stack c h = ground arith
step-sane (hex_in is_key (suc n)) stack c h = ground arith
step-sane (word []) stack c h = refl
step-sane (word (d ∷ [])) stack c h = ground arith
step-sane (word (d ∷ e ∷ rest)) stack c h = ground arith
step-sane minus stack c h = ground arith
step-sane leading_zero stack c h = ground (arith, sane_after_step stack c)
step-sane integer stack c h = ground (arith, sane_after_step stack c)
step-sane point stack c h = ground arith
step-sane fraction stack c h = ground (arith, sane_after_step stack c)
step-sane exponent stack c h = ground arith
step-sane exponent_sign stack c h = ground arith
step-sane exponent_digits stack c h = ground (arith, sane_after_step stack c)

abbrev pub ends_line : ℕ → Bool
ends_line c = c == 10 || c == 13

line_after_step :
    (stack : List Container) (c : ℕ)
    → ends_line c ≡ true
    → yields between (after_step stack c) ≡ true
unfolding after_step
line_after_step [] c h = refl
line_after_step (array ∷ stack) c h = ground arith
line_after_step (object ∷ stack) c h = ground arith

-- Behind a raw line feed or carriage return the text stands between two tokens.
pub step-between :
    (mode : Mode) (stack : List Container) (c : ℕ)
    → is_sane mode ≡ true
    → ends_line c ≡ true
    → yields between (step mode stack c) ≡ true
unfolding step
step-between value stack c s h = ground arith
step-between after_value stack c s h = ground arith
step-between first_item stack c s h = ground arith
step-between first_key stack c s h = ground arith
step-between key stack c s h = ground arith
step-between colon stack c s h = ground arith
step-between (string_in true) stack c s h = ground arith
step-between (string_in false) stack c s h = ground arith
step-between (escape_in is_key) stack c s h = ground arith
step-between (hex_in is_key zero) stack c s h = ground arith
step-between (hex_in is_key (suc n)) stack c s h = ground arith
step-between (word []) stack c s h = refl
step-between (word (d ∷ [])) stack c s h = ground arith
step-between (word (d ∷ e ∷ rest)) stack c s h = ground arith
step-between minus stack c s h = ground arith
step-between leading_zero stack c s h = ground arith
step-between integer stack c s h = ground arith
step-between point stack c s h = ground arith
step-between fraction stack c s h = ground arith
step-between exponent stack c s h = ground arith
step-between exponent_sign stack c s h = ground arith
step-between exponent_digits stack c s h = ground arith

-- No token begins with `d` or `@`.
no_token_after :
    (stack : List Container) (c : ℕ)
    → (c == b'd' || c == b'@') ≡ true
    → yields (λ m. false) (after_step stack c) ≡ true
unfolding after_step
no_token_after [] c h = refl
no_token_after (array ∷ stack) c h = ground arith
no_token_after (object ∷ stack) c h = ground arith

pub step-no_token :
    (mode : Mode) (stack : List Container) (c : ℕ)
    → between mode ≡ true
    → (c == b'd' || c == b'@') ≡ true
    → yields (λ m. false) (step mode stack c) ≡ true
unfolding step
step-no_token value stack c b h = ground arith
step-no_token after_value stack c b h = ground (arith, no_token_after stack c h)
step-no_token first_item stack c b h = ground (arith, no_token_after stack c h)
step-no_token first_key stack c b h = ground (arith, no_token_after stack c h)
step-no_token key stack c b h = ground arith
step-no_token colon stack c b h = ground arith
step-no_token (string_in is_key) stack c b h = absurd (cc b)
step-no_token (escape_in is_key) stack c b h = absurd (cc b)
step-no_token (hex_in is_key n) stack c b h = absurd (cc b)
step-no_token (word rest) stack c b h = absurd (cc b)
step-no_token minus stack c b h = absurd (cc b)
step-no_token leading_zero stack c b h = absurd (cc b)
step-no_token integer stack c b h = absurd (cc b)
step-no_token point stack c b h = absurd (cc b)
step-no_token fraction stack c b h = absurd (cc b)
step-no_token exponent stack c b h = absurd (cc b)
step-no_token exponent_sign stack c b h = absurd (cc b)
step-no_token exponent_digits stack c b h = absurd (cc b)
