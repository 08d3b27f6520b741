-- ===== src/Languages/Json.antt =====
-- JSON.parse as a test of texts: the grammar of RFC 8259 as an automaton with the open containers on
-- a stack. What the parsed value is does not matter here.
pub mod Printing
pub mod Lines
use haste_server.Prelude.{
  ℕ, suc, zero, ◌-◌, Bool, true, false, ◌&&◌, ◌||◌, List, [], ◌∷◌, Option, none, some, ltb, leb,
  ◌==◌, if◌then◌else◌, any,
}
use haste_server.Text.{Text, codes, is_digit}

pub data Container : Type 0 where
  array object : Container

-- What comes next. A string is a key or a value; a literal has the rest of its word.
pub data Mode : Type 0 where
  value after_value first_item first_key key colon : Mode
  string_in escape_in : Bool → Mode
  hex_in : Bool → ℕ → Mode
  word : Text → Mode
  minus leading_zero integer point fraction exponent exponent_sign exponent_digits : Mode

abbrev pub State : Type 0
State = Mode × List Container

unfoldable pub is_blank : ℕ → Bool
is_blank c = c == b' ' || c == b'\t' || c == b'\n' || c == 13

unfoldable pub begin_value : List Container → ℕ → Option State
begin_value stack c =
    if c == b'{'
    then some (first_key, object ∷ stack)
    else if c == b'['
    then some (first_item, array ∷ stack)
    else if c == b'"'
    then some (string_in false, stack)
    else if c == b't'
    then some (word (codes "rue"), stack)
    else if c == b'f'
    then some (word (codes "alse"), stack)
    else if c == b'n'
    then some (word (codes "ull"), stack)
    else if c == b'-'
    then some (minus, stack)
    else if c == b'0'
    then some (leading_zero, stack)
    else if is_digit c
    then some (integer, stack)
    else none

-- A comma or a closing bracket, inside the innermost container.
unfoldable pub after_step : List Container → ℕ → Option State
after_step [] c = none
after_step (array ∷ stack) c =
    if c == b','
    then some (value, array ∷ stack)
    else if c == b']'
    then some (after_value, stack)
    else none
after_step (object ∷ stack) c =
    if c == b','
    then some (key, object ∷ stack)
    else if c == b'}'
    then some (after_value, stack)
    else none

-- Behind a number that may end here.
unfoldable pub after_number : List Container → ℕ → Option State
unfolding is_blank after_step
after_number stack c = if is_blank c then some (after_value, stack) else after_step stack c

unfoldable pub string_step : Bool → List Container → ℕ → Option State
string_step is_key stack c =
    if c == b'"'
    then some ((if is_key then colon else after_value), stack)
    else if c == b'\\'
    then some (escape_in is_key, stack)
    else if ltb c 32
    then none
    else some (string_in is_key, stack)

unfoldable pub escape_step : Bool → List Container → ℕ → Option State
escape_step is_key stack c =
    if any (λ e. e == c) (codes "\"\\/bfnrt")
    then some (string_in is_key, stack)
    else if c == b'u'
    then some (hex_in is_key 3, stack)
    else none

unfoldable pub is_hex : ℕ → Bool
is_hex c = is_digit c || (leb b'a' c && leb c b'f') || (leb b'A' c && leb c b'F')

unfoldable pub hex_step : Bool → ℕ → List Container → ℕ → Option State
unfolding is_hex
hex_step is_key zero stack c = if is_hex c then some (string_in is_key, stack) else none
hex_step is_key (suc n) stack c = if is_hex c then some (hex_in is_key n, stack) else none

unfoldable pub word_step : Text → List Container → ℕ → Option State
word_step [] stack c = none
word_step (d ∷ []) stack c = if c == d then some (after_value, stack) else none
word_step (d ∷ e ∷ rest) stack c = if c == d then some (word (e ∷ rest), stack) else none

unfoldable pub digit_to : Mode → List Container → ℕ → Option State
digit_to mode stack c = if is_digit c then some (mode, stack) else none

abbrev is_exponent : ℕ → Bool
is_exponent c = c == b'e' || c == b'E'

unfoldable pub step : Mode → List Container → ℕ → Option State
unfolding is_blank begin_value after_step after_number string_step escape_step hex_step word_step
    digit_to is_hex
step value stack c = if is_blank c then some (value, stack) else begin_value stack c
step after_value stack c = if is_blank c then some (after_value, stack) else after_step stack c
step first_item stack c =
    if is_blank c
    then some (first_item, stack)
    else if c == b']'
    then after_step stack c
    else begin_value stack c
step first_key stack c =
    if is_blank c
    then some (first_key, stack)
    else if c == b'}'
    then after_step stack c
    else if c == b'"'
    then some (string_in true, stack)
    else none
step key stack c =
    if is_blank c
    then some (key, stack)
    else if c == b'"'
    then some (string_in true, stack)
    else none
step colon stack c =
    if is_blank c then some (colon, stack) else if c == b':' then some (value, stack) else none
step (string_in is_key) stack c = string_step is_key stack c
step (escape_in is_key) stack c = escape_step is_key stack c
step (hex_in is_key n) stack c = hex_step is_key n stack c
step (word rest) stack c = word_step rest stack c
step minus stack c =
    if c == b'0'
    then some (leading_zero, stack)
    else if is_digit c
    then some (integer, stack)
    else none
step leading_zero stack c =
    if c == b'.'
    then some (point, stack)
    else if is_exponent c
    then some (exponent, stack)
    else after_number stack c
step integer stack c =
    if is_digit c
    then some (integer, stack)
    else if c == b'.'
    then some (point, stack)
    else if is_exponent c
    then some (exponent, stack)
    else after_number stack c
step point stack c = digit_to fraction stack c
step fraction stack c =
    if is_digit c
    then some (fraction, stack)
    else if is_exponent c
    then some (exponent, stack)
    else after_number stack c
step exponent stack c =
    if c == b'+' || c == b'-' then some (exponent_sign, stack) else digit_to exponent_digits stack c
step exponent_sign stack c = digit_to exponent_digits stack c
step exponent_digits stack c =
    if is_digit c then some (exponent_digits, stack) else after_number stack c

-- The modes in which a text may end.
abbrev pub complete : Mode → Bool
complete after_value = true
complete leading_zero = true
complete integer = true
complete fraction = true
complete exponent_digits = true
complete other = false

ends_well : State → Bool
ends_well (mode, []) = complete mode
ends_well (mode, c ∷ stack) = false

unfoldable pub reads : Text → State → Bool
unfolding step ends_well
reads [] s = ends_well s
reads (c ∷ t) s = elim (step s.0 s.1 c) [ none ↦ false | some s' ↦ reads t s' ]

-- Whether JSON.parse returns.
unfoldable pub parses : Text → Bool
unfolding reads
parses t = reads t (value, [])
