-- ===== src/Languages/Json/Printing.antt =====
-- Trees of values as compact JSON texts, and the automaton on them.
use haste_server.Prelude.{
  ℕ, zero, suc, ◌+◌, ◌-◌, ◌/◌, ◌%◌, ◌≡◌, ◌⊎◌, inl, inr, refl, sym, ap, ◌∙◌, Bool, true, false, ◌||◌,
  ◌&&◌, List, [], ◌∷◌, ◌++◌, append_assoc, append-nil, arith, ltb, leb, ◌==◌, if◌then◌else◌,
  all_below,
}
use haste_server.Text.{Text, codes, is_digit}
use haste_server.Text.Decimal.{decimal, decimal-Digits, Digits, Leading, decimal-Leading}
use haste_server.Languages.Json.{
  Container, array, object, Mode, value, after_value, first_item, colon, string_in, leading_zero,
  integer, step, reads, parses,
}

mutual
  pub data Value : Type 0 where
    null : Value
    truth : Bool → Value
    number : ℕ → Value
    string : Text → Value
    list_of : Items → Value
    record_of : Members → Value

  pub data Items : Type 0 where
    no_items : Items
    item : Value → Items → Items

  pub data Members : Type 0 where
    no_members : Members
    member : Text → Value → Members → Members

abbrev pub hex_digit : ℕ → ℕ
hex_digit n = if ltb n 10 then b'0' + n else b'a' + (n - 10)

-- A quote, a backslash and a control character are escaped, the latter by its letter where it has one.
abbrev pub print_unit : ℕ → Text
print_unit c =
    if c == b'"' || c == b'\\'
    then b'\\' ∷ c ∷ []
    else if c == 8
    then b'\\' ∷ b'b' ∷ []
    else if c == 9
    then b'\\' ∷ b't' ∷ []
    else if c == 10
    then b'\\' ∷ b'n' ∷ []
    else if c == 12
    then b'\\' ∷ b'f' ∷ []
    else if c == 13
    then b'\\' ∷ b'r' ∷ []
    else if ltb c 32
    then b'\\' ∷ b'u' ∷ b'0' ∷ b'0' ∷ hex_digit (c / 16) ∷ hex_digit (c % 16) ∷ []
    else c ∷ []

-- The units of a string and its closing quote.
abbrev pub print_units : Text → Text
print_units [] = b'"' ∷ []
print_units (c ∷ s) = print_unit c ++ print_units s

unfoldable mutual
  pub print : Value → Text
  print null = codes "null"
  print (truth true) = codes "true"
  print (truth false) = codes "false"
  print (number n) = decimal n
  print (string s) = b'"' ∷ print_units s
  print (list_of no_items) = b'[' ∷ b']' ∷ []
  print (list_of (item v rest)) = b'[' ∷ (print v ++ print_items rest)
  print (record_of no_members) = b'{' ∷ b'}' ∷ []
  print (record_of (member k v rest)) =
      b'{' ∷ b'"' ∷ (print_units k ++ b':' ∷ (print v ++ print_members rest))

  -- Behind an item, up to the closing bracket.
  pub print_items : Items → Text
  print_items no_items = b']' ∷ []
  print_items (item v rest) = b',' ∷ (print v ++ print_items rest)

  pub print_members : Members → Text
  print_members no_members = b'}' ∷ []
  print_members (member k v rest) =
      b',' ∷ b'"' ∷ (print_units k ++ b':' ∷ (print v ++ print_members rest))

-- What can stand behind a printed value.
abbrev Follows : Text → Type 0
Follows [] = Unit
Follows (c ∷ s) = (c ≡ b',') ⊎ (c ≡ b']') ⊎ (c ≡ b'}')

abbrev after_string : Bool → Mode
after_string is_key = if is_key then colon else after_value

hex_digit_table :
    all_below 16 (λ n. is_digit (hex_digit n) || (leb b'a' (hex_digit n) && leb (hex_digit n) b'f'))
    ≡ true
hex_digit_table = refl

reads-unit :
    (is_key : Bool) (c : ℕ) (rest : Text) (stack : List Container)
    → reads (print_unit c ++ rest) (string_in is_key, stack) ≡ reads rest (string_in is_key, stack)
unfolding reads step
reads-unit is_key c rest stack = ground arith

reads-units :
    (is_key : Bool) (s rest : Text) (stack : List Container)
    → reads (print_units s ++ rest) (string_in is_key, stack)
      ≡ reads rest (after_string is_key, stack)
reads-units is_key [] rest stack = unfold reads step in refl
reads-units is_key (c ∷ s) rest stack =
    ap (λ t. reads t (string_in is_key, stack)) (append_assoc (print_unit c) (print_units s) rest)
    ∙ reads-unit is_key c (print_units s ++ rest) stack
    ∙ reads-units is_key s rest stack

reads-Digits :
    (ds rest : Text) (stack : List Container)
    → Digits ds
    → reads (ds ++ rest) (integer, stack) ≡ reads rest (integer, stack)
unfolding reads step
reads-Digits [] rest stack h = refl
reads-Digits (d ∷ ds) rest stack ((low, high), h) = ground (arith, reads-Digits ds rest stack h)

-- A number ends where something follows.
reads-after_integer :
    (rest : Text) (stack : List Container)
    → Follows rest
    → (reads rest (integer, stack) ≡ reads rest (after_value, stack))
      × (reads rest (leading_zero, stack) ≡ reads rest (after_value, stack))
unfolding reads step
reads-after_integer [] [] h = (refl, refl)
reads-after_integer [] (k ∷ stack) h = (refl, refl)
reads-after_integer (c ∷ rest) stack h = ground arith

reads-numeral :
    (ds rest : Text) (stack : List Container)
    → Digits ds
    → Leading ds
    → reads (ds ++ rest) (value, stack) ≡ reads rest (integer, stack)
unfolding reads step
reads-numeral [] rest stack h l = absurd l
reads-numeral (d ∷ ds) rest stack (_, h) (low, high) = ground (arith, reads-Digits ds rest stack h)

reads-number :
    (n : ℕ) (rest : Text) (stack : List Container)
    → Follows rest
    → reads (decimal n ++ rest) (value, stack) ≡ reads rest (after_value, stack)
reads-number zero rest stack h =
    unfold reads in unfold step in unfold decimal in (reads-after_integer rest stack h).1
reads-number (suc n) rest stack h =
    reads-numeral (decimal (suc n)) rest stack (decimal-Digits (suc n))
      (decimal-Leading (suc n) (omega arith))
    ∙ (reads-after_integer rest stack h).0

Follows-items : (xs : Items) (rest : Text) → Follows (print_items xs ++ rest)
unfolding print
Follows-items no_items rest = inr (inl refl)
Follows-items (item v xs) rest = inl refl

Follows-members : (ms : Members) (rest : Text) → Follows (print_members ms ++ rest)
unfolding print
Follows-members no_members rest = inr (inr refl)
Follows-members (member k v ms) rest = inl refl

first-numeral :
    (ds rest : Text) (stack : List Container)
    → Leading ds
    → reads (ds ++ rest) (first_item, stack) ≡ reads (ds ++ rest) (value, stack)
unfolding reads step
first-numeral [] rest stack l = absurd l
first-numeral (d ∷ ds) rest stack (low, high) = ground arith

-- No value begins like the end of an array.
reads-first :
    (v : Value) (rest : Text) (stack : List Container)
    → reads (print v ++ rest) (first_item, stack) ≡ reads (print v ++ rest) (value, stack)
unfolding print reads step
reads-first null rest stack = refl
reads-first (truth true) rest stack = refl
reads-first (truth false) rest stack = refl
reads-first (number zero) rest stack = unfold decimal in refl
reads-first (number (suc n)) rest stack =
    first-numeral (decimal (suc n)) rest stack (decimal-Leading (suc n) (omega arith))
reads-first (string s) rest stack = refl
reads-first (list_of no_items) rest stack = refl
reads-first (list_of (item v xs)) rest stack = refl
reads-first (record_of no_members) rest stack = refl
reads-first (record_of (member k v ms)) rest stack = refl

-- Behind the opening quote of a key, up to its value.
reads-key :
    (k : Text) (v : Value) (ms : Members) (rest : Text) (stack : List Container)
    → reads
        ((print_units k ++ b':' ∷ (print v ++ print_members ms)) ++ rest)
        (string_in true, stack)
      ≡ reads (print v ++ (print_members ms ++ rest)) (value, stack)
reads-key k v ms rest stack =
    ap (λ t. reads t (string_in true, stack))
      (append_assoc (print_units k) (b':' ∷ (print v ++ print_members ms)) rest)
    ∙ reads-units true k ((b':' ∷ (print v ++ print_members ms)) ++ rest) stack
    ∙ (unfold reads in
        unfold step in
        ap (λ t. reads t (value, stack)) (append_assoc (print v) (print_members ms) rest))

mutual
  unfolding print reads step

  reads-print :
      (v : Value) (rest : Text) (stack : List Container)
      → Follows rest
      → reads (print v ++ rest) (value, stack) ≡ reads rest (after_value, stack)
  reads-print null rest stack h = refl
  reads-print (truth true) rest stack h = refl
  reads-print (truth false) rest stack h = refl
  reads-print (number n) rest stack h = reads-number n rest stack h
  reads-print (string s) rest stack h = reads-units false s rest stack
  reads-print (list_of no_items) rest stack h = refl
  reads-print (list_of (item v xs)) rest stack h =
      ap (λ t. reads t (first_item, array ∷ stack)) (append_assoc (print v) (print_items xs) rest)
      ∙ reads-first v (print_items xs ++ rest) (array ∷ stack)
      ∙ reads-print v (print_items xs ++ rest) (array ∷ stack) (Follows-items xs rest)
      ∙ reads-items xs rest stack
  reads-print (record_of no_members) rest stack h = refl
  reads-print (record_of (member k v ms)) rest stack h =
      reads-key k v ms rest (object ∷ stack)
      ∙ reads-print v (print_members ms ++ rest) (object ∷ stack) (Follows-members ms rest)
      ∙ reads-members ms rest stack

  reads-items :
      (xs : Items) (rest : Text) (stack : List Container)
      → reads (print_items xs ++ rest) (after_value, array ∷ stack)
        ≡ reads rest (after_value, stack)
  reads-items no_items rest stack = refl
  reads-items (item v xs) rest stack =
      ap (λ t. reads t (value, array ∷ stack)) (append_assoc (print v) (print_items xs) rest)
      ∙ reads-print v (print_items xs ++ rest) (array ∷ stack) (Follows-items xs rest)
      ∙ reads-items xs rest stack

  reads-members :
      (ms : Members) (rest : Text) (stack : List Container)
      → reads (print_members ms ++ rest) (after_value, object ∷ stack)
        ≡ reads rest (after_value, stack)
  reads-members no_members rest stack = refl
  reads-members (member k v ms) rest stack =
      reads-key k v ms rest (object ∷ stack)
      ∙ reads-print v (print_members ms ++ rest) (object ∷ stack) (Follows-members ms rest)
      ∙ reads-members ms rest stack

-- What is printed of any value, however deep, is accepted.
pub parses-print : (v : Value) → parses (print v) ≡ true
unfolding parses
parses-print v =
    ap (λ t. reads t (value, [])) (sym (append-nil (print v)))
    ∙ reads-print v [] [] tt
    ∙ unfold reads in refl
