-- ===== src/Regex/Parser.antt =====
-- The source's notation of regular expressions, read in one pass with the open groups on a stack.
use haste_server.Prelude.{
  ℕ, zero, suc, ◌+◌, ◌-◌, ◌*◌, Bool, true, false, not, ◌&&◌, ◌||◌, List, [], ◌∷◌, Option, none,
  some, leb, ◌==◌, if◌then◌else◌,
}
use haste_server.Text.{Text, is_space, is_digit, is_word, lower}
use haste_server.Regex.{Regex, unit, assertion, empty, seq, alt, star}

pub record Flags : Type 0 where
  pub ignore_case : Bool
  pub multiline : Bool
  pub dot_all : Bool

-- The group that is being read: the alternatives before the last `|`, what stands before the last
-- atom, and the last atom, which a quantifier may still change.
pub record Group : Type 0 where
  pub choices : Option Regex
  pub before : Option Regex
  pub last : Option Regex

-- The class that is being read: a unit that may begin a range, and whether a `-` follows it.
pub record Class : Type 0 where
  pub negated : Bool
  pub members : ℕ → Bool
  pub pending : Option ℕ
  pub dash : Bool

pub data Mode : Type 0 where
  normal escape group_start group_kind class_start class_body class_escape : Mode
  count_from : ℕ → Mode
  count_to : ℕ → ℕ → Mode

pub record Parser : Type 0 where
  pub mode : Mode
  pub group : Group
  pub outer : List Group
  pub class : Class

abbrev fresh : Group
fresh = record { choices = none; before = none; last = none }

abbrev no_class : Class
no_class = record { negated = false; members = λ c. false; pending = none; dash = false }

join : Option Regex → Option Regex → Option Regex
join none o = o
join (some a) none = some a
join (some a) (some b) = some (seq a b)

or_empty : Option Regex → Regex
or_empty none = empty
or_empty (some r) = r

-- The group as one expression.
close : Group → Regex
unfolding join or_empty
close g =
    let branch = or_empty (join g.before g.last) in
    elim g.choices [ none ↦ branch | some r ↦ alt r branch ]

add : Regex → Group → Group
unfolding join
add r g = record { choices = g.choices; before = join g.before g.last; last = some r }

next_choice : Group → Group
unfolding close
next_choice g = record { choices = some (close g); before = none; last = none }

upper : ℕ → ℕ
upper c = if leb b'a' c && leb c b'z' then c - 32 else c

unfoldable pub is_terminator : ℕ → Bool
is_terminator c = c == 10 || c == 13 || c == 0x2028 || c == 0x2029

-- One unit of a set, or of its complement; under `i` a unit stands for both its cases.
set_of : Flags → Bool → (ℕ → Bool) → Regex
unfolding upper
set_of flags negated p =
    let member = if flags.ignore_case then (λ c. p (lower c) || p (upper c)) else p in
    unit (if negated then (λ c. not (member c)) else member)

dot : Flags → Regex
unfolding is_terminator
dot flags = unit (if flags.dot_all then (λ c. true) else (λ c. not (is_terminator c)))

unfoldable pub starts : Bool → Option ℕ → Text → Bool
unfolding is_terminator
starts multiline none s = true
starts multiline (some c) s = multiline && is_terminator c

ends : Bool → Option ℕ → Text → Bool
unfolding is_terminator
ends multiline prev [] = true
ends multiline prev (c ∷ s) = multiline && is_terminator c

unfoldable pub word_at : Option ℕ → Bool
word_at none = false
word_at (some c) = is_word c

unfoldable pub first : Text → Option ℕ
first [] = none
first (c ∷ s) = some c

unfoldable pub boundary : Option ℕ → Text → Bool
unfolding word_at first
boundary prev s = if word_at prev then not (word_at (first s)) else word_at (first s)

-- `\d`, `\w`, `\s` and `\S`.
shorthand : ℕ → Option (ℕ → Bool)
shorthand c =
    if c == b'd'
    then some (λ d. is_digit d)
    else if c == b'w'
    then some (λ d. is_word d)
    else if c == b's'
    then some is_space
    else if c == b'S'
    then some (λ d. not (is_space d))
    else none

-- `\n`, `\t`, or a unit that stands for itself.
escaped_unit : ℕ → ℕ
escaped_unit c = if c == b'n' then 10 else if c == b't' then 9 else c

escaped : Flags → ℕ → Regex
unfolding set_of shorthand escaped_unit boundary
escaped flags c = if c == b'b' then assertion boundary else elim (shorthand c) [
  | some p ↦ set_of flags false p
  | none ↦ set_of flags false (λ d. d == escaped_unit c)
]

times : ℕ → Regex → Regex
times zero r = empty
times (suc n) r = seq r (times n r)

up_to : ℕ → Regex → Regex
up_to zero r = empty
up_to (suc n) r = alt (seq r (up_to n r)) empty

-- A quantifier changes the last atom; without one it is an error.
quantify : (Regex → Regex) → Parser → Option Parser
quantify f p = elim p.group.last [
  | none ↦ none
  | some r ↦ some (record p { mode = normal; group = record p.group { last = some (f r) } })
]

abbrev put : Regex → Parser → Option Parser
put r p = some (record p { mode = normal; group = add r p.group })

with_pending : Class → (ℕ → Bool)
with_pending k c =
    k.members c || (elim k.pending [ none ↦ false | some d ↦ c == d ]) || (k.dash && c == b'-')

add_unit : ℕ → Class → Class
unfolding with_pending
add_unit c k = elim k.pending [
  | none ↦ record k { pending = some c }
  | some d ↦
      if k.dash
      then record k {
        members = λ e. k.members e || (leb d e && leb e c);
        pending = none;
        dash = false;
      }
      else record k { members = with_pending k; pending = some c }
]

add_set : (ℕ → Bool) → Class → Class
unfolding with_pending
add_set q k = record k { members = λ e. with_pending k e || q e; pending = none; dash = false }

add_dash : Class → Class
unfolding add_unit
add_dash k = elim k.pending [
  | none ↦ add_unit b'-' k
  | some d ↦ if k.dash then add_unit b'-' k else record k { dash = true }
]

close_group : Parser → Option Parser
unfolding close add
close_group p = elim p.outer [
  | [] ↦ none
  | g ∷ outer ↦ some (record p { mode = normal; group = add (close p.group) g; outer = outer })
]

normal_step : Flags → Parser → ℕ → Option Parser
unfolding quantify add next_choice close_group starts ends dot set_of
normal_step flags p c =
    if c == b'\\'
    then some (record p { mode = escape })
    else if c == b'('
    then some (record p { mode = group_start; group = fresh; outer = p.group ∷ p.outer })
    else if c == b')'
    then close_group p
    else if c == b'['
    then some (record p { mode = class_start; class = no_class })
    else if c == b'{'
    then some (record p { mode = count_from 0 })
    else if c == b'*'
    then quantify star p
    else if c == b'+'
    then quantify (λ r. seq r (star r)) p
    else if c == b'?'
    then quantify (λ r. alt r empty) p
    else if c == b'|'
    then some (record p { group = next_choice p.group })
    else if c == b'^'
    then put (assertion (starts flags.multiline)) p
    else if c == b'$'
    then put (assertion (ends flags.multiline)) p
    else if c == b'.'
    then put (dot flags) p
    else put (set_of flags false (λ d. d == c)) p

class_step : Flags → Parser → ℕ → Option Parser
unfolding add_unit add_dash with_pending set_of add
class_step flags p c =
    if c == b'\\'
    then some (record p { mode = class_escape })
    else if c == b']'
    then put (set_of flags p.class.negated (with_pending p.class)) p
    else if c == b'-'
    then some (record p { mode = class_body; class = add_dash p.class })
    else some (record p { mode = class_body; class = add_unit c p.class })

class_escape_step : Parser → ℕ → Option Parser
unfolding shorthand escaped_unit add_set add_unit
class_escape_step p c = some (record p {
  mode = class_body;
  class = elim (shorthand c) [
    | some q ↦ add_set q p.class
    | none ↦ add_unit (escaped_unit c) p.class
  ];
})

-- `{n}` and `{n,m}`.
count_step : Parser → ℕ → ℕ → Option Parser
unfolding times quantify
count_step p n c =
    if is_digit c
    then some (record p { mode = count_from (10 * n + (c - b'0')) })
    else if c == b','
    then some (record p { mode = count_to n 0 })
    else if c == b'}'
    then quantify (times n) p
    else none

bound_step : Parser → ℕ → ℕ → ℕ → Option Parser
unfolding times up_to quantify
bound_step p n m c =
    if is_digit c
    then some (record p { mode = count_to n (10 * m + (c - b'0')) })
    else if c == b'}'
    then quantify (λ r. seq (times n r) (up_to (m - n) r)) p
    else none

step_in : Mode → Flags → Parser → ℕ → Option Parser
unfolding normal_step class_step class_escape_step count_step bound_step escaped add
step_in normal flags p c = normal_step flags p c
step_in escape flags p c = put (escaped flags c) p
step_in group_start flags p c =
    if c == b'?'
    then some (record p { mode = group_kind })
    else normal_step flags (record p { mode = normal }) c
step_in group_kind flags p c = if c == b':' then some (record p { mode = normal }) else none
step_in class_start flags p c =
    if c == b'^'
    then some (record p { mode = class_body; class = record p.class { negated = true } })
    else class_step flags p c
step_in class_body flags p c = class_step flags p c
step_in class_escape flags p c = class_escape_step p c
step_in (count_from n) flags p c = count_step p n c
step_in (count_to n m) flags p c = bound_step p n m c

finish_in : Mode → Parser → Option Regex
unfolding close
finish_in normal p = elim p.outer [ [] ↦ some (close p.group) | g ∷ outer ↦ none ]
finish_in other p = none

read : Flags → Text → Parser → Option Regex
unfolding step_in finish_in
read flags [] p = finish_in p.mode p
read flags (c ∷ s) p = elim (step_in p.mode flags p c) [ none ↦ none | some q ↦ read flags s q ]

unfoldable pub regex : Flags → Text → Option Regex
unfolding read
regex flags s = read flags s (record { mode = normal; group = fresh; outer = []; class = no_class })
