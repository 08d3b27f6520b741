-- ===== src/Expiry/Menu/Picking.antt =====
-- What becomes of an option that is picked from the menu of web/src/components/expiry-picker.tsx.
use haste_server.Prelude.{
  none, ℕ, ◌≡◌, inl, inr, refl, sym, ap, ◌∙◌, true, false, List, [], ◌∷◌, map, filter, some, ltb,
  ltb→lt, ◌==◌, ==_iff, ==_refl, Memᴰ, Bool-cases, any_complete, filter_sound, arith,
}
use haste_server.I18n.{Translate}
use haste_server.Expiry.{
  ExpiryOption, no_expiry, none_option, describe_seconds, expiry_options, includes,
}
use haste_server.Expiry.Ladder.{describe_seconds-seconds}
use haste_server.Expiry.Menu.{find_option, first_option, current, choice}
use haste_server.Editor.{Editor, settle_expiry, on_expiry_change}

-- An option of the ladder is that of its own seconds, which are one of the server's lifetimes.
record IsRung (t : Translate) (secs : List ℕ) (o : ExpiryOption) : Type 0 where
  described : o ≡ describe_seconds t o.seconds
  listed : Memᴰ o.seconds secs

describe_seconds-IsRung :
    (t : Translate) (secs : List ℕ) {o : ExpiryOption}
    → Memᴰ o (map (describe_seconds t) secs)
    → IsRung t secs o
describe_seconds-IsRung t [] m = elim m [ ]
describe_seconds-IsRung t (s ∷ secs) {o} (Memᴰ.head e) =
    let same : o.seconds ≡ s =
      ap (λ (p : ExpiryOption). p.seconds) e ∙ describe_seconds-seconds t s in
    record { described = e ∙ ap (describe_seconds t) (sym same); listed = Memᴰ.head same }
describe_seconds-IsRung t (s ∷ secs) (Memᴰ.tail m) =
    let rung = describe_seconds-IsRung t secs m in
    record { described = rung.described; listed = Memᴰ.tail rung.listed }

find_option-rung :
    (t : Translate) (secs : List ℕ) {o : ExpiryOption}
    → Memᴰ o (map (describe_seconds t) secs)
    → find_option o.seconds (map (describe_seconds t) secs) ≡ some o
unfolding find_option
find_option-rung t [] m = elim m [ ]
find_option-rung t (s ∷ secs) {o} m =
    elim (Bool-cases ((describe_seconds t s).seconds == o.seconds)) [
      | inl same ↦ rw same (
          ap some (
            ap (describe_seconds t) (sym (describe_seconds-seconds t s) ∙ (==_iff _ _).0 same)
            ∙ sym (describe_seconds-IsRung t (s ∷ secs) m).described))
      | inr differs ↦ rw differs (find_option-rung t secs (further differs m))
    ]
  where
    further :
        ((describe_seconds t s).seconds == o.seconds) ≡ false
        → Memᴰ o (map (describe_seconds t) (s ∷ secs))
        → Memᴰ o (map (describe_seconds t) secs)
    further differs (Memᴰ.head e) =
        absurd (cc (sym differs ∙ (==_iff _ _).1 (ap (λ (p : ExpiryOption). p.seconds) (sym e))))
    further differs (Memᴰ.tail n) = n

filter-positive : (secs : List ℕ) {n : ℕ} → Memᴰ n (filter (ltb 0) secs) → ltb 0 n ≡ true
filter-positive [] m = elim m [ ]
filter-positive (s ∷ secs) {n} m = elim (Bool-cases (ltb 0 s)) [
  | inl e ↦ first e (filter-positive secs) (rw (filter, e) at m)
  | inr e ↦ filter-positive secs (rw (filter, e) at m)
]
  where
    first :
        ltb 0 s ≡ true
        → (Memᴰ n (filter (ltb 0) secs) → ltb 0 n ≡ true)
        → Memᴰ n (s ∷ filter (ltb 0) secs)
        → ltb 0 n ≡ true
    first e later (Memᴰ.head same) = ap (ltb 0) same ∙ e
    first e later (Memᴰ.tail k) = later k

-- The option is "no expiry", or one of the server's lifetimes, with seconds of its own.
data Listed (t : Translate) (secs : List ℕ) (o : ExpiryOption) : Type 0 where
  permanent : o ≡ none_option t → Listed t secs o
  timed : (o.seconds == no_expiry) ≡ false → includes o.seconds secs ≡ true → Listed t secs o

option-Listed :
    (t : Translate) (secs : List ℕ) {o : ExpiryOption}
    → Memᴰ o (expiry_options t secs)
    → Listed t secs o
unfolding expiry_options
option-Listed t secs {o} (Memᴰ.head e) = permanent e
option-Listed t secs {o} (Memᴰ.tail m) =
    let rung = describe_seconds-IsRung t (filter (ltb 0) secs) m in
    let positive = ltb→lt 0 o.seconds (filter-positive secs rung.listed) in
    timed
      (elim (Bool-cases (o.seconds == no_expiry)) [
        | inl zero ↦ let e = (==_iff o.seconds 0).0 zero in absurd (omega arith)
        | inr e ↦ e
      ])
      (any_complete (λ s. s == o.seconds) secs (filter_sound (ltb 0) secs rung.listed)
        (==_refl o.seconds))

pub current-listed :
    (t : Translate) (secs : List ℕ) {o : ExpiryOption}
    → Memᴰ o (expiry_options t secs)
    → current o.seconds (expiry_options t secs) ≡ some o
unfolding current find_option expiry_options
current-listed t secs {o} m = rw (current, found m) refl
  where
    found : Memᴰ o (expiry_options t secs) → find_option o.seconds (expiry_options t secs) ≡ some o
    found (Memᴰ.head e) =
        let zero : (no_expiry == o.seconds) ≡ true =
          ap (λ (p : ExpiryOption). no_expiry == p.seconds) e in
        rw zero (ap some (sym e))
    found (Memᴰ.tail k) =
        let rung = describe_seconds-IsRung t (filter (ltb 0) secs) k in
        let positive = ltb→lt 0 o.seconds (filter-positive secs rung.listed) in
        let differs : (no_expiry == o.seconds) ≡ false = ground arith in
        rw differs (find_option-rung t (filter (ltb 0) secs) k)

-- Where no option has the value's seconds, the first one is named.
pub current-missing :
    (value : ℕ) (o : ExpiryOption) (rest : List ExpiryOption)
    → find_option value (o ∷ rest) ≡ none
    → current value (o ∷ rest) ≡ some o
unfolding current
current-missing value o rest h = unfold first_option in rw (current, h) refl

settle_expiry-picked :
    (t : Translate) (s : Editor) (o : ExpiryOption)
    → Listed t s.config.expiry_options_secs o
    → settle_expiry (on_expiry_change o.seconds s) ≡ on_expiry_change o.seconds s
unfolding settle_expiry on_expiry_change
settle_expiry-picked t s o (permanent e) =
    let zero : (o.seconds == no_expiry) ≡ true =
      ap (λ (p : ExpiryOption). p.seconds == no_expiry) e in
    rw (settle_expiry, on_expiry_change, zero) refl
settle_expiry-picked t s o (timed positive offered) =
    rw (settle_expiry, on_expiry_change, positive, offered) refl

on_expiry_change-expires_in : (n : ℕ) (s : Editor) → (on_expiry_change n s).expires_in ≡ n
unfolding on_expiry_change
on_expiry_change-expires_in n s = refl

-- An option that is picked from the menu stays picked: the effect that drops a lifetime which the server
-- does not offer leaves it, the trigger names that very option, and its tick shows.
pub pick-kept :
    (t : Translate) (s : Editor) (o : ExpiryOption)
    → Memᴰ o (expiry_options t s.config.expiry_options_secs)
    → let s' = settle_expiry (on_expiry_change o.seconds s) in
      (s' ≡ on_expiry_change o.seconds s)
      × (current s'.expires_in (expiry_options t s.config.expiry_options_secs) ≡ some o)
      × ((choice s'.expires_in o).ticked ≡ true)
unfolding choice
pick-kept t s o m =
    let kept = settle_expiry-picked t s o (option-Listed t s.config.expiry_options_secs m) in
    let value : (settle_expiry (on_expiry_change o.seconds s)).expires_in ≡ o.seconds =
      ap (λ (e : Editor). e.expires_in) kept ∙ on_expiry_change-expires_in o.seconds s in
    (
      kept,
      ap (λ n. current n (expiry_options t s.config.expiry_options_secs)) value
          ∙ current-listed t s.config.expiry_options_secs m,
      ap (λ n. o.seconds == n) value ∙ ==_refl o.seconds,
    )
