-- ===== src/Lines/Parsing.antt =====
-- Reading a fragment back: the two number forms, the two directions, and `format_line_hash`.
use Prim.Native.Nat.{min, max}
use haste_server.Prelude.{
  ℕ, ◌^◌, ◌≤◌, ◌<◌, ◌≡◌, ◌≢◌, refl, sym, ap, ap₂, ◌∙◌, Bool, true, false, [], ◌∷◌, ◌++◌,
  append_assoc, append-nil, Option, none, some, arith, ◌==◌, if◌then◌else◌, inl, inr, Bool-cases,
}
use haste_server.Text.{Text, codes, is_empty, trim, trim_end, is_space}
use haste_server.Text.Decimal.{decimal, number-decimal, Digits, decimal-Digits, decimal-ne-nil}
use haste_server.Lines.{
  LineRange, span_digits, skip_optional, match_bound, match_first, match_hash, line_number, ordered,
  range_of, parse_line_hash, format_line_hash,
}
use haste_server.Lines.Selection.{IsRange}

span_digits-append :
    (ds rest : Text)
    → Digits ds
    → span_digits rest ≡ ([], rest)
    → span_digits (ds ++ rest) ≡ (ds, rest)
unfolding span_digits
span_digits-append [] rest _ h = h
span_digits-append (d ∷ ds) rest (p, q) h = ground (arith, span_digits-append ds rest q h)

trim_end-cons : (c : ℕ) (s : Text) → trim_end s ≡ s → s ≢ [] → trim_end (c ∷ s) ≡ c ∷ s
unfolding trim_end
trim_end-cons c [] h k = absurd (k refl)
trim_end-cons c (d ∷ s) h k = ground arith

trim_end-Digits : (ds : Text) → Digits ds → trim_end ds ≡ ds
unfolding trim_end is_space
trim_end-Digits [] _ = refl
trim_end-Digits (d ∷ []) (p, _) = ground arith
trim_end-Digits (d ∷ e ∷ ds) (p, q) = trim_end-cons d (e ∷ ds) (trim_end-Digits (e ∷ ds) q) (cc)

trim_end-append_Digits :
    (s ds : Text) → Digits ds → ds ≢ [] → (trim_end (s ++ ds) ≡ s ++ ds) × (s ++ ds ≢ [])
trim_end-append_Digits [] ds h k = (trim_end-Digits ds h, k)
trim_end-append_Digits (c ∷ s) ds h k =
    let (e, n) = trim_end-append_Digits s ds h k in (trim_end-cons c (s ++ ds) e n, cc)

-- The texts that address a range: `mark` says whether `#` leads, `letter` whether the second number
-- has its `L`.
abbrev pub written : Bool → Bool → ℕ → ℕ → Text
written mark letter a b =
    (if mark then codes "#" else [])
    ++ (b'L' ∷ (decimal a ++ (b'-' ∷ ((if letter then codes "L" else []) ++ decimal b))))

line_number_pos : (s : Text) {n : ℕ} → line_number s ≡ some n → 1 ≤ n
unfolding line_number
line_number_pos s h = ground arith

ordered-IsRange :
    (first second : Option ℕ) {r : LineRange}
    → ((n : ℕ) → first ≡ some n → 1 ≤ n)
    → ((n : ℕ) → second ≡ some n → 1 ≤ n)
    → ordered first second ≡ some r
    → IsRange r
unfolding ordered
ordered-IsRange none second p q h = cc
ordered-IsRange (some a) none p q h = cc
ordered-IsRange (some a) (some b) p q h = ground (arith, p a refl, q b refl)

range_of-IsRange :
    (groups : Option (Text × Option Text)) (r : LineRange) → range_of groups ≡ some r → IsRange r
unfolding range_of
range_of-IsRange none r h = cc
range_of-IsRange (some (first, none)) r h =
    ordered-IsRange (line_number first) (line_number first) (λ n e. line_number_pos first e)
      (λ n e. line_number_pos first e) h
range_of-IsRange (some (first, some second)) r h =
    ordered-IsRange (line_number first) (line_number second) (λ n e. line_number_pos first e)
      (λ n e. line_number_pos second e) h

-- Text that begins with a mark or a letter and ends with digits is not trimmed.
trim-written :
    (mark : Bool) (body ds : Text)
    → Digits ds
    → ds ≢ []
    → trim ((if mark then codes "#" else []) ++ (b'L' ∷ (body ++ ds)))
      ≡ (if mark then codes "#" else []) ++ (b'L' ∷ (body ++ ds))
unfolding trim
trim-written true body ds h k = (trim_end-append_Digits (b'#' ∷ b'L' ∷ body) ds h k).0
trim-written false body ds h k = (trim_end-append_Digits (b'L' ∷ body) ds h k).0

span_digits-all : (ds : Text) → Digits ds → span_digits ds ≡ (ds, [])
unfolding span_digits
span_digits-all ds h = ap span_digits (sym (append-nil ds)) ∙ span_digits-append ds [] h refl

is_empty-of_ne : (s : Text) → s ≢ [] → is_empty s ≡ false
is_empty-of_ne [] h = absurd (h refl)
is_empty-of_ne (c ∷ s) h = refl

skip_optional-Digits : (c : ℕ) (ds : Text) → Digits ds → b'9' < c → skip_optional c ds ≡ ds
unfolding skip_optional
skip_optional-Digits c [] _ _ = refl
skip_optional-Digits c (d ∷ ds) (p, _) h = ground arith

skip_letter :
    (letter : Bool) (ds : Text)
    → Digits ds
    → skip_optional b'L' ((if letter then codes "L" else []) ++ ds) ≡ ds
unfolding skip_optional
skip_letter true ds h = refl
skip_letter false ds h = skip_optional-Digits b'L' ds h (omega arith)

skip_mark :
    (mark : Bool) (s : Text)
    → skip_optional b'#' ((if mark then codes "#" else []) ++ (b'L' ∷ s)) ≡ b'L' ∷ s
unfolding skip_optional
skip_mark true s = refl
skip_mark false s = refl

match_bound-Digits :
    (first second : Text) (letter : Bool)
    → Digits second
    → second ≢ []
    → match_bound first (b'-' ∷ ((if letter then codes "L" else []) ++ second))
      ≡ some (first, some second)
unfolding match_bound
match_bound-Digits first second letter h k =
    rw (skip_letter letter second h, span_digits-all second h, is_empty-of_ne second k) refl

match_first-Digits :
    (first rest : Text)
    → Digits first
    → first ≢ []
    → span_digits rest ≡ ([], rest)
    → match_first (b'L' ∷ (first ++ rest)) ≡ match_bound first rest
unfolding match_first
match_first-Digits first rest h k e =
    rw (span_digits-append first rest h e, is_empty-of_ne first k) refl

line_number-decimal : (n : ℕ) → 1 ≤ n → n < 2 ^ 53 → line_number (decimal n) ≡ some n
unfolding line_number
line_number-decimal n p h = ground (arith, number-decimal n h)

trim-written_range :
    (mark letter : Bool) (a b : ℕ) → trim (written mark letter a b) ≡ written mark letter a b
trim-written_range mark letter a b =
    let l = if letter then codes "L" else [] in
    let wrap = λ (t : Text). (if mark then codes "#" else []) ++ (b'L' ∷ t) in
    let split = append_assoc (decimal a) (b'-' ∷ l) (decimal b) in
    ap (λ t. trim (wrap t)) (sym split)
    ∙ trim-written mark (decimal a ++ (b'-' ∷ l)) (decimal b) (decimal-Digits b) (decimal-ne-nil b)
    ∙ ap wrap split

match_hash-written :
    (mark letter : Bool) (a b : ℕ)
    → match_hash (written mark letter a b) ≡ some (decimal a, some (decimal b))
unfolding match_hash
match_hash-written mark letter a b =
    ap match_first
      (skip_mark mark (decimal a ++ (b'-' ∷ ((if letter then codes "L" else []) ++ decimal b))))
    ∙ match_first-Digits (decimal a) _ (decimal-Digits a) (decimal-ne-nil a)
        (unfold span_digits in refl)
    ∙ match_bound-Digits (decimal a) (decimal b) letter (decimal-Digits b) (decimal-ne-nil b)

range_of-decimal :
    (a b : ℕ)
    → 1 ≤ a
    → a < 2 ^ 53
    → 1 ≤ b
    → b < 2 ^ 53
    → range_of (some (decimal a, some (decimal b)))
      ≡ some (record { start = min a b; end = max a b })
unfolding range_of
range_of-decimal a b pa ha pb hb =
    ap₂ ordered (line_number-decimal a pa ha) (line_number-decimal b pb hb)

-- Whichever way a range between two line numbers of 1 to 2^53 - 1 is written, with or without the
-- `#`, with or without the second `L`, forwards or backwards, it is read as the ordered range.
pub parse_line_hash-written :
    (mark letter : Bool) (a b : ℕ)
    → 1 ≤ a
    → a < 2 ^ 53
    → 1 ≤ b
    → b < 2 ^ 53
    → parse_line_hash (written mark letter a b) ≡ some (record { start = min a b; end = max a b })
unfolding parse_line_hash
parse_line_hash-written mark letter a b pa ha pb hb =
    ap (λ t. range_of (match_hash t)) (trim-written_range mark letter a b)
    ∙ ap range_of (match_hash-written mark letter a b)
    ∙ range_of-decimal a b pa ha pb hb

-- The same for a single line, `#L17`.
parse_line_hash-single :
    (a : ℕ)
    → 1 ≤ a
    → a < 2 ^ 53
    → parse_line_hash (codes "#L" ++ decimal a) ≡ some (record { start = a; end = a })
unfolding parse_line_hash match_hash range_of
parse_line_hash-single a p h =
    ap (λ t. range_of (match_hash t))
      (trim-written true [] (decimal a) (decimal-Digits a) (decimal-ne-nil a))
    ∙ ap (λ t. range_of (match_first (b'L' ∷ t))) (sym (append-nil (decimal a)))
    ∙ ap range_of (
        match_first-Digits (decimal a) [] (decimal-Digits a) (decimal-ne-nil a)
          (unfold span_digits in refl))
    ∙ ap (λ n. ordered n n) (line_number-decimal a p h)
    ∙ ap some (ground arith)

-- A range is read back from the fragment that is written for it, up to line 2^53 - 1.
pub parse_line_hash-format_line_hash :
    (r : LineRange) → IsRange r → r.end < 2 ^ 53 → parse_line_hash (format_line_hash r) ≡ some r
unfolding format_line_hash
parse_line_hash-format_line_hash r v h = elim (Bool-cases (r.start == r.end)) [
  | inl same ↦
      rw same (parse_line_hash-single r.start v.positive (ground arith) ∙ ap some (ground arith))
  | inr differ ↦ rw differ (
      parse_line_hash-written true true r.start r.end v.positive (ground arith) (ground arith) h
      ∙ ap some (ground arith))
]

-- Whatever the fragment says, what is read from it begins at line 1 or later and is in order.
pub parse_line_hash-IsRange :
    (hash : Text) {r : LineRange} → parse_line_hash hash ≡ some r → IsRange r
unfolding parse_line_hash
parse_line_hash-IsRange hash {r} h = range_of-IsRange (match_hash (trim hash)) r h
