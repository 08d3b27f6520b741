-- ===== src/PastePage/Links.antt =====
-- Links to lines, between web/src/routes/paste.tsx and web/src/lib/lines.ts.
use haste_server.Prelude.{
  ℕ, ◌≤◌, ◌<◌, ◌^◌, ◌≡◌, ◌≢◌, refl, sym, ap, ◌∙◌, Bool, true, false, ◌++◌, Option, none, some,
  arith, Option-cases, inl, inr,
}
use haste_server.Text.{Text}
use haste_server.Lines.{LineRange, parse_line_hash, format_line_hash, select_line, clamp_range}
use haste_server.Lines.Selection.{IsRange, select_line-IsRange, clamp_range-IsRange}
use haste_server.Lines.Parsing.{parse_line_hash-format_line_hash, parse_line_hash-IsRange}
use haste_server.Api.{Paste}
use haste_server.PastePage.{line_count, selection, on_select_line, link}

clamp_range-inside :
    (r : LineRange) (count : ℕ)
    → r.start ≤ count
    → r.end ≤ count
    → clamp_range (some r) count ≡ some r
unfolding clamp_range
clamp_range-inside r count p q = ground arith

clamp_range-start :
    (r : LineRange) (count : ℕ) {r' : LineRange}
    → clamp_range (some r) count ≡ some r'
    → r'.start ≤ count
unfolding clamp_range
clamp_range-start r count h = ground arith

clamp_range-none : (count : ℕ) (r : LineRange) → clamp_range none count ≢ some r
unfolding clamp_range
clamp_range-none count r = cc

-- What the page selects is a range of lines that the paste has.
selection-IsRange :
    (hash : Text) (p : Option Paste) (r : LineRange)
    → selection hash p ≡ some r
    → IsRange r × (r.end ≤ line_count p)
unfolding selection
selection-IsRange hash p r h = elim (Option-cases (parse_line_hash hash)) [
  | inl nothing ↦
      absurd (
        clamp_range-none (line_count p) r
          (sym (ap (λ o. clamp_range o (line_count p)) nothing) ∙ h))
  | inr (read, e) ↦
      clamp_range-IsRange read (line_count p) (parse_line_hash-IsRange hash e)
        (sym (ap (λ o. clamp_range o (line_count p)) e) ∙ h)
]

selection-format_line_hash :
    (p : Option Paste) (r : LineRange)
    → IsRange r
    → r.end ≤ line_count p
    → line_count p < 2 ^ 53
    → selection (format_line_hash r) p ≡ some r
unfolding selection
selection-format_line_hash p r v inside small =
    ap (λ o. clamp_range o (line_count p)) (parse_line_hash-format_line_hash r v (omega arith))
    ∙ clamp_range-inside r (line_count p) (omega (arith, v.in_order)) inside

-- For a paste of fewer than 2^53 lines, the link that is copied over a selection is the paste's own
-- address followed by a fragment, and the page that opens with that fragment selects the same lines.
pub link-selection :
    (href hash : Text) (p : Paste) (r : LineRange)
    → selection hash (some p) ≡ some r
    → line_count (some p) < 2 ^ 53
    → (link href (some p) (selection hash (some p)) ≡ p.url ++ format_line_hash r)
      × (selection (format_line_hash r) (some p) ≡ some r)
unfolding link
link-selection href hash p r h small =
    let (v, inside) = selection-IsRange hash (some p) r h in
    (ap (link href (some p)) h, selection-format_line_hash (some p) r v inside small)

select_line-end :
    (current : Option LineRange) (line : ℕ) (extend : Bool) (count : ℕ)
    → ((r : LineRange) → current ≡ some r → IsRange r × (r.end ≤ count))
    → line ≤ count
    → (select_line current line extend).end ≤ count
unfolding select_line
select_line-end none line false count h p = ground arith
select_line-end none line true count h p = ground arith
select_line-end (some r) line false count h p = ground arith
select_line-end (some r) line true count h p =
    let (v, inside) = h r refl in ground (arith, v.in_order, inside)

-- After a click on one of the paste's line numbers, with or without shift, the page that reads the
-- fragment selects exactly what the click selected, for a paste of fewer than 2^53 lines.
pub on_select_line-selection :
    (hash : Text) (p : Option Paste) (line : ℕ) (extend : Bool)
    → 1 ≤ line
    → line ≤ line_count p
    → line_count p < 2 ^ 53
    → selection (on_select_line (selection hash p) line extend) p
      ≡ some (select_line (selection hash p) line extend)
unfolding on_select_line
on_select_line-selection hash p line extend first last small =
    selection-format_line_hash p (select_line (selection hash p) line extend)
      (select_line-IsRange (selection hash p) line extend (λ r h. (selection-IsRange hash p r h).0)
        first)
      (select_line-end (selection hash p) line extend (line_count p) (selection-IsRange hash p)
        last)
      small
