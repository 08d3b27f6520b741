-- ===== src/Lines/Selection.antt =====
-- Selecting and clamping lines, against the set of lines that a range selects.
use haste_server.Prelude.{ℕ, ◌≤◌, ◌≡◌, ◌↔◌, ◌⊎◌, refl, Bool, true, false, Option, none, some, arith}
use haste_server.Lines.{LineRange, select_line, clamp_range}

-- The lines that a selection covers.
abbrev pub Selects : Option LineRange → ℕ → Type 0
Selects none n = ⊥
Selects (some r) n = (r.start ≤ n) × (n ≤ r.end)

-- A range of the kind that the client keeps.
pub record IsRange (r : LineRange) : Type 0 where
  pub positive : 1 ≤ r.start
  pub in_order : r.start ≤ r.end

-- Clamping a selection to `count` lines keeps exactly its lines that exist.
pub clamp_range-Selects :
    (range : Option LineRange) (count n : ℕ)
    → Selects (clamp_range range count) n ↔ (Selects range n × (n ≤ count))
unfolding clamp_range
clamp_range-Selects none count n = ground arith
clamp_range-Selects (some r) count n = ground arith

-- A clamped range is a range again, and none is left just where it began past the last line.
pub clamp_range-IsRange :
    (r : LineRange) (count : ℕ) {r' : LineRange}
    → IsRange r
    → clamp_range (some r) count ≡ some r'
    → IsRange r' × (r'.end ≤ count)
unfolding clamp_range
clamp_range-IsRange r count v h = ground arith

-- Extending from a selection by a shift-click covers exactly the lines between the selection's
-- start and the clicked line, whichever way the click went.
pub select_line-Selects :
    (r : LineRange) (line n : ℕ)
    → Selects (some (select_line (some r) line true)) n
      ↔ (((r.start ≤ n) × (n ≤ line)) ⊎ ((line ≤ n) × (n ≤ r.start)))
unfolding select_line
select_line-Selects r line n = ground arith

-- Every click on an existing line leaves a range.
pub select_line-IsRange :
    (current : Option LineRange) (line : ℕ) (extend : Bool)
    → ((r : LineRange) → current ≡ some r → IsRange r)
    → 1 ≤ line
    → IsRange (select_line current line extend)
unfolding select_line
select_line-IsRange none line false h p = ground arith
select_line-IsRange none line true h p = ground arith
select_line-IsRange (some r) line false h p = ground arith
select_line-IsRange (some r) line true h p = ground (arith, h r refl)
