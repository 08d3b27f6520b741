-- ===== src/Docs/CopyButton.antt =====
-- The copy buttons of web/src/routes/docs.tsx: their check mark, and the timers that take it off. Time is
-- in milliseconds; the browser runs what is due in the order in which it was set.
use haste_server.Prelude.{
  ℕ, ◌+◌, ◌-◌, ◌<◌, ◌≤◌, ◌≡◌, ◌≢◌, inl, inr, All-append, refl, ap, ◌∙◌, Bool, true, false, List, [],
  ◌∷◌, ◌++◌, All, Bool-cases, leb, ltb, if◌then◌else◌, arith,
}
use haste_server.Text.{Text, codes}

pub record CopyButton : Type 0 where
  pub done : Bool
  pub now : ℕ
  -- When each `setDone(false)` is due.
  pub timers : List ℕ

unfoldable pub start : ℕ → CopyButton
start now = record { done = false; now = now; timers = [] }

-- `onClick` behind its `await`: what `copyText` said. With the toast that it shows, if it does.
unfoldable pub on_copied : Bool → CopyButton → CopyButton × List Text
on_copied false b = (b, codes "paste.contentCopyFailed" ∷ [])
on_copied true b = (record b { done = true; timers = b.timers ++ (b.now + 1_200) ∷ [] }, [])

unfoldable pub run_due : ℕ → Bool → List ℕ → Bool × List ℕ
run_due now done [] = (done, [])
run_due now done (due ∷ timers) =
    let rest = run_due now false timers in if leb due now then rest else (done, due ∷ timers)

unfoldable pub advance : ℕ → CopyButton → CopyButton
advance elapsed b =
    let (done, timers) = run_due (b.now + elapsed) b.done b.timers in
    record { done = done; now = b.now + elapsed; timers = timers }

pub data Reach : CopyButton → Type 0 where
  mounted : (now : ℕ) → Reach (start now)
  copied : (ok : Bool) {b : CopyButton} → Reach b → Reach (on_copied ok b).0
  passed : (elapsed : ℕ) {b : CopyButton} → Reach b → Reach (advance elapsed b)

-- A check mark has a timer that takes it off, and no timer is later than 1.2 s from now.
record IsTimed (b : CopyButton) : Type 0 where
  marked : b.done ≡ true → b.timers ≢ []
  soon : All (λ due. due ≤ b.now + 1_200) b.timers

run_due-due :
    (now : ℕ) (done : Bool) (due : ℕ) (timers : List ℕ)
    → due ≤ now
    → run_due now done (due ∷ timers) ≡ run_due now false timers
unfolding run_due
run_due-due now done due timers h =
    let e : leb due now ≡ true = ground arith in rw (run_due, e) refl

run_due-later :
    (now : ℕ) (done : Bool) (due : ℕ) (timers : List ℕ)
    → now < due
    → run_due now done (due ∷ timers) ≡ (done, due ∷ timers)
unfolding run_due
run_due-later now done due timers h =
    let e : leb due now ≡ false = ground arith in rw (run_due, e) refl

-- Where all is due, nothing is left, and no mark if there was a timer.
run_due-All :
    (now : ℕ) (done : Bool) (timers : List ℕ)
    → All (λ due. due ≤ now) timers
    → (done ≡ true → timers ≢ [])
    → run_due now done timers ≡ (false, [])
unfolding run_due
run_due-All now true [] _ marked = absurd (marked refl refl)
run_due-All now false [] _ marked = refl
run_due-All now done (due ∷ timers) (h, rest) marked =
    run_due-due now done due timers h ∙ run_due-All now false timers rest (λ e. absurd (cc e))

run_due-IsTimed :
    (now : ℕ) (done : Bool) (timers : List ℕ)
    → (done ≡ true → timers ≢ [])
    → All (λ due. due ≤ now + 1_200) timers
    → ((run_due now done timers).0 ≡ true → (run_due now done timers).1 ≢ [])
      × All (λ due. due ≤ now + 1_200) (run_due now done timers).1
unfolding run_due
run_due-IsTimed now done [] marked _ = (marked, tt)
run_due-IsTimed now done (due ∷ timers) marked (h, rest) = elim (Bool-cases (leb due now)) [
  | inl fires ↦ rw (run_due, fires) (run_due-IsTimed now false timers (λ e. absurd (cc e)) rest)
  | inr waits ↦ rw (run_due, waits) (λ _. cc, (h, rest))
]

All-later :
    (early late : ℕ) (timers : List ℕ)
    → early ≤ late
    → All (λ due. due ≤ early) timers
    → All (λ due. due ≤ late) timers
All-later early late [] h _ = tt
All-later early late (due ∷ timers) h (here, rest) =
    (omega arith, All-later early late timers h rest)

snoc_ne_nil : (timers : List ℕ) (due : ℕ) → timers ++ due ∷ [] ≢ []
snoc_ne_nil [] due = cc
snoc_ne_nil (d ∷ timers) due = cc

Reach-IsTimed : {b : CopyButton} → Reach b → IsTimed b
unfolding on_copied advance start
Reach-IsTimed (mounted now) = record { marked = λ e. absurd (cc e); soon = tt }
Reach-IsTimed (copied false r) = Reach-IsTimed r
Reach-IsTimed (copied true {b} r) = record {
  marked = λ _. snoc_ne_nil b.timers (b.now + 1_200);
  soon =
      All-append (λ due. due ≤ b.now + 1_200) b.timers _ (Reach-IsTimed r).soon (omega arith, tt);
}
Reach-IsTimed (passed elapsed {b} r) =
    let v = Reach-IsTimed r in
    let (marked, soon) =
      run_due-IsTimed (b.now + elapsed) b.done b.timers v.marked
        (All-later (b.now + 1_200) (b.now + elapsed + 1_200) b.timers (omega arith) v.soon) in
    record { marked = marked; soon = soon }

-- However often the button was clicked, after 1.2 s with no click its check mark is gone and so are its
-- timers.
pub Reach-clears :
    (elapsed : ℕ) {b : CopyButton}
    → Reach b
    → 1_200 ≤ elapsed
    → ((advance elapsed b).done ≡ false) × ((advance elapsed b).timers ≡ [])
unfolding advance
Reach-clears elapsed {b} r long =
    let v = Reach-IsTimed r in
    let run =
      run_due-All (b.now + elapsed) b.done b.timers
        (All-later (b.now + 1_200) (b.now + elapsed) b.timers (omega arith) v.soon) v.marked in
    (ap (λ x. x.0) run, ap (λ x. x.1) run)

-- With no timer left of an earlier click, the check mark of a copy that succeeds is there for just 1.2 s.
pub advance-on_copied :
    (elapsed : ℕ) (b : CopyButton)
    → b.timers ≡ []
    → (advance elapsed (on_copied true b).0).done ≡ ltb elapsed 1_200
unfolding advance on_copied run_due
advance-on_copied elapsed b none_left = elim (Bool-cases (ltb elapsed 1_200)) [
  | inl early ↦
      rw (none_left, early)
        (ap (λ x. x.0) (run_due-later (b.now + elapsed) true (b.now + 1_200) [] (ground arith)))
  | inr late ↦
      rw (none_left, late)
        (ap (λ x. x.0) (run_due-due (b.now + elapsed) true (b.now + 1_200) [] (ground arith)))
]

-- A second copy that succeeds within 1.2 s of the first has its check mark taken off by the timer of the
-- first: 1.2 s behind the first copy the mark is gone, though the timer of the second is still to run.
pub advance-cut_short :
    (gap : ℕ) (b : CopyButton)
    → b.timers ≡ []
    → 0 < gap
    → gap < 1_200
    → let first = advance gap (on_copied true b).0 in
      let second = advance (1_200 - gap) (on_copied true first).0 in
      (first.done ≡ true) × (second.done ≡ false) × (second.timers ≡ (b.now + gap + 1_200) ∷ [])
unfolding advance on_copied
advance-cut_short gap b none_left some_time soon =
    let waits = run_due-later (b.now + gap) true (b.now + 1_200) [] (omega arith) in
    let later = b.now + gap + (1_200 - gap) in
    let fires =
      run_due-due later true (b.now + 1_200) ((b.now + gap + 1_200) ∷ []) (omega arith)
      ∙ run_due-later later false (b.now + gap + 1_200) [] (omega arith) in
    rw (none_left, waits, fires) (refl, refl, refl)
