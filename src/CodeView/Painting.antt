-- ===== src/CodeView/Painting.antt =====
-- The loop that marks the selected lines, against a test of each line.
use haste_server.Prelude.{
  ℕ, zero, suc, ◌+◌, ◌-◌, ◌≤◌, ◌≡◌, refl, ap, ap₂, ◌∙◌, Bool, false, ◌&&◌, ◌||◌, List, [], ◌∷◌,
  Option, none, some, ltb, leb, ◌==◌, map, arith, Bool-cases, inl, inr,
}
use haste_server.Lines.{LineRange}
use haste_server.CodeView.{Line, unmark, mark, mark_range, paint}

-- Lines that are numbered one after the other.
abbrev pub Numbered : ℕ → List Line → Type 0
Numbered k [] = Unit
Numbered k (l ∷ ls) = (l.number ≡ k) × Numbered (k + 1) ls

-- Whether a selection covers a line.
abbrev pub covers : Option LineRange → ℕ → Bool
covers none n = false
covers (some r) n = leb r.start n && leb n r.end

-- The lines as they are when just those whose number passes a test are marked.
abbrev pub marked_by : (ℕ → Bool) → List Line → List Line
marked_by p [] = []
marked_by p (l ∷ ls) = record l { highlighted = p l.number } ∷ marked_by p ls

marked_by-same :
    (p q : ℕ → Bool) (k : ℕ) (ls : List Line)
    → Numbered k ls
    → ((n : ℕ) → k ≤ n → p n ≡ q n)
    → marked_by p ls ≡ marked_by q ls
marked_by-same p q k [] v h = refl
marked_by-same p q k (l ∷ ls) (e, v) h =
    ap₂ (λ b rest. record l { highlighted = b } ∷ rest) (h l.number (omega (arith, e)))
      (marked_by-same p q (k + 1) ls v (λ n le. h n (omega (arith, le))))

unmark-marked_by : (ls : List Line) → map unmark ls ≡ marked_by (λ n. false) ls
unfolding unmark
unmark-marked_by [] = refl
unmark-marked_by (l ∷ ls) =
    ap (λ rest. record l { highlighted = false } ∷ rest) (unmark-marked_by ls)

mark-marked_by :
    (p : ℕ → Bool) (a k : ℕ) (ls : List Line)
    → Numbered k ls
    → mark a (marked_by p ls) ≡ marked_by (λ n. p n || n == a) ls
unfolding mark
mark-marked_by p a k [] v = refl
mark-marked_by p a k (l ∷ ls) (e, v) = elim (Bool-cases (l.number == a)) [
  | inl here ↦ rw here (
      ap₂ (λ b rest. record l { highlighted = b } ∷ rest) (ground arith)
        (marked_by-same p (λ n. p n || n == a) (k + 1) ls v (λ n le. ground arith)))
  | inr there ↦ rw there (
      ap₂ (λ b rest. record l { highlighted = b } ∷ rest) (ground arith)
        (mark-marked_by p a (k + 1) ls v))
]

mark_range-marked_by :
    (count : ℕ) (p : ℕ → Bool) (a k : ℕ) (ls : List Line)
    → Numbered k ls
    → mark_range count a (marked_by p ls)
      ≡ marked_by (λ n. p n || (leb a n && ltb n (a + count))) ls
unfolding mark_range
mark_range-marked_by zero p a k ls v = marked_by-same p _ k ls v (λ n le. ground arith)
mark_range-marked_by (suc count) p a k ls v =
    ap (mark_range count (a + 1)) (mark-marked_by p a k ls v)
    ∙ mark_range-marked_by count (λ n. p n || n == a) (a + 1) k ls v
    ∙ marked_by-same _ _ k ls v (λ n le. ground arith)

-- Over lines that are numbered one after the other, whichever of them were marked before, the effect
-- leaves marked exactly the lines that the selection covers, and changes nothing else of them.
pub paint-covers :
    (selection : Option LineRange) (k : ℕ) (ls : List Line)
    → Numbered k ls
    → paint selection ls ≡ marked_by (covers selection) ls
unfolding paint
paint-covers none k ls v = unmark-marked_by ls
paint-covers (some r) k ls v =
    ap (mark_range (r.end + 1 - r.start) r.start) (unmark-marked_by ls)
    ∙ mark_range-marked_by (r.end + 1 - r.start) (λ n. false) r.start k ls v
    ∙ marked_by-same _ _ k ls v (λ n le. ground arith)
