-- ===== src/Text/Laws.antt =====
-- Laws of the string methods.
use haste_server.Prelude.{ℕ, ◌+◌, ◌≡◌, ◌↔◌, refl, true, false, [], ◌∷◌, ◌++◌, arith, ◌==◌, length}
use haste_server.Text.Base.{
  Text, text_eq, is_space, trim_end, split, split_from, starts_with, contains,
}

pub text_eq_iff : (s t : Text) → (text_eq s t ≡ true) ↔ (s ≡ t)
text_eq_iff [] [] = ground arith
text_eq_iff [] (b ∷ t) = ground arith
text_eq_iff (a ∷ s) [] = ground arith
text_eq_iff (a ∷ s) (b ∷ t) = ground (arith, text_eq_iff s t)

pub text_eq_refl : (s : Text) → text_eq s s ≡ true
text_eq_refl s = (text_eq_iff s s).1 refl

-- `split` makes one piece more than there are separators.
abbrev pub occurrences : ℕ → Text → ℕ
occurrences sep [] = 0
occurrences sep (c ∷ s) = (elim (c == sep) [ true ↦ 1 | false ↦ 0 ]) + occurrences sep s

pub length-split_from :
    (sep : ℕ) (s cur : Text) → length (split_from sep s cur) ≡ occurrences sep s + 1
unfolding split_from
length-split_from sep [] cur = omega arith
length-split_from sep (c ∷ s) cur =
    ground (arith, length-split_from sep s [], length-split_from sep s (cur ++ c ∷ []))

pub length-split : (sep : ℕ) (s : Text) → length (split sep s) ≡ occurrences sep s + 1
unfolding split
length-split sep s = length-split_from sep s []

-- A text that ends in no white space is kept by `trim_end`.
pub trim_end-append : (s : Text) (c : ℕ) → is_space c ≡ false → trim_end (s ++ c ∷ []) ≡ s ++ c ∷ []
unfolding trim_end
trim_end-append [] c h = ground arith
trim_end-append (d ∷ []) c h = ground (arith, trim_end-append [] c h)
trim_end-append (d ∷ e ∷ s) c h = ground (arith, trim_end-append (e ∷ s) c h)

pub starts_with-append : (p s : Text) → starts_with (p ++ s) p ≡ true
starts_with-append [] [] = refl
starts_with-append [] (c ∷ s) = refl
starts_with-append (c ∷ p) s = ground (arith, starts_with-append p s)

pub contains-append : (before p after : Text) → contains (before ++ (p ++ after)) p ≡ true
contains-append [] [] [] = refl
contains-append [] [] (c ∷ after) = refl
contains-append [] (c ∷ p) after = ground (arith, starts_with-append (c ∷ p) after)
contains-append (c ∷ before) p after = ground (arith, contains-append before p after)
