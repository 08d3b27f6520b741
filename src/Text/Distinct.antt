-- ===== src/Text/Distinct.antt =====
-- Lists of texts in which none stands twice.
use haste_server.Prelude.{
  suc, ◌≡◌, inl, inr, refl, sym, ap, ◌∙◌, Bool, true, false, not, ◌&&◌, List, [], ◌∷◌, length,
  filter, any, Memᴰ, any_complete, &&-eq-true, Bool-cases,
}
use haste_server.Text.Base.{Text, text_eq}
use haste_server.Text.Laws.{text_eq_iff}

unfoldable pub is_distinct : List Text → Bool
is_distinct [] = true
is_distinct (k ∷ keys) = not (any (text_eq k) keys) && is_distinct keys

filter-none :
    (value : Text) (keys : List Text)
    → any (text_eq value) keys ≡ false
    → filter (text_eq value) keys ≡ []
filter-none value [] h = refl
filter-none value (k ∷ keys) h = elim (Bool-cases (text_eq value k)) [
  | inl same ↦ absurd (cc (sym (rw (any, same) at h)))
  | inr differs ↦ rw (filter, differs) (filter-none value keys (rw (any, differs) at h))
]

-- Of those in such a list, a text is equal to one only.
pub filter-one :
    (value : Text) (keys : List Text)
    → is_distinct keys ≡ true
    → Memᴰ value keys
    → length (filter (text_eq value) keys) ≡ 1
unfolding is_distinct
filter-one value [] h m = elim m [ ]
filter-one value (k ∷ keys) h (Memᴰ.head e) =
    let fresh = (&&-eq-true (not (any (text_eq k) keys)) (is_distinct keys) h).0 in
    let same = (text_eq_iff value k).1 e in
    rw (filter, same)
      (ap (λ l. suc (length l))
        (filter-none value keys
          (ap (λ v. any (text_eq v) keys) e ∙ not_true (any (text_eq k) keys) fresh)))
  where
    not_true : (b : Bool) → not b ≡ true → b ≡ false
    not_true true h = cc h
    not_true false h = refl
filter-one value (k ∷ keys) h (Memᴰ.tail m) = elim (Bool-cases (text_eq value k)) [
  | inr differs ↦
      rw (filter, differs)
        (filter-one value keys (&&-eq-true (not (any (text_eq k) keys)) (is_distinct keys) h).1 m)
  | inl same ↦
      let e = (text_eq_iff value k).0 same in
      let there = any_complete (text_eq k) keys m ((text_eq_iff k value).1 (sym e)) in
      absurd
        (cc (sym (&&-eq-true (not (any (text_eq k) keys)) (is_distinct keys) h).0 ∙ ap not there))
]
