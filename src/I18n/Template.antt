-- ===== src/I18n/Template.antt =====
-- The placeholder substitution, against templates given as segments.
use haste_server.Prelude.{
  ℕ, ◌≡◌, ◌≢◌, refl, sym, ap, ◌∙◌, true, List, [], ◌∷◌, ◌++◌, append_assoc, append-nil, none, some,
  arith, All, any, if◌then◌else◌,
}
use haste_server.Text.{Text, text_eq, is_word}
use haste_server.Text.Objects.{get, inherited_names}
use haste_server.I18n.{Vars, fill, replace_from, replace}

pub data Segment : Type 0 where
  literal : Text → Segment
  hole : Text → Segment

-- A literal holds no `{`; the name of a hole is one or more word characters.
abbrev pub IsSegment : Segment → Type 0
IsSegment (literal s) = All (λ c. c ≢ b'{') s
IsSegment (hole name) = (name ≢ []) × All (λ c. is_word c ≡ true) name

abbrev pub print : List Segment → Text
print [] = []
print (literal s ∷ segs) = s ++ print segs
print (hole name ∷ segs) = b'{' ∷ (name ++ (b'}' ∷ print segs))

abbrev pub render : (Text → Text) → Vars → List Segment → Text
render inherited_text vars [] = []
render inherited_text vars (literal s ∷ segs) = s ++ render inherited_text vars segs
render inherited_text vars (hole name ∷ segs) =
    elim (get name vars) [
      | some value ↦ value
      | none ↦
          if any (text_eq name) inherited_names then inherited_text name else print (hole name ∷ [])
    ]
    ++ render inherited_text vars segs

fill-hole :
    (inherited_text : Text → Text) (vars : Vars) (name rest : Text)
    → fill inherited_text vars name ++ rest
      ≡ elim (get name vars) [
        | some value ↦ value
        | none ↦
            if any (text_eq name) inherited_names
            then inherited_text name
            else print (hole name ∷ [])
      ]
        ++ rest
unfolding fill
fill-hole inherited_text vars name rest = refl

replace_from-literal :
    (inherited_text : Text → Text) (vars : Vars) (s rest : Text)
    → All (λ c. c ≢ b'{') s
    → replace_from inherited_text vars (s ++ rest) none
      ≡ s ++ replace_from inherited_text vars rest none
unfolding replace_from
replace_from-literal inherited_text vars [] rest _ = refl
replace_from-literal inherited_text vars (c ∷ s) rest (p, q) =
    ground (arith, replace_from-literal inherited_text vars s rest q)

replace_from-close :
    (inherited_text : Text → Text) (vars : Vars) (name rest : Text)
    → name ≢ []
    → replace_from inherited_text vars (b'}' ∷ rest) (some name)
      ≡ fill inherited_text vars name ++ replace_from inherited_text vars rest none
unfolding replace_from
replace_from-close inherited_text vars [] rest h = absurd (h refl)
replace_from-close inherited_text vars (c ∷ name) rest h = refl

replace_from-word :
    (inherited_text : Text → Text) (vars : Vars) (c : ℕ) (s name : Text)
    → is_word c ≡ true
    → replace_from inherited_text vars (c ∷ s) (some name)
      ≡ replace_from inherited_text vars s (some (name ++ c ∷ []))
unfolding replace_from
replace_from-word inherited_text vars c s name h = rw (replace_from, h) refl

replace_from-hole :
    (inherited_text : Text → Text) (vars : Vars) (name rest read : Text)
    → All (λ c. is_word c ≡ true) name
    → read ++ name ≢ []
    → replace_from inherited_text vars (name ++ (b'}' ∷ rest)) (some read)
      ≡ fill inherited_text vars (read ++ name) ++ replace_from inherited_text vars rest none
replace_from-hole inherited_text vars [] rest read _ h =
    let e = append-nil read in
    replace_from-close inherited_text vars read rest (λ p. h (e ∙ p))
    ∙ ap (λ t. fill inherited_text vars t ++ replace_from inherited_text vars rest none) (sym e)
replace_from-hole inherited_text vars (c ∷ name) rest read (p, q) h =
    let e = append_assoc read (c ∷ []) name in
    replace_from-word inherited_text vars c (name ++ (b'}' ∷ rest)) read p
    ∙ replace_from-hole inherited_text vars name rest (read ++ c ∷ []) q (λ k. h (sym e ∙ k))
    ∙ ap (λ t. fill inherited_text vars t ++ replace_from inherited_text vars rest none) e

replace_from-open :
    (inherited_text : Text → Text) (vars : Vars) (s : Text)
    → replace_from inherited_text vars (b'{' ∷ s) none
      ≡ replace_from inherited_text vars s (some [])
unfolding replace_from
replace_from-open inherited_text vars s = refl

-- A template is filled segment by segment: literals are kept, each hole that `vars` has a value for gets
-- that value, each other one that names a property of `Object.prototype` gets the text of that, as
-- `in` finds inherited properties, and each hole besides stays as it is written.
pub replace-print :
    (inherited_text : Text → Text) (vars : Vars) (segs : List Segment)
    → All IsSegment segs
    → replace inherited_text vars (print segs) ≡ render inherited_text vars segs
unfolding replace replace_from
replace-print inherited_text vars [] _ = refl
replace-print inherited_text vars (literal s ∷ segs) (p, q) =
    replace_from-literal inherited_text vars s (print segs) p
    ∙ ap (λ t. s ++ t) (replace-print inherited_text vars segs q)
replace-print inherited_text vars (hole name ∷ segs) ((n, w), q) =
    replace_from-open inherited_text vars (name ++ (b'}' ∷ print segs))
    ∙ replace_from-hole inherited_text vars name (print segs) [] w n
    ∙ ap (λ t. fill inherited_text vars name ++ t) (replace-print inherited_text vars segs q)
    ∙ fill-hole inherited_text vars name (render inherited_text vars segs)
