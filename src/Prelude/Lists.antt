-- ===== src/Prelude/Lists.antt =====
-- Lists measured by native numbers, Boolean searches and predicates over lists.
use Prim.Native.Nat.{ℕ, zero, suc, ◌+◌}
use haste_server.Prelude.Tests.{Bool-cases, &&-eq-true, if◌then◌else◌}
use mathlib.Core.Path.{◌≡◌, refl, ap}
use mathlib.Core.Bool.{Bool, true, false, ◌&&◌, ◌||◌}
use mathlib.Core.List.{List, [], ◌∷◌, ◌++◌, map, Memᴰ}
use mathlib.Core.Logic.{inl, inr}
use native.Mathlib.Omega.{arith}

module _ {ℓ} {A : Type ℓ} where
  abbrev pub length : List A → ℕ
  length [] = 0
  length (x ∷ xs) = suc (length xs)

  abbrev pub take : ℕ → List A → List A
  take zero xs = []
  take (suc n) [] = []
  take (suc n) (x ∷ xs) = x ∷ take n xs

  abbrev pub drop : ℕ → List A → List A
  drop zero xs = xs
  drop (suc n) [] = []
  drop (suc n) (x ∷ xs) = drop n xs

  abbrev pub any : (A → Bool) → List A → Bool
  any p [] = false
  any p (x ∷ xs) = p x || any p xs

  abbrev pub all : (A → Bool) → List A → Bool
  all p [] = true
  all p (x ∷ xs) = p x && all p xs

  abbrev pub filter : (A → Bool) → List A → List A
  filter p [] = []
  filter p (x ∷ xs) = let rest = filter p xs in if p x then x ∷ rest else rest

  pub length-append : (xs ys : List A) → length (xs ++ ys) ≡ length xs + length ys
  length-append [] ys = omega arith
  length-append (x ∷ xs) ys = omega (arith, length-append xs ys)

module _ {ℓ κ} {A : Type ℓ} (P : A → Type κ) where
  abbrev pub All : List A → Type κ
  All [] = Unit
  All (x ∷ xs) = P x × All xs

  pub All-append : (xs ys : List A) → All xs → All ys → All (xs ++ ys)
  All-append [] ys _ hy = hy
  All-append (x ∷ xs) ys (px, hx) hy = (px, All-append xs ys hx hy)

-- A Boolean test that holds of a list holds of each of its members.
pub all_sound {ℓ} :
    {A : Type ℓ} (p : A → Bool) (xs : List A) {x : A} → all p xs ≡ true → Memᴰ x xs → p x ≡ true
all_sound p [] h m = elim m [ ]
all_sound p (x ∷ xs) h (Memᴰ.head e) = rw e (&&-eq-true (p x) (all p xs) h).0
all_sound p (x ∷ xs) h (Memᴰ.tail m) = all_sound p xs (&&-eq-true (p x) (all p xs) h).1 m

pub any_complete {ℓ} :
    {A : Type ℓ} (p : A → Bool) (xs : List A) {x : A} → Memᴰ x xs → p x ≡ true → any p xs ≡ true
any_complete p [] m h = elim m [ ]
any_complete p (x ∷ xs) (Memᴰ.head e) h = rw (← e) (rw h refl)
any_complete p (x ∷ xs) (Memᴰ.tail m) h = ground (arith, any_complete p xs m h)

pub any_sound {ℓ} :
    {A : Type ℓ} (p : A → Bool) (xs : List A) → any p xs ≡ true → (x : A) × Memᴰ x xs × (p x ≡ true)
any_sound p [] h = cc
any_sound p (x ∷ xs) h = elim (Bool-cases (p x)) [
  | inl here ↦ (x, Memᴰ.head refl, here)
  | inr there ↦ let (y, m, e) = any_sound p xs (rw there at h) in (y, Memᴰ.tail m, e)
]

pub filter_complete {ℓ} :
    {A : Type ℓ} (p : A → Bool) (xs : List A) {x : A}
    → Memᴰ x xs
    → p x ≡ true
    → Memᴰ x (filter p xs)
filter_complete p [] m h = elim m [ ]
filter_complete p (y ∷ xs) {x} (Memᴰ.head e) h =
    let hy : p y ≡ true = rw (← e) h in rw (filter, hy) (Memᴰ.head e)
filter_complete p (y ∷ xs) (Memᴰ.tail m) h = elim (Bool-cases (p y)) [
  | inl e ↦ rw (filter, e) (Memᴰ.tail (filter_complete p xs m h))
  | inr e ↦ rw (filter, e) (filter_complete p xs m h)
]

pub map_complete {ℓ κ} :
    {A : Type ℓ} {B : Type κ} (f : A → B) (xs : List A) {x : A} → Memᴰ x xs → Memᴰ (f x) (map f xs)
map_complete f [] m = elim m [ ]
map_complete f (y ∷ xs) (Memᴰ.head e) = Memᴰ.head (ap f e)
map_complete f (y ∷ xs) (Memᴰ.tail m) = Memᴰ.tail (map_complete f xs m)

pub map_sound {ℓ κ} :
    {A : Type ℓ} {B : Type κ} (f : A → B) (xs : List A) {y : B}
    → Memᴰ y (map f xs)
    → (x : A) × Memᴰ x xs × (y ≡ f x)
map_sound f [] m = elim m [ ]
map_sound f (x ∷ xs) (Memᴰ.head e) = (x, Memᴰ.head refl, e)
map_sound f (x ∷ xs) (Memᴰ.tail m) = let (z, there, e) = map_sound f xs m in (z, Memᴰ.tail there, e)

Memᴰ-cons_mono {ℓ} :
    {A : Type ℓ} {xs ys : List A} {x y : A}
    → (Memᴰ x xs → Memᴰ x ys)
    → Memᴰ x (y ∷ xs)
    → Memᴰ x (y ∷ ys)
Memᴰ-cons_mono f (Memᴰ.head e) = Memᴰ.head e
Memᴰ-cons_mono f (Memᴰ.tail m) = Memᴰ.tail (f m)

pub filter_sound {ℓ} :
    {A : Type ℓ} (p : A → Bool) (xs : List A) {x : A} → Memᴰ x (filter p xs) → Memᴰ x xs
filter_sound p [] m = elim m [ ]
filter_sound p (y ∷ xs) m = elim (Bool-cases (p y)) [
  | inl e ↦ Memᴰ-cons_mono (filter_sound p xs) (rw (e, filter) at m)
  | inr e ↦ Memᴰ.tail (filter_sound p xs (rw (e, filter) at m))
]

module _ {ℓ} {A : Type ℓ} where
  pub take-length-append : (xs ys : List A) → take (length xs) (xs ++ ys) ≡ xs
  take-length-append [] ys = refl
  take-length-append (x ∷ xs) ys = ap (λ l. x ∷ l) (take-length-append xs ys)

  pub drop-length-append : (xs ys : List A) → drop (length xs) (xs ++ ys) ≡ ys
  drop-length-append [] ys = refl
  drop-length-append (x ∷ xs) ys = drop-length-append xs ys
