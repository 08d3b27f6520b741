-- ===== src/CodePoints.antt =====
-- web/src/lib/utils.ts: `countCodePoints`.
mod Laws
mod Tests
use haste_server.Prelude.{
  ℕ, ◌-◌, ◌*◌, ◌/◌, ◌%◌, ◌^◌, Bool, true, false, ◌&&◌, [], ◌∷◌, ◌==◌, length,
}
use haste_server.Text.{Text}

-- `unit & 0xfc00`, the bits 10 to 15 of a code unit.
abbrev pub high_bits : ℕ → ℕ
high_bits unit = unit / 2 ^ 10 % 2 ^ 6 * 2 ^ 10

-- A high surrogate followed by a low one.
is_pair : ℕ → ℕ → Bool
is_pair unit next = high_bits unit == 0xd800 && high_bits next == 0xdc00

-- The loop over `i`, on the code units from `i` on; it stops at the last one.
count_from : ℕ → Text → ℕ
count_from count [] = count
count_from count (unit ∷ []) = count
count_from count (unit ∷ next ∷ rest) = elim (is_pair unit next) [
  | true ↦ count_from (count - 1) rest
  | false ↦ count_from count (next ∷ rest)
]

unfoldable pub count_code_points : Text → ℕ
unfolding count_from is_pair
count_code_points s = count_from (length s) s
