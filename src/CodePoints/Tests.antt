-- ===== src/CodePoints/Tests.antt =====
-- Cases of web/src/lib/utils.test.ts.
use haste_server.Prelude.{arith, ◌≡◌, refl, [], ◌∷◌, length}
use haste_server.Text.{codes}
use haste_server.CodePoints.{count_code_points}
use haste_server.CodePoints.Laws.{code_points, count_code_points-code_points}

counts :
    (count_code_points (codes "héllo") ≡ 5)
    × (count_code_points (codes "a👋b") ≡ 3)
    × (count_code_points (codes "👋👋") ≡ 2)
    × (count_code_points (0x61 ∷ 0xd800 ∷ []) ≡ 2)
unfolding count_code_points
counts = (refl, refl, refl, refl)

count_code_points-code_points_example :
    count_code_points (codes "a👋b") ≡ length (code_points (codes "a👋b"))
count_code_points-code_points_example = count_code_points-code_points (codes "a👋b") (ground arith)
