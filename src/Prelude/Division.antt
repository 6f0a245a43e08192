-- ===== src/Prelude/Division.antt =====
-- Division by a variable.
use native.Mathlib.Nat.{div-add-mod', mod-lt}
use torrest_cpp.Prelude.{ℕ, ◌/◌, ◌≤◌, ◌<◌, arith}

pub div_mono : (a b l : ℕ) → 0 < l → a ≤ b → a / l ≤ b / l
div_mono a b l l_pos h =
    let e = div-add-mod' a l in
    let f = div-add-mod' b l in
    let lt = mod-lt a l_pos in let lt' = mod-lt b l_pos in grind (arith, e, f, lt, lt')
