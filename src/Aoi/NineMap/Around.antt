-- ===== src/Aoi/NineMap/Around.antt =====
-- The nine cells of a cell, on the map.
use native.Mathlib.Nat.{mul-add-mod_self_right, mod-eq_of_lt, mul-add-div_right, div-eq_of_lt}
use integration_server.Prelude.{
  ℕ, zero, suc, ◌+◌, ◌-◌, ◌*◌, ◌/◌, ◌%◌, ◌≤◌, ◌<◌, ◌≡◌, refl, sym, ap, ◌∙◌, ◌↔◌, arith, Elem,
}
use integration_server.Aoi.NineMap.{nine_cells}
use integration_server.Aoi.NineMap.Near.{
  shift, offset, Stands, offset-Stands, Small, At, Within, nine_cells-At,
}

-- The cell of index `c` is on the map, at most one step from (x, y) on both axes.
abbrev pub Around : ℕ → ℕ → ℕ → ℕ → ℕ → Type 0
Around sx sy x y c =
    (cx : ℕ) × (cy : ℕ) × (cx < sx)
    × (cy < sy)
    × (cx ≤ x + 1)
    × (x ≤ cx + 1)
    × (cy ≤ y + 1)
    × (y ≤ cy + 1)
    × (c ≡ cy * sx + cx)

Stands-le : (o s : ℕ) → Stands o s → s ≤ 2
Stands-le o s t = omega (arith, t)

pub shift_le : (j : ℕ) → ((shift j).0 ≤ 2) × ((shift j).1 ≤ 2)
shift_le j = (
  Stands-le (offset j).0 (shift j).0 (offset-Stands j).0,
  Stands-le (offset j).1 (shift j).1 (offset-Stands j).1,
)

-- Every shift has an index.
index_of : (dx dy : ℕ) → dx < 3 → dy < 3 → Within 0 9 (λ j. ((shift j).0 ≡ dx) × ((shift j).1 ≡ dy))
index_of zero zero a b = (7, omega arith, omega arith, (refl, refl))
index_of zero (suc zero) a b = (6, omega arith, omega arith, (refl, refl))
index_of zero (suc (suc zero)) a b = (5, omega arith, omega arith, (refl, refl))
index_of (suc zero) zero a b = (0, omega arith, omega arith, (refl, refl))
index_of (suc zero) (suc zero) a b = (8, omega arith, omega arith, (refl, refl))
index_of (suc zero) (suc (suc zero)) a b = (4, omega arith, omega arith, (refl, refl))
index_of (suc (suc zero)) zero a b = (1, omega arith, omega arith, (refl, refl))
index_of (suc (suc zero)) (suc zero) a b = (2, omega arith, omega arith, (refl, refl))
index_of (suc (suc zero)) (suc (suc zero)) a b = (3, omega arith, omega arith, (refl, refl))
index_of dx (suc (suc (suc m))) a b = absurd (omega (arith, b))
index_of (suc (suc (suc n))) dy a b = absurd (omega (arith, a))

-- The nine cells of a cell on a map whose numbers of sectors are below 2^31 and whose number of
-- cells is at most 2^32 are exactly the cells on the map at most one step away on both axes.
pub nine_cells-Around :
    (sx sy x y c : ℕ)
    → Small sx sy
    → x < sx
    → y < sy
    → Elem c (nine_cells sx sy x y 9 0) ↔ Around sx sy x y c
nine_cells-Around sx sy x y c small hx hy = (there, back)
  where
    cells : Elem c (nine_cells sx sy x y 9 0) ↔ Within 0 9 (λ j. At sx sy x y (shift j) c)
    cells = nine_cells-At sx sy x y 9 0 c small hx hy

    there : Elem c (nine_cells sx sy x y 9 0) → Around sx sy x y c
    there m =
        let (j, _, _, (cx, cy, lx, ly, qx, qy, q)) = cells.0 m in
        let s = shift_le j in
        (
          cx,
          cy,
          lx,
          ly,
          omega (arith, qx, s),
          omega (arith, qx),
          omega (arith, qy, s),
          omega (arith, qy),
          q,
        )

    back : Around sx sy x y c → Elem c (nine_cells sx sy x y 9 0)
    back (cx, cy, lx, ly, a, b, d, e, q) =
        let (j, u, v, (ex, ey)) =
          index_of (cx + 1 - x) (cy + 1 - y) (omega (arith, a)) (omega (arith, d)) in
        cells.1 (j, u, v, (cx, cy, lx, ly, omega (arith, ex, b), omega (arith, ey, e), q))

pub coord_unique :
    (sx cx cy dx dy : ℕ) → cx < sx → dx < sx → cy * sx + cx ≡ dy * sx + dx → (cx ≡ dx) × (cy ≡ dy)
coord_unique sx cx cy dx dy h k e = (same_x, same_y)
  where
    same_x : cx ≡ dx
    same_x =
        sym (mod-eq_of_lt h)
        ∙ sym (mul-add-mod_self_right cy sx cx)
        ∙ ap (λ (n : ℕ). n % sx) e
        ∙ mul-add-mod_self_right dy sx dx
        ∙ mod-eq_of_lt k

    divided : (z w : ℕ) → w < sx → (z * sx + w) / sx ≡ z
    divided z w l =
        mul-add-div_right {m = sx} (omega (arith, l)) z w ∙ omega (arith, div-eq_of_lt l)

    same_y : cy ≡ dy
    same_y = sym (divided cy cx h) ∙ ap (λ (n : ℕ). n / sx) e ∙ divided dy dx k
