-- ===== src/Aoi/NineMap/Moves.antt =====
-- What the tables say of a move by one cell: who comes into view and who leaves it.
use integration_server.Prelude.{
  ℕ, ◌+◌, ◌-◌, ◌%◌, ◌<◌, ◌≡◌, refl, sym, ◌∙◌, ◌↔◌, inl, inr, ◌||◌, ◌==◌, arith, Elem, Bool-cases,
}
use integration_server.Aoi.NineMap.{direct_cells, reverse_cells}
use integration_server.Aoi.NineMap.Near.{shift, Small, At, Within, side_cells-At}
use integration_server.Aoi.NineMap.Sides.{
  direct_start, reverse_start, far_behind, far_ahead, direct-Holds, reverse-Holds,
}
use integration_server.Aoi.NineMap.Around.{Around, shift_le, coord_unique}

direct_cells-At :
    (sx sy x y dir c : ℕ)
    → Small sx sy
    → x < sx
    → y < sy
    → Elem c (direct_cells sx sy x y dir)
      ↔ Within
          (direct_start dir).0
          (direct_start dir).1
          (λ j. At sx sy x y (shift ((j + dir) % 8)) c)
unfolding direct_cells
direct_cells-At sx sy x y dir c small hx hy = elim (Bool-cases (dir % 2 == 1)) [
  | inl e ↦ rw e (side_cells-At sx sy x y dir 5 6 c small hx hy)
  | inr e ↦ rw e (side_cells-At sx sy x y dir 3 7 c small hx hy)
]

reverse_cells-At :
    (sx sy x y dir c : ℕ)
    → Small sx sy
    → x < sx
    → y < sy
    → Elem c (reverse_cells sx sy x y dir)
      ↔ Within
          (reverse_start dir).0
          (reverse_start dir).1
          (λ j. At sx sy x y (shift ((j + dir) % 8)) c)
unfolding reverse_cells
reverse_cells-At sx sy x y dir c small hx hy = elim (Bool-cases (dir % 2 == 1)) [
  | inl e ↦ rw e (side_cells-At sx sy x y dir 5 2 c small hx hy)
  | inr e ↦ rw e (side_cells-At sx sy x y dir 3 3 c small hx hy)
]

-- A step in a direction, from (x, y) to (x', y').
abbrev pub Moves : ℕ → ℕ → ℕ → ℕ → ℕ → Type 0
Moves dir x y x' y' = (x + (shift dir).0 ≡ x' + 1) × (y + (shift dir).1 ≡ y' + 1)

-- For a step in one of the eight directions to a cell on a map whose numbers of sectors are below
-- 2^31 and whose number of cells is at most 2^32, the direct table of the new cell holds exactly
-- the cells that are around the new cell and not around the old one.
pub direct_cells-Around :
    (sx sy x y x' y' dir c : ℕ)
    → Small sx sy
    → x' < sx
    → y' < sy
    → dir < 8
    → Moves dir x y x' y'
    → Elem c (direct_cells sx sy x' y' dir) ↔ (Around sx sy x' y' c × (Around sx sy x y c → ⊥))
direct_cells-Around sx sy x y x' y' dir c small hx hy hd moves = (there, back)
  where
    cells :
        Elem c (direct_cells sx sy x' y' dir)
        ↔ Within
            (direct_start dir).0
            (direct_start dir).1
            (λ j. At sx sy x' y' (shift ((j + dir) % 8)) c)
    cells = direct_cells-At sx sy x' y' dir c small hx hy

    there : Elem c (direct_cells sx sy x' y' dir) → Around sx sy x' y' c × (Around sx sy x y c → ⊥)
    there m =
        let (j, a, b, (cx, cy, lx, ly, qx, qy, q)) = cells.0 m in
        let s = shift_le ((j + dir) % 8) in
        let far =
          (direct-Holds dir (shift ((j + dir) % 8)).0 (shift ((j + dir) % 8)).1 hd
              (omega (arith, s)) (omega (arith, s))).0
            (j, a, b, (refl, refl)) in
        (
          (
            cx,
            cy,
            lx,
            ly,
            omega (arith, qx, s),
            omega (arith, qx),
            omega (arith, qy, s),
            omega (arith, qy),
            q,
          ),
          λ (dx, dy, kx, ky, u, v, w, z, q').
              let same = coord_unique sx cx cy dx dy lx kx (sym q ∙ q') in
              ground (arith, far, same, qx, qy, moves, u, v, w, z),
        )

    back : Around sx sy x' y' c × (Around sx sy x y c → ⊥) → Elem c (direct_cells sx sy x' y' dir)
    back ((cx, cy, lx, ly, a, b, d, e, q), old) =
        elim (Bool-cases
          (far_behind (shift dir).0 (cx + 1 - x') || far_behind (shift dir).1 (cy + 1 - y'))) [
            | inl far ↦
                (let (j, u, v, (ex, ey)) =
                    (direct-Holds dir (cx + 1 - x') (cy + 1 - y') hd (omega (arith, a))
                        (omega (arith, d))).1
                      far in
                  cells.1
                    (j, u, v, (cx, cy, lx, ly, omega (arith, ex, b), omega (arith, ey, e), q)))
            | inr near ↦ absurd (
                old (
                  cx,
                  cy,
                  lx,
                  ly,
                  ground (arith, near, moves, a, b),
                  ground (arith, near, moves, a, b),
                  ground (arith, near, moves, d, e),
                  ground (arith, near, moves, d, e),
                  q,
                ))
          ]

-- For a step in one of the eight directions from a cell on a map whose numbers of sectors are below
-- 2^31 and whose number of cells is at most 2^32, the reverse table of the old cell holds exactly
-- the cells that are around the old cell and not around the new one.
pub reverse_cells-Around :
    (sx sy x y x' y' dir c : ℕ)
    → Small sx sy
    → x < sx
    → y < sy
    → dir < 8
    → Moves dir x y x' y'
    → Elem c (reverse_cells sx sy x y dir) ↔ (Around sx sy x y c × (Around sx sy x' y' c → ⊥))
reverse_cells-Around sx sy x y x' y' dir c small hx hy hd moves = (there, back)
  where
    cells :
        Elem c (reverse_cells sx sy x y dir)
        ↔ Within
            (reverse_start dir).0
            (reverse_start dir).1
            (λ j. At sx sy x y (shift ((j + dir) % 8)) c)
    cells = reverse_cells-At sx sy x y dir c small hx hy

    there : Elem c (reverse_cells sx sy x y dir) → Around sx sy x y c × (Around sx sy x' y' c → ⊥)
    there m =
        let (j, a, b, (cx, cy, lx, ly, qx, qy, q)) = cells.0 m in
        let s = shift_le ((j + dir) % 8) in
        let far =
          (reverse-Holds dir (shift ((j + dir) % 8)).0 (shift ((j + dir) % 8)).1 hd
              (omega (arith, s)) (omega (arith, s))).0
            (j, a, b, (refl, refl)) in
        (
          (
            cx,
            cy,
            lx,
            ly,
            omega (arith, qx, s),
            omega (arith, qx),
            omega (arith, qy, s),
            omega (arith, qy),
            q,
          ),
          λ (dx, dy, kx, ky, u, v, w, z, q').
              let same = coord_unique sx cx cy dx dy lx kx (sym q ∙ q') in
              ground (arith, far, same, qx, qy, moves, u, v, w, z),
        )

    back : Around sx sy x y c × (Around sx sy x' y' c → ⊥) → Elem c (reverse_cells sx sy x y dir)
    back ((cx, cy, lx, ly, a, b, d, e, q), old) =
        elim (Bool-cases
          (far_ahead (shift dir).0 (cx + 1 - x) || far_ahead (shift dir).1 (cy + 1 - y))) [
            | inl far ↦
                (let (j, u, v, (ex, ey)) =
                    (reverse-Holds dir (cx + 1 - x) (cy + 1 - y) hd (omega (arith, a))
                        (omega (arith, d))).1
                      far in
                  cells.1
                    (j, u, v, (cx, cy, lx, ly, omega (arith, ex, b), omega (arith, ey, e), q)))
            | inr near ↦ absurd (
                old (
                  cx,
                  cy,
                  lx,
                  ly,
                  ground (arith, near, moves, a, b),
                  ground (arith, near, moves, a, b),
                  ground (arith, near, moves, d, e),
                  ground (arith, near, moves, d, e),
                  q,
                ))
          ]
