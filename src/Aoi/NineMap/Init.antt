-- ===== src/Aoi/NineMap/Init.antt =====
-- NineMap::init as a whole.
use native.Mathlib.Nat.{mul-le-mul_right}
use integration_server.Prelude.{
  ℕ, zero, suc, ◌+◌, ◌-◌, ◌*◌, ◌/◌, ◌%◌, ◌^◌, ◌<◌, ◌≡◌, refl, sym, ap, subst, ◌∙◌, List, [], ◌∷◌,
  some, arith, get_or, replicate, length,
}
use integration_server.Prelude.Map.{find}
use integration_server.Aoi.NineMap.{
  NineMap, new_nine_map, nine_cells, direct_cells, reverse_cells, fill_cell, fill_row, fill_rows,
  init_sizes, init,
}
use integration_server.Aoi.NineMap.Near.{Small}
use integration_server.Aoi.NineMap.Filled.{
  Table, Filled, FilledDirs, FilledMap, fill_cell-FilledMap,
}

-- The loops keep the sizes, and fill row after row.
abbrev SameSize : NineMap → NineMap → Type 0
SameSize m m' = (m'.max_sector_x ≡ m.max_sector_x) × (m'.max_sector_y ≡ m.max_sector_y)

fill_row-FilledMap :
    (n x y : ℕ) (m : NineMap)
    → Small m.max_sector_x m.max_sector_y
    → x + n ≡ m.max_sector_x
    → y < m.max_sector_y
    → FilledMap (y * m.max_sector_x + x) m
    → SameSize m (fill_row n x y m)
      × FilledMap (y * m.max_sector_x + m.max_sector_x) (fill_row n x y m)
unfolding fill_row fill_cell
fill_row-FilledMap zero x y m small e hy f =
    ((refl, refl), subst (λ (k : ℕ). FilledMap (y * m.max_sector_x + k) m) (omega (arith, e)) f)
fill_row-FilledMap (suc n) x y m small e hy f =
    fill_row-FilledMap n (x + 1) y (fill_cell x y m) small (omega (arith, e)) hy (
      subst (λ (k : ℕ). FilledMap k (fill_cell x y m)) (omega arith)
        (fill_cell-FilledMap x y m small (omega (arith, e)) hy f))

fill_rows-FilledMap :
    (n y : ℕ) (m : NineMap)
    → Small m.max_sector_x m.max_sector_y
    → y + n ≡ m.max_sector_y
    → FilledMap (y * m.max_sector_x) m
    → SameSize m (fill_rows n y m) × FilledMap (m.max_sector_y * m.max_sector_x) (fill_rows n y m)
unfolding fill_rows
fill_rows-FilledMap zero y m small e f =
    ((refl, refl), subst (λ (k : ℕ). FilledMap (k * m.max_sector_x) m) (omega (arith, e)) f)
fill_rows-FilledMap (suc n) y m small e f =
    let row =
      fill_row-FilledMap m.max_sector_x 0 y m small (omega arith) (omega (arith, e))
        (subst (λ (k : ℕ). FilledMap k m) (omega arith) f) in
    let m' = fill_row m.max_sector_x 0 y m in
    let (same_x, same_y) = row.0 in
    let small' : Small m'.max_sector_x m'.max_sector_y =
      subst (λ (k : ℕ). Small k m'.max_sector_y) (sym same_x)
        (subst (λ (k : ℕ). Small m.max_sector_x k) (sym same_y) small) in
    let next : y * m.max_sector_x + m.max_sector_x ≡ (y + 1) * m'.max_sector_x =
      omega arith ∙ ap (λ (k : ℕ). (y + 1) * k) (sym same_x) in
    let (same, filled) =
      fill_rows-FilledMap n (y + 1) m' small' (omega (arith, e, same_y))
        (subst (λ (k : ℕ). FilledMap k m') next row.1) in
    (
      (same.0 ∙ same_x, same.1 ∙ same_y),
      subst (λ (k : ℕ). FilledMap k (fill_rows n (y + 1) m'))
          (ap (λ (k : ℕ). k * m'.max_sector_x) same_y ∙ ap (λ (k : ℕ). m.max_sector_y * k) same_x)
          filled,
    )

-- The sizes of a map of `max_x` by `max_y`.
abbrev pub sectors : ℕ → ℕ
sectors length = (length + 30 + 2 ^ 32 - 1) % 2 ^ 32 / 30

empty-FilledDirs :
    (sx sy : ℕ) (cells : ℕ → ℕ → ℕ → List ℕ) (dir n : ℕ)
    → FilledDirs sx sy cells 0 dir (replicate n [])
unfolding FilledDirs find
empty-FilledDirs sx sy cells dir zero = tt
empty-FilledDirs sx sy cells dir (suc n) = (
  record {
    ordered = tt;
    some_cell = λ x y _ _ l. absurd (omega (arith, l));
    no_cell = λ k _. refl;
  },
  empty-FilledDirs sx sy cells (dir + 1) n,
)

init_sizes-FilledMap : (max_x max_y : ℕ) → FilledMap 0 (init_sizes max_x max_y new_nine_map)
unfolding init_sizes find
init_sizes-FilledMap max_x max_y = record {
  nine = record {
    ordered = tt;
    some_cell = λ x y _ _ l. absurd (omega (arith, l));
    no_cell = λ k _. refl;
  };
  direct =
      empty-FilledDirs (sectors max_x) (sectors max_y)
        (direct_cells (sectors max_x) (sectors max_y)) 0 8;
  reverse =
      empty-FilledDirs (sectors max_x) (sectors max_y)
        (reverse_cells (sectors max_x) (sectors max_y)) 0 8;
  directs = refl;
  reverses = refl;
}

FilledDirs-get_or :
    (sx sy : ℕ) (cells : ℕ → ℕ → ℕ → List ℕ) (n first i dir : ℕ) (ms : List Table)
    → FilledDirs sx sy cells n first ms
    → i < length ms
    → first + i ≡ dir
    → Filled sx sy (λ x y. cells x y dir) n (get_or ms i [])
unfolding FilledDirs
FilledDirs-get_or sx sy cells n first i dir [] f l e = absurd (omega (arith, l))
FilledDirs-get_or sx sy cells n first zero dir (m ∷ ms) f l e =
    subst (λ (k : ℕ). Filled sx sy (λ x y. cells x y k) n m) (omega (arith, e)) f.0
FilledDirs-get_or sx sy cells n first (suc i) dir (m ∷ ms) f l e =
    FilledDirs-get_or sx sy cells n (first + 1) i dir ms f.1 (omega (arith, l)) (omega (arith, e))

-- The tables of a map say of cell (x, y) what they should.
abbrev pub Tabled : NineMap → ℕ → ℕ → ℕ → ℕ → Type 0
Tabled m sx sy x y =
    (find (y * sx + x) m.nine_map ≡ some (nine_cells sx sy x y 9 0))
    × ((dir : ℕ)
        → dir < 8
        → (find (y * sx + x) (get_or m.direct_map dir []) ≡ some (direct_cells sx sy x y dir))
          × (find (y * sx + x) (get_or m.reverse_direct_map dir [])
              ≡ some (reverse_cells sx sy x y dir)))

cell_lt : (cx cy sx sy : ℕ) → cx < sx → cy < sy → cy * sx + cx < sy * sx
cell_lt cx cy sx sy h k = omega (arith, mul-le-mul_right {m = cy + 1} {n = sy} sx (omega arith))

FilledMap-Tabled :
    (m : NineMap) (sx sy x y : ℕ)
    → m.max_sector_x ≡ sx
    → m.max_sector_y ≡ sy
    → FilledMap (sy * sx) m
    → x < sx
    → y < sy
    → Tabled m sx sy x y
FilledMap-Tabled m sx sy x y ex ey f hx hy =
    subst (λ (a : ℕ). Tabled m a sy x y) ex
      (subst (λ (b : ℕ). Tabled m m.max_sector_x b x y) ey here)
  where
    hx' : x < m.max_sector_x
    hx' = omega (arith, hx, ex)

    hy' : y < m.max_sector_y
    hy' = omega (arith, hy, ey)

    below : y * m.max_sector_x + x < sy * sx
    below =
        subst (λ (k : ℕ). y * m.max_sector_x + x < k)
          (ap (λ (k : ℕ). k * m.max_sector_x) ey ∙ ap (λ (k : ℕ). sy * k) ex)
          (cell_lt x y m.max_sector_x m.max_sector_y hx' hy')

    here : Tabled m m.max_sector_x m.max_sector_y x y
    here = (
      f.nine.some_cell x y hx' hy' below,
      λ dir hd. (
        (FilledDirs-get_or m.max_sector_x m.max_sector_y
              (direct_cells m.max_sector_x m.max_sector_y) (sy * sx) 0 dir dir m.direct_map f.direct
              (omega (arith, hd, f.directs)) (omega arith)).some_cell
            x y hx' hy' below,
        (FilledDirs-get_or m.max_sector_x m.max_sector_y
              (reverse_cells m.max_sector_x m.max_sector_y) (sy * sx) 0 dir dir m.reverse_direct_map
              f.reverse (omega (arith, hd, f.reverses)) (omega arith)).some_cell
            x y hx' hy' below,
      ),
    )

-- After NineMap::init on a new map, every cell of a map whose numbers of sectors are below 2^31 and
-- whose number of cells is at most 2^32 has its nine cells, its direct cells and its reverse cells
-- of each of the eight directions in the tables, under its own key.
pub init-Tabled :
    (max_x max_y x y : ℕ)
    → Small (sectors max_x) (sectors max_y)
    → x < sectors max_x
    → y < sectors max_y
    → Tabled (init max_x max_y new_nine_map).1 (sectors max_x) (sectors max_y) x y
unfolding init init_sizes
init-Tabled max_x max_y x y small hx hy =
    let m0 = init_sizes max_x max_y new_nine_map in
    let (same, filled) =
      fill_rows-FilledMap (sectors max_y) 0 m0 small (omega arith)
        (subst (λ (k : ℕ). FilledMap k m0) (omega arith) (init_sizes-FilledMap max_x max_y)) in
    FilledMap-Tabled (fill_rows (sectors max_y) 0 m0) (sectors max_x) (sectors max_y) x y same.0
      same.1 filled hx hy
