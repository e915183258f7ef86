-- ===== src/Aoi/NineMap/Filled.antt =====
-- The loops of NineMap::init fill every table for every cell.
use integration_server.Prelude.{
  ℕ, ◌+◌, ◌*◌, ◌≤◌, ◌<◌, ◌≡◌, refl, sym, ap, ◌∙◌, List, [], ◌∷◌, none, some, ◌==◌, if◌then◌else◌,
  arith, ℕ_discrete, length,
}
use integration_server.Prelude.Map.{Map, find, insert, IsOrdered}
use integration_server.Prelude.Map.Laws.{find-insert, insert-IsOrdered}
use integration_server.Aoi.NineMap.{
  NineMap, nine_cells, direct_cells, reverse_cells, insert_dirs, fill_cell,
}
use integration_server.Aoi.NineMap.Near.{Small, Small-mod}
use integration_server.Aoi.NineMap.Around.{coord_unique}

abbrev pub Table : Type 0
Table = Map (List ℕ)

-- A table filled for the first `n` cells, in the order of the loops.
pub record Filled (sx sy : ℕ) (cells : ℕ → ℕ → List ℕ) (n : ℕ) (m : Table) : Type 0 where
  pub ordered : IsOrdered m
  pub some_cell :
      (x y : ℕ) → x < sx → y < sy → y * sx + x < n → find (y * sx + x) m ≡ some (cells x y)
  pub no_cell : (k : ℕ) → n ≤ k → find k m ≡ none

insert-Filled :
    (sx sy : ℕ) (cells : ℕ → ℕ → List ℕ) (x y : ℕ) (m : Table)
    → x < sx
    → Filled sx sy cells (y * sx + x) m
    → Filled sx sy cells (y * sx + x + 1) (insert (y * sx + x) (cells x y) m)
insert-Filled sx sy cells x y m hx f = record {
  ordered = insert-IsOrdered n (cells x y) m f.ordered;
  some_cell = old_or_new;
  no_cell = λ k h. ground (arith, after k, f.no_cell k (omega (arith, h)), h);
}
  where
    n : ℕ
    n = y * sx + x

    after :
        (k : ℕ) → find k (insert n (cells x y) m) ≡ (if k == n then some (cells x y) else find k m)
    after k = find-insert k n (cells x y) m f.ordered (f.no_cell n (omega arith))

    old_or_new :
        (x' y' : ℕ)
        → x' < sx
        → y' < sy
        → y' * sx + x' < n + 1
        → find (y' * sx + x') (insert n (cells x y) m) ≡ some (cells x' y')
    old_or_new x' y' kx ky l = elim (ℕ_discrete (y' * sx + x') n) [
      | yes e ↦
          (let same = coord_unique sx x' y' x y kx hx e in
            let cells_same : cells x y ≡ cells x' y' =
              ap (λ (i : ℕ). cells i y) (sym same.0) ∙ ap (λ (i : ℕ). cells x' i) (sym same.1) in
            ground (arith, after (y' * sx + x'), e, cells_same))
      | no e ↦
          ground (arith, after (y' * sx + x'), e, f.some_cell x' y' kx ky (omega (arith, l, e)))
    ]

-- The tables of the directions from `dir` on.
unfoldable pub FilledDirs : (sx sy : ℕ) → (ℕ → ℕ → ℕ → List ℕ) → ℕ → ℕ → List Table → Type 0
FilledDirs sx sy cells n dir [] = Unit
FilledDirs sx sy cells n dir (m ∷ ms) =
    Filled sx sy (λ x y. cells x y dir) n m × FilledDirs sx sy cells n (dir + 1) ms

insert_dirs-FilledDirs :
    (sx sy : ℕ) (cells : ℕ → ℕ → ℕ → List ℕ) (x y dir : ℕ) (ms : List Table)
    → x < sx
    → FilledDirs sx sy cells (y * sx + x) dir ms
    → FilledDirs sx sy cells (y * sx + x + 1) dir (insert_dirs (y * sx + x) (cells x y) dir ms)
unfolding insert_dirs FilledDirs
insert_dirs-FilledDirs sx sy cells x y dir [] hx f = tt
insert_dirs-FilledDirs sx sy cells x y dir (m ∷ ms) hx f = (
  insert-Filled sx sy (λ x y. cells x y dir) x y m hx f.0,
  insert_dirs-FilledDirs sx sy cells x y (dir + 1) ms hx f.1,
)

length-insert_dirs :
    (key : ℕ) (cells : ℕ → List ℕ) (dir : ℕ) (ms : List Table)
    → length (insert_dirs key cells dir ms) ≡ length ms
unfolding insert_dirs
length-insert_dirs key cells dir [] = refl
length-insert_dirs key cells dir (m ∷ ms) = omega (arith, length-insert_dirs key cells (dir + 1) ms)

-- All tables of a map, filled for `n` cells.
pub record FilledMap (n : ℕ) (m : NineMap) : Type 0 where
  pub nine :
      Filled m.max_sector_x m.max_sector_y
        (λ x y. nine_cells m.max_sector_x m.max_sector_y x y 9 0)
        n
        m.nine_map
  pub direct :
      FilledDirs m.max_sector_x m.max_sector_y
        (direct_cells m.max_sector_x m.max_sector_y)
        n
        0
        m.direct_map
  pub reverse :
      FilledDirs m.max_sector_x m.max_sector_y
        (reverse_cells m.max_sector_x m.max_sector_y)
        n
        0
        m.reverse_direct_map
  pub directs : length m.direct_map ≡ 8
  pub reverses : length m.reverse_direct_map ≡ 8

pub fill_cell-FilledMap :
    (x y : ℕ) (m : NineMap)
    → Small m.max_sector_x m.max_sector_y
    → x < m.max_sector_x
    → y < m.max_sector_y
    → FilledMap (y * m.max_sector_x + x) m
    → FilledMap (y * m.max_sector_x + x + 1) (fill_cell x y m)
unfolding fill_cell
fill_cell-FilledMap x y m small hx hy f =
    let sx = m.max_sector_x in
    let sy = m.max_sector_y in
    rw (Small-mod x y sx sy small hx hy) (record {
      nine = insert-Filled sx sy (λ x y. nine_cells sx sy x y 9 0) x y m.nine_map hx f.nine;
      direct = insert_dirs-FilledDirs sx sy (direct_cells sx sy) x y 0 m.direct_map hx f.direct;
      reverse =
          insert_dirs-FilledDirs sx sy (reverse_cells sx sy) x y 0 m.reverse_direct_map hx
            f.reverse;
      directs = length-insert_dirs (y * sx + x) (direct_cells sx sy x y) 0 m.direct_map ∙ f.directs;
      reverses =
          length-insert_dirs (y * sx + x) (reverse_cells sx sy x y) 0 m.reverse_direct_map
          ∙ f.reverses;
    })
