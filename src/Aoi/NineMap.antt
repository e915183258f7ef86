-- ===== src/Aoi/NineMap.antt =====
-- logic_work/aoi_nine/nine_common.hpp and nine_map.cpp. An int32 is its two's complement bits, a
-- number below 2^32, so -1 is 2^32 - 1. The loops run on the number of rounds left.
pub mod Near
pub mod Sides
pub mod Around
pub mod Moves
pub mod Filled
pub mod Init
use integration_server.Prelude.{
  ℕ, zero, suc, ◌+◌, ◌-◌, ◌*◌, ◌/◌, ◌%◌, ◌^◌, Bool, true, false, ◌&&◌, List, [], ◌∷◌, ◌++◌, get_or,
  ltb, ◌==◌, replicate, if◌then◌else◌,
}
use integration_server.Prelude.Map.{Map, insert}

abbrev pub screen_width : ℕ
screen_width = 30

abbrev pub screen_height : ℕ
screen_height = 30

abbrev pub nine_array_first_size : ℕ
nine_array_first_size = 9

abbrev pub nine_dir_type_center : ℕ
nine_dir_type_center = 8

abbrev pub minus_one : ℕ
minus_one = 2 ^ 32 - 1

-- The x and the y offsets of the directions, and of the centre.
unfoldable pub nine_index_array : List (ℕ × ℕ)
nine_index_array =
    (0, minus_one)
    ∷ (1, minus_one)
    ∷ (1, 0)
    ∷ (1, 1)
    ∷ (0, 1)
    ∷ (minus_one, 1)
    ∷ (minus_one, 0)
    ∷ (minus_one, minus_one)
    ∷ (0, 0)
    ∷ []

-- cell >= 0 && cell < (int32) max
unfoldable pub inside : ℕ → ℕ → Bool
inside cell max = ltb cell (2 ^ 31) && (ltb max (2 ^ 31) && ltb cell max)

pub record NineMap : Type 0 where
  pub max_x : ℕ
  pub max_y : ℕ
  pub max_sector_x : ℕ
  pub max_sector_y : ℕ
  pub max_map_size : ℕ
  pub nine_map : Map (List ℕ)
  pub direct_map : List (Map (List ℕ))
  pub reverse_direct_map : List (Map (List ℕ))

abbrev pub new_nine_map : NineMap
new_nine_map = record {
  max_x = 0;
  max_y = 0;
  max_sector_x = 0;
  max_sector_y = 0;
  max_map_size = 0;
  nine_map = [];
  direct_map = replicate nine_dir_type_center [];
  reverse_direct_map = replicate nine_dir_type_center [];
}

module _ (sector_x sector_y x y : ℕ) where
  -- The cell at an offset, if it is on the map.
  unfoldable pub push_cell : ℕ × ℕ → List ℕ
  unfolding inside
  push_cell (dx, dy) =
      let cell_x = (x + dx) % 2 ^ 32 in
      let cell_y = (y + dy) % 2 ^ 32 in
      if inside cell_x sector_x && inside cell_y sector_y
      then (cell_y * sector_x + cell_x) % 2 ^ 32 ∷ []
      else []

  unfoldable pub nine_cells : ℕ → ℕ → List ℕ
  unfolding push_cell
  nine_cells zero i = []
  nine_cells (suc n) i = push_cell (get_or nine_index_array i (0, 0)) ++ nine_cells n (i + 1)

  -- The cells from index `i + dir` on, the directions taken as a circle.
  unfoldable pub side_cells : ℕ → ℕ → ℕ → List ℕ
  unfolding push_cell
  side_cells dir zero i = []
  side_cells dir (suc n) i =
      push_cell (get_or nine_index_array ((i + dir) % 8) (0, 0)) ++ side_cells dir n (i + 1)

  unfoldable pub direct_cells : ℕ → List ℕ
  unfolding side_cells
  direct_cells dir = if dir % 2 == 1 then side_cells dir 5 6 else side_cells dir 3 7

  unfoldable pub reverse_cells : ℕ → List ℕ
  unfolding side_cells
  reverse_cells dir = if dir % 2 == 1 then side_cells dir 5 2 else side_cells dir 3 3

-- The loop over the directions: the maps from `dir` on.
unfoldable pub insert_dirs : ℕ → (ℕ → List ℕ) → ℕ → List (Map (List ℕ)) → List (Map (List ℕ))
insert_dirs key cells dir [] = []
insert_dirs key cells dir (m ∷ ms) = insert key (cells dir) m ∷ insert_dirs key cells (dir + 1) ms

-- The body of init's two loops.
unfoldable pub fill_cell : ℕ → ℕ → NineMap → NineMap
fill_cell x y m = record m {
  nine_map = insert key (nine_cells sx sy x y nine_array_first_size 0) m.nine_map;
  direct_map = insert_dirs key (direct_cells sx sy x y) 0 m.direct_map;
  reverse_direct_map = insert_dirs key (reverse_cells sx sy x y) 0 m.reverse_direct_map;
}
  where
    sx : ℕ
    sx = m.max_sector_x

    sy : ℕ
    sy = m.max_sector_y

    key : ℕ
    key = (y * m.max_sector_x + x) % 2 ^ 32

unfoldable pub fill_row : ℕ → ℕ → ℕ → NineMap → NineMap
fill_row zero x y m = m
fill_row (suc n) x y m = fill_row n (x + 1) y (fill_cell x y m)

unfoldable pub fill_rows : ℕ → ℕ → NineMap → NineMap
fill_rows zero y m = m
fill_rows (suc n) y m = fill_rows n (y + 1) (fill_row m.max_sector_x 0 y m)

-- NineMap::init before the loops.
unfoldable pub init_sizes : ℕ → ℕ → NineMap → NineMap
init_sizes max_x max_y m = record m {
  max_x = max_x;
  max_y = max_y;
  max_sector_x = sx;
  max_sector_y = sy;
  max_map_size = sx * sy % 2 ^ 32;
}
  where
    sx : ℕ
    sx = (max_x + screen_width + 2 ^ 32 - 1) % 2 ^ 32 / screen_width

    sy : ℕ
    sy = (max_y + screen_height + 2 ^ 32 - 1) % 2 ^ 32 / screen_height

-- NineMap::init, which always returns true.
unfoldable pub init : ℕ → ℕ → NineMap → Bool × NineMap
unfolding init_sizes
init max_x max_y m =
    (true, fill_rows (init_sizes max_x max_y m).max_sector_y 0 (init_sizes max_x max_y m))
