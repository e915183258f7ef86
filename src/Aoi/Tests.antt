-- ===== src/Aoi/Tests.antt =====
-- The theorems on a map of three by three screens.
use integration_server.Prelude.{refl, ◌↔◌, arith, Elem}
use integration_server.Aoi.NineMap.{new_nine_map, nine_cells, direct_cells, reverse_cells, init}
use integration_server.Aoi.NineMap.Near.{Small}
use integration_server.Aoi.NineMap.Around.{Around, nine_cells-Around}
use integration_server.Aoi.NineMap.Moves.{Moves, direct_cells-Around, reverse_cells-Around}
use integration_server.Aoi.NineMap.Init.{sectors, Tabled, init-Tabled}

small : Small 3 3
small = (omega arith, omega arith, omega arith)

-- A step to the right, in the middle row.
step_right : Moves 2 0 1 1 1
step_right = (refl, refl)

nine_cells-Around_example : Elem 2 (nine_cells 3 3 1 1 9 0) ↔ Around 3 3 1 1 2
nine_cells-Around_example = nine_cells-Around 3 3 1 1 2 small (omega arith) (omega arith)

direct_cells-Around_example :
    Elem 2 (direct_cells 3 3 1 1 2) ↔ (Around 3 3 1 1 2 × (Around 3 3 0 1 2 → ⊥))
direct_cells-Around_example =
    direct_cells-Around 3 3 0 1 1 1 2 2 small (omega arith) (omega arith) (omega arith) step_right

reverse_cells-Around_example :
    Elem 0 (reverse_cells 3 3 0 1 2) ↔ (Around 3 3 0 1 0 × (Around 3 3 1 1 0 → ⊥))
reverse_cells-Around_example =
    reverse_cells-Around 3 3 0 1 1 1 2 0 small (omega arith) (omega arith) (omega arith) step_right

init-Tabled_example : Tabled (init 90 75 new_nine_map).1 (sectors 90) (sectors 75) 2 1
init-Tabled_example = init-Tabled 90 75 2 1 small (omega arith) (omega arith)
