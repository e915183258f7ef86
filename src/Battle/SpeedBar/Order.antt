-- ===== src/Battle/SpeedBar/Order.antt =====
-- The order of the units, and what one round of the second loop of runSpeedBar does.
use integration_server.Prelude.{ℕ, ◌+◌, ◌*◌, ◌%◌, ◌^◌, ◌≤◌, ◌<◌, ◌≡◌, ◌≢◌, ◌⊎◌, true, false, arith}
use integration_server.Prelude.Map.{find}
use integration_server.Prelude.Map.Laws.{find-update}
use integration_server.Utils.CalcTool.{safe_sub}
use integration_server.Battle.Unit.{BattleUnit, is_alive, get_speed, get_speed_bar_total}
use integration_server.Battle.Combat.{Combat}
use integration_server.Battle.SpeedBar.{advance, compare_units, choose, run_unit}

-- The order in which units act: the fuller bar, then the larger camp, then the larger uid.
abbrev pub NotAfter : BattleUnit → BattleUnit → Type 0
NotAfter u v =
    (get_speed_bar_total u < get_speed_bar_total v)
    ⊎ ((get_speed_bar_total u ≡ get_speed_bar_total v)
        × ((u.camp < v.camp) ⊎ ((u.camp ≡ v.camp) × (u.uid ≤ v.uid))))

pub NotAfter-refl : (u : BattleUnit) → NotAfter u u
NotAfter-refl u = omega arith

pub NotAfter-trans : (u v w : BattleUnit) → NotAfter u v → NotAfter v w → NotAfter u w
NotAfter-trans u v w h k = omega arith

pub compare_units-NotAfter : (u v : BattleUnit) → compare_units u v ≡ true → NotAfter u v
unfolding compare_units
compare_units-NotAfter u v h = ground arith

pub compare_units-false : (u v : BattleUnit) → compare_units u v ≡ false → NotAfter v u
unfolding compare_units
compare_units-false u v h = ground arith

-- What the bar of a unit holds after some runs, if it still fits a uint32.
pub get_speed_bar_total-advance :
    (bar times : ℕ) (u : BattleUnit)
    → bar < 2 ^ 32
    → get_speed_bar_total (advance bar times u)
      ≡ (times * get_speed u + get_speed_bar_total u) % 2 ^ 32
unfolding advance get_speed_bar_total safe_sub
get_speed_bar_total-advance bar times u h = ground arith

pub is_alive-advance :
    (bar times : ℕ) (u : BattleUnit) → is_alive (advance bar times u) ≡ is_alive u
unfolding advance
is_alive-advance bar times u = ground arith

pub speed_bar-run_unit : (times k : ℕ) (c : Combat) → (run_unit times k c).speed_bar ≡ c.speed_bar
unfolding run_unit choose
speed_bar-run_unit times k c = ground arith

pub find-run_unit_ne :
    (times k j : ℕ) (c : Combat)
    → j ≢ k
    → find j (run_unit times k c).battle_unit_map ≡ find j c.battle_unit_map
unfolding run_unit choose
find-run_unit_ne times k j c h =
    ground (arith, find-update j k (advance c.speed_bar times) c.battle_unit_map)
