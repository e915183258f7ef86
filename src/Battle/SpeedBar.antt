-- ===== src/Battle/SpeedBar.antt =====
-- logic_work/battle/combat.cpp: the speed bar, which decides who acts next.
pub mod Minimum
pub mod Order
pub mod Best
pub mod Choice
pub mod Pick
pub mod Start
use integration_server.Prelude.{
  ℕ, ◌+◌, ◌*◌, ◌%◌, ◌^◌, Bool, true, false, not, List, [], ◌∷◌, Option, none, some, ltb, leb, ◌==◌,
  if◌then◌else◌,
}
use integration_server.Prelude.Float.{div_float, ceil_uint32, of_uint32}
use integration_server.Prelude.Map.{Map, keys}
use integration_server.Utils.CalcTool.{safe_sub}
use integration_server.Battle.Common.{get_speed_bar, run_speed_bar_invalid}
use integration_server.Battle.Unit.{
  BattleUnit, is_alive, is_can_run_speed_bar, get_speed, get_speed_bar_total, set_speed_bar,
  set_overflow_speed_bar,
}
use integration_server.Battle.Combat.{Combat, get_battle_unit, modify_unit}

-- The loop of initSpeedBar.
unfoldable pub max_speed_step : BattleUnit → ℕ → ℕ
max_speed_step u m = if is_alive u then if ltb m (get_speed u) then get_speed u else m else m

unfoldable pub max_speed : Map BattleUnit → ℕ → ℕ
max_speed [] m = m
max_speed ((k, u) ∷ rest) m = max_speed rest (max_speed_step u m)

unfoldable pub init_speed_bar : Combat → Bool × Combat
init_speed_bar c = if leb m 0 then (false, c) else (true, record c { speed_bar = get_speed_bar m })
  where
    m : ℕ
    m = max_speed c.battle_unit_map 0

-- How many runs a unit needs to fill the bar.
unfoldable pub run_times : ℕ → BattleUnit → ℕ
run_times bar u =
    ceil_uint32
      (div_float (of_uint32 (safe_sub bar (get_speed_bar_total u))) (of_uint32 (get_speed u)))

-- The body of the first loop of runSpeedBar: the least number so far.
unfoldable pub min_times_step : ℕ → BattleUnit → ℕ → ℕ
min_times_step bar u m =
    if is_alive u
    then if is_can_run_speed_bar u
      then if leb (get_speed u) 0 then m else if ltb (run_times bar u) m then run_times bar u else m
      else m
    else m

unfoldable pub run_min_times : ℕ → Map BattleUnit → ℕ → ℕ
run_min_times bar [] m = m
run_min_times bar ((k, u) ∷ rest) m = run_min_times bar rest (min_times_step bar u m)

-- A unit's bar after some runs.
unfoldable pub advance : ℕ → ℕ → BattleUnit → BattleUnit
advance bar times u =
    if ltb bar cur
    then set_overflow_speed_bar (set_speed_bar u bar) (safe_sub cur bar)
    else set_overflow_speed_bar (set_speed_bar u cur) 0
  where
    cur : ℕ
    cur = (times * get_speed u + get_speed_bar_total u) % 2 ^ 32

-- compareSpeedBar on two units, and on pointers to them.
unfoldable pub compare_units : BattleUnit → BattleUnit → Bool
compare_units u1 u2 =
    if ltb (get_speed_bar_total u2) (get_speed_bar_total u1)
    then false
    else if get_speed_bar_total u1 == get_speed_bar_total u2
    then if ltb u2.camp u1.camp
      then false
      else if u1.camp == u2.camp
      then if ltb u2.uid u1.uid then false else true
      else true
    else true

unfoldable pub compare_speed_bar : Option BattleUnit → Option BattleUnit → Bool
compare_speed_bar none u2 = true
compare_speed_bar (some u1) none = false
compare_speed_bar (some u1) (some u2) = compare_units u1 u2

-- The current unit, read through its pointer.
abbrev pub current : Combat → Option BattleUnit
current c = elim c.cur_operate_unit [ none ↦ none | some uid ↦ get_battle_unit c uid ]

-- The choice at the end of the second loop's body, by the current unit so far; `key` is the place
-- of `u` in the map.
unfoldable pub prefer : ℕ → BattleUnit → Combat → Option ℕ → Combat
prefer key u c none = record c { cur_operate_unit = some key }
prefer key u c (some old) =
    if compare_speed_bar (get_battle_unit c old) (some u)
    then record c { cur_operate_unit = some key }
    else c

unfoldable pub choose : ℕ → BattleUnit → Combat → Combat
unfolding prefer
choose key u c =
    if ltb (get_speed_bar_total u) c.speed_bar then c else prefer key u c c.cur_operate_unit

-- One round of the second loop of runSpeedBar.
unfoldable pub run_unit : ℕ → ℕ → Combat → Combat
run_unit times key c = elim (get_battle_unit c key) [
  | none ↦ c
  | some u ↦
      if is_alive u
      then if is_can_run_speed_bar u
        then choose key (advance c.speed_bar times u)
            (modify_unit key (advance c.speed_bar times) c)
        else c
      else c
]

unfoldable pub run_units : ℕ → List ℕ → Combat → Combat
run_units times [] c = c
run_units times (k ∷ rest) c = run_units times rest (run_unit times k c)

unfoldable pub run_speed_bar : Combat → Combat
run_speed_bar c =
    if times == run_speed_bar_invalid then c else run_units times (keys c.battle_unit_map) c
  where
    times : ℕ
    times = run_min_times c.speed_bar c.battle_unit_map run_speed_bar_invalid
