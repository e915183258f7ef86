-- ===== src/Battle/Combat.antt =====
-- logic_work/battle/combat.hpp and the lookups and checks of combat.cpp. The pointers in the two maps
-- are never NULL, since `init` alone fills them, so a map holds the units themselves. The current
-- unit is a pointer to one of them, kept here as its uid.
pub mod Verdict
use integration_server.Prelude.{
  ℕ, ◌≤◌, Bool, true, false, ◌&&◌, not, List, [], ◌∷◌, Option, none, some, length, leb, ◌==◌,
  if◌then◌else◌,
}
use integration_server.Prelude.Map.{Map, find, update}
use integration_server.Battle.Common.{
  BattleStep, battle_step_init, battle_step_loading, battle_step_round, battle_step_end,
  BattleState, battle_state_init, battle_state_waiting_operate, battle_state_fighting,
  battle_state_playing, CampUnitState, camp_unit_state_init, camp_unit_state_loading,
  camp_unit_state_loading_end, camp_unit_state_operate, camp_unit_state_operate_end,
  camp_unit_state_play, camp_unit_state_play_end, BattleCamp, BattleInitData, CombatResult,
  camp1_defeat, camp2_defeat, all_defeat, timeout, battle_camp_1, battle_camp_2, max_round,
}
use integration_server.Battle.Unit.{BattleUnit, is_alive, CampUnit}

pub record Combat : Type 0 where
  pub uid : ℕ
  pub combat_type : ℕ
  pub step : BattleStep
  pub state : BattleState
  pub round : ℕ
  pub battle_unit_map : Map BattleUnit
  pub camp_unit_map : Map CampUnit
  -- `none` until checkCombatEnd writes it.
  pub result : Option CombatResult
  pub speed_bar : ℕ
  pub cur_operate_unit : Option ℕ
  -- How many times randBetween has been called.
  pub draws : ℕ

unfoldable pub new_combat : ℕ → Combat
new_combat uid = record {
  uid = uid;
  combat_type = 0;
  step = battle_step_init;
  state = battle_state_init;
  round = 0;
  battle_unit_map = [];
  camp_unit_map = [];
  result = none;
  speed_bar = 0;
  cur_operate_unit = none;
  draws = 0;
}

-- Comparisons of the enumerators.
abbrev pub is_loading : BattleStep → Bool
is_loading battle_step_loading = true
is_loading _ = false

abbrev pub is_round : BattleStep → Bool
is_round battle_step_round = true
is_round _ = false

abbrev pub is_waiting_operate : BattleState → Bool
is_waiting_operate battle_state_waiting_operate = true
is_waiting_operate _ = false

abbrev pub is_playing : BattleState → Bool
is_playing battle_state_playing = true
is_playing _ = false

abbrev pub is_loading_end : CampUnitState → Bool
is_loading_end camp_unit_state_loading_end = true
is_loading_end _ = false

abbrev pub is_operate_end : CampUnitState → Bool
is_operate_end camp_unit_state_operate_end = true
is_operate_end _ = false

abbrev pub is_play_end : CampUnitState → Bool
is_play_end camp_unit_state_play_end = true
is_play_end _ = false

unfoldable pub get_battle_unit : Combat → ℕ → Option BattleUnit
get_battle_unit c uid = find uid c.battle_unit_map

-- A write through a unit's pointer.
abbrev pub modify_unit : ℕ → (BattleUnit → BattleUnit) → Combat → Combat
modify_unit uid f c = record c { battle_unit_map = update uid f c.battle_unit_map }

abbrev pub modify_camp : ℕ → (CampUnit → CampUnit) → Combat → Combat
modify_camp camp f c = record c { camp_unit_map = update camp f c.camp_unit_map }

-- The key and the first camp unit with a uid.
unfoldable pub find_camp_by_uid : ℕ → Map CampUnit → Option (ℕ × CampUnit)
find_camp_by_uid uid [] = none
find_camp_by_uid uid ((k, v) ∷ m) = if v.uid == uid then some (k, v) else find_camp_by_uid uid m

unfoldable pub get_camp_unit_by_uid : Combat → ℕ → Option (ℕ × CampUnit)
unfolding find_camp_by_uid
get_camp_unit_by_uid c uid = find_camp_by_uid uid c.camp_unit_map

unfoldable pub get_camp_unit_by_camp : Combat → ℕ → Option CampUnit
get_camp_unit_by_camp c camp = find camp c.camp_unit_map

-- Whether every camp unit is in a state.
unfoldable pub all_camps : (CampUnitState → Bool) → Map CampUnit → Bool
all_camps p [] = true
all_camps p ((k, v) ∷ m) = if p v.state then all_camps p m else false

-- The tests of checkInit after the one of the size.
unfoldable pub check_camps : BattleCamp → BattleCamp → Bool
check_camps a b =
    if a.camp == b.camp
    then false
    else if length a.unit_map == 0
    then false
    else if length b.unit_map == 0
    then false
    else true

unfoldable pub check_init : BattleInitData → Bool
unfolding check_camps
check_init init_data = elim init_data.camp_vec [
  | [] ↦ false
  | a ∷ [] ↦ false
  | a ∷ b ∷ [] ↦ check_camps a b
  | a ∷ b ∷ c ∷ more ↦ false
]

unfoldable pub check_round_start : Combat → Bool
check_round_start c = if is_loading c.step then all_camps is_loading_end c.camp_unit_map else false

unfoldable pub check_round_operate : Combat → Bool
check_round_operate c =
    if is_round c.step
    then if is_waiting_operate c.state then all_camps is_operate_end c.camp_unit_map else false
    else false

unfoldable pub check_round_play_end : Combat → Bool
check_round_play_end c =
    if is_round c.step
    then if is_playing c.state then all_camps is_play_end c.camp_unit_map else false
    else false

unfoldable pub all_dead : ℕ → Map BattleUnit → Bool
all_dead camp [] = true
all_dead camp ((k, u) ∷ m) =
    if u.camp == camp then if is_alive u then false else all_dead camp m else all_dead camp m

unfoldable pub is_all_dead_by_camp : Combat → ℕ → Bool
is_all_dead_by_camp c camp = all_dead camp c.battle_unit_map

-- The return value, with the result that the call wrote.
unfoldable pub check_combat_end : Combat → Bool × Combat
check_combat_end c =
    if dead1 && dead2
    then (true, record c { result = some all_defeat })
    else if dead1
    then (true, record c { result = some camp1_defeat })
    else if dead2
    then (true, record c { result = some camp2_defeat })
    else if leb max_round c.round
    then (true, record c { result = some timeout })
    else (false, c)
  where
    dead1 : Bool
    dead1 = is_all_dead_by_camp c battle_camp_1

    dead2 : Bool
    dead2 = is_all_dead_by_camp c battle_camp_2

unfoldable pub alive_by_camp : ℕ → Map BattleUnit → List BattleUnit
alive_by_camp camp [] = []
alive_by_camp camp ((k, u) ∷ m) =
    let rest = alive_by_camp camp m in
    if u.camp == camp then if is_alive u then u ∷ rest else rest else rest

unfoldable pub get_alive_unit_by_camp : Combat → ℕ → List BattleUnit
get_alive_unit_by_camp c camp = alive_by_camp camp c.battle_unit_map
