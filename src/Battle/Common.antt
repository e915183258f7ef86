-- ===== src/Battle/Common.antt =====
-- logic_work/battle/battle_common.hpp and battle_attr.hpp: the data of a battle. Camps, camp types,
-- attribute and configuration indices are plain uint32 in the source, which callers fill freely;
-- the phases and states are only ever assigned the enumerators.
use integration_server.Prelude.{ℕ, ◌*◌, ◌%◌, ◌^◌, Bool, List}
use integration_server.Prelude.Map.{Map}

abbrev pub battle_camp_1 : ℕ
battle_camp_1 = 1

abbrev pub battle_camp_2 : ℕ
battle_camp_2 = 2

pub data BattleStep : Type 0 where
  battle_step_init battle_step_loading battle_step_round battle_step_end : BattleStep

pub data BattleState : Type 0 where
  battle_state_init battle_state_waiting_operate : BattleState
  battle_state_fighting battle_state_playing : BattleState

pub data CampUnitState : Type 0 where
  camp_unit_state_init camp_unit_state_loading camp_unit_state_loading_end : CampUnitState
  camp_unit_state_operate camp_unit_state_operate_end : CampUnitState
  camp_unit_state_play camp_unit_state_play_end : CampUnitState

abbrev pub battle_unit_type_robot : ℕ
battle_unit_type_robot = 1

abbrev pub battle_unit_type_user : ℕ
battle_unit_type_user = 2

pub record BattleUnitData : Type 0 where
  pub uid : ℕ
  pub attr_map : Map ℕ

pub record BattleCamp : Type 0 where
  pub uid : ℕ
  pub camp : ℕ
  pub camp_type : ℕ
  pub unit_map : Map BattleUnitData

pub record BattleInitData : Type 0 where
  pub param_type : ℕ
  pub camp_vec : List BattleCamp

pub record CombatOperate : Type 0 where
  pub skill_id : ℕ
  pub target_vec : List ℕ

pub data CombatResult : Type 0 where
  camp1_defeat camp2_defeat all_defeat timeout : CombatResult

-- GET_SPEED_BAR, on uint32.
unfoldable pub get_speed_bar : ℕ → ℕ
get_speed_bar max_speed = max_speed * 7 % 2 ^ 32

abbrev pub run_speed_bar_invalid : ℕ
run_speed_bar_invalid = 99999

abbrev pub max_round : ℕ
max_round = 99

abbrev pub battle_attr_hp : ℕ
battle_attr_hp = 1

abbrev pub battle_attr_atk : ℕ
battle_attr_atk = 2

abbrev pub battle_attr_def : ℕ
battle_attr_def = 3

abbrev pub battle_attr_speed : ℕ
battle_attr_speed = 4

pub record BattleElement : Type 0 where
  pub index : ℕ
  pub param_vec : List ℕ

-- The std::set of indices is a list in increasing order.
pub record BattleESet : Type 0 where
  pub index : ℕ
  pub is_buff : Bool
  pub element_set : List ℕ

pub record BattleSkill : Type 0 where
  pub index : ℕ
  pub e_set_set : List ℕ

abbrev pub battle_element_normal_atk : ℕ
battle_element_normal_atk = 1

abbrev pub battle_eset_normal_atk : ℕ
battle_eset_normal_atk = 1

abbrev pub battle_skill_normal_atk : ℕ
battle_skill_normal_atk = 1
