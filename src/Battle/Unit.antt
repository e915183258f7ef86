-- ===== src/Battle/Unit.antt =====
-- logic_work/battle/battle_unit.cpp, battle_unit.hpp, camp_unit.cpp, camp_unit.hpp.
use integration_server.Prelude.{
  ℕ, ◌+◌, ◌%◌, ◌^◌, Bool, true, false, List, [], ◌∷◌, none, some, ltb, ◌==◌, if◌then◌else◌,
}
use integration_server.Prelude.Map.{Map, find, assign}
use integration_server.Battle.Common.{
  BattleUnitData, CombatOperate, CampUnitState, camp_unit_state_loading,
  camp_unit_state_loading_end, battle_unit_type_user, battle_attr_hp, battle_attr_atk,
  battle_attr_def, battle_attr_speed, battle_skill_normal_atk,
}

pub record BattleAttr : Type 0 where
  pub hp : ℕ
  pub cur_speed_bar : ℕ
  pub overflow_speed_bar : ℕ

pub record BattleUnit : Type 0 where
  pub uid : ℕ
  pub camp : ℕ
  pub base_attr_map : Map ℕ
  pub attr : BattleAttr
  pub cur_operate : CombatOperate

unfoldable pub set_attr : BattleUnit → ℕ → ℕ → BattleUnit
set_attr u attr_type value = record u { base_attr_map = assign attr_type value u.base_attr_map }

unfoldable pub get_attr : BattleUnit → ℕ → ℕ
get_attr u attr_type = elim (find attr_type u.base_attr_map) [ none ↦ 0 | some value ↦ value ]

abbrev pub set_hp : BattleUnit → ℕ → BattleUnit
set_hp u value = record u { attr = record (u.attr) { hp = value } }

-- The loop of BattleUnit::init over the attributes.
unfoldable pub init_attrs : Map ℕ → BattleUnit → BattleUnit
unfolding set_attr
init_attrs [] u = u
init_attrs ((attr_type, value) ∷ rest) u =
    let v = set_attr u attr_type value in
    init_attrs rest (if attr_type == battle_attr_hp then set_hp v value else v)

-- A new unit after init, which always succeeds.
unfoldable pub new_unit : ℕ → BattleUnitData → BattleUnit
unfolding init_attrs
new_unit camp unit_data = init_attrs unit_data.attr_map (record {
  uid = unit_data.uid;
  camp = camp;
  base_attr_map = [];
  attr = record { hp = 0; cur_speed_bar = 0; overflow_speed_bar = 0 };
  cur_operate = record { skill_id = 0; target_vec = [] };
})

unfoldable pub is_can_run_speed_bar : BattleUnit → Bool
is_can_run_speed_bar u = true

abbrev pub is_alive : BattleUnit → Bool
is_alive u = ltb 0 u.attr.hp

abbrev pub set_cur_operate : BattleUnit → ℕ → List ℕ → BattleUnit
set_cur_operate u skill target_vec = record u {
  cur_operate = record { skill_id = skill; target_vec = target_vec };
}

abbrev pub clear_cur_operate : BattleUnit → BattleUnit
clear_cur_operate u = record u { cur_operate = record { skill_id = 0; target_vec = [] } }

unfoldable pub get_default_skill : BattleUnit → ℕ
get_default_skill u = battle_skill_normal_atk

unfoldable pub get_speed : BattleUnit → ℕ
get_speed u = get_attr u battle_attr_speed

unfoldable pub get_atk : BattleUnit → ℕ
get_atk u = get_attr u battle_attr_atk

unfoldable pub get_def : BattleUnit → ℕ
get_def u = get_attr u battle_attr_def

abbrev pub set_speed_bar : BattleUnit → ℕ → BattleUnit
set_speed_bar u value = record u { attr = record (u.attr) { cur_speed_bar = value } }

abbrev pub set_overflow_speed_bar : BattleUnit → ℕ → BattleUnit
set_overflow_speed_bar u value = record u { attr = record (u.attr) { overflow_speed_bar = value } }

unfoldable pub get_speed_bar_total : BattleUnit → ℕ
get_speed_bar_total u = (u.attr.cur_speed_bar + u.attr.overflow_speed_bar) % 2 ^ 32

pub record CampUnit : Type 0 where
  pub uid : ℕ
  pub camp : ℕ
  pub camp_type : ℕ
  pub state : CampUnitState
  pub is_auto : Bool

unfoldable pub new_camp_unit : ℕ → ℕ → ℕ → CampUnit
new_camp_unit uid camp camp_type =
    if camp_type == battle_unit_type_user
    then record {
      uid = uid;
      camp = camp;
      camp_type = camp_type;
      state = camp_unit_state_loading;
      is_auto = false;
    }
    else record {
      uid = uid;
      camp = camp;
      camp_type = camp_type;
      state = camp_unit_state_loading_end;
      is_auto = true;
    }

abbrev pub set_state : CampUnitState → CampUnit → CampUnit
set_state s c = record c { state = s }
