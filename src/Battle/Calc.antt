-- ===== src/Battle/Calc.antt =====
-- logic_work/battle/combat_calc.cpp: the skill tables and the execution of an operation. The static
-- tables are a record that `init` fills, and an element's function is named by a constructor.
-- The configuration never leaves paramVec empty; a read of an empty one counts as 0 here.
pub mod Frame
pub mod Damage
use integration_server.Prelude.{ℕ, Bool, false, List, [], ◌∷◌, Option, none, some, get_or}
use integration_server.Prelude.Float.{div_float, mul_float, of_uint32, trunc_uint32}
use integration_server.Prelude.Map.{Map, find, assign, insert}
use integration_server.Utils.CalcTool.{safe_sub}
use integration_server.Battle.Common.{
  BattleElement, BattleESet, BattleSkill, battle_element_normal_atk, battle_eset_normal_atk,
  battle_skill_normal_atk,
}
use integration_server.Battle.Unit.{BattleUnit, get_atk, get_def, set_hp}
use integration_server.Battle.Combat.{Combat, get_battle_unit, modify_unit}

pub data ElementFunc : Type 0 where
  element_normal_atk_func : ElementFunc

pub record CombatCalc : Type 0 where
  pub element_func_map : Map ElementFunc
  pub skill_config_map : Map BattleSkill
  pub e_set_config_map : Map BattleESet
  pub element_config_map : Map BattleElement

abbrev pub empty_calc : CombatCalc
empty_calc = record {
  element_func_map = [];
  skill_config_map = [];
  e_set_config_map = [];
  element_config_map = [];
}

unfoldable pub init_config : CombatCalc → CombatCalc
init_config calc = record calc {
  element_config_map = assign battle_element_normal_atk element calc.element_config_map;
  e_set_config_map = assign battle_eset_normal_atk e_set calc.e_set_config_map;
  skill_config_map = assign battle_skill_normal_atk skill calc.skill_config_map;
}
  where
    element : BattleElement
    element = record { index = battle_element_normal_atk; param_vec = 150 ∷ [] }

    e_set : BattleESet
    e_set = record {
      index = battle_eset_normal_atk;
      is_buff = false;
      element_set = battle_element_normal_atk ∷ [];
    }

    skill : BattleSkill
    skill = record { index = battle_skill_normal_atk; e_set_set = battle_eset_normal_atk ∷ [] }

unfoldable pub init_calc : CombatCalc → CombatCalc
unfolding init_config
init_calc calc =
    let configured = init_config calc in
    record configured {
      element_func_map =
          insert battle_element_normal_atk element_normal_atk_func configured.element_func_map;
    }

-- uint32(attackAtk * (param * 1.0f / 100))
unfoldable pub attack_value : ℕ → ℕ → ℕ
attack_value attack_atk param =
    trunc_uint32 (mul_float (of_uint32 attack_atk) (div_float (of_uint32 param) 100))

-- The health points that an attack leaves.
unfoldable pub left_hp : BattleElement → BattleUnit → BattleUnit → ℕ
left_hp element attacker target =
    safe_sub target.attr.hp
      (safe_sub (attack_value (get_atk attacker) (get_or element.param_vec 0 0)) (get_def target))

unfoldable pub attack_unit : BattleElement → ℕ → ℕ → Combat → Combat
attack_unit element cur target c = elim (get_battle_unit c cur) [
  | none ↦ c
  | some attacker ↦ elim (get_battle_unit c target) [
    | none ↦ c
    | some victim ↦ modify_unit target (λ u. set_hp u (left_hp element attacker victim)) c
  ]
]

unfoldable pub element_normal_atk : CombatCalc → ℕ → ℕ → Combat → Combat
element_normal_atk calc cur target c =
    elim (find battle_element_normal_atk calc.element_config_map) [
      | none ↦ c
      | some element ↦ attack_unit element cur target c
    ]

unfoldable pub run_element : CombatCalc → ElementFunc → ℕ → ℕ → Combat → Combat
run_element calc element_normal_atk_func cur target c = element_normal_atk calc cur target c

-- for (auto& uid : op.targetVec)
unfoldable pub do_targets : CombatCalc → ElementFunc → ℕ → List ℕ → Combat → Combat
do_targets calc f cur [] c = c
do_targets calc f cur (uid ∷ rest) c =
    do_targets calc f cur rest
      (elim (get_battle_unit c uid) [ none ↦ c | some target ↦ run_element calc f cur uid c ])

unfoldable pub do_elements : CombatCalc → ℕ → List ℕ → List ℕ → Combat → Combat
do_elements calc cur targets [] c = c
do_elements calc cur targets (value ∷ rest) c =
    do_elements calc cur targets rest (elim (find value calc.element_func_map) [
      | none ↦ c
      | some f ↦ do_targets calc f cur targets c
    ])

-- A buff is only logged, and its elements run like any others.
unfoldable pub do_e_set : CombatCalc → ℕ → List ℕ → BattleESet → Combat → Combat
do_e_set calc cur targets e_set c = do_elements calc cur targets e_set.element_set c

unfoldable pub do_skill : CombatCalc → ℕ → List ℕ → List ℕ → Combat → Combat
do_skill calc cur targets [] c = c
do_skill calc cur targets (value ∷ rest) c =
    do_skill calc cur targets rest (elim (find value calc.e_set_config_map) [
      | none ↦ c
      | some e_set ↦ do_e_set calc cur targets e_set c
    ])

unfoldable pub do_operate : CombatCalc → ℕ → Combat → Combat
do_operate calc cur c = elim (get_battle_unit c cur) [
  | none ↦ c
  | some unit ↦ elim (find unit.cur_operate.skill_id calc.skill_config_map) [
    | none ↦ c
    | some skill ↦ do_skill calc cur unit.cur_operate.target_vec skill.e_set_set c
  ]
]
