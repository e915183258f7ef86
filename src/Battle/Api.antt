-- ===== src/Battle/Api.antt =====
-- logic_work/battle/combat.cpp: the calls that a client of a battle makes.
pub mod Load
pub mod Fuel
pub mod Calls
pub mod Complete
use integration_server.Prelude.{
  ℕ, Bool, true, false, List, [], ◌∷◌, Option, none, some, if◌then◌else◌,
}
use integration_server.Prelude.Map.{Map, assign}
use integration_server.Utils.Rand.{Dice}
use integration_server.Battle.Common.{
  BattleUnitData, BattleCamp, BattleInitData, battle_step_loading, battle_step_round,
  camp_unit_state_loading_end, camp_unit_state_operate_end, max_round,
}
use integration_server.Battle.Unit.{BattleUnit, new_unit, new_camp_unit, set_state}
use integration_server.Battle.Combat.{
  Combat, is_loading, check_init, check_round_start, get_camp_unit_by_uid, modify_camp,
}
use integration_server.Battle.Calc.{CombatCalc}
use integration_server.Battle.SpeedBar.{init_speed_bar}
use integration_server.Battle.Round.{Run, done, fault, out_of_fuel, round_start, with_camp_states}

-- One unit of fuel for each round that a battle can take.
abbrev pub api_fuel : ℕ
api_fuel = max_round

-- What a call returns and leaves behind, unless it crashes.
pub data Reply : Type 0 where
  returns : Bool → Combat → Reply
  crashes : Reply
  no_fuel : Reply

unfoldable pub reply : Run → Reply
reply (done c) = returns true c
reply fault = crashes
reply out_of_fuel = no_fuel

-- The loop of init over a camp's units.
unfoldable pub add_units : ℕ → Map BattleUnitData → Map BattleUnit → Map BattleUnit
add_units camp [] m = m
add_units camp ((k, d) ∷ rest) m = let u = new_unit camp d in add_units camp rest (assign u.uid u m)

-- The loop of init over the camps.
unfoldable pub add_camps : List BattleCamp → Combat → Combat
add_camps [] c = c
add_camps (b ∷ rest) c = add_camps rest (record c {
  battle_unit_map = add_units b.camp b.unit_map c.battle_unit_map;
  camp_unit_map = assign b.camp (new_camp_unit b.uid b.camp b.camp_type) c.camp_unit_map;
})

-- init up to the test for the start: the loaded combat.
unfoldable pub load : BattleInitData → Combat → Combat
load d c = record (add_camps d.camp_vec c) {
  combat_type = d.param_type;
  step = battle_step_loading;
}

module _ (dice : Dice) (calc : CombatCalc) where
  -- The end of stepLoadingEnd, after initSpeedBar.
  unfoldable pub start_rounds : Bool × Combat → Reply
  start_rounds (false, c) = returns false c
  start_rounds (true, c) =
      reply (round_start dice calc api_fuel (with_camp_states (λ _. camp_unit_state_operate_end) c))

  unfoldable pub step_loading_end : Combat → Reply
  step_loading_end c = start_rounds (init_speed_bar (record c { step = battle_step_round }))

  unfoldable pub init : BattleInitData → Combat → Reply
  init d c =
      let c' = load d c in
      if check_init d
      then if check_round_start c' then step_loading_end c' else returns true c'
      else returns false c

  unfoldable pub set_loading_end : ℕ → Combat → Reply
  set_loading_end uid c =
      if is_loading c.step
      then elim (get_camp_unit_by_uid c uid) [
        | none ↦ returns false c
        | some (camp, v) ↦
            (let c' = modify_camp camp (set_state camp_unit_state_loading_end) c in
              if check_round_start c' then step_loading_end c' else returns true c')
      ]
      else returns false c

-- setOperateSkill and setPlayEnd do nothing yet.
unfoldable pub set_operate_skill : ℕ → ℕ → List ℕ → Combat → Reply
set_operate_skill uid skill_id target c = returns true c

unfoldable pub set_play_end : ℕ → Combat → Reply
set_play_end uid c = returns true c
