-- ===== src/Battle/Round.antt =====
-- logic_work/battle/combat.cpp: the rounds of a battle. roundStart, roundFight and roundEnd call one
-- another, so roundStart takes fuel, a bound on the rounds; `api_fuel` of Api.antt is enough.
-- A read through the NULL current unit in roundEnd is the outcome `fault`.
pub mod Target
pub mod Frame
pub mod User
pub mod Fuel
pub mod Fit
pub mod Prepare
pub mod Fight
pub mod Complete
use integration_server.Prelude.{
  ℕ, zero, suc, ◌+◌, ◌-◌, ◌%◌, ◌^◌, Bool, true, false, ◌&&◌, not, List, [], ◌∷◌, Option, none, some,
  length, get_elem?, ltb, ◌==◌, if◌then◌else◌,
}
use integration_server.Prelude.Map.{Map}
use integration_server.Utils.Rand.{Dice, rand_between}
use integration_server.Battle.Common.{
  battle_step_end, battle_state_waiting_operate, battle_state_fighting, battle_state_playing,
  CampUnitState, camp_unit_state_operate, camp_unit_state_operate_end, camp_unit_state_play,
  camp_unit_state_play_end, battle_unit_type_user, battle_camp_1, battle_camp_2,
  battle_skill_normal_atk,
}
use integration_server.Battle.Unit.{
  BattleUnit, CampUnit, set_state, get_default_skill, set_cur_operate, clear_cur_operate,
  set_speed_bar,
}
use integration_server.Battle.Combat.{
  Combat, is_round, is_waiting_operate, is_operate_end, get_battle_unit, modify_unit, modify_camp,
  get_camp_unit_by_camp, check_round_operate, check_round_play_end, check_combat_end,
  get_alive_unit_by_camp,
}
use integration_server.Battle.Calc.{CombatCalc, do_operate}
use integration_server.Battle.SpeedBar.{run_speed_bar, current}

pub data Run : Type 0 where
  done : Combat → Run
  fault : Run
  out_of_fuel : Run

unfoldable pub set_camp_states : (CampUnit → CampUnitState) → Map CampUnit → Map CampUnit
set_camp_states f [] = []
set_camp_states f ((k, v) ∷ m) = (k, set_state (f v) v) ∷ set_camp_states f m

abbrev pub with_camp_states : (CampUnit → CampUnitState) → Combat → Combat
with_camp_states f c = record c { camp_unit_map = set_camp_states f c.camp_unit_map }

abbrev pub target_camp : ℕ → ℕ
target_camp camp = if camp == battle_camp_1 then battle_camp_2 else battle_camp_1

-- A roundFight sets the users' camps playing, and the others' done.
abbrev pub play_state : CampUnit → CampUnitState
play_state v =
    if v.camp_type == battle_unit_type_user then camp_unit_state_play else camp_unit_state_play_end

-- The operating camp of roundStart.
unfoldable pub set_operate_camp : Combat → Combat
set_operate_camp c = elim (current c) [
  | none ↦ c
  | some u ↦ elim (get_camp_unit_by_camp c u.camp) [
    | none ↦ c
    | some v ↦ modify_camp u.camp (set_state camp_unit_state_operate) c
  ]
]

-- The test of the index and the read of unitVec.
unfoldable pub aim : List BattleUnit → ℕ → List ℕ
aim us index =
    if ltb (length us) index
    then []
    else elim (get_elem? us index) [ none ↦ [] | some t ↦ t.uid ∷ [] ]

module _ (dice : Dice) where
  -- The targets pushed, and the combat with the draws counted.
  unfoldable pub pick_target : List BattleUnit → Combat → List ℕ × Combat
  unfolding aim
  pick_target [] c = ([], c)
  pick_target (u ∷ us) c = (
    aim (u ∷ us) (rand_between dice c.draws 0 (length (u ∷ us) - 1)),
    record c { draws = c.draws + 1 },
  )

  unfoldable pub get_default_skill_target : ℕ → Combat → List ℕ × Combat
  get_default_skill_target skill c = elim (current c) [
    | none ↦ ([], c)
    | some u ↦
        if skill == battle_skill_normal_atk
        then pick_target (get_alive_unit_by_camp c (target_camp u.camp)) c
        else ([], c)
  ]

  -- The end of autoFight: the default skill on its target.
  unfoldable pub fill_default_skill : ℕ → BattleUnit → Combat → Combat
  fill_default_skill key u c =
      let (targets, c') = get_default_skill_target (get_default_skill u) c in
      modify_camp u.camp (set_state camp_unit_state_operate_end)
        (modify_unit key (λ v. set_cur_operate v (get_default_skill u) targets) c')

  unfoldable pub auto_fight_unit : ℕ → BattleUnit → Combat → Combat
  auto_fight_unit key u c = elim (get_camp_unit_by_camp c u.camp) [
    | none ↦ c
    | some v ↦
        if v.camp_type == battle_unit_type_user && not v.is_auto
        then c
        else if is_operate_end v.state
        then c
        else fill_default_skill key u c
  ]

  unfoldable pub auto_fight : Combat → Combat
  auto_fight c =
      if is_round c.step
      then if is_waiting_operate c.state
        then elim c.cur_operate_unit [
          | none ↦ c
          | some key ↦ elim (get_battle_unit c key) [ none ↦ c | some u ↦ auto_fight_unit key u c ]
        ]
        else c
      else c

  -- roundStart up to its last test.
  unfoldable pub round_prepare : Combat → Combat
  round_prepare c = auto_fight (record operating { state = battle_state_waiting_operate })
    where
      reset : Combat
      reset =
          with_camp_states (λ _. camp_unit_state_operate_end)
            (record c { round = (c.round + 1) % 2 ^ 32 })

      operating : Combat
      operating = set_operate_camp (run_speed_bar reset)

-- The clean-up of roundEnd, for the current unit.
unfoldable pub round_clear : ℕ → Combat → Combat
round_clear key c = record (modify_unit key (λ u. clear_cur_operate (set_speed_bar u 0)) c) {
  cur_operate_unit = none;
}

unfoldable pub combat_end : Combat → Combat
combat_end c = record c { step = battle_step_end }

-- roundFight up to its test. The current unit strikes, and the camps play.
unfoldable pub strike : CombatCalc → Combat → Combat
strike calc c = elim c.cur_operate_unit [ none ↦ c | some key ↦ do_operate calc key c ]

unfoldable pub fight : CombatCalc → Combat → Combat
unfolding strike
fight calc c = with_camp_states play_state (record struck { state = battle_state_playing })
  where
    struck : Combat
    struck = strike calc (record c { state = battle_state_fighting })

-- The functions below take what follows a round as an argument.
module _ (next : Combat → Run) where
  unfoldable pub round_end : Combat → Run
  round_end c = elim c.cur_operate_unit [
    | none ↦ fault
    | some key ↦
        (let (ended, c') = check_combat_end (round_clear key c) in
          if ended then done (combat_end c') else next c')
  ]

  unfoldable pub round_fight : CombatCalc → Combat → Run
  unfolding round_end fight
  round_fight calc c =
      let c' = fight calc c in if check_round_play_end c' then round_end c' else done c'

module _ (dice : Dice) (calc : CombatCalc) where
  unfoldable pub round_start : ℕ → Combat → Run
  round_start zero c = out_of_fuel
  round_start (suc fuel) c =
      let c' = round_prepare dice c in
      if check_round_operate c' then round_fight (round_start fuel) calc c' else done c'
