-- ===== src/Battle/Tests.antt =====
-- A battle of two robots on the code, and the theorems at concrete inputs.
use integration_server.Prelude.{
  ℕ, ◌+◌, ◌^◌, ◌≤◌, ◌<◌, ◌≡◌, refl, arith, Bool, true, List, [], ◌∷◌, none, some, inl, ◌-◌, ◌/◌,
}
use integration_server.Prelude.Map.{find, assign, update}
use integration_server.Prelude.Map.Laws.{update-IsOrdered}
use integration_server.Utils.Rand.{Dice}
use integration_server.Utils.CalcTool.{safe_sub}
use integration_server.Battle.Common.{BattleUnitData, BattleCamp, BattleInitData}
use integration_server.Battle.Unit.{
  BattleUnit, new_unit, get_speed, get_atk, get_attr, get_speed_bar_total, set_cur_operate, set_hp,
  new_camp_unit,
}
use integration_server.Battle.Combat.{
  Combat, new_combat, check_init, check_combat_end, modify_unit, get_battle_unit,
}
use integration_server.Battle.Combat.Verdict.{Decides, check_combat_end-Decides}
use integration_server.Battle.Calc.{CombatCalc, empty_calc, init_calc, do_operate}
use integration_server.Battle.Calc.Frame.{Struck, do_operate-Struck}
use integration_server.Battle.Calc.Damage.{damage, do_operate-normal}
use integration_server.Battle.SpeedBar.{run_times, init_speed_bar, run_speed_bar, current}
use integration_server.Battle.SpeedBar.Minimum.{Runs, run_times_lem}
use integration_server.Battle.SpeedBar.Start.{Starts, init_speed_bar-Starts}
use integration_server.Battle.SpeedBar.Pick.{Picked, IsSlow, run_speed_bar-Picked}
use integration_server.Battle.Round.{target_camp, get_default_skill_target, round_start}
use integration_server.Battle.Round.Target.{Strikes, get_default_skill_target-Strikes}
use integration_server.Battle.Round.Frame.{HasUser}
use integration_server.Battle.Round.Complete.{Ends, round_start-Ends}
use integration_server.Battle.Api.{returns, load, add_camps, init, set_loading_end, add_units}
use integration_server.Battle.Api.Load.{RobotCamps, SlowCamps, Loaded, load-Loaded}
use integration_server.Battle.Api.Complete.{Completes, ready, ready-Fits, init-Completes}
use integration_server.Battle.Api.Calls.{Calls, player_battle}
use integration_server.Battle.Api.Fuel.{Fuelled, api-Fuelled}

-- A distribution that always yields the least value.
low_roll_range : (n low high : ℕ) → low < high → (low ≤ low) × (low ≤ high)
low_roll_range n low high h = omega (arith, h)

abbrev low_dice : Dice
low_dice = record { roll = λ n low high. low; roll_range = low_roll_range }

abbrev fighter : ℕ → ℕ → ℕ → ℕ → ℕ → BattleUnitData
fighter uid hp atk def speed = record {
  uid = uid;
  attr_map = (1, hp) ∷ (2, atk) ∷ (3, def) ∷ (4, speed) ∷ [];
}

abbrev camps_of : ℕ → List BattleCamp
camps_of camp_type =
    record {
      uid = 1;
      camp = 1;
      camp_type = camp_type;
      unit_map = (100, fighter 100 150 40 10 5) ∷ [];
    }
    ∷ record {
      uid = 2;
      camp = 2;
      camp_type = 1;
      unit_map = (101, fighter 101 120 30 8 3) ∷ (102, fighter 102 50 30 8 4) ∷ [];
    }
    ∷ []

abbrev duel : BattleInitData
duel = record { param_type = 1; camp_vec = camps_of 1 }

abbrev player_duel : BattleInitData
player_duel = record { param_type = 1; camp_vec = camps_of 2 }

abbrev tables : CombatCalc
tables = init_calc empty_calc

abbrev loaded : Combat
loaded = add_camps (camps_of 1) (new_combat 7)

robots : RobotCamps (camps_of 1)
robots = ((λ e. absurd (omega (arith, e))), ((λ e. absurd (omega (arith, e))), tt))

slow : SlowCamps (camps_of 1)
unfolding get_speed get_attr new_unit find assign
slow = ((omega arith, tt), ((omega arith, (omega arith, tt)), tt))

duel_checked : check_init duel ≡ true
unfolding check_init
duel_checked = refl

player_duel_checked : check_init player_duel ≡ true
unfolding check_init
player_duel_checked = refl

init-Completes_example : Completes (init low_dice tables duel (new_combat 7))
init-Completes_example = init-Completes low_dice tables duel 7 robots slow duel_checked

-- The units and the camps of the loaded battle.
loaded_all : Loaded loaded
loaded_all = load-Loaded duel 7 robots slow

abbrev hero : BattleUnit
hero = new_unit 1 (fighter 100 150 40 10 5)

abbrev rival : BattleUnit
rival = new_unit 2 (fighter 101 120 30 8 3)

hero_found : find 100 loaded.battle_unit_map ≡ some hero
unfolding add_camps new_combat find new_unit add_units assign
hero_found = refl

hero-Runs : Runs hero
unfolding new_unit get_speed get_attr find assign
hero-Runs = (refl, omega arith)

abbrev started : Combat
started = ready 35 loaded

round_start-Ends_example : Ends (round_start low_dice tables 99 started)
round_start-Ends_example =
    round_start-Ends low_dice tables 99 started
      (ready-Fits loaded 35 loaded_all (omega arith) (omega arith)) refl loaded_all.nobody
      (100, hero, hero_found, hero-Runs) (omega (arith, loaded_all.no_round)) (omega arith)

started-IsSlow : IsSlow started
started-IsSlow k u e =
    let f = (ready-Fits loaded 35 loaded_all (omega arith) (omega arith)).units k u e in f.slow

run_speed_bar-Picked_example : Picked (run_speed_bar started)
run_speed_bar-Picked_example =
    run_speed_bar-Picked 100 hero started loaded_all.fresh.ordered loaded_all.nobody (omega arith)
      started-IsSlow hero_found hero-Runs

check_combat_end-Decides_example : Decides started (check_combat_end started)
check_combat_end-Decides_example = check_combat_end-Decides started loaded_all.fresh.ordered

init_speed_bar-Starts_example : Starts loaded (init_speed_bar loaded)
init_speed_bar-Starts_example = init_speed_bar-Starts loaded loaded_all.fresh.ordered

-- The hero acts, on the first rival.
abbrev acting : Combat
acting = record (modify_unit 100 (λ u. set_cur_operate u 1 (101 ∷ [])) started) {
  cur_operate_unit = some 100;
}

abbrev ready_hero : BattleUnit
ready_hero = set_cur_operate hero 1 (101 ∷ [])

acting_found : find 100 acting.battle_unit_map ≡ some ready_hero
unfolding add_camps new_combat find new_unit add_units assign update
acting_found = refl

rival_found : find 101 acting.battle_unit_map ≡ some rival
unfolding add_camps new_combat find new_unit add_units assign update
rival_found = refl

hero_atk : get_atk ready_hero < 2 ^ 22
unfolding new_unit get_atk get_attr find assign
hero_atk = omega arith

do_operate-normal_example :
    do_operate tables 100 acting
    ≡ modify_unit 101 (λ w. set_hp w (safe_sub rival.attr.hp (damage ready_hero rival))) acting
do_operate-normal_example =
    do_operate-normal acting 100 101 ready_hero rival acting_found refl refl rival_found hero_atk

do_operate-Struck_example : Struck (λ k. k ≡ 101) acting (do_operate tables 100 acting)
do_operate-Struck_example =
    do_operate-Struck tables 100 acting ready_hero (λ k. k ≡ 101) acting_found (refl, tt)

acting_current : current acting ≡ some ready_hero
unfolding add_camps new_combat find new_unit add_units assign update get_battle_unit
acting_current = refl

get_default_skill_target-Strikes_example :
    Strikes acting (target_camp ready_hero.camp) (get_default_skill_target low_dice 1 acting).0
get_default_skill_target-Strikes_example =
    get_default_skill_target-Strikes low_dice acting ready_hero
      (update-IsOrdered 100 (λ u. set_cur_operate u 1 (101 ∷ [])) started.battle_unit_map
        loaded_all.fresh.ordered)
      acting_current

hero_slow : get_speed hero ≤ 99998
unfolding new_unit get_speed get_attr find assign
hero_slow = omega arith

run_times_lem_example :
    run_times 35 hero
    ≡ (safe_sub 35 (get_speed_bar_total hero) + get_speed hero - 1) / get_speed hero
run_times_lem_example = run_times_lem 35 hero (omega arith) hero-Runs.1 hero_slow

player_there : HasUser (load player_duel (new_combat 7)).camp_unit_map
unfolding load add_camps new_combat new_camp_unit assign
player_there = (1, new_camp_unit 1 1 2, inl refl, refl)

player_battle_example :
    (b : Bool) × (c : Combat) × (init low_dice tables player_duel (new_combat 7) ≡ returns b c)
    × ((e : Combat) → Calls low_dice tables c e → e.result ≡ none)
player_battle_example = player_battle low_dice tables player_duel 7 player_duel_checked player_there

fresh_round : (new_combat 7).round ≡ 0
unfolding new_combat
fresh_round = refl

api-Fuelled_example :
    Fuelled (init low_dice tables duel (new_combat 7))
    × Fuelled (set_loading_end low_dice tables 1 (new_combat 7))
api-Fuelled_example = api-Fuelled low_dice tables duel 1 (new_combat 7) fresh_round
