-- ===== src/Battle/Round/Prepare.antt =====
-- roundStart up to its last test, in a battle between robots: a unit is chosen, its camp operates
-- for it, and every camp is done.
mod Bars
mod Operate
use mathlib.Core.Option
use integration_server.Prelude.{
  ℕ, ◌+◌, ◌*◌, ◌%◌, ◌^◌, ◌≤◌, ◌<◌, ◌≡◌, ◌≢◌, refl, sym, ap, subst, ◌∙◌, ◌⊎◌, inl, inr, Bool, true,
  false, Option, none, some, List, [], ◌∷◌, arith, All, ◌==◌, ◌&&◌, not, ℕ_discrete, Option-cases,
  if◌then◌else◌, Bool-cases,
}
use integration_server.Prelude.Map.{Map, find, update, keys, IsOrdered}
use integration_server.Prelude.Map.Laws.{find-update, update-IsOrdered}
use integration_server.Utils.Rand.{Dice}
use integration_server.Utils.CalcTool.{safe_sub}
use integration_server.Battle.Common.{
  run_speed_bar_invalid, battle_step_round, battle_state_waiting_operate, CampUnitState,
  camp_unit_state_operate, camp_unit_state_operate_end, battle_unit_type_user,
  battle_skill_normal_atk,
}
use integration_server.Battle.Unit.{
  BattleUnit, CampUnit, set_state, is_alive, is_can_run_speed_bar, get_speed, get_attr,
  get_speed_bar_total, set_cur_operate, get_default_skill, set_speed_bar, set_overflow_speed_bar,
}
use integration_server.Battle.Combat.{
  Combat, get_battle_unit, get_camp_unit_by_camp, get_alive_unit_by_camp, modify_unit, modify_camp,
  all_camps, is_operate_end,
}
use integration_server.Battle.SpeedBar.{
  advance, choose, prefer, run_min_times, run_unit, run_units, run_speed_bar, current,
}
use integration_server.Battle.SpeedBar.Minimum.{Runs, max_bar}
use integration_server.Battle.SpeedBar.Order.{get_speed_bar_total-advance}
use integration_server.Battle.SpeedBar.Pick.{Picked, run_speed_bar-Picked}
use integration_server.Battle.Round.{
  with_camp_states, set_camp_states, target_camp, set_operate_camp, pick_target,
  get_default_skill_target, fill_default_skill, auto_fight_unit, auto_fight, round_prepare,
}
use integration_server.Battle.Round.Target.{Strikes, get_default_skill_target-Strikes}
use integration_server.Battle.Round.Fit.{
  HasCamp, UnitFits, UnitsFit, Robots, Robots-find, Fits, Robots-update, HasCamp-update,
  Robots-set_camp_states, HasCamp-set_camp_states, Fits-camps, Fits-modify, all_camps-operate,
  all_camps-back,
}
use integration_server.Battle.Round.Prepare.Bars.{run_speed_bar-Fits}
use integration_server.Battle.Round.Prepare.Operate.{operate_round, Operated}
pub use Operate.{Acts}

-- What a round has made of the combat when it comes to its fight.
pub record Prepared (c d : Combat) : Type 0 where
  pub fits : Fits d
  pub in_round : d.step ≡ battle_step_round
  pub waits : d.state ≡ battle_state_waiting_operate
  pub counted : d.round ≡ (c.round + 1) % 2 ^ 32
  pub operated : all_camps is_operate_end d.camp_unit_map ≡ true
  pub acts : (key : ℕ) × Acts key d

abbrev reset : Combat → Combat
reset c =
    with_camp_states (λ _. camp_unit_state_operate_end)
      (record c { round = (c.round + 1) % 2 ^ 32 })

reset-Fits : (c : Combat) → Fits c → Fits (reset c)
reset-Fits c f =
    let g =
      Fits-camps c (set_camp_states (λ _. camp_unit_state_operate_end) c.camp_unit_map) f
        (λ camp h.
          HasCamp-set_camp_states camp (λ _. camp_unit_state_operate_end) c.camp_unit_map h)
        (Robots-set_camp_states (λ _. camp_unit_state_operate_end) c.camp_unit_map f.robots) in
    record {
      ordered = g.ordered;
      units = g.units;
      robots = g.robots;
      short = g.short;
      long = g.long;
    }

-- The unit that runSpeedBar picks has speed.
picked-Runs :
    (c : Combat) (key : ℕ) (w : BattleUnit)
    → Fits c
    → find key c.battle_unit_map ≡ some w
    → is_alive w ≡ true
    → c.speed_bar ≤ get_speed_bar_total w
    → Runs w
picked-Runs c key w f e alive full = (alive, ground (arith, (f.units key w e).idle, f.long, full))

pub round_prepare-Prepared :
    (dice : Dice) (c : Combat) (k : ℕ) (u : BattleUnit)
    → Fits c
    → c.step ≡ battle_step_round
    → c.cur_operate_unit ≡ none
    → find k c.battle_unit_map ≡ some u
    → Runs u
    → Prepared c (round_prepare dice c)
unfolding round_prepare
round_prepare-Prepared dice c k u f step nobody found runs =
    let r = reset c in
    let fr = reset-Fits c f in
    let (key, w, cur, ready, _) =
      run_speed_bar-Picked k u r f.ordered nobody f.short (λ j v e. (f.units j v e).slow) found
        runs in
    let (fs, rest) = run_speed_bar-Fits r fr in
    let o =
      operate_round dice (run_speed_bar r) key w fs (ap (λ x. x.step) rest ∙ step)
        (ap (λ x. all_camps is_operate_end x.camp_unit_map) rest
          ∙ all_camps-operate c.camp_unit_map)
        cur ready.0 (picked-Runs (run_speed_bar r) key w fs ready.0 ready.1 ready.2) in
    record {
      fits = o.fits;
      in_round = o.in_round;
      waits = o.waits;
      counted = o.same_round ∙ ap (λ x. x.round) rest;
      operated = o.operated;
      acts = (key, o.acts);
    }
