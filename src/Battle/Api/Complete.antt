-- ===== src/Battle/Api/Complete.antt =====
-- Combat::init plays a battle between robots to its end.
use integration_server.Prelude.{
  ℕ, ◌*◌, ◌%◌, ◌^◌, ◌≤◌, ◌<◌, ◌≡◌, refl, sym, subst, ◌⊎◌, inl, inr, Bool, true, false, some, arith,
}
use integration_server.Prelude.Map.{find}
use integration_server.Utils.Rand.{Dice}
use integration_server.Battle.Common.{
  BattleInitData, battle_step_loading, battle_step_round, camp_unit_state_operate_end,
}
use integration_server.Battle.Unit.{BattleUnit, is_alive, get_speed}
use integration_server.Battle.Combat.{Combat, new_combat, check_init, check_round_start}
use integration_server.Battle.Calc.{CombatCalc}
use integration_server.Battle.SpeedBar.{init_speed_bar}
use integration_server.Battle.SpeedBar.Minimum.{max_bar, Runs}
use integration_server.Battle.SpeedBar.Start.{Starts, init_speed_bar-Starts}
use integration_server.Battle.Round.{with_camp_states, set_camp_states, round_start}
use integration_server.Battle.Round.Fit.{
  Fits, Fits-camps, HasCamp-set_camp_states, Robots-set_camp_states,
}
use integration_server.Battle.Round.Complete.{Ended, Ends, round_start-Ends}
use integration_server.Battle.Api.{
  Reply, returns, load, start_rounds, step_loading_end, init, api_fuel, reply,
}
use integration_server.Battle.Api.Load.{Loaded, load-Loaded, RobotCamps, SlowCamps, top_speed}

-- No living unit has speed.
abbrev pub Stuck : Combat → Type 0
Stuck c =
    (k : ℕ) (u : BattleUnit)
    → find k c.battle_unit_map ≡ some u
    → is_alive u ≡ true
    → get_speed u ≡ 0

abbrev pub Completes : Reply → Type 0
Completes r =
    (b : Bool) × (e : Combat) × (r ≡ returns b e)
    × (((b ≡ true) × Ended e) ⊎ ((b ≡ false) × Stuck e))

-- The start of the first round.
abbrev pub ready : ℕ → Combat → Combat
ready bar c =
    with_camp_states (λ _. camp_unit_state_operate_end)
      (record c { step = battle_step_round; speed_bar = bar })

pub ready-Fits : (c : Combat) (bar : ℕ) → Loaded c → bar ≤ max_bar → 0 < bar → Fits (ready bar c)
ready-Fits c bar l short long =
    Fits-camps (record c { step = battle_step_round; speed_bar = bar })
      (set_camp_states (λ _. camp_unit_state_operate_end) c.camp_unit_map)
      (record {
        ordered = l.fresh.ordered;
        units = l.fresh.fits;
        robots = l.robots;
        short = short;
        long = long;
      })
      (λ camp h. HasCamp-set_camp_states camp (λ _. camp_unit_state_operate_end) c.camp_unit_map h)
      (Robots-set_camp_states (λ _. camp_unit_state_operate_end) c.camp_unit_map l.robots)

-- The rounds of a loaded battle end, whoever is fastest.
ready-Ends :
    (dice : Dice) (calc : CombatCalc) (c : Combat) (bar k : ℕ) (u : BattleUnit)
    → Loaded c
    → bar ≤ max_bar
    → 0 < bar
    → find k c.battle_unit_map ≡ some u
    → Runs u
    → Ends (round_start dice calc api_fuel (ready bar c))
ready-Ends dice calc c bar k u l short long found runs =
    round_start-Ends dice calc api_fuel (ready bar c) (ready-Fits c bar l short long) refl l.nobody
      (k, u, found, runs) (omega (arith, l.no_round)) (omega arith)

check_round_start-Loaded :
    (c : Combat) → Loaded c → c.step ≡ battle_step_loading → check_round_start c ≡ true
unfolding check_round_start
check_round_start-Loaded c l e = rw e (l.waiting)

bar_bounds : (s : ℕ) → s ≤ top_speed → 0 < s → (s * 7 % 2 ^ 32 ≤ max_bar) × (0 < s * 7 % 2 ^ 32)
bar_bounds s h p = (omega arith, omega arith)

start_rounds-Completes :
    (dice : Dice) (calc : CombatCalc) (c : Combat) (p : Bool × Combat)
    → Loaded c
    → Starts (record c { step = battle_step_round }) p
    → Completes (start_rounds dice calc p)
unfolding start_rounds reply
start_rounds-Completes dice calc c (false, x) l (inl (e, same, stuck)) =
    (false, x, refl, inr (refl, subst Stuck (sym same) stuck))
start_rounds-Completes dice calc c (false, x) l (inr h) = absurd (ground (arith, h.0))
start_rounds-Completes dice calc c (true, x) l (inl h) = absurd (ground (arith, h.0))
start_rounds-Completes dice calc c (true, x) l (inr (e, k, u, after, found, runs, fastest)) =
    let b = bar_bounds (get_speed u) (l.fresh.top k u found) runs.1 in
    let (w, t, over) = ready-Ends dice calc c (get_speed u * 7 % 2 ^ 32) k u l b.0 b.1 found runs in
    (true, w, rw (after, t) refl, inl (refl, over))

step_loading_end-Completes :
    (dice : Dice) (calc : CombatCalc) (c : Combat)
    → Loaded c
    → Completes (step_loading_end dice calc c)
unfolding step_loading_end
step_loading_end-Completes dice calc c l =
    let c' : Combat = record c { step = battle_step_round } in
    start_rounds-Completes dice calc c (init_speed_bar c') l
      (init_speed_bar-Starts c' l.fresh.ordered)

-- A battle of camps that belong to no player, whose units have a speed of at most 14285 and whose
-- data passes checkInit, is played to its end by init on a new Combat, for any random draws and any
-- skill tables: init returns true with the battle ended after at most 99 rounds and a result that
-- is true of its units, or it returns false and no living unit has speed. It never reads the NULL
-- current unit and never needs more fuel.
pub init-Completes :
    (dice : Dice) (calc : CombatCalc) (d : BattleInitData) (uid : ℕ)
    → RobotCamps d.camp_vec
    → SlowCamps d.camp_vec
    → check_init d ≡ true
    → Completes (init dice calc d (new_combat uid))
unfolding init load
init-Completes dice calc d uid r s ok =
    let l = load-Loaded d uid r s in
    let m : Loaded (load d (new_combat uid)) = record {
      camps = l.camps;
      fresh = l.fresh;
      robots = l.robots;
      waiting = l.waiting;
      nobody = l.nobody;
      no_round = l.no_round;
    } in
    rw (ok, check_round_start-Loaded (load d (new_combat uid)) m refl)
      (step_loading_end-Completes dice calc (load d (new_combat uid)) m)
