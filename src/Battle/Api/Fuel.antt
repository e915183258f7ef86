-- ===== src/Battle/Api/Fuel.antt =====
-- The fuel of the calls is enough.
use integration_server.Prelude.{
  ℕ, ◌≡◌, refl, sym, subst, ◌∙◌, inl, inr, Bool, true, false, List, [], ◌∷◌, arith, Bool-cases,
}
use integration_server.Prelude.Map.{assign}
use integration_server.Utils.Rand.{Dice}
use integration_server.Battle.Common.{
  BattleCamp, BattleInitData, battle_step_round, camp_unit_state_loading_end,
  camp_unit_state_operate_end,
}
use integration_server.Battle.Unit.{set_state, new_camp_unit}
use integration_server.Battle.Combat.{Combat, modify_camp, check_init, check_round_start}
use integration_server.Battle.Calc.{CombatCalc}
use integration_server.Battle.SpeedBar.{init_speed_bar}
use integration_server.Battle.Round.{Run, done, fault, out_of_fuel, with_camp_states, round_start}
use integration_server.Battle.Round.Fuel.{Enough, round_start-Enough}
use integration_server.Battle.Api.{
  Reply, returns, crashes, no_fuel, reply, api_fuel, add_units, add_camps, load, start_rounds,
  step_loading_end, init, set_loading_end,
}
use integration_server.Battle.Api.Calls.{set_loading_end_cases, init_speed_bar-frame}

-- The call does not stop for want of fuel.
abbrev pub Fuelled : Reply → Type 0
Fuelled (returns b d) = Unit
Fuelled crashes = Unit
Fuelled no_fuel = ⊥

reply-Fuelled : (r : Run) → Enough r → Fuelled (reply r)
unfolding reply
reply-Fuelled (done d) h = tt
reply-Fuelled fault h = tt
reply-Fuelled out_of_fuel h = absurd h

start_rounds-Fuelled :
    (dice : Dice) (calc : CombatCalc) (p : Bool × Combat)
    → p.1.round ≡ 0
    → Fuelled (start_rounds dice calc p)
unfolding start_rounds
start_rounds-Fuelled dice calc (false, d) e = tt
start_rounds-Fuelled dice calc (true, d) e =
    reply-Fuelled
      (round_start dice calc api_fuel (with_camp_states (λ _. camp_unit_state_operate_end) d))
      (round_start-Enough dice calc api_fuel (with_camp_states (λ _. camp_unit_state_operate_end) d)
        (omega (arith, e)) (omega arith))

step_loading_end-Fuelled :
    (dice : Dice) (calc : CombatCalc) (c : Combat)
    → c.round ≡ 0
    → Fuelled (step_loading_end dice calc c)
unfolding step_loading_end
step_loading_end-Fuelled dice calc c e =
    start_rounds-Fuelled dice calc (init_speed_bar (record c { step = battle_step_round }))
      ((init_speed_bar-frame (record c { step = battle_step_round })).2 ∙ e)

add_camps-round : (bs : List BattleCamp) (c : Combat) → (add_camps bs c).round ≡ c.round
unfolding add_camps
add_camps-round [] c = refl
add_camps-round (b ∷ bs) c = add_camps-round bs (record c {
  battle_unit_map = add_units b.camp b.unit_map c.battle_unit_map;
  camp_unit_map = assign b.camp (new_camp_unit b.uid b.camp b.camp_type) c.camp_unit_map;
})

-- On a combat whose round is 0, neither init nor setLoadingEnd runs out of its fuel of 99, for any
-- data, camps and units.
pub api-Fuelled :
    (dice : Dice) (calc : CombatCalc) (d : BattleInitData) (uid : ℕ) (c : Combat)
    → c.round ≡ 0
    → Fuelled (init dice calc d c) × Fuelled (set_loading_end dice calc uid c)
unfolding init load
api-Fuelled dice calc d uid c e = (started, loaded)
  where
    started : Fuelled (init dice calc d c)
    started = elim (Bool-cases (check_init d)) [
      | inr ok ↦ rw ok tt
      | inl ok ↦ elim (Bool-cases (check_round_start (load d c))) [
        | inr t ↦ rw (ok, t) tt
        | inl t ↦
            rw (ok, t)
              (step_loading_end-Fuelled dice calc (load d c) (add_camps-round d.camp_vec c ∙ e))
      ]
    ]

    loaded : Fuelled (set_loading_end dice calc uid c)
    loaded = elim (set_loading_end_cases dice calc uid c) [
      | inl t ↦ subst Fuelled (sym t) tt
      | inr (camp, inl t) ↦ subst Fuelled (sym t) tt
      | inr (camp, inr t) ↦ subst Fuelled (sym t) (
          step_loading_end-Fuelled dice calc
            (modify_camp camp (set_state camp_unit_state_loading_end) c) e)
    ]
