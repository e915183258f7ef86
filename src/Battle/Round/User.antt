-- ===== src/Battle/Round/User.antt =====
-- A battle with a player's camp, and the number of rounds of any battle.
use integration_server.Prelude.{
  ℕ, ◌+◌, ◌%◌, ◌^◌, ◌≡◌, ◌⊎◌, refl, sym, subst, ap, inl, inr, false, Option, none, some, arith,
  All-intro, ◌==◌, Bool-cases, Option-cases, not, ◌&&◌,
}
use integration_server.Prelude.Map.{find}
use integration_server.Utils.Rand.{Dice}
use integration_server.Battle.Common.{
  battle_unit_type_user, camp_unit_state_operate_end, battle_state_waiting_operate,
  battle_state_fighting,
}
use integration_server.Battle.Unit.{BattleUnit, set_cur_operate, get_default_skill}
use integration_server.Battle.Combat.{
  Combat, get_battle_unit, get_camp_unit_by_camp, modify_unit, is_operate_end, is_round,
  is_waiting_operate, check_round_play_end,
}
use integration_server.Battle.Calc.{CombatCalc, do_operate}
use integration_server.Battle.Calc.Frame.{do_operate-Struck}
use integration_server.Battle.SpeedBar.{run_speed_bar}
use integration_server.Battle.Round.{
  with_camp_states, play_state, set_operate_camp, get_default_skill_target, fill_default_skill,
  auto_fight_unit, auto_fight, round_prepare, strike, fight,
}
use integration_server.Prelude.{ℕ, suc}
use integration_server.Battle.Combat.{check_round_operate}
use integration_server.Battle.Round.{Run, done, round_fight, round_start}
use integration_server.Battle.Round.Frame.{
  HasUser, HasUser-set_camp_states, all_camps-user, Kept, Kept-refl, Kept-trans, modify_camp-Kept,
  set_operate_camp-Kept, run_speed_bar-Kept, get_default_skill_target-draws,
}

fill_default_skill-Kept :
    (dice : Dice) (key : ℕ) (u : BattleUnit) (c : Combat) → Kept c (fill_default_skill dice key u c)
unfolding fill_default_skill
fill_default_skill-Kept dice key u c =
    Kept-trans
      (record {
        step = ap (λ x. x.step) e;
        result = ap (λ x. x.result) e;
        round = ap (λ x. x.round) e;
        user = λ h. subst HasUser (sym (ap (λ x. x.camp_unit_map) e)) h;
      })
      (modify_camp-Kept u.camp camp_unit_state_operate_end (
        modify_unit key (λ v. set_cur_operate v skill (get_default_skill_target dice skill c).0)
          (get_default_skill_target dice skill c).1))
  where
    skill : ℕ
    skill = get_default_skill u

    e :
        (get_default_skill_target dice skill c).1
        ≡ record c { draws = (get_default_skill_target dice skill c).1.draws }
    e = get_default_skill_target-draws dice c skill

auto_fight_unit-Kept :
    (dice : Dice) (key : ℕ) (u : BattleUnit) (c : Combat) → Kept c (auto_fight_unit dice key u c)
unfolding auto_fight_unit
auto_fight_unit-Kept dice key u c = elim (Option-cases (get_camp_unit_by_camp c u.camp)) [
  | inl e ↦ rw (e, auto_fight_unit) (Kept-refl c)
  | inr (v, e) ↦ elim (Bool-cases (v.camp_type == battle_unit_type_user && not v.is_auto)) [
    | inl b ↦ rw (e, b, auto_fight_unit) (Kept-refl c)
    | inr b ↦ elim (Bool-cases (is_operate_end v.state)) [
      | inl o ↦ rw (e, b, o, auto_fight_unit) (Kept-refl c)
      | inr o ↦ rw (e, b, o, auto_fight_unit) (fill_default_skill-Kept dice key u c)
    ]
  ]
]

auto_fight_cases :
    (dice : Dice) (c : Combat)
    → (auto_fight dice c ≡ c)
      ⊎ ((key : ℕ) × (u : BattleUnit) × (auto_fight dice c ≡ auto_fight_unit dice key u c))
unfolding auto_fight
auto_fight_cases dice c = elim (Option-cases c.cur_operate_unit) [
  | inl e ↦ inl (ground (arith, e))
  | inr (key, e) ↦ elim (Option-cases (get_battle_unit c key)) [
    | inl g ↦ inl (ground (arith, e, g))
    | inr (u, g) ↦ elim (Bool-cases (is_round c.step)) [
      | inr s ↦ inl (ground (arith, s))
      | inl s ↦ elim (Bool-cases (is_waiting_operate c.state)) [
        | inr t ↦ inl (ground (arith, s, t))
        | inl t ↦ inr (key, u, ground (arith, e, g, s, t))
      ]
    ]
  ]
]

auto_fight-Kept : (dice : Dice) (c : Combat) → Kept c (auto_fight dice c)
auto_fight-Kept dice c = elim (auto_fight_cases dice c) [
  | inl e ↦ subst (Kept c) (sym e) (Kept-refl c)
  | inr (key, u, e) ↦ subst (Kept c) (sym e) (auto_fight_unit-Kept dice key u c)
]

-- The combat with the round counted.
abbrev counted : Combat → Combat
counted c = record c { round = (c.round + 1) % 2 ^ 32 }

reset-Kept :
    (c : Combat)
    → Kept (counted c) (with_camp_states (λ _. camp_unit_state_operate_end) (counted c))
reset-Kept c = record {
  step = refl;
  result = refl;
  round = refl;
  user = HasUser-set_camp_states (λ _. camp_unit_state_operate_end) c.camp_unit_map;
}

with_waiting-Kept : (c : Combat) → Kept c (record c { state = battle_state_waiting_operate })
with_waiting-Kept c = record { step = refl; result = refl; round = refl; user = λ h. h }

pub round_prepare-Kept : (dice : Dice) (c : Combat) → Kept (counted c) (round_prepare dice c)
unfolding round_prepare
round_prepare-Kept dice c =
    let d = with_camp_states (λ _. camp_unit_state_operate_end) (counted c) in
    let e = set_operate_camp (run_speed_bar d) in
    Kept-trans (reset-Kept c) (
      Kept-trans (run_speed_bar-Kept d) (
        Kept-trans (set_operate_camp-Kept (run_speed_bar d)) (
          Kept-trans (with_waiting-Kept e)
            (auto_fight-Kept dice (record e { state = battle_state_waiting_operate })))))

do_operate-Kept : (calc : CombatCalc) (key : ℕ) (c : Combat) → Kept c (do_operate calc key c)
unfolding do_operate
do_operate-Kept calc key c = elim (Option-cases (get_battle_unit c key)) [
  | inl e ↦ rw (e, do_operate) (Kept-refl c)
  | inr (u, e) ↦
      (let s =
          do_operate-Struck calc key c u (λ _. Unit) (found u e)
            (All-intro (λ _. tt) u.cur_operate.target_vec) in
        record {
          step = ap (λ x. x.step) s.rest;
          result = ap (λ x. x.result) s.rest;
          round = ap (λ x. x.round) s.rest;
          user = λ h. subst HasUser (sym (ap (λ x. x.camp_unit_map) s.rest)) h;
        })
]
  where
    found : (u : BattleUnit) → get_battle_unit c key ≡ some u → find key c.battle_unit_map ≡ some u
    found u e = unfold get_battle_unit in e

strike-Kept : (calc : CombatCalc) (c : Combat) → Kept c (strike calc c)
unfolding strike
strike-Kept calc c = go c.cur_operate_unit
  where
    go : (o : Option ℕ) → Kept c (elim o [ none ↦ c | some key ↦ do_operate calc key c ])
    go none = Kept-refl c
    go (some key) = do_operate-Kept calc key c

pub fight-Kept : (calc : CombatCalc) (c : Combat) → Kept c (fight calc c)
unfolding fight
fight-Kept calc c =
    let s = strike-Kept calc (record c { state = battle_state_fighting }) in
    record {
      step = s.step;
      result = s.result;
      round = s.round;
      user = λ h.
          HasUser-set_camp_states play_state
            (strike calc (record c { state = battle_state_fighting })).camp_unit_map (s.user h);
    }

-- After its fight, a battle with a player's camp waits for the player.
fight-waits :
    (calc : CombatCalc) (c : Combat)
    → HasUser c.camp_unit_map
    → check_round_play_end (fight calc c) ≡ false
unfolding fight check_round_play_end
fight-waits calc c h =
    let s = strike-Kept calc (record c { state = battle_state_fighting }) in
    ground (
      arith,
      all_camps-user (strike calc (record c { state = battle_state_fighting })).camp_unit_map
          (s.user h),
    )

-- A round that leaves the battle open, without a result.
abbrev pub Waits : Combat → Run → Type 0
Waits c r =
    (d : Combat) × (r ≡ done d)
    × (d.step ≡ c.step)
    × (d.result ≡ c.result)
    × (d.round ≡ (c.round + 1) % 2 ^ 32)
    × HasUser d.camp_unit_map

Waits-Kept : (c d : Combat) → HasUser c.camp_unit_map → Kept (counted c) d → Waits c (done d)
Waits-Kept c d h k = (d, refl, k.step, k.result, k.round, k.user h)

pub round_start-Waits :
    (dice : Dice) (calc : CombatCalc) (fuel : ℕ) (c : Combat)
    → HasUser c.camp_unit_map
    → Waits c (round_start dice calc (suc fuel) c)
unfolding round_start round_fight
round_start-Waits dice calc fuel c h =
    let d = round_prepare dice c in
    let k = round_prepare-Kept dice c in
    elim (Bool-cases (check_round_operate d)) [
      | inl e ↦
          rw (e, fight-waits calc d (k.user h))
            (Waits-Kept c (fight calc d) h (Kept-trans k (fight-Kept calc d)))
      | inr e ↦ rw e (Waits-Kept c d h k)
    ]
