-- ===== src/Battle/Round/Fight.antt =====
-- The fight of a round and its clean-up, in a battle between robots.
use integration_server.Prelude.{
  ℕ, ◌≤◌, ◌<◌, ◌≡◌, ◌≢◌, refl, sym, ap, subst, ◌∙◌, inl, inr, true, none, some, arith, Option-cases,
}
use integration_server.Prelude.Map.{Map, find}
use integration_server.Prelude.Map.Laws.{find-update}
use integration_server.Battle.Common.{
  battle_step_round, battle_state_fighting, battle_state_playing,
}
use integration_server.Battle.Unit.{
  BattleUnit, CampUnit, get_speed, get_attr, get_speed_bar_total, set_hp, set_speed_bar,
  clear_cur_operate,
}
use integration_server.Battle.Combat.{Combat, modify_unit, check_round_play_end}
use integration_server.Battle.Calc.{CombatCalc, do_operate}
use integration_server.Battle.Calc.Frame.{Struck, do_operate-Struck}
use integration_server.Battle.SpeedBar.Minimum.{Runs, max_bar}
use integration_server.Battle.Round.{
  with_camp_states, set_camp_states, play_state, strike, round_clear, fight,
}
use integration_server.Battle.Round.Fit.{
  UnitFits, UnitsFit, Robots, Fits, Robots-set_camp_states, HasCamp-set_camp_states, Fits-camps,
  Fits-modify, all_camps-play,
}
use integration_server.Battle.Round.Prepare.{Acts}

abbrev pub Strong : Combat → Type 0
Strong c = (k : ℕ) × (u : BattleUnit) × (find k c.battle_unit_map ≡ some u) × Runs u

set_hp-UnitFits :
    (camps : Map CampUnit) (k hp : ℕ) (u : BattleUnit)
    → UnitFits camps k u
    → UnitFits camps k (set_hp u hp)
unfolding get_speed get_attr get_speed_bar_total
set_hp-UnitFits camps k hp u f = record {
  keyed = f.keyed;
  slow = f.slow;
  idle = f.idle;
  housed = f.housed;
}

-- Strikes keep the invariant.
Struck-Fits : (hit : ℕ → Type 0) (c d : Combat) → Struck hit c d → Fits c → Fits d
Struck-Fits hit c d s f = record {
  ordered = s.order f.ordered;
  units = units';
  robots = subst Robots (sym (ap (λ x. x.camp_unit_map) s.rest)) f.robots;
  short = subst (λ n. n ≤ max_bar) (sym (ap (λ x. x.speed_bar) s.rest)) f.short;
  long = subst (λ n. 0 < n) (sym (ap (λ x. x.speed_bar) s.rest)) f.long;
}
  where
    units' : UnitsFit d.camp_unit_map d.battle_unit_map
    units' k u e = elim (Option-cases (find k c.battle_unit_map)) [
      | inl g ↦ absurd (ground (arith, s.nobody k g, e))
      | inr (v, g) ↦
          let (hp, g', le, _) = s.fate k v g in
          let same : u ≡ set_hp v hp = ground (arith, g', e) in
          subst (λ camps. UnitFits camps k u) (sym (ap (λ x. x.camp_unit_map) s.rest))
            (subst (UnitFits c.camp_unit_map k) (sym same)
              (set_hp-UnitFits c.camp_unit_map k hp v (f.units k v g)))
    ]

-- What a fight leaves.
pub record Fought (key : ℕ) (c d : Combat) : Type 0 where
  pub fits : Fits d
  pub in_round : d.step ≡ battle_step_round
  pub same_round : d.round ≡ c.round
  pub played : check_round_play_end d ≡ true
  pub current : d.cur_operate_unit ≡ some key
  pub strong : (u : BattleUnit) × (find key d.battle_unit_map ≡ some u) × Runs u

with_fighting : (c : Combat) → Fits c → Fits (record c { state = battle_state_fighting })
with_fighting c f = record {
  ordered = f.ordered;
  units = f.units;
  robots = f.robots;
  short = f.short;
  long = f.long;
}

-- The end of roundFight, after the strike.
play : Combat → Combat
play c = with_camp_states play_state (record c { state = battle_state_playing })

play-Fits : (c : Combat) → Fits c → Fits (play c)
unfolding play
play-Fits c f =
    let g =
      Fits-camps c (set_camp_states play_state c.camp_unit_map) f
        (λ camp h. HasCamp-set_camp_states camp play_state c.camp_unit_map h)
        (Robots-set_camp_states play_state c.camp_unit_map f.robots) in
    record {
      ordered = g.ordered;
      units = g.units;
      robots = g.robots;
      short = g.short;
      long = g.long;
    }

check_round_play_end-play :
    (c : Combat)
    → Robots c.camp_unit_map
    → c.step ≡ battle_step_round
    → check_round_play_end (play c) ≡ true
unfolding check_round_play_end play
check_round_play_end-play c r e = ground (arith, all_camps-play c.camp_unit_map r, e)

play-Fought :
    (key : ℕ) (c d : Combat) (w : BattleUnit)
    → Struck (λ t. t ≢ key) c d
    → Fits d
    → c.step ≡ battle_step_round
    → c.cur_operate_unit ≡ some key
    → find key c.battle_unit_map ≡ some w
    → Runs w
    → Fought key c (play d)
unfolding play get_speed get_attr
play-Fought key c d w s f step cur found runs =
    let (hp, at_key, _, kept) = s.fate key w found in
    let same : hp ≡ w.attr.hp = elim kept [ inl n ↦ absurd (n refl) | inr e ↦ e ] in
    record {
      fits = play-Fits d f;
      in_round = ap (λ x. x.step) s.rest ∙ step;
      same_round = ap (λ x. x.round) s.rest;
      played = check_round_play_end-play d f.robots (ap (λ x. x.step) s.rest ∙ step);
      current = ap (λ x. x.cur_operate_unit) s.rest ∙ cur;
      strong = (set_hp w hp, at_key, (rw same (runs.0), runs.1));
    }

pub fight-Fought :
    (calc : CombatCalc) (key : ℕ) (c : Combat)
    → Fits c
    → c.step ≡ battle_step_round
    → Acts key c
    → Fought key c (fight calc c)
unfolding fight play strike
fight-Fought calc key c f step (w, cur, found, runs, others) =
    let c0 : Combat = record c { state = battle_state_fighting } in
    let s = do_operate-Struck calc key c0 w (λ t. t ≢ key) found others in
    let q =
      play-Fought key c0 (do_operate calc key c0) w s
        (Struck-Fits (λ t. t ≢ key) c0 (do_operate calc key c0) s (with_fighting c f)) step cur
        found runs in
    subst (λ o. Fought key c (play (elim o [ none ↦ c0 | some k ↦ do_operate calc k c0 ])))
      (sym cur)
      (record {
        fits = q.fits;
        in_round = q.in_round;
        same_round = q.same_round;
        played = q.played;
        current = q.current;
        strong = q.strong;
      })

-- What roundEnd's clean-up leaves.
pub round_clear-Fits :
    (key : ℕ) (c : Combat) (w : BattleUnit)
    → Fits c
    → find key c.battle_unit_map ≡ some w
    → Runs w
    → Fits (round_clear key c) × Strong (round_clear key c)
unfolding round_clear get_speed get_attr get_speed_bar_total
round_clear-Fits key c w f found runs = (
  record {
    ordered = g.ordered;
    units = g.units;
    robots = g.robots;
    short = g.short;
    long = g.long;
  },
  (key, clear w, ground (arith, find-update key key clear c.battle_unit_map), runs),
)
  where
    clear : BattleUnit → BattleUnit
    clear u = clear_cur_operate (set_speed_bar u 0)

    keep :
        (u : BattleUnit)
        → find key c.battle_unit_map ≡ some u
        → UnitFits c.camp_unit_map key u
        → UnitFits c.camp_unit_map key (clear u)
    keep u e h = record {
      keyed = h.keyed;
      slow = h.slow;
      idle = λ z.
          absurd (let same : u ≡ w = ground (arith, found, e) in ground (arith, same, runs.1, z));
      housed = h.housed;
    }

    g : Fits (modify_unit key clear c)
    g = Fits-modify c key clear f keep
