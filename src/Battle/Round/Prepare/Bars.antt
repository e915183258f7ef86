-- ===== src/Battle/Round/Prepare/Bars.antt =====
-- The runs of the speed bars keep the invariant of a battle between robots.
use integration_server.Prelude.{
  ℕ, ◌*◌, ◌^◌, ◌<◌, ◌≡◌, refl, sym, ap, subst, ◌∙◌, ◌⊎◌, inl, inr, Option, List, [], ◌∷◌, arith,
  ◌==◌, Bool-cases,
}
use integration_server.Prelude.Map.{Map, update, keys}
use integration_server.Battle.Common.{run_speed_bar_invalid}
use integration_server.Battle.Unit.{
  BattleUnit, CampUnit, is_can_run_speed_bar, get_speed, get_attr, get_speed_bar_total,
}
use integration_server.Battle.Combat.{Combat, get_battle_unit}
use integration_server.Battle.SpeedBar.{
  advance, choose, run_min_times, run_unit, run_units, run_speed_bar,
}
use integration_server.Battle.SpeedBar.Order.{get_speed_bar_total-advance}
use integration_server.Battle.Round.Fit.{HasCamp, UnitFits, Fits, Fits-modify}
use integration_server.Battle.Round.Frame.{SameRest}

get_speed-advance : (bar times : ℕ) (u : BattleUnit) → get_speed (advance bar times u) ≡ get_speed u
unfolding get_speed get_attr advance
get_speed-advance bar times u = ground arith

identity-advance :
    (bar times : ℕ) (u : BattleUnit)
    → ((advance bar times u).uid ≡ u.uid) × ((advance bar times u).camp ≡ u.camp)
unfolding advance
identity-advance bar times u = ground arith

total_fits : (u : BattleUnit) → get_speed_bar_total u < 2 ^ 32
unfolding get_speed_bar_total
total_fits u = omega arith

advance-UnitFits :
    (camps : Map CampUnit) (bar times k : ℕ) (u : BattleUnit)
    → bar < 2 ^ 32
    → UnitFits camps k u
    → UnitFits camps k (advance bar times u)
advance-UnitFits camps bar times k u h f = record {
  keyed = (identity-advance bar times u).0 ∙ f.keyed;
  slow = omega (arith, get_speed-advance bar times u, f.slow);
  idle = λ z. still (sym (get_speed-advance bar times u) ∙ z);
  housed = subst (λ i. HasCamp i camps) (sym (identity-advance bar times u).1) f.housed;
}
  where
    still : get_speed u ≡ 0 → get_speed_bar_total (advance bar times u) ≡ 0
    still z = omega (
      arith,
      get_speed_bar_total-advance bar times u h,
      f.idle z,
      ap (λ (n : ℕ). times * n) z,
      total_fits u,
    )

run_unit_cases :
    (times k : ℕ) (c : Combat)
    → (run_unit times k c ≡ c)
      ⊎ (run_unit times k c ≡ record c {
        battle_unit_map = update k (advance c.speed_bar times) c.battle_unit_map;
        cur_operate_unit = (run_unit times k c).cur_operate_unit;
      })
unfolding run_unit choose get_battle_unit is_can_run_speed_bar
run_unit_cases times k c = ground arith

Fits-cur : (c : Combat) (cur : Option ℕ) → Fits c → Fits (record c { cur_operate_unit = cur })
Fits-cur c cur f = record {
  ordered = f.ordered;
  units = f.units;
  robots = f.robots;
  short = f.short;
  long = f.long;
}

run_unit-Fits :
    (times k : ℕ) (c : Combat)
    → Fits c
    → Fits (run_unit times k c) × SameRest c (run_unit times k c)
run_unit-Fits times k c f = elim (run_unit_cases times k c) [
  | inl e ↦ (subst Fits (sym e) f, subst (SameRest c) (sym e) refl)
  | inr e ↦ (
    subst Fits (sym e) (
        Fits-cur _ (run_unit times k c).cur_operate_unit (
          Fits-modify c k (advance c.speed_bar times) f (λ u e g.
            advance-UnitFits c.camp_unit_map c.speed_bar times k u (omega (arith, f.short)) g))),
    subst (SameRest c) (sym e) refl,
  )
]

run_units-Fits :
    (times : ℕ) (ks : List ℕ) (c : Combat)
    → Fits c
    → Fits (run_units times ks c) × SameRest c (run_units times ks c)
unfolding run_units
run_units-Fits times [] c f = (f, refl)
run_units-Fits times (k ∷ ks) c f =
    let (g, e) = run_unit-Fits times k c f in
    let (h, e') = run_units-Fits times ks (run_unit times k c) g in
    (
      h,
      e'
          ∙ ap {A = Combat} {B = Combat}
              (λ x. record x {
                battle_unit_map = (run_units times ks (run_unit times k c)).battle_unit_map;
                cur_operate_unit = (run_units times ks (run_unit times k c)).cur_operate_unit;
              })
              e,
    )

pub run_speed_bar-Fits :
    (c : Combat) → Fits c → Fits (run_speed_bar c) × SameRest c (run_speed_bar c)
unfolding run_speed_bar
run_speed_bar-Fits c f = elim (Bool-cases (m == run_speed_bar_invalid)) [
  | inl e ↦ rw (e, run_speed_bar) (f, refl)
  | inr e ↦ rw (e, run_speed_bar) (run_units-Fits m (keys c.battle_unit_map) c f)
]
  where
    m : ℕ
    m = run_min_times c.speed_bar c.battle_unit_map run_speed_bar_invalid
