-- ===== src/Battle/SpeedBar/Pick.antt =====
-- runSpeedBar as a whole: it always finds the unit that acts next.
use integration_server.Prelude.{
  ℕ, ◌+◌, ◌-◌, ◌*◌, ◌/◌, ◌%◌, ◌^◌, ◌≤◌, ◌<◌, ◌≡◌, ◌≢◌, refl, sym, subst, ap, ◌∙◌, ◌⊎◌, inl, inr,
  true, false, none, some, List, [], ◌∷◌, arith, Elem, All, All-Elem, All-intro, dec_lt, ◌==◌,
}
use integration_server.Prelude.Float.Exact.{div_ceil_bounds, div_ceil-le}
use integration_server.Prelude.Map.{find, keys, IsOrdered}
use integration_server.Prelude.Map.Laws.{
  find-update, Distinct, keys-Distinct, keys-update, find-keys, find-Elem, find_of_Elem,
}
use integration_server.Utils.CalcTool.{safe_sub}
use integration_server.Battle.Common.{run_speed_bar_invalid}
use integration_server.Battle.Unit.{
  BattleUnit, is_alive, is_can_run_speed_bar, get_speed, get_speed_bar_total,
}
use integration_server.Battle.Combat.{Combat, get_battle_unit}
use integration_server.Battle.SpeedBar.{
  advance, run_times, run_min_times, choose, run_unit, run_units, run_speed_bar,
}
use integration_server.Battle.SpeedBar.Minimum.{
  Runs, max_bar, run_min_times-le-run_times, run_min_times-Attained, run_times_lem, run_times_le,
}
use integration_server.Battle.SpeedBar.Order.{
  NotAfter, get_speed_bar_total-advance, is_alive-advance, speed_bar-run_unit, find-run_unit_ne,
}
use integration_server.Battle.SpeedBar.Best.{Ready, Best}
use integration_server.Battle.SpeedBar.Choice.{only_current, run_units-Best}

total_fits : (u : BattleUnit) → get_speed_bar_total u < 2 ^ 32
unfolding get_speed_bar_total
total_fits u = omega arith

filled :
    (bar t s times : ℕ)
    → bar ≤ max_bar
    → s ≤ max_bar
    → t < 2 ^ 32
    → safe_sub bar t ≤ times * s
    → times * s < safe_sub bar t + s
    → times ≤ safe_sub bar t
    → bar ≤ (times * s + t) % 2 ^ 32
unfolding safe_sub
filled bar t s times h q f lo hi le = elim (dec_lt t bar) [
  | yes p ↦ ground arith
  | no p ↦
      let none_left : times ≡ 0 = ground arith in
      ground (arith, none_left, ap (λ (n : ℕ). n * s) none_left)
]

-- A unit that makes the runs that it needs has a full bar.
full_after_run_times :
    (bar : ℕ) (u : BattleUnit)
    → bar ≤ max_bar
    → Runs u
    → get_speed u ≤ max_bar
    → bar ≤ get_speed_bar_total (advance bar (run_times bar u) u)
full_after_run_times bar u h r q =
    let t = get_speed_bar_total u in
    let s = get_speed u in
    let x = safe_sub bar t in
    let e : run_times bar u ≡ (x + s - 1) / s = run_times_lem bar u h r.1 q in
    rw (get_speed_bar_total-advance bar (run_times bar u) u (omega arith), e)
      (filled bar t s ((x + s - 1) / s) h q (total_fits u) (div_ceil_bounds x s r.1).0
        (div_ceil_bounds x s r.1).1 (div_ceil-le x s r.1))

keys-run_unit :
    (times k : ℕ) (c : Combat) → keys (run_unit times k c).battle_unit_map ≡ keys c.battle_unit_map
unfolding run_unit choose
keys-run_unit times k c =
    ground (arith, keys-update k (advance c.speed_bar times) c.battle_unit_map)

keys-run_units :
    (times : ℕ) (ks : List ℕ) (c : Combat)
    → keys (run_units times ks c).battle_unit_map ≡ keys c.battle_unit_map
unfolding run_units
keys-run_units times [] c = refl
keys-run_units times (k ∷ ks) c =
    keys-run_units times ks (run_unit times k c) ∙ keys-run_unit times k c

find-run_unit_self :
    (times k : ℕ) (c : Combat) (u : BattleUnit)
    → find k c.battle_unit_map ≡ some u
    → is_alive u ≡ true
    → find k (run_unit times k c).battle_unit_map ≡ some (advance c.speed_bar times u)
unfolding run_unit choose is_can_run_speed_bar get_battle_unit
find-run_unit_self times k c u e h =
    ground (arith, find-update k k (advance c.speed_bar times) c.battle_unit_map)

find-run_units_out :
    (times : ℕ) (ks : List ℕ) (j : ℕ) (c : Combat)
    → All (λ k. j ≢ k) ks
    → find j (run_units times ks c).battle_unit_map ≡ find j c.battle_unit_map
unfolding run_units
find-run_units_out times [] j c h = refl
find-run_units_out times (k ∷ ks) j c h =
    find-run_units_out times ks j (run_unit times k c) h.1 ∙ find-run_unit_ne times k j c h.0

speed_bar-run_units :
    (times : ℕ) (ks : List ℕ) (c : Combat) → (run_units times ks c).speed_bar ≡ c.speed_bar
unfolding run_units
speed_bar-run_units times [] c = refl
speed_bar-run_units times (k ∷ ks) c =
    speed_bar-run_units times ks (run_unit times k c) ∙ speed_bar-run_unit times k c

-- Every living unit of the loop moves on by the same number of runs.
find-run_units :
    (times : ℕ) (ks : List ℕ) (j : ℕ) (c : Combat) (u : BattleUnit)
    → Distinct ks
    → Elem j ks
    → find j c.battle_unit_map ≡ some u
    → is_alive u ≡ true
    → find j (run_units times ks c).battle_unit_map ≡ some (advance c.speed_bar times u)
unfolding run_units
find-run_units times [] j c u d m e h = absurd m
find-run_units times (k ∷ ks) j c u d (inl s) e h =
    find-run_units_out times ks j (run_unit times k c)
      (subst (λ i. All (λ k'. i ≢ k') ks) (sym s) d.0)
    ∙ subst (λ i. find i (run_unit times k c).battle_unit_map ≡ some (advance c.speed_bar times u))
        (sym s)
        (find-run_unit_self times k c u (subst (λ i. find i c.battle_unit_map ≡ some u) s e) h)
find-run_units times (k ∷ ks) j c u d (inr m) e h =
    let other : j ≢ k = λ s. All-Elem (λ i. k ≢ i) j ks d.0 m (sym s) in
    find-run_units times ks j (run_unit times k c) u d.1 m (find-run_unit_ne times k j c other ∙ e)
      h
    ∙ ap (λ bar. some (advance bar times u)) (speed_bar-run_unit times k c)

-- No unit is chosen before the loop.
nobody : (c : Combat) → c.cur_operate_unit ≡ none → Best (λ _. ⊥) c
nobody c h = record { cur = λ key e. absurd (ground (arith, e, h)); leads = λ k u d r. absurd d }

-- The unit that runSpeedBar chooses is alive, its bar is full, and it acts before all such units.
abbrev pub Picked : Combat → Type 0
Picked c =
    (key : ℕ) × (w : BattleUnit) × (c.cur_operate_unit ≡ some key)
    × Ready c key w
    × ((k : ℕ) (u : BattleUnit) → Ready c k u → NotAfter u w)

Picked-Ready :
    (times k : ℕ) (u : BattleUnit) (c : Combat)
    → IsOrdered c.battle_unit_map
    → c.cur_operate_unit ≡ none
    → Ready (run_units times (keys c.battle_unit_map) c) k u
    → Picked (run_units times (keys c.battle_unit_map) c)
Picked-Ready times k u c ordered start r =
    let (key, w, e, rw', before) = best.leads k u (place k u r) r in
    (
      key,
      w,
      e,
      rw',
      λ j v q.
          let (key', w', e', r', before') = best.leads j v (place j v q) q in
          subst (NotAfter v) (only_current c' key key' w w' e e' rw' r') before',
    )
  where
    c' : Combat
    c' = run_units times (keys c.battle_unit_map) c

    best : Best (λ j. ⊥ ⊎ Elem j (keys c.battle_unit_map)) c'
    best =
        run_units-Best times (keys c.battle_unit_map) (λ _. ⊥) c
          (All-intro (λ j h. h) (keys c.battle_unit_map)) (keys-Distinct c.battle_unit_map ordered)
          (nobody c start)

    place : (j : ℕ) (v : BattleUnit) → Ready c' j v → ⊥ ⊎ Elem j (keys c.battle_unit_map)
    place j v q = inr (
        subst (Elem j) (keys-run_units times (keys c.battle_unit_map) c)
          (find-keys j v c'.battle_unit_map q.0))

abbrev pub IsSlow : Combat → Type 0
IsSlow c = (k : ℕ) (u : BattleUnit) → find k c.battle_unit_map ≡ some u → get_speed u ≤ max_bar

-- With ordered units, no current unit, a bar and speeds of at most 99998 and a living unit with
-- speed, runSpeedBar picks a current unit: it is alive, its bar is full, and no living unit with a
-- full bar comes after it in the order of the total, the camp and the uid.
pub run_speed_bar-Picked :
    (k : ℕ) (u : BattleUnit) (c : Combat)
    → IsOrdered c.battle_unit_map
    → c.cur_operate_unit ≡ none
    → c.speed_bar ≤ max_bar
    → IsSlow c
    → find k c.battle_unit_map ≡ some u
    → Runs u
    → Picked (run_speed_bar c)
unfolding run_speed_bar
run_speed_bar-Picked k u c ordered start short slow found runs =
    elim (run_min_times-Attained c.speed_bar c.battle_unit_map run_speed_bar_invalid) [
      | inl none_better ↦ absurd (omega (arith, low, none_better))
      | inr (j, v, e, rv, t) ↦
          rw (valid, run_speed_bar)
            (Picked-Ready m j (advance c.speed_bar m v) c ordered start (ready j v e rv t))
    ]
  where
    m : ℕ
    m = run_min_times c.speed_bar c.battle_unit_map run_speed_bar_invalid

    low : m ≤ max_bar
    low = omega (
      arith,
      run_min_times-le-run_times c.speed_bar c.battle_unit_map run_speed_bar_invalid k u
          (find-Elem k u c.battle_unit_map found) runs,
      run_times_le c.speed_bar u short runs (slow k u found),
    )

    valid : (m == run_speed_bar_invalid) ≡ false
    valid = ground (arith, low)

    ready :
        (j : ℕ) (v : BattleUnit)
        → Elem (j, v) c.battle_unit_map
        → Runs v
        → m ≡ run_times c.speed_bar v
        → Ready (run_units m (keys c.battle_unit_map) c) j (advance c.speed_bar m v)
    ready j v e rv t =
        let f = find_of_Elem j v c.battle_unit_map ordered e in
        (
          find-run_units m (keys c.battle_unit_map) j c v (keys-Distinct c.battle_unit_map ordered)
              (find-keys j v c.battle_unit_map f) f rv.0,
          is_alive-advance c.speed_bar m v ∙ rv.0,
          rw (speed_bar-run_units, t) (full_after_run_times c.speed_bar v short rv (slow j v f)),
        )
