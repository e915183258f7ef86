-- ===== src/Battle/SpeedBar/Choice.antt =====
-- Which unit the second loop of runSpeedBar makes the current one.
use integration_server.Prelude.{
  ℕ, ◌≡◌, ◌≢◌, refl, sym, subst, ◌∙◌, ◌⊎◌, inl, inr, true, false, Option, none, some, List, [], ◌∷◌,
  arith, Elem, All, ltb, if◌then◌else◌, Bool-cases,
}
use integration_server.Prelude.Map.{find}
use integration_server.Prelude.Map.Laws.{find-update, Distinct}
use integration_server.Battle.Unit.{BattleUnit, is_alive, is_can_run_speed_bar, get_speed_bar_total}
use integration_server.Battle.Combat.{Combat, get_battle_unit, modify_unit}
use integration_server.Battle.SpeedBar.{
  advance, compare_units, compare_speed_bar, prefer, choose, run_unit, run_units,
}
use integration_server.Battle.SpeedBar.Order.{
  NotAfter, compare_units-NotAfter, compare_units-false, is_alive-advance,
}
use integration_server.Battle.SpeedBar.Best.{
  Ready, Leads, Best, OrEq, modify_unit-Best, not_Ready-Best, take_over,
}

Ready-unique : (c : Combat) (k : ℕ) (u v : BattleUnit) → Ready c k u → Ready c k v → v ≡ u
Ready-unique c k u v r q = ground (arith, r.0, q.0)

pub only_current :
    (c : Combat) (old key : ℕ) (w v : BattleUnit)
    → c.cur_operate_unit ≡ some old
    → c.cur_operate_unit ≡ some key
    → Ready c old w
    → Ready c key v
    → v ≡ w
only_current c old key w v e f q p = ground (arith, e, f, q.0, p.0)

-- The current unit stays, since it does not act after `u`.
stay :
    (D : ℕ → Type 0) (k : ℕ) (u : BattleUnit) (c : Combat)
    → Ready c k u
    → Best D c
    → Leads c u
    → Best (OrEq D k) c
stay D k u c r b l = record {
  cur = λ key e. (inl (b.cur key e).0, (b.cur key e).1, (b.cur key e).2);
  leads = leads';
}
  where
    leads' : (j : ℕ) (v : BattleUnit) → OrEq D k j → Ready c j v → Leads c v
    leads' j v (inl d) q = b.leads j v d q
    leads' j v (inr e) q =
        subst (Leads c) (sym (Ready-unique c k u v r (subst (λ i. Ready c i v) e q))) l

prefer-Best :
    (D : ℕ → Type 0) (k : ℕ) (u : BattleUnit) (c : Combat) (cur : Option ℕ)
    → Ready c k u
    → Best D c
    → c.cur_operate_unit ≡ cur
    → Best (OrEq D k) (prefer k u c cur)
unfolding prefer compare_speed_bar get_battle_unit
prefer-Best D k u c none r b e = take_over D k u c r b (λ key v f _. absurd (ground (arith, e, f)))
prefer-Best D k u c (some old) r b e =
    let w = (b.cur old e).1 in
    let q : Ready c old w = (b.cur old e).2 in
    elim (Bool-cases (compare_units w u)) [
      | inl before ↦
          let test : compare_speed_bar (find old c.battle_unit_map) (some u) ≡ true =
            rw (q.0) before in
          subst (λ t. Best (OrEq D k) (if t then record c { cur_operate_unit = some k } else c))
            (sym test)
            (take_over D k u c r b (λ key v f p.
              subst (λ t. NotAfter t u) (sym (only_current c old key w v e f q p))
                (compare_units-NotAfter w u before)))
      | inr after ↦
          let test : compare_speed_bar (find old c.battle_unit_map) (some u) ≡ false =
            rw (q.0) after in
          subst (λ t. Best (OrEq D k) (if t then record c { cur_operate_unit = some k } else c))
            (sym test) (stay D k u c r b (old, w, e, q, compare_units-false w u after))
    ]

choose-Best :
    (D : ℕ → Type 0) (k : ℕ) (u : BattleUnit) (c : Combat)
    → find k c.battle_unit_map ≡ some u
    → is_alive u ≡ true
    → Best D c
    → Best (OrEq D k) (choose k u c)
unfolding choose
choose-Best D k u c found alive b = elim (Bool-cases (ltb (get_speed_bar_total u) c.speed_bar)) [
  | inl short ↦
      rw (short, choose)
        (not_Ready-Best D k c
          (λ v r.
            let same : v ≡ u = ground (arith, r.0, found) in
            absurd (ground (arith, same, r.2, short)))
          b)
  | inr full ↦
      rw (full, choose) (prefer-Best D k u c c.cur_operate_unit (found, alive, ground arith) b refl)
]

run_unit-Best :
    (D : ℕ → Type 0) (times k : ℕ) (c : Combat) (found : Option BattleUnit)
    → find k c.battle_unit_map ≡ found
    → ¬ D k
    → Best D c
    → Best (OrEq D k) (run_unit times k c)
unfolding run_unit get_battle_unit is_can_run_speed_bar
run_unit-Best D times k c none e out b =
    rw (e, run_unit, get_battle_unit) (not_Ready-Best D k c (λ u r. ground (arith, e, r.0)) b)
run_unit-Best D times k c (some u) e out b = elim (Bool-cases (is_alive u)) [
  | inl alive ↦
      rw (e, run_unit, get_battle_unit, alive)
        (choose-Best D k (advance c.speed_bar times u) (modify_unit k (advance c.speed_bar times) c)
          (ground (arith, find-update k k (advance c.speed_bar times) c.battle_unit_map))
          (is_alive-advance c.speed_bar times u ∙ alive)
          (modify_unit-Best D k (advance c.speed_bar times) c out b))
  | inr dead ↦
      rw (e, run_unit, get_battle_unit, dead)
        (not_Ready-Best D k c (λ v r. ground (arith, e, r.0, r.1, dead)) b)
]

Best-mono :
    {D E : ℕ → Type 0} {c : Combat}
    → ((k : ℕ) → D k → E k)
    → ((k : ℕ) → E k → D k)
    → Best D c
    → Best E c
Best-mono f g b = record {
  cur = λ key e. (f key (b.cur key e).0, (b.cur key e).1, (b.cur key e).2);
  leads = λ k u d r. b.leads k u (g k d) r;
}

regroup : {A B C : Type 0} → A ⊎ B ⊎ C → (A ⊎ B) ⊎ C
regroup (inl a) = inl (inl a)
regroup (inr (inl b)) = inl (inr b)
regroup (inr (inr c)) = inr c

ungroup : {A B C : Type 0} → (A ⊎ B) ⊎ C → A ⊎ B ⊎ C
ungroup (inl (inl a)) = inl a
ungroup (inl (inr b)) = inr (inl b)
ungroup (inr c) = inr (inr c)

out_of_both :
    (D : ℕ → Type 0) (k : ℕ) (ks : List ℕ)
    → All (λ j. ¬ D j) ks
    → All (λ j. k ≢ j) ks
    → All (λ j. ¬ OrEq D k j) ks
out_of_both D k [] h g = tt
out_of_both D k (j ∷ ks) h g =
    (λ x. elim x [ inl d ↦ h.0 d | inr e ↦ g.0 (sym e) ], out_of_both D k ks h.1 g.1)

-- After the loop the current unit leads all ready units.
pub run_units-Best :
    (times : ℕ) (ks : List ℕ) (D : ℕ → Type 0) (c : Combat)
    → All (λ k. ¬ D k) ks
    → Distinct ks
    → Best D c
    → Best (λ k. D k ⊎ Elem k ks) (run_units times ks c)
unfolding run_units
run_units-Best times [] D c out d b =
    Best-mono (λ k x. inl x) (λ k x. elim x [ inl y ↦ y | inr n ↦ absurd n ]) b
run_units-Best times (k ∷ ks) D c out d b =
    Best-mono (λ j x. ungroup x) (λ j x. regroup x)
      (run_units-Best times ks (OrEq D k) (run_unit times k c) (out_of_both D k ks out.1 d.0) d.1
        (run_unit-Best D times k c (find k c.battle_unit_map) refl out.0 b))
