-- ===== src/Battle/SpeedBar/Best.antt =====
-- Which of some units acts first.
use integration_server.Prelude.{
  ℕ, ◌≤◌, ◌≡◌, refl, sym, subst, ◌∙◌, ◌⊎◌, inl, inr, true, some, arith, ℕ_discrete,
}
use integration_server.Prelude.Map.{find, update}
use integration_server.Prelude.Map.Laws.{find-update}
use integration_server.Battle.Unit.{BattleUnit, is_alive, get_speed_bar_total}
use integration_server.Battle.Combat.{Combat, modify_unit}
use integration_server.Battle.SpeedBar.Order.{NotAfter, NotAfter-refl, NotAfter-trans}

-- A unit found in the map, alive and with a full bar.
abbrev pub Ready : Combat → ℕ → BattleUnit → Type 0
Ready c k u =
    (find k c.battle_unit_map ≡ some u)
    × (is_alive u ≡ true)
    × (c.speed_bar ≤ get_speed_bar_total u)

abbrev pub Leads : Combat → BattleUnit → Type 0
Leads c u =
    (key : ℕ) × (w : BattleUnit) × (c.cur_operate_unit ≡ some key) × Ready c key w × NotAfter u w

-- The current unit, if any, is ready and among the units in `D`; it leads all ready units of `D`.
pub record Best (D : ℕ → Type 0) (c : Combat) : Type 0 where
  pub cur : (key : ℕ) → c.cur_operate_unit ≡ some key → D key × (w : BattleUnit) × Ready c key w
  pub leads : (k : ℕ) (u : BattleUnit) → D k → Ready c k u → Leads c u

abbrev pub OrEq : (ℕ → Type 0) → ℕ → ℕ → Type 0
OrEq D k j = D j ⊎ (j ≡ k)

-- A write to a unit outside `D` does not change who is best in `D`.
pub modify_unit-Best :
    (D : ℕ → Type 0) (k : ℕ) (f : BattleUnit → BattleUnit) (c : Combat)
    → ¬ D k
    → Best D c
    → Best D (modify_unit k f c)
modify_unit-Best D k f c out b = record { cur = cur'; leads = leads' }
  where
    same : (j : ℕ) → D j → find j (update k f c.battle_unit_map) ≡ find j c.battle_unit_map
    same j d = elim (ℕ_discrete j k) [
      | yes e ↦ absurd (out (subst D e d))
      | no h ↦ ground (arith, find-update j k f c.battle_unit_map)
    ]

    cur' :
        (key : ℕ)
        → c.cur_operate_unit ≡ some key
        → D key × (w : BattleUnit) × Ready (modify_unit k f c) key w
    cur' key e = let (d, w, r) = b.cur key e in (d, w, (same key d ∙ r.0, r.1, r.2))

    leads' :
        (j : ℕ) (u : BattleUnit) → D j → Ready (modify_unit k f c) j u → Leads (modify_unit k f c) u
    leads' j u d (found, alive, full) =
        let (key, w, e, r, before) = b.leads j u d (sym (same j d) ∙ found, alive, full) in
        let d' = (b.cur key e).0 in (key, w, e, (same key d' ∙ r.0, r.1, r.2), before)

-- A unit that is not ready can be added to `D`.
pub not_Ready-Best :
    (D : ℕ → Type 0) (k : ℕ) (c : Combat)
    → ((u : BattleUnit) → ¬ Ready c k u)
    → Best D c
    → Best (OrEq D k) c
not_Ready-Best D k c idle b = record {
  cur = λ key e. (inl (b.cur key e).0, (b.cur key e).1, (b.cur key e).2);
  leads = leads';
}
  where
    leads' : (j : ℕ) (u : BattleUnit) → OrEq D k j → Ready c j u → Leads c u
    leads' j u (inl d) r = b.leads j u d r
    leads' j u (inr e) r = absurd (idle u (subst (λ i. Ready c i u) e r))

-- What a comparison with the current unit decides.
pub take_over :
    (D : ℕ → Type 0) (k : ℕ) (u : BattleUnit) (c : Combat)
    → Ready c k u
    → Best D c
    → ((key : ℕ) (v : BattleUnit) → c.cur_operate_unit ≡ some key → Ready c key v → NotAfter v u)
    → Best (OrEq D k) (record c { cur_operate_unit = some k })
take_over D k u c ready b before = record { cur = cur'; leads = leads' }
  where
    cur' : (key : ℕ) → some k ≡ some key → OrEq D k key × (v : BattleUnit) × Ready c key v
    cur' key e =
        let same : key ≡ k = ground arith in
        (inr same, u, subst (λ i. Ready c i u) (sym same) ready)

    leads' :
        (j : ℕ) (v : BattleUnit)
        → OrEq D k j
        → Ready c j v
        → Leads (record c { cur_operate_unit = some k }) v
    leads' j v (inl d) r =
        let (key, x, e, rx, vx) = b.leads j v d r in
        (k, u, refl, ready, NotAfter-trans v x u vx (before key x e rx))
    leads' j v (inr e) r =
        let same : v ≡ u = ground (arith, e, r.0, ready.0) in
        (k, u, refl, ready, subst (λ t. NotAfter t u) (sym same) (NotAfter-refl u))
