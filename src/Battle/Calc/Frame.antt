-- ===== src/Battle/Calc/Frame.antt =====
-- doOperate strikes the targets of the operation and nobody else, and takes only health points.
use integration_server.Prelude.{
  ℕ, ◌≤◌, ◌≡◌, refl, sym, ap, subst, ◌∙◌, ◌⊎◌, inl, inr, none, some, List, [], ◌∷◌, arith, All,
  ℕ_discrete, Option-cases,
}
use integration_server.Prelude.Map.{find, update, IsOrdered}
use integration_server.Prelude.Map.Laws.{find-update, update-IsOrdered}
use integration_server.Utils.CalcTool.{safe_sub}
use integration_server.Battle.Common.{BattleElement}
use integration_server.Battle.Unit.{BattleUnit, set_hp}
use integration_server.Battle.Combat.{Combat, get_battle_unit, modify_unit}
use integration_server.Battle.Calc.{
  CombatCalc, ElementFunc, element_normal_atk_func, left_hp, attack_unit, element_normal_atk,
  run_element, do_targets, do_elements, do_e_set, do_skill, do_operate,
}

-- A relation between combats that every strike respects is respected by doOperate.
record Respected (R : Combat → Combat → Type 0) (hit : ℕ → Type 0) : Type 0 where
  same : (c : Combat) → R c c
  next : (c d e : Combat) → R c d → R d e → R c e
  strike :
      (c : Combat) (target hp : ℕ) (victim : BattleUnit)
      → hit target
      → find target c.battle_unit_map ≡ some victim
      → hp ≤ victim.attr.hp
      → R c (modify_unit target (λ u. set_hp u hp) c)

left_hp_le :
    (element : BattleElement) (attacker victim : BattleUnit)
    → left_hp element attacker victim ≤ victim.attr.hp
unfolding left_hp safe_sub
left_hp_le element attacker victim = ground arith

module _ (R : Combat → Combat → Type 0) (hit : ℕ → Type 0) (r : Respected R hit) (calc : CombatCalc)
    (cur : ℕ) where
  attack_unit_respects :
      (element : BattleElement) (target : ℕ) (c : Combat)
      → hit target
      → R c (attack_unit element cur target c)
  unfolding attack_unit get_battle_unit
  attack_unit_respects element target c h = elim (Option-cases (find cur c.battle_unit_map)) [
    | inl e ↦ rw (e, attack_unit, get_battle_unit) (r.same c)
    | inr (attacker, e) ↦ elim (Option-cases (find target c.battle_unit_map)) [
      | inl f ↦ rw (e, f, attack_unit, get_battle_unit) (r.same c)
      | inr (victim, f) ↦
          rw (e, f, attack_unit, get_battle_unit)
            (r.strike c target (left_hp element attacker victim) victim h f
              (left_hp_le element attacker victim))
    ]
  ]

  element_normal_atk_respects :
      (target : ℕ) (c : Combat) → hit target → R c (element_normal_atk calc cur target c)
  unfolding element_normal_atk
  element_normal_atk_respects target c h = elim (Option-cases (find 1 calc.element_config_map)) [
    | inl e ↦ rw (e, element_normal_atk) (r.same c)
    | inr (element, e) ↦ rw (e, element_normal_atk) (attack_unit_respects element target c h)
  ]

  run_element_respects :
      (f : ElementFunc) (target : ℕ) (c : Combat)
      → hit target
      → R c (run_element calc f cur target c)
  unfolding run_element
  run_element_respects element_normal_atk_func target c h = element_normal_atk_respects target c h

  do_targets_respects :
      (f : ElementFunc) (targets : List ℕ) (c : Combat)
      → All hit targets
      → R c (do_targets calc f cur targets c)
  unfolding do_targets get_battle_unit
  do_targets_respects f [] c h = r.same c
  do_targets_respects f (uid ∷ rest) c h = elim (Option-cases (find uid c.battle_unit_map)) [
    | inl e ↦ rw (e, do_targets, get_battle_unit) (do_targets_respects f rest c h.1)
    | inr (t, e) ↦
        rw (e, do_targets, get_battle_unit)
          (r.next c (run_element calc f cur uid c) _ (run_element_respects f uid c h.0)
            (do_targets_respects f rest (run_element calc f cur uid c) h.1))
  ]

  do_elements_respects :
      (targets elements : List ℕ) (c : Combat)
      → All hit targets
      → R c (do_elements calc cur targets elements c)
  unfolding do_elements
  do_elements_respects targets [] c h = r.same c
  do_elements_respects targets (value ∷ rest) c h =
      elim (Option-cases (find value calc.element_func_map)) [
        | inl e ↦ rw (e, do_elements) (do_elements_respects targets rest c h)
        | inr (f, e) ↦
            rw (e, do_elements)
              (r.next c (do_targets calc f cur targets c) _ (do_targets_respects f targets c h)
                (do_elements_respects targets rest (do_targets calc f cur targets c) h))
      ]

  do_skill_respects :
      (targets e_sets : List ℕ) (c : Combat)
      → All hit targets
      → R c (do_skill calc cur targets e_sets c)
  unfolding do_skill do_e_set
  do_skill_respects targets [] c h = r.same c
  do_skill_respects targets (value ∷ rest) c h =
      elim (Option-cases (find value calc.e_set_config_map)) [
        | inl e ↦ rw (e, do_skill) (do_skill_respects targets rest c h)
        | inr (s, e) ↦
            rw (e, do_skill)
              (r.next c (do_elements calc cur targets s.element_set c) _
                (do_elements_respects targets s.element_set c h)
                (do_skill_respects targets rest (do_elements calc cur targets s.element_set c) h))
      ]

  do_operate_respects :
      (c : Combat) (u : BattleUnit)
      → find cur c.battle_unit_map ≡ some u
      → All hit u.cur_operate.target_vec
      → R c (do_operate calc cur c)
  unfolding do_operate get_battle_unit
  do_operate_respects c u e h =
      elim (Option-cases (find u.cur_operate.skill_id calc.skill_config_map)) [
        | inl f ↦ rw (e, f, do_operate, get_battle_unit) (r.same c)
        | inr (s, f) ↦
            rw (e, f, do_operate, get_battle_unit)
              (do_skill_respects u.cur_operate.target_vec s.e_set_set c h)
      ]

-- What strikes on the units in `hit` may change.
pub record Struck (hit : ℕ → Type 0) (c d : Combat) : Type 0 where
  pub rest : d ≡ record c { battle_unit_map = d.battle_unit_map }
  pub order : IsOrdered c.battle_unit_map → IsOrdered d.battle_unit_map
  pub fate :
      (k : ℕ) (u : BattleUnit)
      → find k c.battle_unit_map ≡ some u
      → (hp : ℕ) × (find k d.battle_unit_map ≡ some (set_hp u hp))
        × (hp ≤ u.attr.hp)
        × (hit k ⊎ (hp ≡ u.attr.hp))
  pub nobody : (k : ℕ) → find k c.battle_unit_map ≡ none → find k d.battle_unit_map ≡ none

strike-Struck :
    (hit : ℕ → Type 0) (c : Combat) (target hp : ℕ) (victim : BattleUnit)
    → hit target
    → find target c.battle_unit_map ≡ some victim
    → hp ≤ victim.attr.hp
    → Struck hit c (modify_unit target (λ u. set_hp u hp) c)
strike-Struck hit c target hp victim h e le = record {
  rest = refl;
  order = λ o. update-IsOrdered target _ c.battle_unit_map o;
  fate = fate';
  nobody = λ k f. ground (arith, find-update k target (λ u. set_hp u hp) c.battle_unit_map);
}
  where
    fate' :
        (k : ℕ) (u : BattleUnit)
        → find k c.battle_unit_map ≡ some u
        → (hp' : ℕ) × (find k (update target (λ u. set_hp u hp) c.battle_unit_map)
            ≡ some (set_hp u hp'))
          × (hp' ≤ u.attr.hp)
          × (hit k ⊎ (hp' ≡ u.attr.hp))
    fate' k u f = elim (ℕ_discrete k target) [
      | yes s ↦ (
        hp,
        ground (arith, find-update k target (λ u. set_hp u hp) c.battle_unit_map),
        ground (arith, s),
        inl (subst hit (sym s) h),
      )
      | no s ↦ (
        u.attr.hp,
        ground (arith, find-update k target (λ u. set_hp u hp) c.battle_unit_map),
        omega arith,
        inr refl,
      )
    ]

two_fates :
    (hit : ℕ → Type 0) (d e : Combat) (k : ℕ) (u : BattleUnit)
    → (hp : ℕ) × (find k d.battle_unit_map ≡ some (set_hp u hp))
      × (hp ≤ u.attr.hp)
      × (hit k ⊎ (hp ≡ u.attr.hp))
    → ((v : BattleUnit)
        → find k d.battle_unit_map ≡ some v
        → (hp : ℕ) × (find k e.battle_unit_map ≡ some (set_hp v hp))
          × (hp ≤ v.attr.hp)
          × (hit k ⊎ (hp ≡ v.attr.hp)))
    → (hp : ℕ) × (find k e.battle_unit_map ≡ some (set_hp u hp))
      × (hp ≤ u.attr.hp)
      × (hit k ⊎ (hp ≡ u.attr.hp))
two_fates hit d e k u (h1, f1, le1, w1) next =
    let (h2, f2, le2, w2) = next (set_hp u h1) f1 in
    (
      h2,
      f2,
      omega (arith, le1, le2),
      elim w2 [ inl x ↦ inl x | inr s2 ↦ elim w1 [ inl x ↦ inl x | inr s1 ↦ inr (s2 ∙ s1) ] ],
    )

Struck-Respected : (hit : ℕ → Type 0) → Respected (Struck hit) hit
Struck-Respected hit = record {
  same = λ c. record {
    rest = refl;
    order = λ o. o;
    fate = λ k u e. (u.attr.hp, e, omega arith, inr refl);
    nobody = λ k e. e;
  };
  next = λ c d e s t. record {
    rest =
        t.rest
        ∙ ap {A = Combat} {B = Combat} (λ x. record x { battle_unit_map = e.battle_unit_map })
            s.rest;
    order = λ o. t.order (s.order o);
    fate = λ k u f. two_fates hit d e k u (s.fate k u f) (t.fate k);
    nobody = λ k h. t.nobody k (s.nobody k h);
  };
  strike = λ c target hp victim h e le. strike-Struck hit c target hp victim h e le;
}

-- An operation of a unit of the combat changes nothing but health points: those of a unit that is
-- not a target stay as they are, nobody's rise, no unit appears or vanishes, and the units stay
-- ordered.
pub do_operate-Struck :
    (calc : CombatCalc) (cur : ℕ) (c : Combat) (u : BattleUnit) (hit : ℕ → Type 0)
    → find cur c.battle_unit_map ≡ some u
    → All hit u.cur_operate.target_vec
    → Struck hit c (do_operate calc cur c)
do_operate-Struck calc cur c u hit e h =
    do_operate_respects (Struck hit) hit (Struck-Respected hit) calc cur c u e h
