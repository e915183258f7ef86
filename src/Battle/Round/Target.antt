-- ===== src/Battle/Round/Target.antt =====
-- getDefaultSkillTarget: whom the default skill strikes.
use integration_server.Prelude.{
  ℕ, ◌-◌, ◌<◌, ◌≡◌, refl, sym, ap, subst, ◌∙◌, ◌⊎◌, inl, inr, true, false, some, List, [], ◌∷◌,
  arith, Elem, length, get_elem?-Elem, ltb, ◌==◌, Bool-cases,
}
use integration_server.Prelude.Map.{Map, find, IsOrdered}
use integration_server.Prelude.Map.Laws.{find-Elem, find_of_Elem}
use integration_server.Utils.Rand.{Dice, rand_between, rand_between_range}
use integration_server.Battle.Common.{battle_skill_normal_atk}
use integration_server.Battle.Unit.{BattleUnit, is_alive}
use integration_server.Battle.Combat.{Combat, alive_by_camp, get_alive_unit_by_camp}
use integration_server.Battle.Combat.Verdict.{AllDead}
use integration_server.Battle.SpeedBar.{current}
use integration_server.Battle.Round.{target_camp, aim, pick_target, get_default_skill_target}

-- A unit of the map is listed exactly if it lives and belongs to the camp.
alive_by_camp_cons :
    (camp j : ℕ) (v : BattleUnit) (m : Map BattleUnit)
    → ((alive_by_camp camp ((j, v) ∷ m) ≡ v ∷ alive_by_camp camp m)
        × (v.camp ≡ camp)
        × (is_alive v ≡ true))
      ⊎ ((alive_by_camp camp ((j, v) ∷ m) ≡ alive_by_camp camp m) × (v.camp ≡ camp → v.attr.hp ≡ 0))
unfolding alive_by_camp
alive_by_camp_cons camp j v m = elim (Bool-cases (v.camp == camp)) [
  | inl same ↦ elim (Bool-cases (is_alive v)) [
    | inl alive ↦ inl (rw (same, alive), ground arith, alive)
    | inr dead ↦ inr (rw (same, dead), λ s. ground arith)
  ]
  | inr other ↦ inr (rw other, λ s. absurd (ground arith))
]

alive_by_camp_sound :
    (camp : ℕ) (m : Map BattleUnit) (t : BattleUnit)
    → Elem t (alive_by_camp camp m)
    → (k : ℕ) × Elem (k, t) m × (t.camp ≡ camp) × (is_alive t ≡ true)
alive_by_camp_sound camp [] t e = absurd (unfold alive_by_camp in e)
alive_by_camp_sound camp ((j, v) ∷ m) t e = elim (alive_by_camp_cons camp j v m) [
  | inl (list, same, alive) ↦ elim (subst (Elem t) list e) [
    | inl here ↦ (j, inl (ap (λ x. (j, x)) here), ground arith, ground arith)
    | inr later ↦ deeper (alive_by_camp_sound camp m t later)
  ]
  | inr (list, _) ↦ deeper (alive_by_camp_sound camp m t (subst (Elem t) list e))
]
  where
    deeper :
        (k : ℕ) × Elem (k, t) m × (t.camp ≡ camp) × (is_alive t ≡ true)
        → (k : ℕ) × Elem (k, t) ((j, v) ∷ m) × (t.camp ≡ camp) × (is_alive t ≡ true)
    deeper (k, m', s, a) = (k, inr m', s, a)

alive_by_camp_empty :
    (camp k : ℕ) (u : BattleUnit) (m : Map BattleUnit)
    → alive_by_camp camp m ≡ []
    → Elem (k, u) m
    → u.camp ≡ camp
    → u.attr.hp ≡ 0
alive_by_camp_empty camp k u [] h e s = absurd e
alive_by_camp_empty camp k u ((j, v) ∷ m) h e s = elim (alive_by_camp_cons camp j v m) [
  | inl (list, _, _) ↦ absurd (ground (arith, list, h))
  | inr (list, dead) ↦ elim e [
    | inl here ↦
        let same : u ≡ v = ap (λ (p : ℕ × BattleUnit). p.1) here in ground (arith, same, dead, s)
    | inr later ↦ alive_by_camp_empty camp k u m (sym list ∙ h) later s
  ]
]

-- A strike on nobody, since the camp is dead, or on one living unit of the camp.
abbrev pub Strikes : Combat → ℕ → List ℕ → Type 0
Strikes c camp targets =
    ((targets ≡ []) × AllDead camp c)
    ⊎ ((k : ℕ) × (t : BattleUnit) × (targets ≡ t.uid ∷ [])
        × (find k c.battle_unit_map ≡ some t)
        × (t.camp ≡ camp)
        × (is_alive t ≡ true))

aim_hits :
    (us : List BattleUnit) (i : ℕ)
    → i < length us
    → (t : BattleUnit) × Elem t us × (aim us i ≡ t.uid ∷ [])
unfolding aim
aim_hits us i h =
    let (t, e, m) = get_elem?-Elem us i h in
    let in_range : ltb (length us) i ≡ false = ground arith in (t, m, rw (e, in_range) refl)

pick_target-Strikes :
    (dice : Dice) (us : List BattleUnit) (c : Combat) (camp : ℕ)
    → IsOrdered c.battle_unit_map
    → us ≡ alive_by_camp camp c.battle_unit_map
    → Strikes c camp (pick_target dice us c).0
unfolding pick_target
pick_target-Strikes dice [] c camp o e = inl (
  refl,
  λ k u f s.
      alive_by_camp_empty camp k u c.battle_unit_map (sym e) (find-Elem k u c.battle_unit_map f) s,
)
pick_target-Strikes dice (u ∷ us) c camp o e =
    let r = rand_between_range dice c.draws 0 (length (u ∷ us) - 1) (omega arith) in
    let (t, m, a) =
      aim_hits (u ∷ us) (rand_between dice c.draws 0 (length (u ∷ us) - 1)) (omega (arith, r)) in
    let (k, n, s, alive) = alive_by_camp_sound camp c.battle_unit_map t (subst (Elem t) e m) in
    inr (k, t, a, find_of_Elem k t c.battle_unit_map o n, s, alive)

-- On ordered units with a current unit, getDefaultSkillTarget for the normal attack gives no target
-- only when the other camp is dead, and else one target, a living unit of the other camp.
pub get_default_skill_target-Strikes :
    (dice : Dice) (c : Combat) (u : BattleUnit)
    → IsOrdered c.battle_unit_map
    → current c ≡ some u
    → Strikes c (target_camp u.camp) (get_default_skill_target dice battle_skill_normal_atk c).0
unfolding get_default_skill_target get_alive_unit_by_camp
get_default_skill_target-Strikes dice c u o e =
    rw (e, get_default_skill_target)
      (pick_target-Strikes dice (alive_by_camp (target_camp u.camp) c.battle_unit_map) c
        (target_camp u.camp) o refl)
