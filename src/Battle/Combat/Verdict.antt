-- ===== src/Battle/Combat/Verdict.antt =====
-- checkCombatEnd against what its results mean.
use integration_server.Prelude.{
  ℕ, ◌≤◌, ◌<◌, ◌≡◌, refl, ◌⊎◌, inl, inr, Bool, true, false, some, [], ◌∷◌, arith, Elem, leb, ◌==◌,
  Bool-cases,
}
use integration_server.Prelude.Map.{Map, find, IsOrdered}
use integration_server.Prelude.Map.Laws.{find-Elem, find_of_Elem}
use integration_server.Battle.Common.{
  CombatResult, camp1_defeat, camp2_defeat, all_defeat, timeout, battle_camp_1, battle_camp_2,
  max_round,
}
use integration_server.Battle.Unit.{BattleUnit, is_alive}
use integration_server.Battle.Combat.{Combat, all_dead, is_all_dead_by_camp, check_combat_end}

-- No unit of the camp has health points left.
abbrev pub AllDead : ℕ → Combat → Type 0
AllDead camp c =
    (k : ℕ) (u : BattleUnit) → find k c.battle_unit_map ≡ some u → u.camp ≡ camp → u.attr.hp ≡ 0

-- Some unit of the camp has.
abbrev pub HasAlive : ℕ → Combat → Type 0
HasAlive camp c =
    (k : ℕ) × (u : BattleUnit) × (find k c.battle_unit_map ≡ some u)
    × (u.camp ≡ camp)
    × (0 < u.attr.hp)

-- What a result says of the battle.
abbrev pub Verdict : Combat → CombatResult → Type 0
Verdict c all_defeat = AllDead battle_camp_1 c × AllDead battle_camp_2 c
Verdict c camp1_defeat = AllDead battle_camp_1 c × HasAlive battle_camp_2 c
Verdict c camp2_defeat = HasAlive battle_camp_1 c × AllDead battle_camp_2 c
Verdict c timeout = HasAlive battle_camp_1 c × HasAlive battle_camp_2 c × (max_round ≤ c.round)

all_dead-Elem :
    (camp k : ℕ) (u : BattleUnit) (m : Map BattleUnit)
    → all_dead camp m ≡ true
    → Elem (k, u) m
    → u.camp ≡ camp
    → u.attr.hp ≡ 0
unfolding all_dead
all_dead-Elem camp k u [] h e s = absurd e
all_dead-Elem camp k u ((j, v) ∷ m) h (inl e) s = ground arith
all_dead-Elem camp k u ((j, v) ∷ m) h (inr e) s = all_dead-Elem camp k u m (ground arith) e s

all_dead-false :
    (camp : ℕ) (m : Map BattleUnit)
    → all_dead camp m ≡ false
    → (k : ℕ) × (u : BattleUnit) × Elem (k, u) m × (u.camp ≡ camp) × (0 < u.attr.hp)
unfolding all_dead
all_dead-false camp [] h = absurd (cc)
all_dead-false camp ((j, v) ∷ m) h = elim (Bool-cases (v.camp == camp)) [
  | inl same ↦ elim (Bool-cases (is_alive v)) [
    | inl alive ↦ (j, v, inl refl, ground arith, ground arith)
    | inr dead ↦ let (k, u, e, s, p) = all_dead-false camp m (ground arith) in (k, u, inr e, s, p)
  ]
  | inr other ↦ let (k, u, e, s, p) = all_dead-false camp m (ground arith) in (k, u, inr e, s, p)
]

-- isAllDeadByCamp decides AllDead.
pub is_all_dead_by_camp_cases :
    (camp : ℕ) (c : Combat)
    → IsOrdered c.battle_unit_map
    → ((is_all_dead_by_camp c camp ≡ true) × AllDead camp c)
      ⊎ ((is_all_dead_by_camp c camp ≡ false) × HasAlive camp c)
unfolding is_all_dead_by_camp
is_all_dead_by_camp_cases camp c o = elim (Bool-cases (all_dead camp c.battle_unit_map)) [
  | inl h ↦ inl (
    h,
    λ k u f s. all_dead-Elem camp k u c.battle_unit_map h (find-Elem k u c.battle_unit_map f) s,
  )
  | inr h ↦
      let (k, u, e, s, p) = all_dead-false camp c.battle_unit_map h in
      inr (h, (k, u, find_of_Elem k u c.battle_unit_map o e, s, p))
]

-- What a call of checkCombatEnd decides: the battle ends with a result that is true of it, or both
-- camps have a living unit, there are rounds left, and nothing changes.
abbrev pub Decides : Combat → Bool × Combat → Type 0
Decides c (ended, c') =
    ((ended ≡ true) × (r : CombatResult) × (c' ≡ record c { result = some r }) × Verdict c r)
    ⊎ ((ended ≡ false)
        × (c' ≡ c)
        × HasAlive battle_camp_1 c
        × HasAlive battle_camp_2 c
        × (c.round < max_round))

-- On ordered units, checkCombatEnd returns true with a result that is true of the units (which camp
-- is dead, or that 99 rounds are over with both alive), or it returns false and changes nothing,
-- both camps have a living unit and the round is below 99.
pub check_combat_end-Decides :
    (c : Combat) → IsOrdered c.battle_unit_map → Decides c (check_combat_end c)
unfolding check_combat_end
check_combat_end-Decides c o = elim (is_all_dead_by_camp_cases battle_camp_1 c o) [
  | inl (e1, d1) ↦ elim (is_all_dead_by_camp_cases battle_camp_2 c o) [
    | inl (e2, d2) ↦ rw (e1, e2) (inl (refl, all_defeat, refl, (d1, d2)))
    | inr (e2, a2) ↦ rw (e1, e2) (inl (refl, camp1_defeat, refl, (d1, a2)))
  ]
  | inr (e1, a1) ↦ elim (is_all_dead_by_camp_cases battle_camp_2 c o) [
    | inl (e2, d2) ↦ rw (e1, e2) (inl (refl, camp2_defeat, refl, (a1, d2)))
    | inr (e2, a2) ↦ elim (Bool-cases (leb max_round c.round)) [
      | inl late ↦ rw (e1, e2, late) (inl (refl, timeout, refl, (a1, a2, ground arith)))
      | inr more ↦ rw (e1, e2, more) (inr (refl, refl, a1, a2, ground arith))
    ]
  ]
]
