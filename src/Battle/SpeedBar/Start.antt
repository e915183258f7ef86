-- ===== src/Battle/SpeedBar/Start.antt =====
-- The length of the bar, which initSpeedBar takes from the fastest living unit.
use integration_server.Prelude.{
  ℕ, ◌*◌, ◌%◌, ◌^◌, ◌≤◌, ◌≡◌, refl, ◌∙◌, ◌⊎◌, inl, inr, Bool, true, false, [], ◌∷◌, arith, Elem,
  leb, Bool-cases, some,
}
use integration_server.Prelude.Map.{Map, find, IsOrdered}
use integration_server.Prelude.Map.Laws.{find-Elem, find_of_Elem}
use integration_server.Battle.Common.{get_speed_bar}
use integration_server.Battle.Unit.{BattleUnit, is_alive, get_speed}
use integration_server.Battle.Combat.{Combat}
use integration_server.Battle.SpeedBar.{max_speed_step, max_speed, init_speed_bar}
use integration_server.Battle.SpeedBar.Minimum.{Runs}

max_speed_step_le :
    (u : BattleUnit) (n : ℕ)
    → (n ≤ max_speed_step u n) × (is_alive u ≡ true → get_speed u ≤ max_speed_step u n)
unfolding max_speed_step
max_speed_step_le u n = (ground arith, λ e. ground arith)

max_speed_start : (m : Map BattleUnit) (n : ℕ) → n ≤ max_speed m n
unfolding max_speed
max_speed_start [] n = omega arith
max_speed_start ((k, u) ∷ m) n =
    omega (arith, max_speed_start m (max_speed_step u n), (max_speed_step_le u n).0)

-- No living unit is faster.
max_speed_le :
    (m : Map BattleUnit) (n k : ℕ) (u : BattleUnit)
    → Elem (k, u) m
    → is_alive u ≡ true
    → get_speed u ≤ max_speed m n
unfolding max_speed
max_speed_le [] n k u e a = absurd e
max_speed_le ((j, v) ∷ m) n k u (inl e) a =
    ground (arith, max_speed_start m (max_speed_step v n), (max_speed_step_le v n).1)
max_speed_le ((j, v) ∷ m) n k u (inr e) a = max_speed_le m (max_speed_step v n) k u e a

abbrev Fastest : Map BattleUnit → ℕ → Type 0
Fastest m n = (k : ℕ) × (u : BattleUnit) × Elem (k, u) m × (is_alive u ≡ true) × (get_speed u ≡ n)

max_speed_step_cases :
    (u : BattleUnit) (n : ℕ)
    → (max_speed_step u n ≡ n) ⊎ ((is_alive u ≡ true) × (get_speed u ≡ max_speed_step u n))
unfolding max_speed_step
max_speed_step_cases u n = ground arith

max_speed_attained : (m : Map BattleUnit) (n : ℕ) → (max_speed m n ≡ n) ⊎ Fastest m (max_speed m n)
unfolding max_speed
max_speed_attained [] n = inl refl
max_speed_attained ((j, v) ∷ m) n = elim (max_speed_attained m (max_speed_step v n)) [
  | inr (k, u, e, a, s) ↦ inr (k, u, inr e, a, s)
  | inl same ↦ elim (max_speed_step_cases v n) [
    | inl kept ↦ inl (same ∙ kept)
    | inr (a, s) ↦ inr (j, v, inl refl, a, ground (arith, same, s))
  ]
]

-- What initSpeedBar decides. It fails with nothing changed and no living unit has speed, or it sets
-- the bar from the speed of a living unit with speed that no living unit exceeds.
abbrev pub Starts : Combat → Bool × Combat → Type 0
Starts c (b, d) =
    ((b ≡ false)
      × (d ≡ c)
      × ((k : ℕ) (u : BattleUnit)
          → find k c.battle_unit_map ≡ some u
          → is_alive u ≡ true
          → get_speed u ≡ 0))
    ⊎ ((b ≡ true)
        × (k : ℕ) × (u : BattleUnit) × (d ≡ record c { speed_bar = get_speed u * 7 % 2 ^ 32 })
        × (find k c.battle_unit_map ≡ some u)
        × Runs u
        × ((j : ℕ) (v : BattleUnit)
            → find j c.battle_unit_map ≡ some v
            → is_alive v ≡ true
            → get_speed v ≤ get_speed u))

-- On ordered units, initSpeedBar fails with nothing changed and no living unit has speed, or it
-- succeeds and sets the bar to seven times the speed of a living unit, modulo 2^32, where that
-- speed is not 0 and no living unit is faster.
pub init_speed_bar-Starts : (c : Combat) → IsOrdered c.battle_unit_map → Starts c (init_speed_bar c)
unfolding init_speed_bar get_speed_bar
init_speed_bar-Starts c o =
    let m = c.battle_unit_map in
    elim (Bool-cases (leb (max_speed m 0) 0)) [
      | inl stuck ↦
          rw stuck (
            inl (refl, refl, λ k u f a. ground (arith, max_speed_le m 0 k u (find-Elem k u m f) a)))
      | inr moves ↦ elim (max_speed_attained m 0) [
        | inl zero_speed ↦ absurd (ground arith)
        | inr (k, u, e, a, s) ↦ rw (moves) (
            inr (
              refl,
              k,
              u,
              rw s refl,
              find_of_Elem k u m o e,
              (a, ground (arith, s)),
              λ j v f b. ground (arith, s, max_speed_le m 0 j v (find-Elem j v m f) b),
            ))
      ]
    ]
