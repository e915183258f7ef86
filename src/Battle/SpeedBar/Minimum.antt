-- ===== src/Battle/SpeedBar/Minimum.antt =====
-- The least number of runs (first loop of runSpeedBar) and the length of the bar (initSpeedBar).
use integration_server.Prelude.{
  ℕ, ◌+◌, ◌-◌, ◌/◌, ◌^◌, ◌≤◌, ◌<◌, ◌≡◌, refl, ◌∙◌, ◌⊎◌, inl, inr, true, [], ◌∷◌, arith, Elem,
  lt→ltb,
}
use integration_server.Prelude.Float.{of_uint32}
use integration_server.Prelude.Float.Exact.{ceil_uint32-div_float, div_ceil-le}
use integration_server.Prelude.Map.{Map}
use integration_server.Utils.CalcTool.{safe_sub}
use integration_server.Battle.Unit.{
  BattleUnit, is_alive, is_can_run_speed_bar, get_speed, get_speed_bar_total,
}
use integration_server.Battle.SpeedBar.{run_times, min_times_step, run_min_times}

-- A unit that takes part in the race.
abbrev pub Runs : BattleUnit → Type 0
Runs u = (is_alive u ≡ true) × (0 < get_speed u)

run_min_times_le : (bar : ℕ) (m : Map BattleUnit) (start : ℕ) → run_min_times bar m start ≤ start
unfolding run_min_times min_times_step
run_min_times_le bar [] start = omega arith
run_min_times_le bar ((k, u) ∷ rest) start =
    ground (arith, run_min_times_le bar rest (min_times_step bar u start))

min_times_step_le :
    (bar start : ℕ) (u : BattleUnit) → Runs u → min_times_step bar u start ≤ run_times bar u
unfolding min_times_step is_can_run_speed_bar
min_times_step_le bar start u h = ground arith

-- No unit in the race needs fewer runs.
pub run_min_times-le-run_times :
    (bar : ℕ) (m : Map BattleUnit) (start k : ℕ) (u : BattleUnit)
    → Elem (k, u) m
    → Runs u
    → run_min_times bar m start ≤ run_times bar u
unfolding run_min_times
run_min_times-le-run_times bar [] start k u e h = absurd e
run_min_times-le-run_times bar ((j, v) ∷ rest) start k u (inl e) h =
    ground (
      arith,
      run_min_times_le bar rest (min_times_step bar v start),
      min_times_step_le bar start u h,
    )
run_min_times-le-run_times bar ((j, v) ∷ rest) start k u (inr e) h =
    run_min_times-le-run_times bar rest (min_times_step bar v start) k u e h

min_times_step_cases :
    (bar start : ℕ) (u : BattleUnit)
    → (min_times_step bar u start ≡ start)
      ⊎ (Runs u × (min_times_step bar u start ≡ run_times bar u))
unfolding min_times_step is_can_run_speed_bar
min_times_step_cases bar start u = ground arith

abbrev pub Attained : ℕ → Map BattleUnit → ℕ → Type 0
Attained bar m n = (k : ℕ) × (u : BattleUnit) × Elem (k, u) m × Runs u × (n ≡ run_times bar u)

-- The number is that of a unit in the race, unless nobody beats the start.
pub run_min_times-Attained :
    (bar : ℕ) (m : Map BattleUnit) (start : ℕ)
    → (run_min_times bar m start ≡ start) ⊎ Attained bar m (run_min_times bar m start)
unfolding run_min_times
run_min_times-Attained bar [] start = inl refl
run_min_times-Attained bar ((j, v) ∷ rest) start =
    elim (run_min_times-Attained bar rest (min_times_step bar v start)) [
      | inr (k, u, e, h, t) ↦ inr (k, u, inr e, h, t)
      | inl same ↦ elim (min_times_step_cases bar start v) [
        | inl kept ↦ inl (same ∙ kept)
        | inr (h, t) ↦ inr (j, v, inl refl, h, same ∙ t)
      ]
    ]

safe_sub_le : (a b : ℕ) → safe_sub a b ≤ a
unfolding safe_sub
safe_sub_le a b = ground arith

of_uint32_small : (n : ℕ) → n < 2 ^ 24 → of_uint32 n ≡ n
unfolding of_uint32
of_uint32_small n h = rw (lt→ltb n (2 ^ 24) h)

-- A bar short enough for every unit to fill it in time, and for exact floats.
abbrev pub max_bar : ℕ
max_bar = 99998

-- For a bar of at most 99998 and a speed between 1 and 99998, the number of runs that runSpeedBar
-- computes in float is the exact quotient of the missing way by the speed, rounded up.
pub run_times_lem :
    (bar : ℕ) (u : BattleUnit)
    → bar ≤ max_bar
    → 0 < get_speed u
    → get_speed u ≤ max_bar
    → run_times bar u ≡ (safe_sub bar (get_speed_bar_total u) + get_speed u - 1) / get_speed u
unfolding run_times
run_times_lem bar u h p q =
    rw
      (
        of_uint32_small (safe_sub bar (get_speed_bar_total u))
            (omega (arith, safe_sub_le bar (get_speed_bar_total u))),
        of_uint32_small (get_speed u) (omega arith),
      )
      (ceil_uint32-div_float (safe_sub bar (get_speed_bar_total u)) (get_speed u) p
        (omega (arith, safe_sub_le bar (get_speed_bar_total u))) (omega arith))

pub run_times_le :
    (bar : ℕ) (u : BattleUnit)
    → bar ≤ max_bar
    → Runs u
    → get_speed u ≤ max_bar
    → run_times bar u ≤ bar
run_times_le bar u h r q = omega (
  arith,
  run_times_lem bar u h r.1 q,
  div_ceil-le (safe_sub bar (get_speed_bar_total u)) (get_speed u) r.1,
  safe_sub_le bar (get_speed_bar_total u),
)
