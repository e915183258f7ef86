-- ===== src/Utils/Rand.antt =====
-- utils/rand.cpp: randBetween on unsigned integers. The standard library's engine and distribution
-- are a parameter: `roll n min max` is the n-th draw, seeded by std::random_device.
use integration_server.Prelude.{ℕ, ◌≤◌, ◌<◌, arith, leb, if◌then◌else◌}

pub record Dice : Type 0 where
  pub roll : ℕ → ℕ → ℕ → ℕ
  -- std::uniform_int_distribution(min, max) yields values of the closed range.
  pub roll_range :
      (n low high : ℕ) → low < high → (low ≤ roll n low high) × (roll n low high ≤ high)

-- The value, with the number of draws that it takes counted on.
unfoldable pub rand_between : Dice → ℕ → ℕ → ℕ → ℕ
rand_between dice draws low high = if leb high low then high else dice.roll draws low high

pub rand_between_range :
    (dice : Dice) (draws low high : ℕ)
    → low ≤ high
    → (low ≤ rand_between dice draws low high) × (rand_between dice draws low high ≤ high)
unfolding rand_between
rand_between_range dice draws low high h = ground (arith, dice.roll_range draws low high)
