-- ===== src/Prelude/Float/Exact.antt =====
-- Where the rounding of `float` changes nothing.
use native.Mathlib.Nat.{pow-suc, mul-le-mul_right, add-mul, mul_right_comm, mul_comm}
use integration_server.Prelude.{
  ℕ, zero, suc, ◌+◌, ◌-◌, ◌*◌, ◌/◌, ◌%◌, ◌^◌, ◌≤◌, ◌<◌, ◌≡◌, refl, true, false, inl, inr, arith,
  ltb, ◌==◌, dec_lt, ap, Bool-cases,
}
use integration_server.Prelude.Float.{
  Scaled, scale, nearest, max_scale, round, div_float, ceil_uint32,
}

-- The error of `nearest` is at most half a unit.
pub nearest_bounds :
    (n d : ℕ) → 0 < d → (2 * (nearest n d * d) ≤ 2 * n + d) × (2 * n ≤ 2 * (nearest n d * d) + d)
unfolding nearest
nearest_bounds n d h = grind arith

pub pow_two_pos : (k : ℕ) → 0 < 2 ^ k
pow_two_pos zero = omega arith
pow_two_pos (suc k) = omega (arith, pow-suc 2 k, pow_two_pos k)

double_pow : (n k : ℕ) → n * 2 ^ suc k ≡ n * 2 * 2 ^ k
double_pow n k = omega (arith, ap (λ (t : ℕ). n * t) (pow-suc 2 k))

-- What a `scale` does: it multiplies by a power of two, up to the bound.
pub record Scales (bound n k : ℕ) (s : Scaled) : Type 0 where
  pub steps : ℕ
  pub value : s.value ≡ n * 2 ^ steps
  pub shift : s.shift ≡ k + steps
  pub reaches : bound ≤ s.value

pub scale-Scales : (f bound n k : ℕ) → bound ≤ n * 2 ^ f → Scales bound n k (scale f bound n k)
unfolding scale
scale-Scales zero bound n k h = record {
  steps = 0;
  value = omega arith;
  shift = omega arith;
  reaches = omega arith;
}
scale-Scales (suc f) bound n k h = elim (Bool-cases (ltb n bound)) [
  | inl more ↦
      rw (more, scale)
        (let s = scale-Scales f bound (n * 2) (k + 1) (omega (arith, double_pow n f)) in
          record {
            steps = suc s.steps;
            value = omega (arith, s.value, double_pow n s.steps);
            shift = omega (arith, s.shift);
            reaches = s.reaches;
          })
  | inr done ↦
      rw (done, scale)
        (record { steps = 0; value = omega arith; shift = omega arith; reaches = ground arith })
]

ceil_unique : (m p c : ℕ) → 0 < p → m ≤ c * p → c * p < m + p → (m + p - 1) / p ≡ c
ceil_unique m p c hp h k = grind arith

-- With `m` the rounded quotient of `a * p` by `b`, at 23 bits or more, and `c` the ceiling of
-- a / b, the ceiling of m / p is `c` too.
ceil_of_rounded :
    (a b c m p : ℕ)
    → 0 < b
    → a < 2 ^ 24
    → a ≤ c * b
    → c * b < a + b
    → 2 * (m * b) ≤ 2 * (a * p) + b
    → 2 * (a * p) ≤ 2 * (m * b) + b
    → 2 ^ 23 * b ≤ a * p
    → (m ≤ c * p) × (c * p < m + p)
ceil_of_rounded a b c m p hb ha lo hi up down wide = (upper, lower)
  where
    lo' : a * p ≤ c * b * p
    lo' = mul-le-mul_right p lo

    hi' : c * b * p + p ≤ a * p + b * p
    hi' = grind (arith, mul-le-mul_right {m = c * b + 1} {n = a + b} p)

    upper : m ≤ c * p
    upper = elim (dec_lt (c * p) m) [
      | yes h ↦ absurd (
          omega (
            arith,
            lo',
            mul-le-mul_right {m = c * p + 1} {n = m} b (omega arith),
            add-mul (c * p) 1 b,
            mul_right_comm c b p,
          ))
      | no h ↦ omega arith
    ]

    small : a * p + p ≤ 2 ^ 24 * p
    small = grind (arith, mul-le-mul_right {m = a + 1} {n = 2 ^ 24} p)

    lower : c * p < m + p
    lower = elim (dec_lt (c * p) (m + p)) [
      | yes h ↦ h
      | no h ↦ absurd (
          omega (
            arith,
            hi',
            small,
            mul-le-mul_right {m = m + p} {n = c * p} b (omega arith),
            add-mul m p b,
            mul_right_comm c b p,
            mul_comm p b,
          ))
    ]

pub div_ceil_bounds : (a b : ℕ) → 0 < b → (a ≤ (a + b - 1) / b * b) × ((a + b - 1) / b * b < a + b)
div_ceil_bounds a b h = grind arith

pub div_ceil-le : (a b : ℕ) → 0 < b → (a + b - 1) / b ≤ a
div_ceil-le a b h = grind (arith, div_ceil_bounds a b h)

rounded : ℕ → ℕ → Scaled
rounded a b = scale max_scale (2 ^ 23 * b) a 0

-- The ceiling of the rounded quotient, in the small range.
ceil_scaled :
    (a b : ℕ) (s : Scaled)
    → 0 < a
    → 0 < b
    → a < 2 ^ 24
    → Scales (2 ^ 23 * b) a 0 s
    → (nearest s.value b + 2 ^ s.shift - 1) / 2 ^ s.shift ≡ (a + b - 1) / b
ceil_scaled a b s ha hb h sc =
    let p = 2 ^ s.shift in
    let same : s.shift ≡ sc.steps = omega (arith, sc.shift) in
    let e : s.value ≡ a * p = omega (arith, sc.value, ap (λ (t : ℕ). a * 2 ^ t) same) in
    let r =
      ceil_of_rounded a b ((a + b - 1) / b) (nearest s.value b) p hb h (div_ceil_bounds a b hb).0
        (div_ceil_bounds a b hb).1 (omega (arith, nearest_bounds s.value b hb))
        (omega (arith, nearest_bounds s.value b hb)) (omega (arith, sc.reaches)) in
    ceil_unique (nearest s.value b) p ((a + b - 1) / b) (pow_two_pos s.shift) r.0 r.1

scale_enough : (a b : ℕ) → 0 < a → b < 2 ^ 24 → 2 ^ 23 * b ≤ a * 2 ^ max_scale
scale_enough a b h k = omega arith

ceil_uint32-round :
    (a b : ℕ)
    → 0 < a
    → 0 < b
    → a < 2 ^ 24
    → let s = rounded a b in
      ceil_uint32 (round a b) ≡ (nearest s.value b + 2 ^ s.shift - 1) / 2 ^ s.shift % 2 ^ 32
unfolding ceil_uint32 round rounded
ceil_uint32-round a b ha hb h = rw (nonzero, narrow, one) refl
  where
    nonzero : (a == 0) ≡ false
    nonzero = ground arith

    narrow : ltb a (2 ^ 24 * b) ≡ true
    narrow = ground arith

    one :
        nearest (scale max_scale (2 ^ 23 * b) a 0).value b * 2 ^ 0
        ≡ nearest (scale max_scale (2 ^ 23 * b) a 0).value b
    one = omega arith

-- The ceiling of a float quotient is the ceiling of the quotient, when the parts have 24 bits.
pub ceil_uint32-div_float :
    (a b : ℕ) → 0 < b → a < 2 ^ 24 → b < 2 ^ 24 → ceil_uint32 (div_float a b) ≡ (a + b - 1) / b
unfolding div_float rounded
ceil_uint32-div_float zero b hb ha hc =
    unfold ceil_uint32 round in omega (arith, div_ceil-le 0 b hb)
ceil_uint32-div_float (suc n) b hb ha hc =
    let sc =
      scale-Scales max_scale (2 ^ 23 * b) (suc n) 0 (scale_enough (suc n) b (omega arith) hc) in
    omega (
      arith,
      ceil_uint32-round (suc n) b (omega arith) hb ha,
      ceil_scaled (suc n) b (rounded (suc n) b) (omega arith) hb ha sc,
      div_ceil-le (suc n) b hb,
    )
