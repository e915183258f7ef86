-- ===== src/Prelude/Float.antt =====
-- The C++ `float` (IEEE binary32) on non-negative values, as far as the battle code uses it: a
-- float is `mant * 2 ^ up / 2 ^ down`, and a quotient of integers is rounded to 24 significant
-- bits, ties to even.
use integration_server.Prelude.{
  ℕ, zero, suc, ◌+◌, ◌-◌, ◌*◌, ◌/◌, ◌%◌, ◌^◌, Bool, true, false, ltb, leb, ◌==◌, if◌then◌else◌,
}
pub mod Exact

pub record Float : Type 0 where
  pub mant : ℕ
  pub up : ℕ
  pub down : ℕ

-- n / d doubled until the quotient has 24 bits, with the number of doublings.
pub record Scaled : Type 0 where
  pub value : ℕ
  pub shift : ℕ

unfoldable pub scale : ℕ → ℕ → ℕ → ℕ → Scaled
scale zero bound n k = record { value = n; shift = k }
scale (suc f) bound n k = elim (ltb n bound) [
  | true ↦ scale f bound (n * 2) (k + 1)
  | false ↦ record { value = n; shift = k }
]

-- The integer nearest to n / d, ties to even.
unfoldable pub nearest : ℕ → ℕ → ℕ
nearest n d =
    if ltb (n % d * 2) d then n / d else if ltb d (n % d * 2) then n / d + 1 else n / d + n / d % 2

-- Sixty-four doublings are more than any quotient of the program needs: both parts are below 2^64.
abbrev pub max_scale : ℕ
max_scale = 64

-- The float nearest to n / d. A quotient of 2^24 or more is halved, a smaller one is doubled.
unfoldable pub round : ℕ → ℕ → Float
round n d =
    if n == 0
    then record { mant = 0; up = 0; down = 0 }
    else if ltb n (2 ^ 24 * d)
    then (let s = scale max_scale (2 ^ 23 * d) n 0 in
        record { mant = nearest s.value d; up = 0; down = s.shift })
    else (let s = scale max_scale (n / 2 ^ 24 + 1) d 0 in
        record { mant = nearest n s.value; up = s.shift; down = 0 })

-- Conversion of a uint32 to float: the result is a whole number.
unfoldable pub of_uint32 : ℕ → ℕ
of_uint32 n = if ltb n (2 ^ 24) then n else (let r = round n 1 in r.mant * 2 ^ r.up)

-- a / b on floats that are whole numbers, and a product with a whole one.
unfoldable pub div_float : ℕ → ℕ → Float
div_float a b = round a b

unfoldable pub mul_float : ℕ → Float → Float
mul_float a x = round (a * x.mant * 2 ^ x.up) (2 ^ x.down)

-- std::ceil and the conversion that drops the fraction, then the low 32 bits. C++ leaves a
-- conversion of 2^32 or more undefined; x86-64 code gives the low bits.
unfoldable pub ceil_uint32 : Float → ℕ
ceil_uint32 x = (x.mant * 2 ^ x.up + 2 ^ x.down - 1) / 2 ^ x.down % 2 ^ 32

unfoldable pub trunc_uint32 : Float → ℕ
trunc_uint32 x = x.mant * 2 ^ x.up / 2 ^ x.down % 2 ^ 32
