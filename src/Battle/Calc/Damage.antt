-- ===== src/Battle/Calc/Damage.antt =====
-- What a normal attack costs its target, in whole numbers.
use native.Mathlib.Nat.{pow-suc, mul-div-mul_right, mul-div_cancel, mul-mod_left}
use integration_server.Prelude.{
  ℕ, zero, suc, ◌*◌, ◌/◌, ◌%◌, ◌^◌, ◌≤◌, ◌<◌, ◌≡◌, refl, ap, ◌∙◌, [], ◌∷◌, some, arith, ltb, lt→ltb,
  ◌==◌, true, false,
}
use integration_server.Prelude.Float.{
  Float, Scaled, scale, nearest, max_scale, round, of_uint32, div_float, mul_float, trunc_uint32,
}
use integration_server.Prelude.Float.Exact.{scale-Scales, pow_two_pos}
use integration_server.Prelude.Map.{find, assign, insert}
use integration_server.Utils.CalcTool.{safe_sub}
use integration_server.Battle.Common.{battle_skill_normal_atk}
use integration_server.Battle.Unit.{BattleUnit, get_atk, get_def, set_hp}
use integration_server.Battle.Combat.{Combat, get_battle_unit, modify_unit}
use integration_server.Battle.Calc.{
  CombatCalc, element_normal_atk_func, empty_calc, init_config, init_calc, attack_value, left_hp,
  attack_unit, element_normal_atk, run_element, do_targets, do_elements, do_e_set, do_skill,
  do_operate,
}

nearest_whole : (q d : ℕ) → 0 < d → nearest (q * d) d ≡ q
unfolding nearest
nearest_whole q d h = ground (arith, mul-div_cancel q {n = d} h, mul-mod_left q d)

double_pow : (n j : ℕ) → n * 2 ^ suc j ≡ n * 2 ^ j * 2
double_pow n j = omega (arith, ap (λ (t : ℕ). n * t) (pow-suc 2 j))

-- The rounding of three halves, given the number of doublings.
rounded_half :
    (atk k : ℕ) (s : Scaled)
    → atk < 2 ^ 22
    → s.value ≡ atk * 12582912 * 2 ^ k
    → s.shift ≡ k
    → 2 ^ 23 * 2 ^ 23 ≤ s.value
    → nearest s.value (2 ^ 23) / 2 ^ s.shift ≡ atk * 3 / 2
rounded_half atk zero s h v t r = absurd (omega (arith, v))
rounded_half atk (suc j) s h v t r =
    ap (λ (n : ℕ). nearest n (2 ^ 23) / 2 ^ s.shift) whole
    ∙ ap (λ (n : ℕ). n / 2 ^ s.shift) (nearest_whole (atk * 3 * 2 ^ j) (2 ^ 23) (omega arith))
    ∙ ap (λ (n : ℕ). atk * 3 * 2 ^ j / n) (ap (λ (n : ℕ). 2 ^ n) t ∙ pow-suc 2 j ∙ omega arith)
    ∙ mul-div-mul_right {m = 2 ^ j} (atk * 3) 2 (pow_two_pos j)
  where
    whole : s.value ≡ atk * 3 * 2 ^ j * 2 ^ 23
    whole = omega (arith, v, double_pow atk j)

-- 150 / 100 is exact.
ratio : Float
ratio = record { mant = 12582912; up = 0; down = 23 }

div_float-ratio : div_float (of_uint32 150) 100 ≡ ratio
unfolding div_float of_uint32 round nearest scale ratio
div_float-ratio = refl

of_uint32_small : (n : ℕ) → n < 2 ^ 24 → of_uint32 n ≡ n
unfolding of_uint32
of_uint32_small n h = rw (lt→ltb n (2 ^ 24) h)

scaled : ℕ → Scaled
scaled atk = scale max_scale (2 ^ 23 * 2 ^ 23) (atk * 12582912) 0

trunc_uint32-round :
    (atk : ℕ)
    → 0 < atk
    → atk < 2 ^ 22
    → trunc_uint32 (round (atk * 12582912) (2 ^ 23))
      ≡ nearest (scaled atk).value (2 ^ 23) / 2 ^ (scaled atk).shift % 2 ^ 32
unfolding trunc_uint32 round scaled
trunc_uint32-round atk h k = rw (nonzero, narrow, one) refl
  where
    nonzero : (atk * 12582912 == 0) ≡ false
    nonzero = ground arith

    narrow : ltb (atk * 12582912) (2 ^ 24 * 2 ^ 23) ≡ true
    narrow = ground arith

    one :
        nearest (scale max_scale (2 ^ 23 * 2 ^ 23) (atk * 12582912) 0).value (2 ^ 23) * 2 ^ 0
        ≡ nearest (scale max_scale (2 ^ 23 * 2 ^ 23) (atk * 12582912) 0).value (2 ^ 23)
    one = omega arith

trunc_uint32-half :
    (atk : ℕ)
    → 0 < atk
    → atk < 2 ^ 22
    → trunc_uint32 (round (atk * 12582912) (2 ^ 23)) ≡ atk * 3 / 2
unfolding scaled
trunc_uint32-half atk h k =
    let sc = scale-Scales max_scale (2 ^ 23 * 2 ^ 23) (atk * 12582912) 0 (omega arith) in
    omega (
      arith,
      trunc_uint32-round atk h k,
      rounded_half atk sc.steps (scaled atk) k sc.value (omega (arith, sc.shift)) sc.reaches,
    )

-- In the range where `float` is exact, an attack is one and a half times the attribute.
pub attack_value_lem : (atk : ℕ) → atk < 2 ^ 22 → attack_value atk 150 ≡ atk * 3 / 2
unfolding attack_value mul_float ratio
attack_value_lem zero h = unfold div_float trunc_uint32 of_uint32 round nearest scale in refl
attack_value_lem (suc n) h =
    ap (λ x. trunc_uint32 (mul_float (of_uint32 (suc n)) x)) div_float-ratio
    ∙ ap (λ x. trunc_uint32 (mul_float x ratio)) (of_uint32_small (suc n) (omega arith))
    ∙ ap (λ (x : ℕ). trunc_uint32 (round x (2 ^ 23))) (omega arith)
    ∙ trunc_uint32-half (suc n) (omega arith) h

-- The cost of a normal attack.
abbrev pub damage : BattleUnit → BattleUnit → ℕ
damage attacker victim = safe_sub (get_atk attacker * 3 / 2) (get_def victim)

abbrev tables : CombatCalc
tables = init_calc empty_calc

skill_table :
    find battle_skill_normal_atk tables.skill_config_map
    ≡ some (record { index = 1; e_set_set = 1 ∷ [] })
unfolding init_calc init_config find assign insert
skill_table = refl

e_set_table :
    find 1 tables.e_set_config_map
    ≡ some (record { index = 1; is_buff = false; element_set = 1 ∷ [] })
unfolding init_calc init_config find assign insert
e_set_table = refl

func_table : find 1 tables.element_func_map ≡ some element_normal_atk_func
unfolding init_calc init_config find assign insert
func_table = refl

element_table : find 1 tables.element_config_map ≡ some (record { index = 1; param_vec = 150 ∷ [] })
unfolding init_calc init_config find assign insert
element_table = refl

attack_unit_lem :
    (c : Combat) (key t : ℕ) (u v : BattleUnit)
    → find key c.battle_unit_map ≡ some u
    → find t c.battle_unit_map ≡ some v
    → get_atk u < 2 ^ 22
    → attack_unit (record { index = 1; param_vec = 150 ∷ [] }) key t c
      ≡ modify_unit t (λ w. set_hp w (safe_sub v.attr.hp (damage u v))) c
unfolding attack_unit left_hp get_battle_unit
attack_unit_lem c key t u v e g small = ground (arith, attack_value_lem (get_atk u) small)

-- With the tables of CombatCalc::init, a unit whose operation is the normal attack on one unit of
-- the combat, and whose attack is below 2^22, costs that unit one and a half times the attack
-- (rounded down) less the defence, with both differences stopping at 0, and changes nothing else.
pub do_operate-normal :
    (c : Combat) (key t : ℕ) (u v : BattleUnit)
    → find key c.battle_unit_map ≡ some u
    → u.cur_operate.skill_id ≡ battle_skill_normal_atk
    → u.cur_operate.target_vec ≡ t ∷ []
    → find t c.battle_unit_map ≡ some v
    → get_atk u < 2 ^ 22
    → do_operate (init_calc empty_calc) key c
      ≡ modify_unit t (λ w. set_hp w (safe_sub v.attr.hp (damage u v))) c
unfolding do_operate do_skill do_e_set do_elements do_targets run_element element_normal_atk
    get_battle_unit
do_operate-normal c key t u v e skill one g small = ground (
  arith,
  skill_table,
  e_set_table,
  func_table,
  element_table,
  attack_unit_lem c key t u v e g small,
)
