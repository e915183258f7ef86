-- ===== src/Server/Sentry/Limit.antt =====
-- How many replies testLimitTcp sends.
use integration_server.Prelude.{
  ℕ, zero, suc, ◌+◌, ◌-◌, ◌%◌, ◌^◌, ◌<◌, ◌≤◌, ◌≡◌, ap, ◌∙◌, some, ◌==◌, if◌then◌else◌, arith,
  Bool-cases, inl, inr,
}
use integration_server.Server.Sentry.{limit_loop}

limit_loop-pos :
    (fuel times sent : ℕ)
    → 0 < times
    → times < 2 ^ 32
    → times ≤ fuel
    → limit_loop fuel times sent ≡ some (sent + times)
unfolding limit_loop
limit_loop-pos zero times sent p small enough = absurd (omega arith)
limit_loop-pos (suc fuel) times sent p small enough =
    let e : (times + 2 ^ 32 - 1) % 2 ^ 32 ≡ times - 1 = omega arith in
    elim (Bool-cases (times - 1 == 0)) [
      | inl last ↦ rw (e, last) (ap some (ground (arith, last)))
      | inr more ↦
          rw (e, more)
            (limit_loop-pos fuel (times - 1) (sent + 1) (ground (arith, more)) (omega arith)
                (omega arith)
              ∙ ap some (omega arith))
    ]

-- With fuel for 2^32 turns, and a count below 2^32, testLimitTcp sends as many replies as the count
-- says, but 2^32 of them for the count 0.
pub limit_loop_lem :
    (fuel times : ℕ)
    → times < 2 ^ 32
    → 2 ^ 32 ≤ fuel
    → limit_loop fuel times 0 ≡ some (if times == 0 then 2 ^ 32 else times)
unfolding limit_loop
limit_loop_lem zero times small enough = absurd (omega arith)
limit_loop_lem (suc fuel) times small enough = elim (Bool-cases (times == 0)) [
  | inr e ↦
      limit_loop-pos (suc fuel) times 0 (ground (arith, e)) small (omega arith)
      ∙ rw e (ap some (omega arith))
  | inl e ↦
      (let wraps : (times + 2 ^ 32 - 1) % 2 ^ 32 ≡ 2 ^ 32 - 1 = ground (arith, e) in
        rw (wraps, e)
          (limit_loop-pos fuel (2 ^ 32 - 1) 1 (omega arith) (omega arith) (omega arith)))
]
