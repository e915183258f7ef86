-- ===== src/Battle/Round/Fuel.antt =====
-- No battle takes more rounds than roundStart has fuel for.
use integration_server.Prelude.{
  ℕ, zero, suc, ◌+◌, ◌≤◌, ◌<◌, ◌≡◌, refl, sym, subst, inl, inr, Bool, true, false, Option, none,
  some, arith, Bool-cases, if◌then◌else◌, dec_lt,
}
use integration_server.Utils.Rand.{Dice}
use integration_server.Battle.Common.{max_round}
use integration_server.Battle.Combat.{
  Combat, check_combat_end, check_round_operate, check_round_play_end,
}
use integration_server.Battle.Calc.{CombatCalc}
use integration_server.Battle.Round.{
  Run, done, fault, out_of_fuel, round_prepare, fight, round_clear, combat_end, round_end,
  round_fight, round_start,
}
use integration_server.Battle.Round.User.{round_prepare-Kept, fight-Kept}

check_combat_end-last : (c : Combat) → max_round ≤ c.round → (check_combat_end c).0 ≡ true
unfolding check_combat_end
check_combat_end-last c h = ground arith

check_combat_end-open : (c : Combat) → (check_combat_end c).0 ≡ false → (check_combat_end c).1 ≡ c
unfolding check_combat_end
check_combat_end-open c h = ground arith

round_clear-round : (key : ℕ) (c : Combat) → (round_clear key c).round ≡ c.round
unfolding round_clear
round_clear-round key c = refl

-- A run that is no lack of fuel.
abbrev pub Enough : Run → Type 0
Enough (done d) = Unit
Enough fault = Unit
Enough out_of_fuel = ⊥

end_round :
    (next : Combat → Run) (p : Bool × Combat)
    → (p.0 ≡ false → Enough (next p.1))
    → Enough (if p.0 then done (combat_end p.1) else next p.1)
end_round next (true, d) h = tt
end_round next (false, d) h = h refl

round_end-Enough :
    (next : Combat → Run) (c : Combat)
    → ((d : Combat) → d.round ≡ c.round → d.round < max_round → Enough (next d))
    → Enough (round_end next c)
unfolding round_end
round_end-Enough next c h = go c.cur_operate_unit
  where
    open_round :
        (key : ℕ)
        → (check_combat_end (round_clear key c)).0 ≡ false
        → Enough (next (check_combat_end (round_clear key c)).1)
    open_round key e =
        subst (λ d. Enough (next d)) (sym (check_combat_end-open (round_clear key c) e))
          (h (round_clear key c) (round_clear-round key c)
            (elim (dec_lt (round_clear key c).round max_round) [
              | yes l ↦ l
              | no l ↦
                  absurd (
                    ground (arith, e, check_combat_end-last (round_clear key c) (omega (arith, l))))
            ]))

    go :
        (o : Option ℕ)
        → Enough (elim o [
          | none ↦ fault
          | some key ↦
              (let (ended, c') = check_combat_end (round_clear key c) in
                if ended then done (combat_end c') else next c')
        ])
    go none = tt
    go (some key) = end_round next (check_combat_end (round_clear key c)) (open_round key)

pub round_start-Enough :
    (dice : Dice) (calc : CombatCalc) (fuel : ℕ) (c : Combat)
    → c.round < max_round
    → max_round ≤ fuel + c.round
    → Enough (round_start dice calc fuel c)
unfolding round_start round_fight
round_start-Enough dice calc zero c low enough = absurd (omega arith)
round_start-Enough dice calc (suc fuel) c low enough =
    let d = round_prepare dice c in
    let k = round_prepare-Kept dice c in
    let s = fight-Kept calc d in
    elim (Bool-cases (check_round_operate d)) [
      | inr e ↦ rw e tt
      | inl e ↦ elim (Bool-cases (check_round_play_end (fight calc d))) [
        | inr p ↦ rw (e, p) tt
        | inl p ↦
            rw (e, p)
              (round_end-Enough (round_start dice calc fuel) (fight calc d) (λ x same less.
                round_start-Enough dice calc fuel x less
                  (omega (arith, low, enough, same, s.round, k.round))))
      ]
    ]
