-- ===== src/Battle/Round/Complete.antt =====
-- A battle between robots runs to its end, with a result that is true of it.
use integration_server.Prelude.{
  ℕ, zero, suc, ◌+◌, ◌≤◌, ◌<◌, ◌≡◌, refl, ◌∙◌, inl, inr, true, none, some, arith,
}
use integration_server.Utils.Rand.{Dice}
use integration_server.Battle.Common.{
  battle_step_round, battle_step_end, CombatResult, camp1_defeat, camp2_defeat, all_defeat, timeout,
  max_round,
}
use integration_server.Battle.Combat.{Combat, check_round_operate}
use integration_server.Battle.Combat.Verdict.{Verdict, check_combat_end-Decides}
use integration_server.Battle.Calc.{CombatCalc}
use integration_server.Battle.Round.{
  Run, done, round_prepare, round_clear, combat_end, round_end, fight, round_fight, round_start,
}
use integration_server.Battle.Round.Fit.{Fits}
use integration_server.Battle.Round.Prepare.{Prepared, round_prepare-Prepared}
use integration_server.Battle.Round.Fight.{Strong, fight-Fought, round_clear-Fits}

-- The battle is over, within the rounds allowed, and its result is true.
abbrev pub Ended : Combat → Type 0
Ended d =
    (d.step ≡ battle_step_end)
    × (d.round ≤ max_round)
    × ((r : CombatResult) × (d.result ≡ some r) × Verdict d r)

Verdict-end :
    (c : Combat) (r : CombatResult)
    → Verdict c r
    → Verdict (combat_end (record c { result = some r })) r
unfolding combat_end
Verdict-end c camp1_defeat v = v
Verdict-end c camp2_defeat v = v
Verdict-end c all_defeat v = v
Verdict-end c timeout v = v

round_check_operate : (c d : Combat) → Prepared c d → check_round_operate d ≡ true
unfolding check_round_operate
round_check_operate c d p = ground (arith, p.in_round, p.waits, p.operated)

abbrev pub Ends : Run → Type 0
Ends r = (d : Combat) × (r ≡ done d) × Ended d

-- roundEnd ends the battle, or goes on with a fit combat.
round_end-Ends :
    (next : Combat → Run) (key : ℕ) (c : Combat)
    → Fits (round_clear key c)
    → c.cur_operate_unit ≡ some key
    → c.round ≤ max_round
    → (c.round < max_round → Ends (next (round_clear key c)))
    → Ends (round_end next c)
unfolding round_end round_clear combat_end
round_end-Ends next key c f cur low go =
    elim (check_combat_end-Decides (round_clear key c) f.ordered) [
      | inl (e, r, after, v) ↦ rw cur (
        combat_end (record (round_clear key c) { result = some r }),
        rw (e, after) refl,
        (refl, low, (r, refl, Verdict-end (round_clear key c) r v)),
      )
      | inr (e, after, _, _, less) ↦
          rw cur (let (d, t, over) = go less in (d, rw (e, after) t, over))
    ]

-- From any fit combat in the round step, with no current unit, a living unit with speed, a round
-- number below 99 and fuel for the rounds up to 99, roundStart plays rounds until the battle has
-- ended with a result that is true of it. Fit means: no camp belongs to a player, each unit stands
-- under its uid in a camp of the battle, has a speed of at most 99998 and an empty bar if it has
-- none, and the bar is between 1 and 99998.
pub round_start-Ends :
    (dice : Dice) (calc : CombatCalc) (fuel : ℕ) (c : Combat)
    → Fits c
    → c.step ≡ battle_step_round
    → c.cur_operate_unit ≡ none
    → Strong c
    → c.round < max_round
    → max_round ≤ fuel + c.round
    → Ends (round_start dice calc fuel c)
unfolding round_start round_fight round_clear
round_start-Ends dice calc zero c f step nobody strong low enough = absurd (omega arith)
round_start-Ends dice calc (suc fuel) c f step nobody (k, u, found, runs) low enough =
    let p = round_prepare-Prepared dice c k u f step nobody found runs in
    let d = round_prepare dice c in
    let q = fight-Fought calc p.acts.0 d p.fits p.in_round p.acts.1 in
    let w = q.strong in
    let g = round_clear-Fits p.acts.0 (fight calc d) w.0 q.fits w.1 w.2 in
    let later : (fight calc d).round ≡ c.round + 1 =
      q.same_round ∙ p.counted ∙ omega (arith, low) in
    rw (round_check_operate c d p, q.played)
      (round_end-Ends (round_start dice calc fuel) p.acts.0 (fight calc d) g.0 q.current
        (omega (arith, later))
        (λ less.
          round_start-Ends dice calc fuel (round_clear p.acts.0 (fight calc d)) g.0 q.in_round refl
            g.1 less (omega (arith, later, enough))))
