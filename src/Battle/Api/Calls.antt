-- ===== src/Battle/Api/Calls.antt =====
-- Sequences of calls on one battle.
use integration_server.Prelude.{
  ℕ, ◌≡◌, refl, sym, subst, ap, ◌∙◌, ◌⊎◌, inl, inr, Bool, true, false, List, [], ◌∷◌, none, arith,
  Bool-cases, Option-cases,
}
use integration_server.Prelude.Map.{assign}
use integration_server.Utils.Rand.{Dice}
use integration_server.Battle.Common.{
  BattleCamp, BattleInitData, battle_step_round, camp_unit_state_loading_end,
  camp_unit_state_operate_end,
}
use integration_server.Battle.Unit.{set_state, new_camp_unit}
use integration_server.Battle.Combat.{
  Combat, new_combat, modify_camp, is_loading, check_init, check_round_start, get_camp_unit_by_uid,
}
use integration_server.Battle.Calc.{CombatCalc}
use integration_server.Battle.SpeedBar.{init_speed_bar}
use integration_server.Battle.Round.{with_camp_states}
use integration_server.Battle.Round.Frame.{HasUser, HasUser-set_camp_states, modify_camp-Kept}
use integration_server.Battle.Round.User.{round_start-Waits}
use integration_server.Battle.Api.{
  Reply, returns, crashes, no_fuel, reply, add_units, add_camps, load, start_rounds,
  step_loading_end, init, set_loading_end, set_operate_skill, set_play_end,
}

-- The call returns, and the battle still has a player and the result that it had.
abbrev pub StaysOpen : Combat → Reply → Type 0
StaysOpen c r =
    (b : Bool) × (d : Combat) × (r ≡ returns b d) × (d.result ≡ c.result) × HasUser d.camp_unit_map

start_rounds-StaysOpen :
    (dice : Dice) (calc : CombatCalc) (c : Combat) (p : Bool × Combat)
    → p.1.result ≡ c.result
    → HasUser p.1.camp_unit_map
    → StaysOpen c (start_rounds dice calc p)
unfolding start_rounds reply
start_rounds-StaysOpen dice calc c (false, d) e h = (false, d, refl, e, h)
start_rounds-StaysOpen dice calc c (true, d) e h =
    let (x, t, _, same, _, user) =
      round_start-Waits dice calc 98 (with_camp_states (λ _. camp_unit_state_operate_end) d)
        (HasUser-set_camp_states (λ _. camp_unit_state_operate_end) d.camp_unit_map h) in
    (true, x, rw t refl, same ∙ e, user)

pub init_speed_bar-frame :
    (c : Combat)
    → ((init_speed_bar c).1.result ≡ c.result)
      × ((init_speed_bar c).1.camp_unit_map ≡ c.camp_unit_map)
      × ((init_speed_bar c).1.round ≡ c.round)
unfolding init_speed_bar
init_speed_bar-frame c = ground arith

step_loading_end-StaysOpen :
    (dice : Dice) (calc : CombatCalc) (c : Combat)
    → HasUser c.camp_unit_map
    → StaysOpen c (step_loading_end dice calc c)
unfolding step_loading_end
step_loading_end-StaysOpen dice calc c h =
    let f = init_speed_bar-frame (record c { step = battle_step_round }) in
    start_rounds-StaysOpen dice calc c (init_speed_bar (record c { step = battle_step_round })) f.0
      (subst HasUser (sym f.1) h)

-- What setLoadingEnd does, by its tests.
pub set_loading_end_cases :
    (dice : Dice) (calc : CombatCalc) (uid : ℕ) (c : Combat)
    → (set_loading_end dice calc uid c ≡ returns false c)
      ⊎ ((camp : ℕ) × (let d : Combat =
              modify_camp camp (set_state camp_unit_state_loading_end) c in
            (set_loading_end dice calc uid c ≡ returns true d)
            ⊎ (set_loading_end dice calc uid c ≡ step_loading_end dice calc d)))
unfolding set_loading_end
set_loading_end_cases dice calc uid c = elim (Option-cases (get_camp_unit_by_uid c uid)) [
  | inl e ↦ inl (ground (arith, e))
  | inr ((camp, v), e) ↦ elim (Bool-cases (is_loading c.step)) [
    | inr s ↦ inl (ground (arith, s))
    | inl s ↦
        elim (Bool-cases
          (check_round_start (modify_camp camp (set_state camp_unit_state_loading_end) c))) [
            | inl t ↦ inr (camp, inr (ground (arith, e, s, t)))
            | inr t ↦ inr (camp, inl (ground (arith, e, s, t)))
          ]
  ]
]

pub set_loading_end-StaysOpen :
    (dice : Dice) (calc : CombatCalc) (uid : ℕ) (c : Combat)
    → HasUser c.camp_unit_map
    → StaysOpen c (set_loading_end dice calc uid c)
set_loading_end-StaysOpen dice calc uid c h = elim (set_loading_end_cases dice calc uid c) [
  | inl e ↦ (false, c, e, refl, h)
  | inr (camp, branch) ↦
      (let d : Combat = modify_camp camp (set_state camp_unit_state_loading_end) c in
        let k = modify_camp-Kept camp camp_unit_state_loading_end c in
        elim branch [
          | inl e ↦ (true, d, e, refl, k.user h)
          | inr e ↦ subst (StaysOpen c) (sym e) (step_loading_end-StaysOpen dice calc d (k.user h))
        ])
]

-- One call of a client, with what it leaves.
pub data Call (dice : Dice) (calc : CombatCalc) : Combat → Combat → Type 0 where
  loading_end :
      (uid : ℕ) (b : Bool) (c d : Combat)
      → set_loading_end dice calc uid c ≡ returns b d
      → Call dice calc c d
  operate_skill :
      (uid skill : ℕ) (targets : List ℕ) (b : Bool) (c d : Combat)
      → set_operate_skill uid skill targets c ≡ returns b d
      → Call dice calc c d
  play_end :
      (uid : ℕ) (b : Bool) (c d : Combat) → set_play_end uid c ≡ returns b d → Call dice calc c d

pub data Calls (dice : Dice) (calc : CombatCalc) : Combat → Combat → Type 0 where
  no_call : (c : Combat) → Calls dice calc c c
  more_calls : (c d e : Combat) → Call dice calc c d → Calls dice calc d e → Calls dice calc c e

abbrev combat_of : Combat → Reply → Combat
combat_of c (returns b d) = d
combat_of c crashes = c
combat_of c no_fuel = c

Call-open :
    (dice : Dice) (calc : CombatCalc) (c d : Combat)
    → Call dice calc c d
    → HasUser c.camp_unit_map
    → (d.result ≡ c.result) × HasUser d.camp_unit_map
unfolding set_operate_skill set_play_end
Call-open dice calc c d (loading_end uid b _ _ e) h =
    let (b', x, e', same, user) = set_loading_end-StaysOpen dice calc uid c h in
    let one : x ≡ d = ap (combat_of c) (sym e' ∙ e) in
    (ap (λ y. y.result) (sym one) ∙ same, subst (λ y. HasUser y.camp_unit_map) one user)
Call-open dice calc c d (operate_skill uid skill targets b _ _ e) h =
    let one : c ≡ d = ap (combat_of c) e in
    (ap (λ y. y.result) (sym one), subst (λ y. HasUser y.camp_unit_map) one h)
Call-open dice calc c d (play_end uid b _ _ e) h =
    let one : c ≡ d = ap (combat_of c) e in
    (ap (λ y. y.result) (sym one), subst (λ y. HasUser y.camp_unit_map) one h)

pub Calls-open :
    (dice : Dice) (calc : CombatCalc) (c d : Combat)
    → Calls dice calc c d
    → HasUser c.camp_unit_map
    → (d.result ≡ c.result) × HasUser d.camp_unit_map
Calls-open dice calc c _ (no_call _) h = (refl, h)
Calls-open dice calc c d (more_calls _ x _ first rest) h =
    let (same, user) = Call-open dice calc c x first h in
    let (same', user') = Calls-open dice calc x d rest user in (same' ∙ same, user')

init-StaysOpen :
    (dice : Dice) (calc : CombatCalc) (d : BattleInitData) (c : Combat)
    → check_init d ≡ true
    → HasUser (load d c).camp_unit_map
    → StaysOpen (load d c) (init dice calc d c)
unfolding init
init-StaysOpen dice calc d c ok h = elim (Bool-cases (check_round_start (load d c))) [
  | inl e ↦ rw (ok, e) (step_loading_end-StaysOpen dice calc (load d c) h)
  | inr e ↦ rw (ok, e) (true, load d c, refl, refl, h)
]

add_camps-result : (bs : List BattleCamp) (c : Combat) → (add_camps bs c).result ≡ c.result
unfolding add_camps
add_camps-result [] c = refl
add_camps-result (b ∷ bs) c = add_camps-result bs (record c {
  battle_unit_map = add_units b.camp b.unit_map c.battle_unit_map;
  camp_unit_map = assign b.camp (new_camp_unit b.uid b.camp b.camp_type) c.camp_unit_map;
})

load-result : (d : BattleInitData) (uid : ℕ) → (load d (new_combat uid)).result ≡ none
unfolding load new_combat
load-result d uid = add_camps-result d.camp_vec (new_combat uid)

-- When the data passes checkInit and a loaded camp belongs to a player, init on a new Combat
-- returns, and whatever calls of setLoadingEnd, setOperateSkill and setPlayEnd follow, the battle
-- never gets a result.
pub player_battle :
    (dice : Dice) (calc : CombatCalc) (d : BattleInitData) (uid : ℕ)
    → check_init d ≡ true
    → HasUser (load d (new_combat uid)).camp_unit_map
    → (b : Bool) × (c : Combat) × (init dice calc d (new_combat uid) ≡ returns b c)
      × ((e : Combat) → Calls dice calc c e → e.result ≡ none)
player_battle dice calc d uid ok h =
    let (b, c, t, same, user) = init-StaysOpen dice calc d (new_combat uid) ok h in
    (b, c, t, λ e calls. (Calls-open dice calc c e calls user).0 ∙ same ∙ load-result d uid)
