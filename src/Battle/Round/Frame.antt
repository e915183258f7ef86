-- ===== src/Battle/Round/Frame.antt =====
-- What the steps of a round leave alone, in any combat.
use integration_server.Prelude.{
  ℕ, ◌≡◌, refl, sym, subst, ap, ◌∙◌, inl, inr, false, List, [], ◌∷◌, arith, Elem, ◌==◌, Bool-cases,
  Option-cases,
}
use integration_server.Prelude.Map.{Map, update, keys}
use integration_server.Utils.Rand.{Dice}
use integration_server.Battle.Common.{
  CampUnitState, battle_unit_type_user, battle_skill_normal_atk, run_speed_bar_invalid,
  camp_unit_state_operate,
}
use integration_server.Battle.Unit.{BattleUnit, CampUnit, set_state, is_can_run_speed_bar}
use integration_server.Battle.Combat.{
  Combat, get_battle_unit, get_camp_unit_by_camp, get_alive_unit_by_camp, modify_camp, all_camps,
  is_play_end,
}
use integration_server.Battle.SpeedBar.{
  choose, prefer, run_min_times, run_unit, run_units, run_speed_bar, current,
}
use integration_server.Battle.Round.{
  set_camp_states, play_state, target_camp, set_operate_camp, pick_target, get_default_skill_target,
}

-- Everything but the units and the current one is the same.
abbrev pub SameRest : Combat → Combat → Type 0
SameRest c d =
    d ≡ record c { battle_unit_map = d.battle_unit_map; cur_operate_unit = d.cur_operate_unit }

run_unit-SameRest : (times k : ℕ) (c : Combat) → SameRest c (run_unit times k c)
unfolding run_unit choose prefer get_battle_unit is_can_run_speed_bar
run_unit-SameRest times k c = ground arith

run_units-SameRest : (times : ℕ) (ks : List ℕ) (c : Combat) → SameRest c (run_units times ks c)
unfolding run_units
run_units-SameRest times [] c = refl
run_units-SameRest times (k ∷ ks) c =
    let d = run_units times ks (run_unit times k c) in
    run_units-SameRest times ks (run_unit times k c)
    ∙ ap {A = Combat} {B = Combat}
        (λ x. record x {
          battle_unit_map = d.battle_unit_map;
          cur_operate_unit = d.cur_operate_unit;
        })
        (run_unit-SameRest times k c)

pub run_speed_bar-SameRest : (c : Combat) → SameRest c (run_speed_bar c)
unfolding run_speed_bar
run_speed_bar-SameRest c = elim (Bool-cases (m == run_speed_bar_invalid)) [
  | inl e ↦ rw (e, run_speed_bar) refl
  | inr e ↦ rw (e, run_speed_bar) (run_units-SameRest m (keys c.battle_unit_map) c)
]
  where
    m : ℕ
    m = run_min_times c.speed_bar c.battle_unit_map run_speed_bar_invalid

pick_target-draws :
    (dice : Dice) (us : List BattleUnit) (c : Combat)
    → (pick_target dice us c).1 ≡ record c { draws = (pick_target dice us c).1.draws }
unfolding pick_target
pick_target-draws dice [] c = refl
pick_target-draws dice (u ∷ us) c = refl

pub get_default_skill_target-draws :
    (dice : Dice) (c : Combat) (skill : ℕ)
    → (get_default_skill_target dice skill c).1
      ≡ record c { draws = (get_default_skill_target dice skill c).1.draws }
unfolding get_default_skill_target
get_default_skill_target-draws dice c skill = elim (Option-cases (current c)) [
  | inl e ↦ rw (e, get_default_skill_target)
  | inr (u, e) ↦ elim (Bool-cases (skill == battle_skill_normal_atk)) [
    | inl s ↦
        rw (e, s, get_default_skill_target)
          (pick_target-draws dice (get_alive_unit_by_camp c (target_camp u.camp)) c)
    | inr s ↦ rw (e, s, get_default_skill_target)
  ]
]

-- A camp of the battle belongs to a player.
abbrev pub HasUser : Map CampUnit → Type 0
HasUser m = (k : ℕ) × (v : CampUnit) × Elem (k, v) m × (v.camp_type ≡ battle_unit_type_user)

user_here :
    (k : ℕ) (v : CampUnit) (m : Map CampUnit)
    → v.camp_type ≡ battle_unit_type_user
    → HasUser ((k, v) ∷ m)
user_here k v m e = (k, v, inl refl, e)

user_later : (j : ℕ) (w : CampUnit) (m : Map CampUnit) → HasUser m → HasUser ((j, w) ∷ m)
user_later j w m (k, v, e, t) = (k, v, inr e, t)

HasUser-update :
    (j : ℕ) (s : CampUnitState) (m : Map CampUnit) → HasUser m → HasUser (update j (set_state s) m)
unfolding update
HasUser-update j s [] (k, v, e, t) = absurd e
HasUser-update j s ((i, w) ∷ m) (k, v, inl e, t) = elim (Bool-cases (i == j)) [
  | inl h ↦ rw (h, update) (user_here i (set_state s w) m (ground (arith, e, t)))
  | inr h ↦ rw (h, update) (user_here i w (update j (set_state s) m) (ground (arith, e, t)))
]
HasUser-update j s ((i, w) ∷ m) (k, v, inr e, t) = elim (Bool-cases (i == j)) [
  | inl h ↦ rw (h, update) (user_later i (set_state s w) m (k, v, e, t))
  | inr h ↦
      rw (h, update) (user_later i w (update j (set_state s) m) (HasUser-update j s m (k, v, e, t)))
]

pub HasUser-set_camp_states :
    (f : CampUnit → CampUnitState) (m : Map CampUnit) → HasUser m → HasUser (set_camp_states f m)
unfolding set_camp_states
HasUser-set_camp_states f [] (k, v, e, t) = absurd e
HasUser-set_camp_states f ((i, w) ∷ m) (k, v, inl e, t) =
    user_here i (set_state (f w) w) (set_camp_states f m) (ground (arith, e, t))
HasUser-set_camp_states f ((i, w) ∷ m) (k, v, inr e, t) =
    user_later i (set_state (f w) w) (set_camp_states f m)
      (HasUser-set_camp_states f m (k, v, e, t))

-- A player's camp plays, so the battle waits for it.
pub all_camps-user :
    (m : Map CampUnit) → HasUser m → all_camps is_play_end (set_camp_states play_state m) ≡ false
unfolding all_camps set_camp_states
all_camps-user [] (k, v, e, t) = absurd e
all_camps-user ((i, w) ∷ m) (k, v, inl e, t) = ground (arith, e, t)
all_camps-user ((i, w) ∷ m) (k, v, inr e, t) = ground (arith, all_camps-user m (k, v, e, t))

-- What a step of a round keeps.
pub record Kept (c d : Combat) : Type 0 where
  pub step : d.step ≡ c.step
  pub result : d.result ≡ c.result
  pub round : d.round ≡ c.round
  pub user : HasUser c.camp_unit_map → HasUser d.camp_unit_map

pub Kept-refl : (c : Combat) → Kept c c
Kept-refl c = record { step = refl; result = refl; round = refl; user = λ h. h }

pub Kept-trans : {c d e : Combat} → Kept c d → Kept d e → Kept c e
Kept-trans p q = record {
  step = q.step ∙ p.step;
  result = q.result ∙ p.result;
  round = q.round ∙ p.round;
  user = λ h. q.user (p.user h);
}

pub modify_camp-Kept :
    (camp : ℕ) (s : CampUnitState) (c : Combat) → Kept c (modify_camp camp (set_state s) c)
modify_camp-Kept camp s c = record {
  step = refl;
  result = refl;
  round = refl;
  user = HasUser-update camp s c.camp_unit_map;
}

pub set_operate_camp-Kept : (c : Combat) → Kept c (set_operate_camp c)
unfolding set_operate_camp
set_operate_camp-Kept c = elim (Option-cases (current c)) [
  | inl e ↦ rw (e, set_operate_camp) (Kept-refl c)
  | inr (u, e) ↦ elim (Option-cases (get_camp_unit_by_camp c u.camp)) [
    | inl g ↦ rw (e, g, set_operate_camp) (Kept-refl c)
    | inr (v, g) ↦ rw (e, g, set_operate_camp) (modify_camp-Kept u.camp camp_unit_state_operate c)
  ]
]

pub run_speed_bar-Kept : (c : Combat) → Kept c (run_speed_bar c)
run_speed_bar-Kept c =
    let e = run_speed_bar-SameRest c in
    record {
      step = ap (λ x. x.step) e;
      result = ap (λ x. x.result) e;
      round = ap (λ x. x.round) e;
      user = λ h. subst HasUser (sym (ap (λ x. x.camp_unit_map) e)) h;
    }
