-- ===== src/Battle/Round/Fit.antt =====
-- The invariant of a battle between robots, and that the writes of a round keep it.
use mathlib.Core.Option
use integration_server.Prelude.{
  ℕ, ◌≤◌, ◌<◌, ◌≡◌, ◌≢◌, refl, sym, ap, subst, ◌∙◌, inl, inr, true, some, [], ◌∷◌, arith,
  ℕ_discrete, Option-cases,
}
use integration_server.Prelude.Map.{Map, find, update, IsOrdered}
use integration_server.Prelude.Map.Laws.{find-update, update-IsOrdered}
use integration_server.Battle.Common.{
  CampUnitState, camp_unit_state_operate_end, battle_unit_type_user,
}
use integration_server.Battle.Unit.{BattleUnit, CampUnit, set_state, get_speed, get_speed_bar_total}
use integration_server.Battle.Combat.{Combat, all_camps, is_operate_end, is_play_end}
use integration_server.Battle.SpeedBar.Minimum.{max_bar}
use integration_server.Battle.Round.{set_camp_states, play_state}

abbrev pub HasCamp : ℕ → Map CampUnit → Type 0
HasCamp camp camps = (v : CampUnit) × (find camp camps ≡ some v)

-- A unit stands under its own uid, is not too fast, belongs to a camp of the battle, and has an
-- empty bar if it has no speed.
pub record UnitFits (camps : Map CampUnit) (k : ℕ) (u : BattleUnit) : Type 0 where
  pub keyed : u.uid ≡ k
  pub slow : get_speed u ≤ max_bar
  pub idle : get_speed u ≡ 0 → get_speed_bar_total u ≡ 0
  pub housed : HasCamp u.camp camps

abbrev pub UnitsFit : Map CampUnit → Map BattleUnit → Type 0
UnitsFit camps m = (k : ℕ) (u : BattleUnit) → find k m ≡ some u → UnitFits camps k u

-- No camp belongs to a player.
abbrev pub Robots : Map CampUnit → Type 0
Robots [] = Unit
Robots ((k, v) ∷ m) = (v.camp_type ≢ battle_unit_type_user) × Robots m

pub Robots-find :
    (k : ℕ) (v : CampUnit) (camps : Map CampUnit)
    → Robots camps
    → find k camps ≡ some v
    → v.camp_type ≢ battle_unit_type_user
unfolding find
Robots-find k v [] r e = cc
Robots-find k v ((j, w) ∷ m) r e = ground (arith, Robots-find k v m r.1)

pub record Fits (c : Combat) : Type 0 where
  pub ordered : IsOrdered c.battle_unit_map
  pub units : UnitsFit c.camp_unit_map c.battle_unit_map
  pub robots : Robots c.camp_unit_map
  pub short : c.speed_bar ≤ max_bar
  pub long : 0 < c.speed_bar

pub UnitsFit-update :
    (camps : Map CampUnit) (k : ℕ) (f : BattleUnit → BattleUnit) (m : Map BattleUnit)
    → UnitsFit camps m
    → ((u : BattleUnit) → find k m ≡ some u → UnitFits camps k u → UnitFits camps k (f u))
    → UnitsFit camps (update k f m)
UnitsFit-update camps k f m fits keep j u e = elim (ℕ_discrete j k) [
  | yes s ↦ elim (Option-cases (find j m)) [
    | inl g ↦ absurd (ground (arith, find-update j k f m))
    | inr (v, g) ↦
        let same : u ≡ f v = ground (arith, find-update j k f m) in
        subst (UnitFits camps j) (sym same) (
          subst (λ i. UnitFits camps i (f v)) (sym s)
            (keep v (sym (ap (λ i. find i m) s) ∙ g)
              (subst (λ i. UnitFits camps i v) s (fits j v g))))
  ]
  | no s ↦ fits j u (ground (arith, find-update j k f m))
]

-- What the state of a camp says does not count.
pub HasCamp-update :
    (camp k : ℕ) (s : CampUnitState) (camps : Map CampUnit)
    → HasCamp camp camps
    → HasCamp camp (update k (set_state s) camps)
HasCamp-update camp k s camps (v, e) = elim (ℕ_discrete camp k) [
  | yes h ↦ (set_state s v, ground (arith, find-update camp k (set_state s) camps))
  | no h ↦ (v, ground (arith, find-update camp k (set_state s) camps))
]

pub Robots-update :
    (k : ℕ) (s : CampUnitState) (camps : Map CampUnit)
    → Robots camps
    → Robots (update k (set_state s) camps)
unfolding update
Robots-update k s [] r = tt
Robots-update k s ((j, v) ∷ m) r = ground (arith, Robots-update k s m r.1)

pub find-set_camp_states :
    (f : CampUnit → CampUnitState) (j : ℕ) (camps : Map CampUnit)
    → find j (set_camp_states f camps) ≡ Option.map (λ v. set_state (f v) v) (find j camps)
unfolding find set_camp_states
find-set_camp_states f j [] = refl
find-set_camp_states f j ((k, v) ∷ m) = ground (arith, find-set_camp_states f j m)

pub HasCamp-set_camp_states :
    (camp : ℕ) (f : CampUnit → CampUnitState) (camps : Map CampUnit)
    → HasCamp camp camps
    → HasCamp camp (set_camp_states f camps)
HasCamp-set_camp_states camp f camps (v, e) =
    (set_state (f v) v, ground (arith, find-set_camp_states f camp camps))

pub Robots-set_camp_states :
    (f : CampUnit → CampUnitState) (camps : Map CampUnit)
    → Robots camps
    → Robots (set_camp_states f camps)
unfolding set_camp_states
Robots-set_camp_states f [] r = tt
Robots-set_camp_states f ((k, v) ∷ m) r = (r.0, Robots-set_camp_states f m r.1)

pub UnitFits-camps :
    (camps camps' : Map CampUnit)
    → ((camp : ℕ) → HasCamp camp camps → HasCamp camp camps')
    → (k : ℕ) (u : BattleUnit) → UnitFits camps k u
    → UnitFits camps' k u
UnitFits-camps camps camps' f k u h = record {
  keyed = h.keyed;
  slow = h.slow;
  idle = h.idle;
  housed = f u.camp h.housed;
}

-- The invariant after a change of the camps' states.
pub Fits-camps :
    (c : Combat) (camps : Map CampUnit)
    → Fits c
    → ((camp : ℕ) → HasCamp camp c.camp_unit_map → HasCamp camp camps)
    → Robots camps
    → Fits (record c { camp_unit_map = camps })
Fits-camps c camps h f r = record {
  ordered = h.ordered;
  units = λ k u e. UnitFits-camps c.camp_unit_map camps f k u (h.units k u e);
  robots = r;
  short = h.short;
  long = h.long;
}

-- The invariant after a write to one unit.
pub Fits-modify :
    (c : Combat) (k : ℕ) (f : BattleUnit → BattleUnit)
    → Fits c
    → ((u : BattleUnit)
        → find k c.battle_unit_map ≡ some u
        → UnitFits c.camp_unit_map k u
        → UnitFits c.camp_unit_map k (f u))
    → Fits (record c { battle_unit_map = update k f c.battle_unit_map })
Fits-modify c k f h keep = record {
  ordered = update-IsOrdered k f c.battle_unit_map h.ordered;
  units = UnitsFit-update c.camp_unit_map k f c.battle_unit_map h.units keep;
  robots = h.robots;
  short = h.short;
  long = h.long;
}

-- All robots play at once, and all camps have operated after the states are set so.
pub all_camps-play :
    (camps : Map CampUnit)
    → Robots camps
    → all_camps is_play_end (set_camp_states play_state camps) ≡ true
unfolding all_camps set_camp_states
all_camps-play [] r = refl
all_camps-play ((k, v) ∷ m) r = ground (arith, all_camps-play m r.1)

pub all_camps-operate :
    (camps : Map CampUnit)
    → all_camps is_operate_end (set_camp_states (λ _. camp_unit_state_operate_end) camps) ≡ true
unfolding all_camps set_camp_states
all_camps-operate [] = refl
all_camps-operate ((k, v) ∷ m) = all_camps-operate m

-- A camp that operates and is done again leaves all camps done.
pub all_camps-back :
    (k : ℕ) (s : CampUnitState) (camps : Map CampUnit)
    → all_camps is_operate_end camps ≡ true
    → all_camps is_operate_end
        (update k (set_state camp_unit_state_operate_end) (update k (set_state s) camps))
      ≡ true
unfolding all_camps update
all_camps-back k s [] h = refl
all_camps-back k s ((j, v) ∷ m) h = ground (arith, all_camps-back k s m)
