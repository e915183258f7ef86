-- ===== src/Battle/Api/Load.antt =====
-- What the loops of Combat::init load.
use integration_server.Prelude.{
  ℕ, ◌≤◌, ◌≡◌, ◌≢◌, refl, sym, subst, true, List, [], ◌∷◌, none, some, arith, ℕ_discrete,
}
use integration_server.Prelude.Map.{Map, find, assign, IsOrdered}
use integration_server.Prelude.Map.Laws.{find-assign, assign-IsOrdered}
use integration_server.Battle.Common.{
  BattleUnitData, BattleCamp, BattleInitData, battle_unit_type_user,
}
use integration_server.Battle.Unit.{
  BattleUnit, CampUnit, new_unit, init_attrs, set_attr, new_camp_unit, get_speed,
  get_speed_bar_total,
}
use integration_server.Battle.Combat.{Combat, new_combat, all_camps, is_loading_end}
use integration_server.Battle.Round.Fit.{HasCamp, UnitFits, UnitsFit, Robots, UnitFits-camps}
use integration_server.Battle.Api.{add_units, add_camps}

-- The speed of a unit that still gives a bar of at most `max_bar`.
abbrev pub top_speed : ℕ
top_speed = 14285

-- What the attributes do not touch.
abbrev Frame : BattleUnit → BattleUnit → Type 0
Frame u v =
    (v.uid ≡ u.uid)
    × (v.camp ≡ u.camp)
    × (v.attr.cur_speed_bar ≡ u.attr.cur_speed_bar)
    × (v.attr.overflow_speed_bar ≡ u.attr.overflow_speed_bar)

init_attrs-Frame : (m : Map ℕ) (u : BattleUnit) → Frame u (init_attrs m u)
unfolding init_attrs set_attr
init_attrs-Frame [] u = (refl, refl, refl, refl)
init_attrs-Frame ((k, v) ∷ m) u = ground (
  arith,
  init_attrs-Frame m (set_attr u k v),
  init_attrs-Frame m (record (set_attr u k v) { attr = record (u.attr) { hp = v } }),
)

-- A new unit has its uid and camp, and an empty bar.
new_unit_lem :
    (camp : ℕ) (x : BattleUnitData)
    → ((new_unit camp x).uid ≡ x.uid)
      × ((new_unit camp x).camp ≡ camp)
      × (get_speed_bar_total (new_unit camp x) ≡ 0)
unfolding new_unit get_speed_bar_total
new_unit_lem camp x = ground (
  arith,
  init_attrs-Frame x.attr_map (record {
    uid = x.uid;
    camp = camp;
    base_attr_map = [];
    attr = record { hp = 0; cur_speed_bar = 0; overflow_speed_bar = 0 };
    cur_operate = record { skill_id = 0; target_vec = [] };
  }),
)

-- All units of the data have at most the top speed.
abbrev pub SlowUnits : ℕ → Map BattleUnitData → Type 0
SlowUnits camp [] = Unit
SlowUnits camp ((k, x) ∷ m) = (get_speed (new_unit camp x) ≤ top_speed) × SlowUnits camp m

abbrev pub SlowCamps : List BattleCamp → Type 0
SlowCamps [] = Unit
SlowCamps (b ∷ rest) = SlowUnits b.camp b.unit_map × SlowCamps rest

-- No camp of the data belongs to a player.
abbrev pub RobotCamps : List BattleCamp → Type 0
RobotCamps [] = Unit
RobotCamps (b ∷ rest) = (b.camp_type ≢ battle_unit_type_user) × RobotCamps rest

-- Units as loaded, with the tighter bound on the speed.
pub record Fresh (camps : Map CampUnit) (units : Map BattleUnit) : Type 0 where
  pub ordered : IsOrdered units
  pub fits : UnitsFit camps units
  pub top : (k : ℕ) (u : BattleUnit) → find k units ≡ some u → get_speed u ≤ top_speed

new_unit-UnitFits :
    (camp : ℕ) (x : BattleUnitData) (camps : Map CampUnit)
    → HasCamp camp camps
    → get_speed (new_unit camp x) ≤ top_speed
    → UnitFits camps (new_unit camp x).uid (new_unit camp x)
new_unit-UnitFits camp x camps has slow = record {
  keyed = refl;
  slow = omega (arith, slow);
  idle = λ _. (new_unit_lem camp x).2;
  housed = subst (λ i. HasCamp i camps) (sym (new_unit_lem camp x).1) has;
}

assign-Fresh :
    (camps : Map CampUnit) (u : BattleUnit) (units : Map BattleUnit)
    → Fresh camps units
    → UnitFits camps u.uid u
    → get_speed u ≤ top_speed
    → Fresh camps (assign u.uid u units)
assign-Fresh camps u units f h slow = record {
  ordered = assign-IsOrdered u.uid u units f.ordered;
  fits = λ k v e. elim (ℕ_discrete k u.uid) [
    | yes s ↦
        let same : v ≡ u = ground (arith, find-assign k u.uid u units f.ordered) in
        subst (λ i. UnitFits camps i v) (sym s) (subst (UnitFits camps u.uid) (sym same) h)
    | no s ↦ f.fits k v (ground (arith, find-assign k u.uid u units f.ordered))
  ];
  top = λ k v e. elim (ℕ_discrete k u.uid) [
    | yes s ↦
        let same : v ≡ u = ground (arith, find-assign k u.uid u units f.ordered) in
        subst (λ w. get_speed w ≤ top_speed) (sym same) slow
    | no s ↦ f.top k v (ground (arith, find-assign k u.uid u units f.ordered))
  ];
}

add_units-Fresh :
    (camp : ℕ) (xs : Map BattleUnitData) (camps : Map CampUnit) (units : Map BattleUnit)
    → HasCamp camp camps
    → SlowUnits camp xs
    → Fresh camps units
    → Fresh camps (add_units camp xs units)
unfolding add_units
add_units-Fresh camp [] camps units has slow f = f
add_units-Fresh camp ((k, x) ∷ xs) camps units has slow f =
    let u = new_unit camp x in
    add_units-Fresh camp xs camps (assign u.uid u units) has slow.1
      (assign-Fresh camps u units f (new_unit-UnitFits camp x camps has slow.0) slow.0)

-- The camps of a battle between robots, as loaded.
pub record Loaded (c : Combat) : Type 0 where
  pub camps : IsOrdered c.camp_unit_map
  pub fresh : Fresh c.camp_unit_map c.battle_unit_map
  pub robots : Robots c.camp_unit_map
  pub waiting : all_camps is_loading_end c.camp_unit_map ≡ true
  pub nobody : c.cur_operate_unit ≡ none
  pub no_round : c.round ≡ 0

Robots-assign :
    (k : ℕ) (v : CampUnit) (m : Map CampUnit)
    → v.camp_type ≢ battle_unit_type_user
    → Robots m
    → Robots (assign k v m)
unfolding assign
Robots-assign k v [] h r = (h, tt)
Robots-assign k v ((j, w) ∷ m) h r = ground (arith, Robots-assign k v m h r.1)

all_camps-assign :
    (k : ℕ) (v : CampUnit) (m : Map CampUnit)
    → is_loading_end v.state ≡ true
    → all_camps is_loading_end m ≡ true
    → all_camps is_loading_end (assign k v m) ≡ true
unfolding all_camps assign
all_camps-assign k v [] h r = ground arith
all_camps-assign k v ((j, w) ∷ m) h r = ground (arith, all_camps-assign k v m h)

HasCamp-assign :
    (i k : ℕ) (v : CampUnit) (m : Map CampUnit)
    → IsOrdered m
    → HasCamp i m
    → HasCamp i (assign k v m)
HasCamp-assign i k v m o (w, e) = elim (ℕ_discrete i k) [
  | yes s ↦ (v, ground (arith, find-assign i k v m o))
  | no s ↦ (w, ground (arith, find-assign i k v m o))
]

Fresh-assign :
    (k : ℕ) (v : CampUnit) (camps : Map CampUnit) (units : Map BattleUnit)
    → IsOrdered camps
    → Fresh camps units
    → Fresh (assign k v camps) units
Fresh-assign k v camps units o f = record {
  ordered = f.ordered;
  fits = λ j u e.
      UnitFits-camps camps (assign k v camps) (λ i h. HasCamp-assign i k v camps o h) j u
        (f.fits j u e);
  top = f.top;
}

new_camp_unit_robot :
    (uid camp camp_type : ℕ)
    → camp_type ≢ battle_unit_type_user
    → ((new_camp_unit uid camp camp_type).camp_type ≢ battle_unit_type_user)
      × (is_loading_end (new_camp_unit uid camp camp_type).state ≡ true)
unfolding new_camp_unit
new_camp_unit_robot uid camp camp_type h = ground arith

pub add_camps-Loaded :
    (bs : List BattleCamp) (c : Combat)
    → RobotCamps bs
    → SlowCamps bs
    → Loaded c
    → Loaded (add_camps bs c)
unfolding add_camps
add_camps-Loaded [] c r s l = l
add_camps-Loaded (b ∷ bs) c r s l =
    let v = new_camp_unit b.uid b.camp b.camp_type in
    let h = new_camp_unit_robot b.uid b.camp b.camp_type r.0 in
    let camps = assign b.camp v c.camp_unit_map in
    add_camps-Loaded bs
      (record c {
        battle_unit_map = add_units b.camp b.unit_map c.battle_unit_map;
        camp_unit_map = camps;
      })
      r.1 s.1
      (record {
        camps = assign-IsOrdered b.camp v c.camp_unit_map l.camps;
        fresh =
            add_units-Fresh b.camp b.unit_map camps c.battle_unit_map
              (v, ground (arith, find-assign b.camp b.camp v c.camp_unit_map l.camps)) s.0
              (Fresh-assign b.camp v c.camp_unit_map c.battle_unit_map l.camps l.fresh);
        robots = Robots-assign b.camp v c.camp_unit_map h.0 l.robots;
        waiting = all_camps-assign b.camp v c.camp_unit_map h.1 l.waiting;
        nobody = l.nobody;
        no_round = l.no_round;
      })

-- A battle between slow robots is loaded well.
pub load-Loaded :
    (d : BattleInitData) (uid : ℕ)
    → RobotCamps d.camp_vec
    → SlowCamps d.camp_vec
    → Loaded (add_camps d.camp_vec (new_combat uid))
unfolding new_combat all_camps find
load-Loaded d uid r s = add_camps-Loaded d.camp_vec (new_combat uid) r s (record {
  camps = tt;
  fresh = record { ordered = tt; fits = λ k u e. cc; top = λ k u e. cc };
  robots = tt;
  waiting = refl;
  nobody = refl;
  no_round = refl;
})
