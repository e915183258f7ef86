-- ===== src/Battle/Round/Prepare/Operate.antt =====
-- From the choice of a unit to its operation.
use integration_server.Prelude.{
  ℕ, ◌≡◌, ◌≢◌, refl, sym, ap, subst, ◌∙◌, inl, inr, true, some, List, arith, All,
}
use integration_server.Prelude.Map.{Map, find, update}
use integration_server.Prelude.Map.Laws.{find-update}
use integration_server.Utils.Rand.{Dice}
use integration_server.Battle.Common.{
  battle_step_round, battle_state_waiting_operate, camp_unit_state_operate,
  camp_unit_state_operate_end, battle_unit_type_user, battle_skill_normal_atk,
}
use integration_server.Battle.Unit.{
  BattleUnit, CampUnit, set_state, get_speed, get_attr, get_speed_bar_total, set_cur_operate,
  get_default_skill,
}
use integration_server.Battle.Combat.{
  Combat, get_battle_unit, get_camp_unit_by_camp, modify_camp, all_camps, is_operate_end,
}
use integration_server.Battle.SpeedBar.{current}
use integration_server.Battle.SpeedBar.Minimum.{Runs}
use integration_server.Battle.Round.{
  target_camp, set_operate_camp, get_default_skill_target, fill_default_skill, auto_fight_unit,
  auto_fight,
}
use integration_server.Battle.Round.Target.{get_default_skill_target-Strikes}
use integration_server.Battle.Round.Fit.{
  UnitFits, Robots-find, Fits, Robots-update, HasCamp-update, Fits-camps, Fits-modify,
  all_camps-back,
}
use integration_server.Battle.Round.Frame.{get_default_skill_target-draws}

set_operate_camp_lem :
    (c : Combat) (key : ℕ) (w : BattleUnit) (v : CampUnit)
    → c.cur_operate_unit ≡ some key
    → find key c.battle_unit_map ≡ some w
    → find w.camp c.camp_unit_map ≡ some v
    → set_operate_camp c ≡ modify_camp w.camp (set_state camp_unit_state_operate) c
unfolding set_operate_camp get_battle_unit get_camp_unit_by_camp
set_operate_camp_lem c key w v e f g = ground arith

abbrev targets_of : Dice → Combat → List ℕ
targets_of dice c = (get_default_skill_target dice battle_skill_normal_atk c).0

auto_fight_lem :
    (dice : Dice) (c : Combat) (key : ℕ) (w : BattleUnit) (v : CampUnit)
    → c.step ≡ battle_step_round
    → c.state ≡ battle_state_waiting_operate
    → c.cur_operate_unit ≡ some key
    → find key c.battle_unit_map ≡ some w
    → find w.camp c.camp_unit_map ≡ some v
    → v.camp_type ≢ battle_unit_type_user
    → v.state ≡ camp_unit_state_operate
    → auto_fight dice c ≡ record c {
      battle_unit_map =
          update key
            (λ u. set_cur_operate u battle_skill_normal_atk (targets_of dice c))
            c.battle_unit_map;
      camp_unit_map = update w.camp (set_state camp_unit_state_operate_end) c.camp_unit_map;
      draws = (get_default_skill_target dice battle_skill_normal_atk c).1.draws;
    }
unfolding auto_fight auto_fight_unit fill_default_skill get_battle_unit get_camp_unit_by_camp
    get_default_skill
auto_fight_lem dice c key w v step state e f g r s =
    ground (arith, get_default_skill_target-draws dice c battle_skill_normal_atk)

set_cur_operate-UnitFits :
    (camps : Map CampUnit) (k skill : ℕ) (targets : List ℕ) (u : BattleUnit)
    → UnitFits camps k u
    → UnitFits camps k (set_cur_operate u skill targets)
unfolding get_speed get_attr get_speed_bar_total
set_cur_operate-UnitFits camps k skill targets u f = record {
  keyed = f.keyed;
  slow = f.slow;
  idle = f.idle;
  housed = f.housed;
}

current_lem :
    (c : Combat) (key : ℕ) (w : BattleUnit)
    → c.cur_operate_unit ≡ some key
    → find key c.battle_unit_map ≡ some w
    → current c ≡ some w
unfolding get_battle_unit
current_lem c key w e f = ground arith

other_camp : (camp : ℕ) → target_camp camp ≢ camp
other_camp camp h = ground arith

-- A unit of the camp that is struck is not the one that strikes.
other_unit :
    (c : Combat) (key k : ℕ) (w t : BattleUnit)
    → Fits c
    → find key c.battle_unit_map ≡ some w
    → find k c.battle_unit_map ≡ some t
    → t.camp ≡ target_camp w.camp
    → t.uid ≢ key
other_unit c key k w t f found at_k side same =
    ground (arith, other_camp w.camp, (f.units k t at_k).keyed)

-- Nobody strikes itself.
targets_ne :
    (dice : Dice) (c : Combat) (key : ℕ) (w : BattleUnit)
    → Fits c
    → c.cur_operate_unit ≡ some key
    → find key c.battle_unit_map ≡ some w
    → All (λ t. t ≢ key) (targets_of dice c)
targets_ne dice c key w f e found =
    elim (get_default_skill_target-Strikes dice c w f.ordered (current_lem c key w e found)) [
      | inl (none_left, _) ↦ subst (All (λ t. t ≢ key)) (sym none_left) tt
      | inr (k, t, one, at_k, side, alive) ↦
          subst (All (λ t. t ≢ key)) (sym one) (other_unit c key k w t f found at_k side, tt)
    ]

abbrev pub Acts : ℕ → Combat → Type 0
Acts key d =
    (w : BattleUnit) × (d.cur_operate_unit ≡ some key)
    × (find key d.battle_unit_map ≡ some w)
    × Runs w
    × All (λ t. t ≢ key) w.cur_operate.target_vec

abbrev waiting : Combat → Combat
waiting c = record c { state = battle_state_waiting_operate }

Fits-waiting : (c : Combat) → Fits c → Fits (waiting c)
Fits-waiting c f = record {
  ordered = f.ordered;
  units = f.units;
  robots = f.robots;
  short = f.short;
  long = f.long;
}

-- The combat after autoFight, written out.
abbrev filled : Dice → ℕ → BattleUnit → Combat → Combat
filled dice key w c = record c {
  battle_unit_map =
      update key (λ u. set_cur_operate u battle_skill_normal_atk (targets_of dice c))
        c.battle_unit_map;
  camp_unit_map = update w.camp (set_state camp_unit_state_operate_end) c.camp_unit_map;
  draws = (get_default_skill_target dice battle_skill_normal_atk c).1.draws;
}

filled-Fits :
    (dice : Dice) (key : ℕ) (w : BattleUnit) (c : Combat) → Fits c → Fits (filled dice key w c)
filled-Fits dice key w c f =
    let g =
      Fits-modify c key (λ u. set_cur_operate u battle_skill_normal_atk (targets_of dice c)) f
        (λ u e h.
          set_cur_operate-UnitFits c.camp_unit_map key battle_skill_normal_atk (targets_of dice c) u
            h) in
    let h =
      Fits-camps _ (update w.camp (set_state camp_unit_state_operate_end) c.camp_unit_map) g
        (λ camp i. HasCamp-update camp w.camp camp_unit_state_operate_end c.camp_unit_map i)
        (Robots-update w.camp camp_unit_state_operate_end c.camp_unit_map f.robots) in
    record {
      ordered = h.ordered;
      units = h.units;
      robots = h.robots;
      short = f.short;
      long = f.long;
    }

filled-Acts :
    (dice : Dice) (key : ℕ) (w : BattleUnit) (c : Combat)
    → Fits c
    → c.cur_operate_unit ≡ some key
    → find key c.battle_unit_map ≡ some w
    → Runs w
    → Acts key (filled dice key w c)
unfolding get_speed get_attr
filled-Acts dice key w c f e found runs = (
  set_cur_operate w battle_skill_normal_atk (targets_of dice c),
  e,
  ground (
    arith,
    find-update key key (λ u. set_cur_operate u battle_skill_normal_atk (targets_of dice c))
        c.battle_unit_map,
  ),
  runs,
  targets_ne dice c key w f e found,
)

pub record Operated (key : ℕ) (c d : Combat) : Type 0 where
  pub fits : Fits d
  pub in_round : d.step ≡ battle_step_round
  pub waits : d.state ≡ battle_state_waiting_operate
  pub same_round : d.round ≡ c.round
  pub operated : all_camps is_operate_end d.camp_unit_map ≡ true
  pub acts : Acts key d

-- From the point where the current unit is known.
pub operate_round :
    (dice : Dice) (c : Combat) (key : ℕ) (w : BattleUnit)
    → Fits c
    → c.step ≡ battle_step_round
    → all_camps is_operate_end c.camp_unit_map ≡ true
    → c.cur_operate_unit ≡ some key
    → find key c.battle_unit_map ≡ some w
    → Runs w
    → Operated key c (auto_fight dice (waiting (set_operate_camp c)))
operate_round dice c key w f step done' cur found runs =
    let (v, house) = (f.units key w found).housed in
    let c1 = modify_camp w.camp (set_state camp_unit_state_operate) c in
    let f1 = Fits-waiting c1 (
      Fits-camps c (update w.camp (set_state camp_unit_state_operate) c.camp_unit_map) f
        (λ camp i. HasCamp-update camp w.camp camp_unit_state_operate c.camp_unit_map i)
        (Robots-update w.camp camp_unit_state_operate c.camp_unit_map f.robots)) in
    let at_camp : find w.camp c1.camp_unit_map ≡ some (set_state camp_unit_state_operate v) =
      ground (
        arith,
        house,
        find-update w.camp w.camp (set_state camp_unit_state_operate) c.camp_unit_map,
      ) in
    let whole : auto_fight dice (waiting (set_operate_camp c)) ≡ filled dice key w (waiting c1) =
      ap (λ x. auto_fight dice (waiting x)) (set_operate_camp_lem c key w v cur found house)
      ∙ auto_fight_lem dice (waiting c1) key w (set_state camp_unit_state_operate v) step refl cur
          found at_camp (Robots-find w.camp v c.camp_unit_map f.robots house) refl in
    subst (Operated key c) (sym whole) (record {
      fits = filled-Fits dice key w (waiting c1) f1;
      in_round = step;
      waits = refl;
      same_round = refl;
      operated = all_camps-back w.camp camp_unit_state_operate c.camp_unit_map done';
      acts = filled-Acts dice key w (waiting c1) f1 cur found runs;
    })
