-- ===== src/Utils/Reactor/StreamSocket/Holds.antt =====
-- Where the unit of each operation stands: with a thread, with the scheduler, or in the mount.
use integration_server.Prelude.{
  ℕ, ◌+◌, ◌≤◌, ◌≡◌, refl, sym, ap, ◌∙◌, subst, inl, inr, Bool, true, false, List, [], ◌∷◌, ◌++◌,
  some, count, count-append, ◌==◌, if◌then◌else◌, arith, Bool-cases, ==_iff,
}
use integration_server.Prelude.Map.{assign, keys}
use integration_server.Utils.Reactor.Mount.{
  reactor_activate_event_error, Mount, add_unit, take_touched, run_event_op, cancel_units, watch,
}
use integration_server.Utils.Reactor.Mount.Wakes.{
  IsOwn, take_touched-count, take_touched-IsOwn, count-assign, assign-IsOwn,
}

-- `there` counts the units of an event that are not in the mount.
pub record Holds (there : ℕ → ℕ) (started events : List ℕ) (m : Mount) : Type 0 where
  pub own : IsOwn m.unit_map
  pub live :
      m.cancel_flag ≡ false
      → (e : ℕ) → count e started ≡ there e + count e (keys m.unit_map) + count e events
  pub bound : (e : ℕ) → there e + count e (keys m.unit_map) + count e events ≤ count e started
  pub limit : (e : ℕ) → there e + count e (keys m.unit_map) ≤ 1

module _ (started events : List ℕ) where
  -- Units move between the threads and the scheduler, and other fields of the mount change.
  pub move-Holds :
      (there there' : ℕ → ℕ) (m m' : Mount)
      → ((e : ℕ) → there' e ≡ there e)
      → m'.unit_map ≡ m.unit_map
      → m'.cancel_flag ≡ m.cancel_flag
      → Holds there started events m
      → Holds there' started events m'
  move-Holds there there' m m' same u c h =
      let keep = λ (e : ℕ). ap (λ w. count e (keys w)) u in
      record {
        own = subst IsOwn (sym u) h.own;
        live = λ f e. omega (arith, h.live (sym c ∙ f) e, same e, keep e);
        bound = λ e. omega (arith, h.bound e, same e, keep e);
        limit = λ e. omega (arith, h.limit e, same e, keep e);
      }

  module _ (event : ℕ) (there there' : ℕ → ℕ) (m : Mount)
      (one : (e : ℕ) → there e ≡ there' e + count e (event ∷ []))
      (h : Holds there started events m) where
    store-Holds :
        m.cancel_flag ≡ false
        → Holds there' started events (record m { unit_map = assign event event m.unit_map })
    unfolding count
    store-Holds c =
        let empty : count event (keys m.unit_map) ≡ 0 = omega (
          arith,
          h.limit event,
          one event,
          ap {A = Bool} {B = ℕ} (λ b. if b then 1 else 0) ((==_iff event event).1 refl),
        ) in
        let more = λ (e : ℕ). count-assign e event m.unit_map empty in
        record {
          own = assign-IsOwn event m.unit_map h.own;
          live = λ c e. omega (arith, h.live c e, more e, one e);
          bound = λ e. omega (arith, h.bound e, more e, one e);
          limit = λ e. omega (arith, h.limit e, more e, one e);
        }

    drop-Holds : m.cancel_flag ≡ true → Holds there' started events m
    drop-Holds c = record {
      own = h.own;
      live = λ f e. cc;
      bound = λ e. omega (arith, h.bound e, one e);
      limit = λ e. omega (arith, h.limit e, one e);
    }

    pub finish-Holds : Holds there' started (events ++ event ∷ []) m
    finish-Holds = record {
      own = h.own;
      live = λ c e. omega (arith, h.live c e, one e, count-append e events (event ∷ []));
      bound = λ e. omega (arith, h.bound e, one e, count-append e events (event ∷ []));
      limit = λ e. omega (arith, h.limit e, one e);
    }

    pub add_unit-Holds :
        (event == reactor_activate_event_error) ≡ false
        → Holds there' started events (add_unit (some event) event m).1
    unfolding add_unit
    add_unit-Holds other = elim (Bool-cases m.cancel_flag) [
      | inl c ↦
          (let e : (add_unit (some event) event m).1 ≡ m = ground (arith, other, c) in
            subst (Holds there' started events) (sym e) (drop-Holds c))
      | inr c ↦
          (let m' : Mount = record m { unit_map = assign event event m.unit_map } in
            let e : (add_unit (some event) event m).1 ≡ m' = ground (arith, other, c) in
            subst (Holds there' started events) (sym e) (store-Holds c))
    ]

  pub run_event_op-Holds :
      (event : ℕ) (there there' : ℕ → ℕ) (m : Mount)
      → ((e : ℕ) → there' e ≡ there e + count e (run_event_op [] event m).0)
      → Holds there started events m
      → Holds there' started events (run_event_op [] event m).1
  unfolding run_event_op count
  run_event_op-Holds event there there' m more h = elim (Bool-cases m.cancel_flag) [
    | inl c ↦
        (let more' : (e : ℕ) → there' e ≡ there e = λ e. ground (arith, more e, c) in
          simp c (move-Holds there there' m m more' refl refl h))
    | inr c ↦
        (let taken = take_touched event m.unit_map in
          let all = λ (e : ℕ). take_touched-count event e m.unit_map h.own in
          let more' : (e : ℕ) → there' e ≡ there e + count e taken.0 =
            λ e. ground (arith, more e, c) in
          simp c (record {
            own = take_touched-IsOwn event m.unit_map h.own;
            live = λ f e. omega (arith, h.live c e, all e, more' e);
            bound = λ e. omega (arith, h.bound e, all e, more' e);
            limit = λ e. omega (arith, h.limit e, all e, more' e);
          }))
  ]

  pub cancel_units-Holds :
      (there : ℕ → ℕ) (m : Mount)
      → Holds there started events m
      → Holds there started events (cancel_units m)
  unfolding cancel_units count
  cancel_units-Holds there m h = record {
    own = tt;
    live = λ f e. cc;
    bound = λ e. omega (arith, h.bound e);
    limit = λ e. omega (arith, h.limit e);
  }

pub watch_lem :
    (bit : ℕ) (m : Mount)
    → ((watch bit m).1.unit_map ≡ m.unit_map) × ((watch bit m).1.cancel_flag ≡ m.cancel_flag)
unfolding watch
watch_lem bit m = ground arith
