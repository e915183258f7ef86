-- ===== src/Utils/TimeManager/Ticks.antt =====
-- What a tick of the TimerManager does, after any history.
use integration_server.Prelude.{
  ℕ, ◌+◌, ◌-◌, ◌≡◌, refl, sym, ap, subst, inl, inr, Bool, true, false, ◌||◌, List, [], ◌++◌,
  if◌then◌else◌, arith, Bool-cases, append_nil,
}
use integration_server.Utils.TimedQueue.{due, waiting, IsSorted, waiting-IsSorted}
use integration_server.Utils.TimeManager.{
  new_timer, TimerManager, Command, command, init, cancel, complete_all, rearm, tick, on_timer,
}
use integration_server.Utils.TimeManager.Spec.{cancelled, latest, entered, said, spec_runs}
use integration_server.Utils.TimeManager.Says.{Ran, complete_all-Ran}
use integration_server.Utils.TimeManager.Kept.{
  IsKept, command-IsKept, complete_all-IsKept, take_due_lem, Callable-due,
}

abbrev pub new_manager : TimerManager
new_manager = record {
  timer_map = [];
  timers = λ p. new_timer;
  armed = false;
  waits = 0;
  runs = [];
  bad_calls = 0;
}

-- What happens on the main thread: the program calls, and boost.asio.
pub data Event : Type 0 where
  called : ℕ → Command → Event
  timer_fired : Bool → ℕ → Event
  init_called cancel_called : Event

module _ (body : ℕ → List Command) where
  unfoldable pub handle : Event → TimerManager → TimerManager
  handle (called now c) m = command now c m
  handle (timer_fired failed now) m = on_timer body failed now m
  handle init_called m = init m
  handle cancel_called m = cancel m

  pub data Reaches : TimerManager → Type 0 where
    fresh : Reaches new_manager
    next : (e : Event) (m : TimerManager) → Reaches m → Reaches (handle e m)

  -- A tick that takes all that is due, wherever it stands.
  pub due_tick : ℕ → TimerManager → TimerManager
  due_tick now m = rearm body (
      complete_all body now (due now m.timer_map)
        (record m { timer_map = waiting now m.timer_map }))

  tick-due_tick : (now : ℕ) (m : TimerManager) → IsKept body m → tick body now m ≡ due_tick now m
  unfolding tick due_tick
  tick-due_tick now m k =
      let (d, w) = take_due_lem now m.timer_map k.sorted in
      ap
        (λ (r : List ℕ × List (ℕ × ℕ)).
          rearm body (complete_all body now r.0 (record m { timer_map = r.1 })))
        (λ i. (d i, w i))

  rearm-IsKept : (m : TimerManager) → IsKept body m → IsKept body (rearm body m)
  unfolding rearm
  rearm-IsKept m k = elim (Bool-cases m.armed) [
    | inl e ↦ simp e (record { sorted = k.sorted; callable = k.callable; good = k.good })
    | inr e ↦ simp e k
  ]

  due_tick-IsKept : (now : ℕ) (m : TimerManager) → IsKept body m → IsKept body (due_tick now m)
  unfolding due_tick
  due_tick-IsKept now m k =
      let (d, w) = Callable-due body now m m.timer_map k.callable in
      let m' : TimerManager = record m { timer_map = waiting now m.timer_map } in
      rearm-IsKept (complete_all body now (due now m.timer_map) m') (
        complete_all-IsKept body now (due now m.timer_map) m' d (record {
          sorted = waiting-IsSorted now m.timer_map k.sorted;
          callable = w;
          good = k.good;
        }))

  same_waits : (m : TimerManager) → IsKept body m → IsKept body (record m { waits = m.waits - 1 })
  same_waits m k = record { sorted = k.sorted; callable = k.callable; good = k.good }

  handle-IsKept : (e : Event) (m : TimerManager) → IsKept body m → IsKept body (handle e m)
  unfolding handle on_timer init cancel
  handle-IsKept (called now c) m k = command-IsKept body now c m k
  handle-IsKept (timer_fired true now) m k = same_waits m k
  handle-IsKept (timer_fired false now) m k =
      let m' : TimerManager = record m { waits = m.waits - 1 } in
      subst (IsKept body) (sym (tick-due_tick now m' (same_waits m k)))
        (due_tick-IsKept now m' (same_waits m k))
  handle-IsKept init_called m k = record { sorted = k.sorted; callable = k.callable; good = k.good }
  handle-IsKept cancel_called m k = elim (Bool-cases m.armed) [
    | inl e ↦ simp e (record { sorted = tt; callable = tt; good = k.good })
    | inr e ↦ simp e k
  ]

  Reaches-IsKept : (m : TimerManager) → Reaches m → IsKept body m
  Reaches-IsKept _ fresh = record { sorted = tt; callable = tt; good = refl }
  Reaches-IsKept _ (next e m r) = handle-IsKept e m (Reaches-IsKept m r)

  start-Ran : (now : ℕ) (m : TimerManager) → Ran body now m [] m
  unfolding said cancelled latest entered
  start-Ran now m = record {
    over = λ p. ground arith;
    func = λ p. refl;
    queue = refl;
    runs = sym (append_nil m.runs);
    same_armed = refl;
    same_waits = refl;
  }

  -- What a tick does, by the functions that it runs.
  record TickDone (now : ℕ) (m : TimerManager) (fs : List ℕ) (n : TimerManager) : Type 0 where
    runs : n.runs ≡ m.runs ++ fs
    queue : n.timer_map ≡ entered now (said body fs) (waiting now m.timer_map)
    over : (p : ℕ) → (n.timers p).over ≡ ((m.timers p).over || cancelled p (said body fs))
    func : (p : ℕ) → (n.timers p).func ≡ latest p (m.timers p).func (said body fs)
    same_armed : n.armed ≡ m.armed
    waits : n.waits ≡ (if m.armed then m.waits + 1 else m.waits)

  rearm_lem :
      (m : TimerManager)
      → rearm body m ≡ record m { waits = if m.armed then m.waits + 1 else m.waits }
  unfolding rearm
  rearm_lem m = elim (Bool-cases m.armed) [ inl a ↦ ground (arith, a) | inr a ↦ ground (arith, a) ]

  due_tick-TickDone :
      (now : ℕ) (m : TimerManager)
      → IsKept body m
      → TickDone now m (spec_runs body m.timers [] (due now m.timer_map)) (due_tick now m)
  unfolding due_tick
  due_tick-TickDone now m k =
      let m0 : TimerManager = record m { timer_map = waiting now m.timer_map } in
      let (d, w) = Callable-due body now m m.timer_map k.callable in
      let kept : IsKept body m0 = record {
        sorted = waiting-IsSorted now m.timer_map k.sorted;
        callable = w;
        good = k.good;
      } in
      let done = complete_all body now (due now m.timer_map) m0 in
      let h = complete_all-Ran body now m0 (due now m.timer_map) [] m0 d kept (start-Ran now m0) in
      subst (TickDone now m (spec_runs body m.timers [] (due now m.timer_map)))
        (sym (rearm_lem done))
        (record {
          runs = h.runs;
          queue = h.queue;
          over = h.over;
          func = h.func;
          same_armed = h.same_armed;
          waits = ground (arith, h.same_armed, h.same_waits);
        })

  -- After any calls of afterFunc, cancel, init and the timer's handler, whatever calls the
  -- functions of the timers make, let onTimer run without an error. It runs, for the timers whose
  -- time has come, in the order of their times and then of their registrations, the last function
  -- that each was given, unless the timer was cancelled, where the calls that the functions before
  -- it made in this tick count. The map is then the timers whose time had not come, into which the
  -- calls of afterFunc of these functions have entered their timers in order, each behind those of
  -- the same time, at the time of the tick and the seconds of the call, modulo 2^32. Each timer is
  -- cancelled, and has the function, that these calls give it. The timer of the manager is waited
  -- for again if there is one, the map is sorted, and no empty function was called.
  pub Reaches-on_timer :
      (now : ℕ) (m : TimerManager)
      → Reaches m
      → let n = on_timer body false now m in
        let fs = spec_runs body m.timers [] (due now m.timer_map) in
        (n.runs ≡ m.runs ++ fs)
        × (n.timer_map ≡ entered now (said body fs) (waiting now m.timer_map))
        × ((p : ℕ)
            → ((n.timers p).over ≡ ((m.timers p).over || cancelled p (said body fs)))
              × ((n.timers p).func ≡ latest p (m.timers p).func (said body fs)))
        × (n.armed ≡ m.armed)
        × (n.waits ≡ (if m.armed then m.waits - 1 + 1 else m.waits - 1))
        × IsSorted n.timer_map
        × (n.bad_calls ≡ 0)
  unfolding on_timer handle
  Reaches-on_timer now m r =
      let k =
        Reaches-IsKept (handle (timer_fired false now) m) (next (timer_fired false now) m r) in
      let m' : TimerManager = record m { waits = m.waits - 1 } in
      let same = same_waits m (Reaches-IsKept m r) in
      let fs = spec_runs body m.timers [] (due now m.timer_map) in
      let d : TickDone now m' fs (on_timer body false now m) =
        subst (TickDone now m' fs) (sym (tick-due_tick now m' same))
          (due_tick-TickDone now m' same) in
      (d.runs, d.queue, λ p. (d.over p, d.func p), d.same_armed, d.waits, k.sorted, k.good)
