-- ===== src/Utils/ReactorTimer/Refine.antt =====
-- The timers of the reactor against two queues in time order, over any sequence of calls.
use integration_server.Prelude.{ℕ, ◌+◌, ◌^◌, ◌%◌, ◌≡◌, refl, ap, ◌∙◌, false, List, [], ◌∷◌, ◌++◌}
use integration_server.Prelude.Map.{IsOrdered}
use integration_server.Utils.TimedQueue.{put, due, waiting}
use integration_server.Utils.ReactorTimer.{
  TimerUnit, ReactorTimer, expires_func, expires_func_by_ms, get_timer_task, cancel_func,
}
use integration_server.Utils.ReactorTimer.View.{
  flatten, flatten-add_unit, add_unit-IsOrdered, take_units_lem,
}

-- A call, with the system time that it reads.
pub data Call : Type 0 where
  expires expires_by_ms : ℕ → ℕ → TimerUnit → Call
  cancels : ℕ → Call
  task_list : ℕ → ℕ → Call

pub new_timers : ReactorTimer
new_timers = record { sec_unit_map = []; ms_unit_map = []; cancel_sign = λ t. false }

-- What a call adds to an empty task list, and the timers after it.
pub step : Call → ReactorTimer → List TimerUnit × ReactorTimer
step (expires now seconds u) r = ([], expires_func now seconds u r)
step (expires_by_ms now ms u) r = ([], expires_func_by_ms now ms u r)
step (cancels t) r = ([], cancel_func t r)
step (task_list now now_ms) r = get_timer_task now now_ms [] r

pub run : List Call → ReactorTimer → List (List TimerUnit)
run [] r = []
run (c ∷ cs) r = let s = step c r in s.0 ∷ run cs s.1

pub record Queues : Type 0 where
  pub sec : List (ℕ × TimerUnit)
  pub ms : List (ℕ × TimerUnit)

pub spec_step : Call → Queues → List TimerUnit × Queues
spec_step (expires now seconds u) q =
    ([], record q { sec = put ((now + seconds) % 2 ^ 32) u q.sec })
spec_step (expires_by_ms now ms u) q = ([], record q { ms = put ((now + ms) % 2 ^ 64) u q.ms })
spec_step (cancels t) q = ([], q)
spec_step (task_list now now_ms) q =
    (due now q.sec ++ due now_ms q.ms, record { sec = waiting now q.sec; ms = waiting now_ms q.ms })

pub spec_run : List Call → Queues → List (List TimerUnit)
spec_run [] q = []
spec_run (c ∷ cs) q = let s = spec_step c q in s.0 ∷ spec_run cs s.1

abbrev queues : ReactorTimer → Queues
queues r = record { sec = flatten r.sec_unit_map; ms = flatten r.ms_unit_map }

record IsTimer (r : ReactorTimer) : Type 0 where
  sec : IsOrdered r.sec_unit_map
  ms : IsOrdered r.ms_unit_map

step_lem :
    (c : Call) (r : ReactorTimer)
    → IsTimer r
    → ((step c r).0 ≡ (spec_step c (queues r)).0)
      × (queues (step c r).1 ≡ (spec_step c (queues r)).1)
      × IsTimer (step c r).1
unfolding step spec_step expires_func expires_func_by_ms cancel_func get_timer_task
step_lem (expires now seconds u) r w =
    let t = (now + seconds) % 2 ^ 32 in
    (
      refl,
      ap (λ q. record { sec = q; ms = flatten r.ms_unit_map })
          (flatten-add_unit t u r.sec_unit_map w.sec),
      record { sec = add_unit-IsOrdered t u r.sec_unit_map w.sec; ms = w.ms },
    )
step_lem (expires_by_ms now ms u) r w =
    let t = (now + ms) % 2 ^ 64 in
    (
      refl,
      ap (λ q. record { sec = flatten r.sec_unit_map; ms = q })
          (flatten-add_unit t u r.ms_unit_map w.ms),
      record { sec = w.sec; ms = add_unit-IsOrdered t u r.ms_unit_map w.ms },
    )
step_lem (cancels t) r w = (refl, refl, record { sec = w.sec; ms = w.ms })
step_lem (task_list now now_ms) r w =
    let (d, q, o) = take_units_lem now r.sec_unit_map w.sec in
    let (d', q', o') = take_units_lem now_ms r.ms_unit_map w.ms in
    (λ i. d i ++ d' i, λ i. record { sec = q i; ms = q' i }, record { sec = o; ms = o' })

run_lem : (cs : List Call) (r : ReactorTimer) → IsTimer r → run cs r ≡ spec_run cs (queues r)
unfolding run spec_run
run_lem [] r w = refl
run_lem (c ∷ cs) r w =
    let (d, q, w') = step_lem c r w in
    λ i. d i ∷ (run_lem cs (step c r).1 w' ∙ ap (spec_run cs) q) i

-- For any sequence of calls of expiresFunc, expiresFuncByMs, cancelFunc and getTimerTask, with any
-- system times, getTimerTask gives the units that two queues in the order of their times would
-- give: first the seconds whose time has come, then the milliseconds, in the order of their times,
-- and for one time in the order of the calls.
pub run-spec_run : (cs : List Call) → run cs new_timers ≡ spec_run cs (record { sec = []; ms = [] })
unfolding new_timers flatten
run-spec_run cs = run_lem cs new_timers (record { sec = tt; ms = tt })
