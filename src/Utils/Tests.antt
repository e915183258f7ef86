-- ===== src/Utils/Tests.antt =====
-- The safe unit, the timers, the schedulers and the reactor on small inputs, and the theorems there.
use integration_server.Prelude.{
  ℕ, ◌+◌, ◌<◌, ◌≤◌, ◌≡◌, ◌⊎◌, refl, true, false, ◌||◌, ◌==◌, if◌then◌else◌, List, [], ◌∷◌, some,
  count,
}
use integration_server.Prelude.Map.{find, assign, keys}
use integration_server.Utils.SafeUnit
use integration_server.Utils.SafeUnit.{new_safe_unit}
use integration_server.Utils.SafeUnit.Order
use integration_server.Utils.SafeUnit.Order.{Phase, Reaches-Phase}
use integration_server.Utils.TimedQueue.{put, due, waiting, IsSorted}
use integration_server.Utils.TimeManager.{
  TimerManager, Command, after_func_of, cancel_of, command, after_func, registrate, set_timer,
  on_timer,
}
use integration_server.Utils.TimeManager.Spec.{cancelled, latest, entered, said, fires, spec_runs}
use integration_server.Utils.TimeManager.Ticks
use integration_server.Utils.TimeManager.Ticks.{Reaches-on_timer}
use integration_server.Utils.ReactorTimer.Refine.{
  Call, expires, task_list, new_timers, run, spec_run, run-spec_run,
}
use integration_server.Utils.SchedulerList
use integration_server.Utils.SchedulerLf
use integration_server.Utils.SchedulerLf.{SchedulerLf}
use integration_server.Utils.SchedulerLf.Leader
use integration_server.Utils.SchedulerLf.Leader.{OneLeader, Reaches-OneLeader}
use integration_server.Utils.Scheduler
use integration_server.Utils.Scheduler.{Scheduler}
use integration_server.Utils.Scheduler.Stop.{no_step, more_steps, Steps-stop}
use integration_server.Utils.Reactor.Mount.{
  new_mount, run_event_op, take_touched, add_unit, get_trigger, get_tigger_event, watch, event_bit,
}
use integration_server.Utils.Reactor.StreamSocket
use integration_server.Utils.Reactor.StreamSocket.{StreamSocket, new_stream, pending}
use integration_server.Utils.Reactor.StreamSocket.Once
use integration_server.Utils.Reactor.StreamSocket.Once.{Reaches-once}
use integration_server.Utils.Reactor.StreamSocket.Units.{events}
use integration_server.Utils.Reactor.StreamSocket.Lost.{late, still, then_step, Reaches-lost}

-- A function that is posted to a new safe unit.
Reaches-Phase_example : Phase (SafeUnit.post 7 new_safe_unit)
Reaches-Phase_example = Reaches-Phase (SafeUnit.post 7 new_safe_unit) (
    Order.next new_safe_unit (SafeUnit.post 7 new_safe_unit) Order.started
      (SafeUnit.posts 7 new_safe_unit))

-- Function 7 gives its timer function 8, ten seconds later, and cancels timer 2.
abbrev calls_again : ℕ → List Command
calls_again f = if f == 7 then after_func_of 10 1 (some 8) ∷ cancel_of 2 ∷ [] else []

abbrev one_timer : TimerManager
one_timer = Ticks.handle calls_again (Ticks.called 0 (after_func_of 3 1 (some 7))) Ticks.new_manager

-- Timer 1 is to run function 7 three seconds after the time 0, and timer 2 function 9 after four.
abbrev two_timers : TimerManager
two_timers = Ticks.handle calls_again (Ticks.called 0 (after_func_of 4 2 (some 9))) one_timer

Reaches-on_timer_example :
    let n = on_timer calls_again false 5 two_timers in
    (n.runs ≡ 7 ∷ [])
    × (n.timer_map ≡ (15, 1) ∷ [])
    × ((p : ℕ)
        → ((n.timers p).over
            ≡ ((two_timers.timers p).over || cancelled p (said calls_again (7 ∷ []))))
          × ((n.timers p).func ≡ latest p (two_timers.timers p).func (said calls_again (7 ∷ []))))
    × (n.armed ≡ false)
    × (n.waits ≡ 0)
    × IsSorted n.timer_map
    × (n.bad_calls ≡ 0)
unfolding Ticks.handle command after_func registrate set_timer put due waiting spec_runs fires said
    cancelled latest entered
Reaches-on_timer_example = Reaches-on_timer calls_again 5 two_timers (
    Ticks.next (Ticks.called 0 (after_func_of 4 2 (some 9))) one_timer
      (Ticks.next (Ticks.called 0 (after_func_of 3 1 (some 7))) Ticks.new_manager Ticks.fresh))

abbrev timer_calls : List Call
timer_calls =
    expires 100 5 (record { timer = 1; func = 2 })
    ∷ expires 100 3 (record { timer = 4; func = 6 })
    ∷ task_list 106 106000
    ∷ []

run-spec_run_example :
    run timer_calls new_timers ≡ spec_run timer_calls (record { sec = []; ms = [] })
run-spec_run_example = run-spec_run timer_calls

abbrev started_lf : SchedulerLf
started_lf = SchedulerLf.start_work (SchedulerLf.new_scheduler true 2)

abbrev leading_lf : SchedulerLf
leading_lf = SchedulerLf.push_reactor started_lf

Reaches-OneLeader_example : OneLeader 2 leading_lf
unfolding SchedulerLf.new_scheduler SchedulerLf.start_work
Reaches-OneLeader_example = Reaches-OneLeader true 2 leading_lf (
    Leader.next started_lf leading_lf
      (Leader.next (SchedulerLf.new_scheduler true 2) started_lf Leader.fresh
        (SchedulerLf.starts refl))
      (SchedulerLf.pushes_reactor refl))

-- One worker found no unit, and waits.
abbrev asleep : Scheduler
asleep =
    Scheduler.consumer_func
      (Scheduler.begin_work (Scheduler.start_all (Scheduler.new_scheduler 2 1 0)))

Steps-stop_example :
    ((Scheduler.stop (Scheduler.stop asleep)).sleeping ≡ asleep.sleeping)
    × ((Scheduler.stop (Scheduler.stop asleep)).work_list ≡ [])
unfolding Scheduler.consumer_func Scheduler.begin_work Scheduler.start_all Scheduler.new_scheduler
    Scheduler.consume SchedulerList.get_task
Steps-stop_example = Steps-stop asleep (Scheduler.stop (Scheduler.stop asleep)) refl (
    more_steps (Scheduler.stop asleep) (Scheduler.stop (Scheduler.stop asleep))
      (Scheduler.stop (Scheduler.stop asleep)) Scheduler.stops
      (no_step (Scheduler.stop (Scheduler.stop asleep))))

-- A read of a new socket, before its unit is added.
abbrev reading : StreamSocket
reading = StreamSocket.async_read_data (new_stream 3)

abbrev tested : StreamSocket
tested = StreamSocket.test_event 1 (record reading { testing = [] })

abbrev watched : StreamSocket
watched = StreamSocket.watch_event 1 (record tested { watching = [] })

watched-Reaches : Once.Reaches 3 watched
unfolding new_stream new_mount StreamSocket.async_read_data StreamSocket.submit
    StreamSocket.test_event get_tigger_event get_trigger find count assign
watched-Reaches =
    Once.next tested watched
      (Once.next reading tested
        (Once.next (new_stream 3) reading Once.fresh (StreamSocket.reads refl))
        (StreamSocket.tests [] [] 1 refl))
      (StreamSocket.watches [] [] 1 refl)

Reaches-once_example :
    (pending 1 watched ≤ 1)
    × (pending 1 watched + count 1 (events watched.handled) ≤ count 1 watched.started)
    × ((watched.mount.cancel_flag ≡ true)
        ⊎ (count 1 watched.started ≡ pending 1 watched + count 1 (events watched.handled)))
Reaches-once_example = Reaches-once 3 1 watched watched-Reaches

-- The read is lost, and a write is started.
abbrev lost : StreamSocket
lost = StreamSocket.async_write_data (late 1 [] [] watched)

Reaches-lost_example :
    (get_tigger_event 1 (late 1 [] [] watched).mount ≡ true)
    × (0 < count 1 (keys lost.mount.unit_map))
    × (count 1 (events lost.handled) ≡ count 1 (events watched.handled))
    × (count 1 (events lost.handled) < count 1 lost.started)
unfolding new_stream new_mount StreamSocket.async_read_data StreamSocket.submit
    StreamSocket.test_event StreamSocket.watch_event StreamSocket.add_event StreamSocket.poll
    get_tigger_event get_trigger find count watch event_bit add_unit run_event_op take_touched
    assign
Reaches-lost_example =
    Reaches-lost 3 1 [] [] watched lost watched-Reaches refl refl refl
      (then_step (late 1 [] [] watched) lost (StreamSocket.writes refl) still refl)
