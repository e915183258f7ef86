-- ===== src/Utils/Scheduler.antt =====
-- utils/scheduler.cpp: worker threads that share a list of units, and a reactor thread whose
-- producerFunc is empty. The threads are counted by the place where they stand.
pub mod Stop
use integration_server.Prelude.{
  ℕ, ◌+◌, ◌-◌, ◌<◌, ◌≡◌, Bool, true, false, List, [], ◌∷◌, ◌++◌, Option, none, some, ◌==◌,
  if◌then◌else◌,
}
use integration_server.Utils.SchedulerList.{push, get_task, can_wake}

abbrev pub scheduler_mode_producer : ℕ
scheduler_mode_producer = 1

abbrev pub scheduler_mode_consumer : ℕ
scheduler_mode_consumer = 2

-- The places of a worker: in startWait (`waiting`), before getTast (`ready`), in complete()
-- (`running`, with the units), in wait (`sleeping`), before the test of its loop (`testing`), behind
-- the loop (`ended`); of a reactor thread: in startWait (`reactor_waiting`), before the test of its
-- loop (`producing`), behind the loop (`reactor_ended`).
pub record Scheduler : Type 0 where
  pub start : Bool
  pub reactor_start : Bool
  pub work_start : Bool
  pub work_list : List ℕ
  pub waiting : ℕ
  pub ready : ℕ
  pub running : List ℕ
  pub sleeping : ℕ
  pub testing : ℕ
  pub ended : ℕ
  pub reactor_waiting : ℕ
  pub producing : ℕ
  pub reactor_ended : ℕ

unfoldable pub new_scheduler : ℕ → ℕ → ℕ → Scheduler
new_scheduler mode workers reactors = record {
  start = false;
  reactor_start =
      if mode == scheduler_mode_producer
      then true
      else if mode == scheduler_mode_consumer
      then false
      else true;
  work_start =
      if mode == scheduler_mode_producer
      then false
      else if mode == scheduler_mode_consumer
      then true
      else true;
  work_list = [];
  waiting = workers;
  ready = 0;
  running = [];
  sleeping = 0;
  testing = 0;
  ended = 0;
  reactor_waiting = reactors;
  producing = 0;
  reactor_ended = 0;
}

unfoldable pub start_all : Scheduler → Scheduler
start_all s = record s { start = true }

unfoldable pub stop : Scheduler → Scheduler
stop s = record s { reactor_start = false; work_start = false }

unfoldable pub post : Option ℕ → Scheduler → Scheduler
post none s = s
post (some f) s = record s { work_list = push f s.work_list }

-- The end of startWait, which then goes into the loop.
unfoldable pub begin_work : Scheduler → Scheduler
begin_work s = record s { waiting = s.waiting - 1; ready = s.ready + 1 }

unfoldable pub begin_reactor : Scheduler → Scheduler
begin_reactor s = record s { reactor_waiting = s.reactor_waiting - 1; producing = s.producing + 1 }

-- consumerFunc, by the result of getTast.
unfoldable pub consume : Option ℕ → Scheduler → Scheduler
consume (some f) s = record s { running = f ∷ s.running }
consume none s =
    if s.work_start
    then record s { sleeping = s.sleeping + 1 }
    else record s { testing = s.testing + 1 }

unfoldable pub consumer_func : Scheduler → Scheduler
consumer_func s =
    let r = get_task s.work_list in consume r.0 (record s { work_list = r.1; ready = s.ready - 1 })

unfoldable pub complete : List ℕ → Scheduler → Scheduler
complete rest s = record s { running = rest; testing = s.testing + 1 }

unfoldable pub wake : Scheduler → Scheduler
wake s = record s { sleeping = s.sleeping - 1; testing = s.testing + 1 }

-- The test of the loop of workThreadFunc.
unfoldable pub test_work : Scheduler → Scheduler
test_work s =
    let t : Scheduler = record s { testing = s.testing - 1 } in
    if s.work_start then record t { ready = s.ready + 1 } else record t { ended = s.ended + 1 }

-- The test of the loop of reactorThreadFunc.
unfoldable pub test_reactor : Scheduler → Scheduler
test_reactor s =
    if s.reactor_start
    then s
    else record s { producing = s.producing - 1; reactor_ended = s.reactor_ended + 1 }

-- A step that posts nothing.
pub data Step (s : Scheduler) : Scheduler → Type 0 where
  starts : Step s (start_all s)
  stops : Step s (stop s)
  begins : s.start ≡ true → 0 < s.waiting → Step s (begin_work s)
  begins_reactor : s.start ≡ true → 0 < s.reactor_waiting → Step s (begin_reactor s)
  consumes : 0 < s.ready → Step s (consumer_func s)
  completes :
      (xs : List ℕ) (f : ℕ) (ys : List ℕ)
      → s.running ≡ xs ++ f ∷ ys
      → Step s (complete (xs ++ ys) s)
  wakes : 0 < s.sleeping → can_wake s.work_list ≡ true → Step s (wake s)
  tests : 0 < s.testing → Step s (test_work s)
  tests_reactor : 0 < s.producing → Step s (test_reactor s)
