-- ===== src/Utils/SchedulerLf.antt =====
-- utils/scheduler_leader_follower.cpp: threads that share a list of units, one of which makes the
-- thread that takes it the leader, which polls the reactor. The threads are counted by the place
-- where they stand in run() and reactorFunc(); what the reactor adds to the tasks is its choice.
pub mod Leader
use integration_server.Prelude.{
  ℕ, ◌+◌, ◌-◌, ◌<◌, ◌≡◌, Bool, true, false, ◌&&◌, List, [], ◌∷◌, ◌++◌, Option, none, some, map,
  if◌then◌else◌,
}
use integration_server.Utils.SchedulerList.{push, push_batch, get_task, can_wake}

-- m_reactorUnit, and the units that are posted.
pub data LfUnit : Type 0 where
  reactor_unit : LfUnit
  task : ℕ → LfUnit

-- The places of a thread: before getTast (`ready`), in reactorFunc before and after reactorWait
-- (`polling`, `polled`), in complete() (`running`, with the units), in wait (`sleeping`), before the
-- test of the loop (`testing`), and behind the loop (`ended`). `starting` is a call of start that has
-- set m_start and not yet pushed its unit; the constructor leaves m_start as it is. `queued` and `taken` record what went
-- into the list and what came out.
pub record SchedulerLf : Type 0 where
  pub reactor_mode : Bool
  pub start : Bool
  pub starting : Bool
  pub work : Bool
  pub work_list : List LfUnit
  pub task_list : List LfUnit
  pub ready : ℕ
  pub polling : ℕ
  pub polled : ℕ
  pub running : List ℕ
  pub sleeping : ℕ
  pub testing : ℕ
  pub ended : ℕ
  pub queued : List LfUnit
  pub taken : List LfUnit

-- After init, with the threads in startWait.
unfoldable pub new_scheduler : Bool → ℕ → SchedulerLf
new_scheduler reactor_mode threads = record {
  reactor_mode = reactor_mode;
  start = false;
  starting = false;
  work = true;
  work_list = [];
  task_list = [];
  ready = threads;
  polling = 0;
  polled = 0;
  running = [];
  sleeping = 0;
  testing = 0;
  ended = 0;
  queued = [];
  taken = [];
}

unfoldable pub push_unit : LfUnit → SchedulerLf → SchedulerLf
push_unit u s = record s { work_list = push u s.work_list; queued = s.queued ++ u ∷ [] }

-- start up to its test of the mode.
unfoldable pub start_work : SchedulerLf → SchedulerLf
start_work s = record s { start = true; starting = s.reactor_mode }

-- The rest of start in reactor mode.
unfoldable pub push_reactor : SchedulerLf → SchedulerLf
push_reactor s = push_unit reactor_unit (record s { starting = false })

unfoldable pub stop : SchedulerLf → SchedulerLf
stop s = record s { work = false }

-- A NULL unit is `none`.
unfoldable pub post : Option ℕ → SchedulerLf → SchedulerLf
post none s = s
post (some f) s = push_unit (task f) s

-- What run() does with the result of getTast.
unfoldable pub dispatch : Option LfUnit → SchedulerLf → SchedulerLf
dispatch none s =
    if s.work then record s { sleeping = s.sleeping + 1 } else record s { testing = s.testing + 1 }
dispatch (some reactor_unit) s = record s {
  polling = s.polling + 1;
  taken = s.taken ++ reactor_unit ∷ [];
}
dispatch (some (task f)) s = record s { running = f ∷ s.running; taken = s.taken ++ task f ∷ [] }

unfoldable pub take_task : SchedulerLf → SchedulerLf
take_task s =
    let r = get_task s.work_list in dispatch r.0 (record s { work_list = r.1; ready = s.ready - 1 })

-- reactorWait adds tasks to m_taskList.
unfoldable pub reactor_wait : List ℕ → SchedulerLf → SchedulerLf
reactor_wait fs s = record s {
  task_list = s.task_list ++ map task fs;
  polling = s.polling - 1;
  polled = s.polled + 1;
}

-- The rest of reactorFunc.
unfoldable pub push_tasks : SchedulerLf → SchedulerLf
push_tasks s =
    let batch = s.task_list ++ reactor_unit ∷ [] in
    let r = push_batch batch s.work_list in
    record s {
      work_list = r.0;
      task_list = r.1;
      queued = s.queued ++ batch;
      polled = s.polled - 1;
      testing = s.testing + 1;
    }

unfoldable pub complete : ℕ → List ℕ → SchedulerLf → SchedulerLf
complete f rest s = record s { running = rest; testing = s.testing + 1 }

unfoldable pub wake : SchedulerLf → SchedulerLf
wake s = record s { sleeping = s.sleeping - 1; testing = s.testing + 1 }

-- The test of the loop of run().
unfoldable pub test_work : SchedulerLf → SchedulerLf
test_work s =
    let t : SchedulerLf = record s { testing = s.testing - 1 } in
    if s.work then record t { ready = s.ready + 1 } else record t { ended = s.ended + 1 }

-- One step of a thread, of the program or of the reactor. start is called once.
pub data Step (s : SchedulerLf) : SchedulerLf → Type 0 where
  starts : s.start ≡ false → Step s (start_work s)
  pushes_reactor : s.starting ≡ true → Step s (push_reactor s)
  stops : Step s (stop s)
  posts : (f : Option ℕ) → Step s (post f s)
  takes : s.start ≡ true → 0 < s.ready → Step s (take_task s)
  polls : (fs : List ℕ) → 0 < s.polling → Step s (reactor_wait fs s)
  pushes : 0 < s.polled → Step s (push_tasks s)
  completes :
      (xs : List ℕ) (f : ℕ) (ys : List ℕ)
      → s.running ≡ xs ++ f ∷ ys
      → Step s (complete f (xs ++ ys) s)
  wakes : 0 < s.sleeping → can_wake s.work_list ≡ true → Step s (wake s)
  tests : 0 < s.testing → Step s (test_work s)
