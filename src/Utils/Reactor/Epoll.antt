-- ===== src/Utils/Reactor/Epoll.antt =====
-- utils/reactor_epoll.cpp: the sockets that are watched, and what a poll gives to the scheduler. The
-- mounts stand at addresses, numbers, and the map holds an address for each descriptor. What
-- epoll_wait and epoll_ctl report is an argument.
use integration_server.Prelude.{
  ℕ, ◌+◌, ◌*◌, Bool, true, false, ◌||◌, List, [], ◌∷◌, ◌++◌, Option, none, some, ltb, ◌==◌,
  if◌then◌else◌,
}
use integration_server.Prelude.Map.{Map, find, assign, erase}
use integration_server.Utils.Reactor.Mount.{
  reactor_activate_event_read, reactor_activate_event_write, reactor_activate_event_error, epoll_in,
  epoll_out, has_bit, Mount, add_unit, get_tigger_event, run_event_op, EpollCtl, ctl_add, ctl_mod,
  ctl_del, watch, event_bit, cancel_units,
}

abbrev pub max_timeout : ℕ
max_timeout = 5 * 60 * 1000

pub record ReactorEpoll : Type 0 where
  pub mounts : ℕ → Mount
  pub mount_map : Map ℕ
  pub posts : List ℕ
  pub ctls : List EpollCtl

-- What reactorWait gives to epoll_wait: a negative timeout is `none`.
unfoldable pub wait_timeout : Option ℕ → ℕ
wait_timeout none = max_timeout
wait_timeout (some t) = if ltb t max_timeout then t else max_timeout

-- EPOLLERR | EPOLLHUP
unfoldable pub event_mask : ℕ → ℕ
event_mask events =
    (if has_bit events epoll_in then reactor_activate_event_read else 0)
    + (if has_bit events epoll_out then reactor_activate_event_write else 0)
    + (if has_bit events 8 || has_bit events 16 then reactor_activate_event_error else 0)

unfoldable pub set_mount : ℕ → Mount → ReactorEpoll → ReactorEpoll
set_mount p m r = record r { mounts = λ q. if q == p then m else r.mounts q }

unfoldable pub run_mount : Option ℕ → List ℕ → ℕ → ReactorEpoll → List ℕ × ReactorEpoll
run_mount none task_list mask r = (task_list, r)
run_mount (some p) task_list mask r =
    let s = run_event_op task_list mask (r.mounts p) in (s.0, set_mount p s.1 r)

-- The loop of reactorWait over what epoll_wait reports: a descriptor and its events.
unfoldable pub run_events : List (ℕ × ℕ) → List ℕ → ReactorEpoll → List ℕ × ReactorEpoll
run_events [] task_list r = (task_list, r)
run_events ((fd, events) ∷ es) task_list r =
    let s = run_mount (find fd r.mount_map) task_list (event_mask events) r in run_events es s.0 s.1

-- With the tasks of the timers behind those of the sockets.
unfoldable pub reactor_wait : List (ℕ × ℕ) → List ℕ → List ℕ → ReactorEpoll → List ℕ × ReactorEpoll
reactor_wait es timer_tasks task_list r =
    let s = run_events es task_list r in (s.0 ++ timer_tasks, s.1)

-- addMount comes with EPOLL_CTL_ADD.
unfoldable pub add_mounts : ℕ → List EpollCtl → Map ℕ → Map ℕ
add_mounts p [] m = m
add_mounts p (ctl_add fd ev ∷ cs) m = add_mounts p cs (assign fd p m)
add_mounts p (ctl_mod fd ev ∷ cs) m = add_mounts p cs m
add_mounts p (ctl_del fd ∷ cs) m = add_mounts p cs m

-- startEvent of the mount at `p`, up to its first branch: whether the unit is posted.
unfoldable pub test_event_at : ℕ → ℕ → ℕ → ReactorEpoll → Bool × ReactorEpoll
test_event_at event p u r =
    if get_tigger_event event (r.mounts p)
    then (true, record r { posts = r.posts ++ u ∷ [] })
    else (false, r)

-- startEvent of the mount at `p`, up to its addUnit: epoll_ctl and addMount are one step.
unfoldable pub watch_at : ℕ → ℕ → ReactorEpoll → ReactorEpoll
watch_at event p r =
    let w = watch (event_bit event) (r.mounts p) in
    record (set_mount p w.1 r) { mount_map = add_mounts p w.0 r.mount_map; ctls = r.ctls ++ w.0 }

-- The addUnit of startEvent.
unfoldable pub add_unit_at : ℕ → ℕ → ℕ → ReactorEpoll → ReactorEpoll
add_unit_at event p u r = set_mount p (add_unit (some u) event (r.mounts p)).1 r

-- delEvent, by whether epoll_ctl succeeds.
unfoldable pub del_event : Bool → ℕ → ReactorEpoll → Bool × ReactorEpoll
del_event true fd r =
    (true, record r { mount_map = erase fd r.mount_map; ctls = r.ctls ++ ctl_del fd ∷ [] })
del_event false fd r = (false, record r { ctls = r.ctls ++ ctl_del fd ∷ [] })

unfoldable pub post : ℕ → ReactorEpoll → ReactorEpoll
post u r = record r { posts = r.posts ++ u ∷ [] }

-- cancelUnits of the mount at `p`.
unfoldable pub cancel_units_at : Bool → ℕ → ReactorEpoll → ReactorEpoll
cancel_units_at deleted p r =
    (del_event deleted (r.mounts p).fd (set_mount p (cancel_units (r.mounts p)) r)).1
