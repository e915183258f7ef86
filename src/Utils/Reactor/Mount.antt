-- ===== src/Utils/Reactor/Mount.antt =====
-- utils/reactor_epoll_mount_data.cpp, and what ReactorEpoll::startEvent of utils/reactor_epoll.cpp
-- does to a mount: what the reactor keeps for a socket. A unit is a number. Each function that holds
-- m_mutex is a step, so that startEvent is several: getTiggerEvent, `watch`, and addUnit.
pub mod Wakes
use integration_server.Prelude.{
  ℕ, ◌+◌, ◌-◌, ◌/◌, ◌%◌, ◌^◌, Bool, true, false, ◌&&◌, ◌||◌, not, List, [], ◌∷◌, ◌++◌, Option, none,
  some, ◌==◌, if◌then◌else◌,
}
use integration_server.Prelude.Map.{Map, find, assign, erase}

abbrev pub reactor_activate_event_read : ℕ
reactor_activate_event_read = 1

abbrev pub reactor_activate_event_write : ℕ
reactor_activate_event_write = 2

abbrev pub reactor_activate_event_error : ℕ
reactor_activate_event_error = 4

abbrev pub epoll_in : ℕ
epoll_in = 1

abbrev pub epoll_out : ℕ
epoll_out = 4

-- EPOLLERR | EPOLLHUP | EPOLLPRI | EPOLLET
abbrev pub epoll_always : ℕ
epoll_always = 8 + 16 + 2 + 2 ^ 31

-- `flags & bit`, for a single bit.
abbrev pub has_bit : ℕ → ℕ → Bool
has_bit flags bit = flags / bit % 2 == 1

pub record Mount : Type 0 where
  pub fd : ℕ
  pub cur_event : ℕ
  pub cancel_flag : Bool
  pub tigger_event_map : Map Bool
  pub unit_map : Map ℕ

-- A socket can be written to at once.
unfoldable pub new_mount : ℕ → Mount
new_mount fd = record {
  fd = fd;
  cur_event = 0;
  cancel_flag = false;
  tigger_event_map = assign reactor_activate_event_write true [];
  unit_map = [];
}

-- A NULL unit is `none`.
unfoldable pub add_unit : Option ℕ → ℕ → Mount → Bool × Mount
add_unit none event m = (false, m)
add_unit (some u) event m =
    if event == reactor_activate_event_error
    then (false, m)
    else if m.cancel_flag
    then (true, m)
    else (true, record m { unit_map = assign event u m.unit_map })

-- `event & (bit | REACTOR_ACTIVATE_EVENT_ERROR)`
abbrev pub touches : ℕ → ℕ → Bool
touches event bit = has_bit event bit || has_bit event reactor_activate_event_error

-- The triggers that runEventOp sets.
unfoldable pub set_triggers : ℕ → Map Bool → Map Bool
set_triggers event t =
    if touches event reactor_activate_event_read
    then assign reactor_activate_event_read true t
    else if touches event reactor_activate_event_write
    then assign reactor_activate_event_write true t
    else t

-- The loop of runEventOp: the units of the events that are touched, and the others.
unfoldable pub take_touched : ℕ → Map ℕ → List ℕ × Map ℕ
take_touched event [] = ([], [])
take_touched event ((bit, u) ∷ m) =
    let rest = take_touched event m in
    if touches event bit then (u ∷ rest.0, rest.1) else (rest.0, (bit, u) ∷ rest.1)

unfoldable pub run_event_op : List ℕ → ℕ → Mount → List ℕ × Mount
run_event_op task_list event m =
    if m.cancel_flag
    then (task_list, m)
    else let taken = take_touched event m.unit_map in
      (
        task_list ++ taken.0,
        record m { tigger_event_map = set_triggers event m.tigger_event_map; unit_map = taken.1 },
      )

unfoldable pub get_trigger : Option Bool → Bool
get_trigger none = false
get_trigger (some b) = b

-- getTiggerEvent
unfoldable pub get_tigger_event : ℕ → Mount → Bool
unfolding get_trigger
get_tigger_event event m = get_trigger (find event m.tigger_event_map)

-- runIOFunc, by what the function returns.
unfoldable pub run_io_func : ℕ → Bool → Mount → Bool × Mount
run_io_func event io_result m =
    if m.cancel_flag
    then (true, m)
    else if io_result
    then (true, m)
    else (false, record m { tigger_event_map = erase event m.tigger_event_map })

-- cancelUnits, up to the call of delEvent.
unfoldable pub cancel_units : Mount → Mount
cancel_units m = record m { cancel_flag = true; tigger_event_map = []; unit_map = [] }

-- The calls of epoll_ctl, with the events that they ask for.
pub data EpollCtl : Type 0 where
  ctl_add ctl_mod : ℕ → ℕ → EpollCtl
  ctl_del : ℕ → EpollCtl

-- The event is watched, if it was not: the socket is added the first time. No mutex is held here;
-- the test and the change of m_curEvent are one step.
unfoldable pub watch : ℕ → Mount → List EpollCtl × Mount
watch bit m =
    if has_bit m.cur_event bit
    then ([], m)
    else if m.cur_event == 0
    then (ctl_add m.fd (bit + epoll_always) ∷ [], record m { cur_event = bit + epoll_always })
    else (ctl_mod m.fd (m.cur_event + bit) ∷ [], record m { cur_event = m.cur_event + bit })

-- The event that epoll is asked for.
unfoldable pub event_bit : ℕ → ℕ
event_bit event = if event == reactor_activate_event_read then epoll_in else epoll_out
