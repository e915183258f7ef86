-- ===== src/Utils/ReactorTimer.antt =====
-- utils/reactor_timer.cpp: timers that the reactor of a scheduler polls. A ReactorTimer is a number;
-- a unit is the timer that made it and the function that it wraps. The two maps are shared by all
-- timers.
pub mod View
pub mod Refine
use integration_server.Prelude.{
  ℕ, ◌+◌, ◌^◌, ◌%◌, Bool, true, false, List, [], ◌∷◌, ◌++◌, Option, none, some, ltb, ◌==◌,
  if◌then◌else◌,
}
use integration_server.Prelude.Map.{Map, find, assign, update}

pub record TimerUnit : Type 0 where
  pub timer : ℕ
  pub func : ℕ

pub record ReactorTimer : Type 0 where
  pub sec_unit_map : Map (List TimerUnit)
  pub ms_unit_map : Map (List TimerUnit)
  pub cancel_sign : ℕ → Bool

-- The second half of expiresFunc and of expiresFuncByMs.
unfoldable pub add_unit : ℕ → TimerUnit → Map (List TimerUnit) → Map (List TimerUnit)
add_unit next u m = elim (find next m) [
  | none ↦ assign next (u ∷ []) m
  | some us ↦ update next (λ us. us ++ u ∷ []) m
]

unfoldable pub expires_func : ℕ → ℕ → TimerUnit → ReactorTimer → ReactorTimer
expires_func sys_seconds seconds u r = record r {
  sec_unit_map = add_unit ((sys_seconds + seconds) % 2 ^ 32) u r.sec_unit_map;
}

unfoldable pub expires_func_by_ms : ℕ → ℕ → TimerUnit → ReactorTimer → ReactorTimer
expires_func_by_ms sys_ms milliseconds u r = record r {
  ms_unit_map = add_unit ((sys_ms + milliseconds) % 2 ^ 64) u r.ms_unit_map;
}

unfoldable pub cancel_func : ℕ → ReactorTimer → ReactorTimer
cancel_func t r = record r { cancel_sign = λ s. if s == t then true else r.cancel_sign s }

-- The function that a unit wraps: what it runs, if its timer was not cancelled.
unfoldable pub timer_func : TimerUnit → ReactorTimer → List ℕ
timer_func u r = if r.cancel_sign u.timer then [] else u.func ∷ []

-- A loop of getTimerTask: it stops at the first time that has not come.
unfoldable pub take_units : ℕ → Map (List TimerUnit) → List TimerUnit × Map (List TimerUnit)
take_units now [] = ([], [])
take_units now ((s, us) ∷ m) =
    let rest = take_units now m in if ltb now s then ([], (s, us) ∷ m) else (us ++ rest.0, rest.1)

unfoldable pub get_timer_task :
    ℕ → ℕ → List TimerUnit → ReactorTimer → List TimerUnit × ReactorTimer
get_timer_task sys_now sys_now_ms task_list r =
    let s = take_units sys_now r.sec_unit_map in
    let m = take_units sys_now_ms r.ms_unit_map in
    ((task_list ++ s.0) ++ m.0, record r { sec_unit_map = s.1; ms_unit_map = m.1 })
