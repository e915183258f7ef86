-- ===== src/Utils/TimeManager.antt =====
-- utils/time_manager.cpp: timers on one thread. A TimerBase is known by its address, a number, and
-- the function that it runs by another. What the functions of the program do to the timers is the
-- argument `body`: each is a list of the calls that it makes.
pub mod Kept
pub mod Spec
pub mod Says
pub mod Ticks
use integration_server.Prelude.{
  ℕ, ◌+◌, ◌-◌, ◌^◌, ◌%◌, Bool, true, false, List, [], ◌∷◌, ◌++◌, Option, none, some, ltb, ◌==◌,
  if◌then◌else◌,
}
use integration_server.Utils.TimedQueue.{put}

pub record TimerBase : Type 0 where
  pub over : Bool
  pub func : Option ℕ
  pub start : ℕ

abbrev pub new_timer : TimerBase
new_timer = record { over = false; func = none; start = 0 }

-- `armed` is m_timer, and `waits` counts the async_wait whose handler has not run; `runs` holds the
-- functions that were run, and `bad_calls` the calls of an empty function.
pub record TimerManager : Type 0 where
  pub timer_map : List (ℕ × ℕ)
  pub timers : ℕ → TimerBase
  pub armed : Bool
  pub waits : ℕ
  pub runs : List ℕ
  pub bad_calls : ℕ

unfoldable pub set_timer : ℕ → TimerBase → TimerManager → TimerManager
set_timer p t m = record m { timers = λ q. if q == p then t else m.timers q }

unfoldable pub registrate : ℕ → TimerManager → TimerManager
registrate p m = record m { timer_map = put (m.timers p).start p m.timer_map }

-- int32 and uint32 are added as uint32.
unfoldable pub after_func : ℕ → ℕ → ℕ → Option ℕ → TimerManager → TimerManager
unfolding registrate set_timer
after_func now seconds p none m = m
after_func now seconds p (some f) m =
    registrate p
      (set_timer p (record (m.timers p) { start = (now + seconds) % 2 ^ 32; func = some f }) m)

-- TimerBase::cancel
unfoldable pub cancel_timer : ℕ → TimerManager → TimerManager
unfolding set_timer
cancel_timer p m = set_timer p (record (m.timers p) { over = true }) m

-- A call that a function of the program makes, at the time `now`.
pub data Command : Type 0 where
  after_func_of : ℕ → ℕ → Option ℕ → Command
  cancel_of : ℕ → Command

unfoldable pub command : ℕ → Command → TimerManager → TimerManager
command now (after_func_of seconds p f) m = after_func now seconds p f m
command now (cancel_of p) m = cancel_timer p m

unfoldable pub commands : ℕ → List Command → TimerManager → TimerManager
commands now [] m = m
commands now (c ∷ cs) m = commands now cs (command now c m)

unfoldable pub init : TimerManager → TimerManager
init m = record m { armed = true; waits = m.waits + 1 }

-- TimerManager::cancel
unfoldable pub cancel : TimerManager → TimerManager
cancel m = if m.armed then record m { timer_map = []; armed = false } else m

-- The loop of onTimer that takes the timers whose time has come, up to the first other one.
unfoldable pub take_due : ℕ → List (ℕ × ℕ) → List ℕ × List (ℕ × ℕ)
take_due now [] = ([], [])
take_due now ((s, p) ∷ q) =
    let rest = take_due now q in if ltb now s then ([], (s, p) ∷ q) else (p ∷ rest.0, rest.1)

module _ (body : ℕ → List Command) where
  unfoldable pub run_func : ℕ → Option ℕ → TimerManager → TimerManager
  run_func now none m = record m { bad_calls = m.bad_calls + 1 }
  run_func now (some f) m = commands now (body f) (record m { runs = m.runs ++ f ∷ [] })

  -- TimerBase::doComplete
  unfoldable pub do_complete : ℕ → ℕ → TimerManager → TimerManager
  do_complete now p m =
      if (m.timers p).over
      then m
      else let m' = run_func now (m.timers p).func m in
        set_timer p (record (m'.timers p) { start = 0 }) m'

  unfoldable pub complete_all : ℕ → List ℕ → TimerManager → TimerManager
  complete_all now [] m = m
  complete_all now (p ∷ ps) m = complete_all now ps (do_complete now p m)

  unfoldable pub rearm : TimerManager → TimerManager
  rearm m = if m.armed then record m { waits = m.waits + 1 } else m

  -- onTimer without an error.
  unfoldable pub tick : ℕ → TimerManager → TimerManager
  tick now m =
      let r = take_due now m.timer_map in
      rearm (complete_all now r.0 (record m { timer_map = r.1 }))

  -- The handler of async_wait, by whether it reports an error.
  unfoldable pub on_timer : Bool → ℕ → TimerManager → TimerManager
  on_timer failed now m =
      let m' : TimerManager = record m { waits = m.waits - 1 } in if failed then m' else tick now m'
