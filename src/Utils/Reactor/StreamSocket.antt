-- ===== src/Utils/Reactor/StreamSocket.antt =====
-- utils/stream_socket.hpp: the asynchronous operations of a socket on its mount. A socket has one
-- operation for each direction at most; its unit has the number of the event that it waits for, and
-- that of asyncConnect is 0. What the system call of an operation returns is its argument.
pub mod Holds
pub mod Units
pub mod Waits
pub mod Lost
pub mod Once
use integration_server.Prelude.{
  ℕ, ◌+◌, ◌≡◌, Bool, true, false, List, [], ◌∷◌, ◌++◌, if◌then◌else◌, count, some,
}
use integration_server.Prelude.Map.{keys}
use integration_server.Utils.Reactor.Mount.{
  reactor_activate_event_read, reactor_activate_event_write, Mount, new_mount, run_event_op,
  add_unit, get_tigger_event, run_io_func, cancel_units, EpollCtl, watch, event_bit,
}

-- `io_again` is EAGAIN; the number is that of the bytes, or the descriptor that accept returns.
pub data IoResult : Type 0 where
  io_again io_error : IoResult
  io_done : ℕ → IoResult

-- What a handler is told. After cancelUnits it is told no error and a number that was never set.
pub data Outcome : Type 0 where
  finished : IoResult → Outcome
  never_run : Outcome

-- The units of the threads that are in startEvent stand before its test of the trigger, before its
-- call of epoll_ctl, or before its addUnit. The posted units are with the scheduler, or on their way.
pub record StreamSocket : Type 0 where
  pub mount : Mount
  pub testing : List ℕ
  pub watching : List ℕ
  pub adding : List ℕ
  pub posted : List ℕ
  pub ctls : List EpollCtl
  pub started : List ℕ
  pub handled : List (ℕ × Outcome)

unfoldable pub new_stream : ℕ → StreamSocket
new_stream fd = record {
  mount = new_mount fd;
  testing = [];
  watching = [];
  adding = [];
  posted = [];
  ctls = [];
  started = [];
  handled = [];
}

-- The last line of the asynchronous operations: the thread is in startEvent.
unfoldable pub submit : ℕ → StreamSocket → StreamSocket
submit event s = record s { testing = s.testing ++ event ∷ [] }

-- startEvent up to its first branch: the unit is posted, when the trigger is set.
unfoldable pub test_event : ℕ → StreamSocket → StreamSocket
test_event event s =
    if get_tigger_event event s.mount
    then record s { posted = s.posted ++ event ∷ [] }
    else record s { watching = s.watching ++ event ∷ [] }

-- startEvent up to its addUnit.
unfoldable pub watch_event : ℕ → StreamSocket → StreamSocket
watch_event event s =
    let w = watch (event_bit event) s.mount in
    record s { mount = w.1; ctls = s.ctls ++ w.0; adding = s.adding ++ event ∷ [] }

-- The addUnit of startEvent.
unfoldable pub add_event : ℕ → StreamSocket → StreamSocket
add_event event s = record s { mount = (add_unit (some event) event s.mount).1 }

unfoldable pub async_read_data : StreamSocket → StreamSocket
async_read_data s =
    submit reactor_activate_event_read
      (record s { started = s.started ++ reactor_activate_event_read ∷ [] })

unfoldable pub async_write_data : StreamSocket → StreamSocket
async_write_data s =
    submit reactor_activate_event_write
      (record s { started = s.started ++ reactor_activate_event_write ∷ [] })

unfoldable pub async_accept : StreamSocket → StreamSocket
async_accept s =
    submit reactor_activate_event_read
      (record s { started = s.started ++ reactor_activate_event_read ∷ [] })

-- What IOFunc returns: whether the operation is over.
unfoldable pub io_func : IoResult → Bool
io_func io_again = false
io_func io_error = true
io_func (io_done n) = true

abbrev pub outcome : Bool → IoResult → Outcome
outcome cancelled r = if cancelled then never_run else finished r

-- netFunc, the unit of an operation: by what runIOFunc returns, the handler is called, or the
-- operation is started again.
unfoldable pub net_func : ℕ → IoResult → StreamSocket → StreamSocket
net_func event r s =
    let io = run_io_func event (io_func r) s.mount in
    if io.0
    then record s {
      mount = io.1;
      handled = s.handled ++ (event, outcome s.mount.cancel_flag r) ∷ [];
    }
    else submit event (record s { mount = io.1 })

-- asyncConnect posts its unit at once, and that calls the handler.
unfoldable pub async_connect : StreamSocket → StreamSocket
async_connect s = record s { posted = s.posted ++ 0 ∷ []; started = s.started ++ 0 ∷ [] }

unfoldable pub connect_func : IoResult → StreamSocket → StreamSocket
connect_func r s = record s { handled = s.handled ++ (0, finished r) ∷ [] }

-- A poll that reports events for the socket.
unfoldable pub poll : ℕ → StreamSocket → StreamSocket
poll event s =
    let r = run_event_op [] event s.mount in record s { mount = r.1; posted = s.posted ++ r.0 }

unfoldable pub cancel : StreamSocket → StreamSocket
cancel s = record s { mount = cancel_units s.mount }

-- The units of an event that are not in the mount.
abbrev pub away : StreamSocket → ℕ → ℕ
away s event =
    count event s.testing + count event s.watching + count event s.adding + count event s.posted

-- The operations for an event that are not over, as far as a unit of theirs is there.
abbrev pub pending : ℕ → StreamSocket → ℕ
pending event s = away s event + count event (keys s.mount.unit_map)

-- What the program, the threads of the scheduler and the reactor do.
pub data Step (s : StreamSocket) : StreamSocket → Type 0 where
  connects : pending 0 s ≡ 0 → Step s (async_connect s)
  reads : pending reactor_activate_event_read s ≡ 0 → Step s (async_read_data s)
  writes : pending reactor_activate_event_write s ≡ 0 → Step s (async_write_data s)
  accepts : pending reactor_activate_event_read s ≡ 0 → Step s (async_accept s)
  runs_connect :
      (xs ys : List ℕ) (r : IoResult)
      → s.posted ≡ xs ++ 0 ∷ ys
      → Step s (connect_func r (record s { posted = xs ++ ys }))
  runs_read :
      (xs ys : List ℕ) (r : IoResult)
      → s.posted ≡ xs ++ reactor_activate_event_read ∷ ys
      → Step s (net_func reactor_activate_event_read r (record s { posted = xs ++ ys }))
  runs_write :
      (xs ys : List ℕ) (r : IoResult)
      → s.posted ≡ xs ++ reactor_activate_event_write ∷ ys
      → Step s (net_func reactor_activate_event_write r (record s { posted = xs ++ ys }))
  tests :
      (xs ys : List ℕ) (event : ℕ)
      → s.testing ≡ xs ++ event ∷ ys
      → Step s (test_event event (record s { testing = xs ++ ys }))
  watches :
      (xs ys : List ℕ) (event : ℕ)
      → s.watching ≡ xs ++ event ∷ ys
      → Step s (watch_event event (record s { watching = xs ++ ys }))
  adds_read :
      (xs ys : List ℕ)
      → s.adding ≡ xs ++ reactor_activate_event_read ∷ ys
      → Step s (add_event reactor_activate_event_read (record s { adding = xs ++ ys }))
  adds_write :
      (xs ys : List ℕ)
      → s.adding ≡ xs ++ reactor_activate_event_write ∷ ys
      → Step s (add_event reactor_activate_event_write (record s { adding = xs ++ ys }))
  polls : (event : ℕ) → Step s (poll event s)
  cancels : Step s (cancel s)
