-- ===== src/Network/Connector.antt =====
-- boost_network/connector.cpp: the client side of a connection. A TcpSocket is the number of
-- sockets made before it. What the Connector asks of boost.asio, of its sockets and of its
-- IoCallback is kept in a list. A body posted to the strand is one function, and so is the handler
-- of a completed async_connect or async_wait, with what boost.asio reports as its argument.
pub mod Reach
use integration_server.Prelude.{
  ℕ, ◌+◌, ◌-◌, Bool, true, false, not, List, [], ◌∷◌, ◌++◌, Option, none, some, ltb, ◌==◌,
  if◌then◌else◌,
}

-- The error codes that the handlers tell apart.
pub data Ec : Type 0 where
  no_error operation_aborted other_error : Ec

pub data ConnectorCall : Type 0 where
  async_connect shutdown_new_socket close_new_socket cancel_new_socket cancel_timer : ConnectorCall
  expires_from_now : ℕ → ConnectorCall
  async_wait : ConnectorCall
  on_connect on_close start_read close_socket : ℕ → ConnectorCall

-- `connecting` and `waiting` count the async_connect and async_wait whose handlers have not run.
pub record Connector : Type 0 where
  pub socket_ptr : Option ℕ
  pub reconnect_time : ℕ
  pub start_sign : Bool
  pub made : ℕ
  pub connecting : ℕ
  pub waiting : ℕ
  pub calls : List ConnectorCall

abbrev pub called : List ConnectorCall → Connector → Connector
called cs c = record c { calls = c.calls ++ cs }

unfoldable pub connect : Connector → Connector
connect c = called (async_connect ∷ []) (record c { connecting = c.connecting + 1 })

unfoldable pub reconnect : Connector → Connector
reconnect c =
    if c.reconnect_time == 0
    then c
    else if not c.start_sign
    then c
    else called (expires_from_now c.reconnect_time ∷ async_wait ∷ [])
        (record c { waiting = c.waiting + 1 })

-- The constructor.
unfoldable pub new_connector : ℕ → Connector
new_connector time = connect (record {
  socket_ptr = none;
  reconnect_time = time;
  start_sign = false;
  made = 0;
  connecting = 0;
  waiting = 0;
  calls = [];
})

-- A new TcpSocket takes the place of the old one, and starts to read.
unfoldable pub connected : Connector → Connector
connected c =
    called (on_connect c.made ∷ start_read c.made ∷ [])
      (record c { socket_ptr = some c.made; made = c.made + 1 })

-- The handler of async_connect.
unfoldable pub on_connected : Ec → Connector → Connector
on_connected no_error c = connected (record c { connecting = c.connecting - 1 })
on_connected operation_aborted c =
    called (shutdown_new_socket ∷ close_new_socket ∷ [])
      (record c { connecting = c.connecting - 1 })
on_connected other_error c = reconnect (
    called (shutdown_new_socket ∷ close_new_socket ∷ [])
      (record c { connecting = c.connecting - 1 }))

-- The handler of async_wait.
unfoldable pub on_timer : Ec → Connector → Connector
on_timer no_error c = connect (record c { waiting = c.waiting - 1 })
on_timer operation_aborted c = record c { waiting = c.waiting - 1 }
on_timer other_error c = record c { waiting = c.waiting - 1 }

-- The common text of onActiveSocketClose and onPassiveSocketClose: the current socket takes its
-- leave by `leave`.
unfoldable pub drop_socket : (ℕ → ConnectorCall) → ℕ → Option ℕ → Connector → Connector
drop_socket leave s none c = c
drop_socket leave s (some current) c =
    if s == current then reconnect (record (called (leave s ∷ []) c) { socket_ptr = none }) else c

-- A NULL socket is `none`.
unfoldable pub on_active_socket_close : Option ℕ → Connector → Connector
on_active_socket_close none c = c
on_active_socket_close (some s) c = drop_socket close_socket s c.socket_ptr c

unfoldable pub on_passive_socket_close : Option ℕ → Connector → Connector
on_passive_socket_close none c = c
on_passive_socket_close (some s) c = drop_socket on_close s c.socket_ptr c

-- The socket operation of stop: it is cancelled while there is no connection.
unfoldable pub cancel_connect : Option ℕ → Connector → Connector
cancel_connect none c = called (cancel_new_socket ∷ []) c
cancel_connect (some s) c = c

unfoldable pub stop : Connector → Connector
stop c = called (cancel_timer ∷ []) (cancel_connect c.socket_ptr (record c { start_sign = false }))

unfoldable pub clear_socket : Option ℕ → Connector → Connector
clear_socket none c = c
clear_socket (some s) c = record (called (close_socket s ∷ []) c) { socket_ptr = none }

unfoldable pub clear : Connector → Connector
clear c = clear_socket c.socket_ptr c

pub data Event : Type 0 where
  connect_done timer_done : Ec → Event
  active_close passive_close : Option ℕ → Event
  stop_posted clear_posted : Event

-- A handler runs once for each operation that was started.
unfoldable pub is_enabled : Event → Connector → Bool
is_enabled (connect_done ec) c = ltb 0 c.connecting
is_enabled (timer_done ec) c = ltb 0 c.waiting
is_enabled (active_close s) c = true
is_enabled (passive_close s) c = true
is_enabled stop_posted c = true
is_enabled clear_posted c = true

unfoldable pub handle : Event → Connector → Connector
handle (connect_done ec) c = on_connected ec c
handle (timer_done ec) c = on_timer ec c
handle (active_close s) c = on_active_socket_close s c
handle (passive_close s) c = on_passive_socket_close s c
handle stop_posted c = stop c
handle clear_posted c = clear c
