-- ===== src/Network/Connector/Reach.antt =====
-- What a Connector can come to, by any order of events.
use integration_server.Prelude.{
  ℕ, ◌+◌, ◌-◌, ◌≤◌, ◌<◌, ◌≡◌, refl, sym, subst, inl, inr, true, false, List, [], ◌∷◌, ◌++◌, Option,
  none, some, arith, ◌==◌, Bool-cases, ltb→lt,
}
use integration_server.Network.Connector.{
  Connector, Ec, no_error, operation_aborted, other_error, ConnectorCall, async_connect,
  shutdown_new_socket, close_new_socket, cancel_new_socket, cancel_timer, on_connect, start_read,
  called, connect, reconnect, new_connector, connected, on_connected, drop_socket,
  on_active_socket_close, on_passive_socket_close, cancel_connect, stop, clear_socket, clear,
  close_socket, on_close, Event, connect_done, timer_done, active_close, passive_close, stop_posted,
  clear_posted, is_enabled, handle,
}

pub data Reaches (time : ℕ) : Connector → Type 0 where
  started : Reaches time (new_connector time)
  next :
      (e : Event) (c : Connector)
      → is_enabled e c ≡ true
      → Reaches time c
      → Reaches time (handle e c)

-- The current socket, if there is one, has been made.
abbrev HasMade : Option ℕ → ℕ → Type 0
HasMade none n = 0 ≤ n
HasMade (some s) n = s < n

unfoldable tried : ConnectorCall → ℕ
tried async_connect = 1
tried _ = 0

-- How many connections were tried.
unfoldable pub connect_count : List ConnectorCall → ℕ
unfolding tried
connect_count [] = 0
connect_count (x ∷ xs) = tried x + connect_count xs

connect_count-append :
    (xs ys : List ConnectorCall) → connect_count (xs ++ ys) ≡ connect_count xs + connect_count ys
unfolding connect_count tried
connect_count-append [] ys = omega arith
connect_count-append (x ∷ xs) ys = omega (arith, connect_count-append xs ys)

-- No reconnection is on its way, and one connection was tried.
pub record OneTry (c : Connector) : Type 0 where
  pub unstarted : c.start_sign ≡ false
  pub idle : c.waiting ≡ 0
  pub once : c.made + c.connecting ≤ 1
  pub current : HasMade c.socket_ptr c.made
  pub tries : connect_count c.calls ≡ 1

reconnect-off : (c : Connector) → c.start_sign ≡ false → reconnect c ≡ c
unfolding reconnect
reconnect-off c h = ground (arith, h)

-- Calls that try no connection.
quiet :
    (cs : List ConnectorCall) (c : Connector)
    → connect_count cs ≡ 0
    → OneTry c
    → OneTry (called cs c)
quiet cs c h o = record {
  unstarted = o.unstarted;
  idle = o.idle;
  once = o.once;
  current = o.current;
  tries = omega (arith, h, o.tries, connect_count-append c.calls cs);
}

without_socket : (c : Connector) → OneTry c → OneTry (record c { socket_ptr = none })
without_socket c o = record {
  unstarted = o.unstarted;
  idle = o.idle;
  once = o.once;
  current = omega arith;
  tries = o.tries;
}

handled : (c : Connector) → OneTry c → OneTry (record c { connecting = c.connecting - 1 })
handled c o = record {
  unstarted = o.unstarted;
  idle = o.idle;
  once = omega (arith, o.once);
  current = o.current;
  tries = o.tries;
}

connected-OneTry :
    (c : Connector)
    → 0 < c.connecting
    → OneTry c
    → OneTry (connected (record c { connecting = c.connecting - 1 }))
unfolding connected connect_count tried
connected-OneTry c h o =
    quiet (on_connect c.made ∷ start_read c.made ∷ [])
      (record c { connecting = c.connecting - 1; socket_ptr = some c.made; made = c.made + 1 }) refl
      (record {
        unstarted = o.unstarted;
        idle = o.idle;
        once = omega (arith, h, o.once);
        current = omega arith;
        tries = o.tries;
      })

on_connected-OneTry :
    (ec : Ec) (c : Connector) → 0 < c.connecting → OneTry c → OneTry (on_connected ec c)
unfolding on_connected connect_count tried
on_connected-OneTry no_error c h o = connected-OneTry c h o
on_connected-OneTry operation_aborted c h o =
    quiet (shutdown_new_socket ∷ close_new_socket ∷ []) (record c { connecting = c.connecting - 1 })
      refl (handled c o)
on_connected-OneTry other_error c h o =
    let d : Connector =
      called (shutdown_new_socket ∷ close_new_socket ∷ [])
        (record c { connecting = c.connecting - 1 }) in
    subst OneTry (sym (reconnect-off d o.unstarted)) (
      quiet (shutdown_new_socket ∷ close_new_socket ∷ [])
        (record c { connecting = c.connecting - 1 }) refl (handled c o))

drop_socket-OneTry :
    (leave : ℕ → ConnectorCall) (s : ℕ) (p : Option ℕ) (c : Connector)
    → connect_count (leave s ∷ []) ≡ 0
    → OneTry c
    → OneTry (drop_socket leave s p c)
unfolding drop_socket
drop_socket-OneTry leave s none c h o = o
drop_socket-OneTry leave s (some current) c h o =
    let d : Connector = record (called (leave s ∷ []) c) { socket_ptr = none } in
    elim (Bool-cases (s == current)) [
      | inr e ↦ rw e o
      | inl e ↦ rw e (
          subst OneTry (sym (reconnect-off d o.unstarted))
            (without_socket (called (leave s ∷ []) c) (quiet (leave s ∷ []) c h o)))
    ]

cancel_connect-OneTry : (p : Option ℕ) (c : Connector) → OneTry c → OneTry (cancel_connect p c)
unfolding cancel_connect connect_count tried
cancel_connect-OneTry none c o = quiet (cancel_new_socket ∷ []) c refl o
cancel_connect-OneTry (some s) c o = o

pub stop-OneTry : (c : Connector) → OneTry c → OneTry (stop c)
unfolding stop connect_count tried
stop-OneTry c o =
    let d : Connector = record c { start_sign = false } in
    let o' : OneTry d = record {
      unstarted = refl;
      idle = o.idle;
      once = o.once;
      current = o.current;
      tries = o.tries;
    } in
    quiet (cancel_timer ∷ []) (cancel_connect c.socket_ptr d) refl
      (cancel_connect-OneTry c.socket_ptr d o')

clear_socket-OneTry : (p : Option ℕ) (c : Connector) → OneTry c → OneTry (clear_socket p c)
unfolding clear_socket connect_count tried
clear_socket-OneTry none c o = o
clear_socket-OneTry (some s) c o =
    without_socket (called (close_socket s ∷ []) c) (quiet (close_socket s ∷ []) c refl o)

pub handle-OneTry :
    (e : Event) (c : Connector) → is_enabled e c ≡ true → OneTry c → OneTry (handle e c)
unfolding handle is_enabled on_active_socket_close on_passive_socket_close clear connect_count tried
handle-OneTry (connect_done ec) c h o = on_connected-OneTry ec c (ltb→lt 0 c.connecting h) o
handle-OneTry (timer_done ec) c h o = absurd (ground (arith, h, o.idle))
handle-OneTry (active_close none) c h o = o
handle-OneTry (active_close (some s)) c h o =
    drop_socket-OneTry close_socket s c.socket_ptr c refl o
handle-OneTry (passive_close none) c h o = o
handle-OneTry (passive_close (some s)) c h o = drop_socket-OneTry on_close s c.socket_ptr c refl o
handle-OneTry stop_posted c h o = stop-OneTry c o
handle-OneTry clear_posted c h o = clear_socket-OneTry c.socket_ptr c o

pub new_connector-OneTry : (time : ℕ) → OneTry (new_connector time)
unfolding new_connector connect connect_count tried
new_connector-OneTry time = record {
  unstarted = refl;
  idle = refl;
  once = omega arith;
  current = omega arith;
  tries = refl;
}

-- After any sequence of events on a new Connector, each of whose handlers runs at most once for
-- each operation that was started, one async_connect was called, no timer is waited for,
-- m_startSign is false, at most one socket was made or is being connected, and m_socketPtr is NULL
-- or a socket that was made.
pub Reaches-OneTry : (time : ℕ) (c : Connector) → Reaches time c → OneTry c
Reaches-OneTry time _ started = new_connector-OneTry time
Reaches-OneTry time _ (next e c h r) = handle-OneTry e c h (Reaches-OneTry time c r)
