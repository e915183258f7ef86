-- ===== src/Network/Acceptor.antt =====
-- boost_network/acceptor.cpp: the server side of connections. A TcpSocket is the number of sockets
-- made before it. What the Acceptor asks of boost.asio, of its sockets and of its IoCallback is kept
-- in a list. A body posted to the strand is one function, and so is the handler of a completed
-- async_accept.
pub mod Owned
use integration_server.Prelude.{
  ℕ, ◌+◌, ◌-◌, Bool, true, false, List, [], ◌∷◌, ◌++◌, Option, none, some, ltb, ◌==◌, if◌then◌else◌,
}
use integration_server.Network.Connector.{Ec, no_error, operation_aborted, other_error}

pub data AcceptorCall : Type 0 where
  async_accept close_acceptor : AcceptorCall
  on_new_accept start_read close_socket on_close : ℕ → AcceptorCall

-- `accepting` counts the async_accept whose handler has not run.
pub record Acceptor : Type 0 where
  pub is_open : Bool
  pub socket_vec : List ℕ
  pub made : ℕ
  pub accepting : ℕ
  pub calls : List AcceptorCall

unfoldable pub new_acceptor : Acceptor
new_acceptor = record { is_open = false; socket_vec = []; made = 0; accepting = 0; calls = [] }

abbrev pub called : List AcceptorCall → Acceptor → Acceptor
called cs a = record a { calls = a.calls ++ cs }

unfoldable pub accept : Acceptor → Acceptor
accept a = called (async_accept ∷ []) (record a { accepting = a.accepting + 1 })

-- Where the system calls of listen throw: before the acceptor is open, after that, or nowhere.
pub data ListenResult : Type 0 where
  not_resolved not_bound listening : ListenResult

unfoldable pub listen : ListenResult → Acceptor → Bool × Acceptor
listen not_resolved a = (false, a)
listen not_bound a = (false, record a { is_open = true })
listen listening a = (true, accept (record a { is_open = true }))

-- A new socket goes into the list, to the callback, and starts to read.
unfoldable pub accepted : Acceptor → Acceptor
accepted a =
    called (on_new_accept a.made ∷ start_read a.made ∷ [])
      (record a { socket_vec = a.socket_vec ++ a.made ∷ []; made = a.made + 1 })

-- The handler of async_accept, past its first two tests.
unfoldable pub accept_next : Ec → Acceptor → Acceptor
accept_next no_error a = accept (accepted a)
accept_next operation_aborted a = a
accept_next other_error a = accept a

unfoldable pub on_accepted : Ec → Acceptor → Acceptor
on_accepted ec a =
    let b : Acceptor = record a { accepting = a.accepting - 1 } in
    if a.is_open then accept_next ec b else b

-- std::find_if, and erase at its place.
unfoldable pub find_socket : ℕ → List ℕ → Bool
find_socket s [] = false
find_socket s (t ∷ ts) = if s == t then true else find_socket s ts

unfoldable pub erase_socket : ℕ → List ℕ → List ℕ
erase_socket s [] = []
erase_socket s (t ∷ ts) = if s == t then ts else t ∷ erase_socket s ts

-- The common text of onActiveSocketClose and onPassiveSocketClose: a socket of the list takes its
-- leave by `leave`.
unfoldable pub drop_socket : AcceptorCall → ℕ → Acceptor → Acceptor
drop_socket leave s a =
    if find_socket s a.socket_vec
    then record (called (leave ∷ []) a) { socket_vec = erase_socket s a.socket_vec }
    else a

-- A NULL socket is `none`.
unfoldable pub on_active_socket_close : Option ℕ → Acceptor → Acceptor
on_active_socket_close none a = a
on_active_socket_close (some s) a = drop_socket (close_socket s) s a

unfoldable pub on_passive_socket_close : Option ℕ → Acceptor → Acceptor
on_passive_socket_close none a = a
on_passive_socket_close (some s) a = drop_socket (on_close s) s a

unfoldable pub stop : Acceptor → Acceptor
stop a = if a.is_open then called (close_acceptor ∷ []) (record a { is_open = false }) else a

unfoldable pub close_all : List ℕ → List AcceptorCall
close_all [] = []
close_all (s ∷ ss) = close_socket s ∷ close_all ss

unfoldable pub clear : Acceptor → Acceptor
clear a = record (called (close_all a.socket_vec) a) { socket_vec = [] }

pub data Event : Type 0 where
  accept_done : Ec → Event
  active_close passive_close : Option ℕ → Event
  stop_posted clear_posted : Event

-- A handler runs once for each async_accept.
unfoldable pub is_enabled : Event → Acceptor → Bool
is_enabled (accept_done ec) a = ltb 0 a.accepting
is_enabled (active_close s) a = true
is_enabled (passive_close s) a = true
is_enabled stop_posted a = true
is_enabled clear_posted a = true

unfoldable pub handle : Event → Acceptor → Acceptor
handle (accept_done ec) a = on_accepted ec a
handle (active_close s) a = on_active_socket_close s a
handle (passive_close s) a = on_passive_socket_close s a
handle stop_posted a = stop a
handle clear_posted a = clear a
