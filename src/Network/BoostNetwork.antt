-- ===== src/Network/BoostNetwork.antt =====
-- boost_network/network.cpp: the acceptors by port and the connectors of a process. A call that posts
-- to a strand is taken with the run of the body that it posts. A socket is known by its IoInterface
-- and its number there.
pub mod Listen
pub mod Close
use integration_server.Prelude.{
  ℕ, zero, suc, Bool, true, false, List, [], ◌∷◌, ◌++◌, map, Option, none, some, ◌==◌,
  if◌then◌else◌,
}
use integration_server.Prelude.Map.{Map, find, insert, update}
use integration_server.Network.Acceptor.{Acceptor, new_acceptor, ListenResult, listen}
use integration_server.Network.Acceptor
use integration_server.Network.Connector.{Connector, new_connector}
use integration_server.Network.Connector

pub record BoostNetwork : Type 0 where
  pub has_work : Bool
  pub threads : ℕ
  pub listen_map : Map Acceptor
  pub connect_vec : List Connector

unfoldable pub new_network : BoostNetwork
new_network = record { has_work = false; threads = 0; listen_map = []; connect_vec = [] }

unfoldable pub init : ℕ → BoostNetwork → Bool × BoostNetwork
init thread_num n =
    if thread_num == 0
    then (false, n)
    else (true, record n { has_work = true; threads = thread_num })

-- listenAt past its tests, by what listen returns.
unfoldable pub add_listener : ℕ → Bool × Acceptor → BoostNetwork → Bool × BoostNetwork
add_listener port (true, a) n = (true, record n { listen_map = insert port a n.listen_map })
add_listener port (false, a) n = (false, n)

unfoldable pub listen_new :
    ℕ → Bool → ListenResult → Option Acceptor → BoostNetwork → Bool × BoostNetwork
listen_new port has_callback r (some a) n = (false, n)
listen_new port has_callback r none n =
    if has_callback then add_listener port (listen r new_acceptor) n else (false, n)

unfoldable pub listen_at : ℕ → Bool → ListenResult → BoostNetwork → Bool × BoostNetwork
unfolding listen_new
listen_at port has_callback r n = listen_new port has_callback r (find port n.listen_map) n

unfoldable pub connect_to : Bool → ℕ → BoostNetwork → Bool × BoostNetwork
connect_to has_callback time n =
    if has_callback
    then (true, record n { connect_vec = n.connect_vec ++ new_connector time ∷ [] })
    else (false, n)

-- The IoInterface of a socket.
pub data Owner : Type 0 where
  no_owner : Owner
  acceptor_at : ℕ → Owner
  connector_at : ℕ → Owner

unfoldable pub modify_at : ℕ → (Connector → Connector) → List Connector → List Connector
modify_at i f [] = []
modify_at zero f (c ∷ cs) = f c ∷ cs
modify_at (suc i) f (c ∷ cs) = c ∷ modify_at i f cs

-- postCloseSocket, of a socket that is not NULL.
unfoldable pub post_close_socket : Owner → ℕ → BoostNetwork → BoostNetwork
post_close_socket no_owner s n = n
post_close_socket (acceptor_at port) s n = record n {
  listen_map = update port (Acceptor.on_active_socket_close (some s)) n.listen_map;
}
post_close_socket (connector_at i) s n = record n {
  connect_vec = modify_at i (Connector.on_active_socket_close (some s)) n.connect_vec;
}

unfoldable pub map_values : (Acceptor → Acceptor) → Map Acceptor → Map Acceptor
map_values f [] = []
map_values f ((k, a) ∷ m) = (k, f a) ∷ map_values f m

unfoldable pub stop_listen : BoostNetwork → BoostNetwork
stop_listen n = record n { listen_map = map_values Acceptor.stop n.listen_map }

unfoldable pub clear_listen : BoostNetwork → BoostNetwork
clear_listen n = record n { listen_map = map_values Acceptor.clear n.listen_map }

unfoldable pub stop_connect : BoostNetwork → BoostNetwork
stop_connect n = record n { connect_vec = map Connector.stop n.connect_vec }

unfoldable pub clear_connect : BoostNetwork → BoostNetwork
clear_connect n = record n { connect_vec = map Connector.clear n.connect_vec }

unfoldable pub stop : BoostNetwork → BoostNetwork
unfolding stop_listen stop_connect
stop n = stop_connect (stop_listen n)

-- close up to the join of the threads.
unfoldable pub drain : BoostNetwork → BoostNetwork
unfolding clear_listen clear_connect
drain n = record (clear_connect (clear_listen n)) { has_work = false }

unfoldable pub close : BoostNetwork → BoostNetwork
unfolding drain
close n = record (drain n) { threads = 0; listen_map = []; connect_vec = [] }
