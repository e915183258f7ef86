-- ===== src/Server/Tests.antt =====
-- The clients of the server on small inputs, and the theorems there.
use integration_server.Prelude.{
  refl, ◌+◌, ◌≤◌, ◌⊎◌, true, ◌&&◌, none, ℕ, ◌^◌, ◌≡◌, true, ◌&&◌, none, List, [], ◌∷◌, ◌++◌, some,
  ◌==◌, if◌then◌else◌, arith,
}
use integration_server.Prelude.Map.{find, insert, assign}
use integration_server.Server.Sentry.{
  Action, timer_after, ObjectManager, new_manager, init, add_connector, add_object, find_object,
  new_object, on_timer, limit_loop, init_msg_handler, link_active_time, link_timeout,
}
use integration_server.Server.Sentry.Timeout.{unless_timeout, closed, pinged, silent, on_timer_lem}
use integration_server.Server.MsgHandler.{Commands, msg_handler}
use integration_server.Server.Sentry.Dispatch.{handler_of, msg_handler-init_msg_handler}
use integration_server.Network.Connector.{no_error}
use integration_server.Network.Acceptor
use integration_server.Network.Acceptor.{Acceptor}
use integration_server.Network.Acceptor.Owned.{numbers}
use integration_server.Network.BoostNetwork
use integration_server.Server.Process.{
  SingleServer, new_server, init_signal, on_init_network, on_init_logic, init_server, run_server,
  network_event, network_acts,
}
use integration_server.Server.Process.Heard.{pending, closings, HasMade}
use integration_server.Server.Process.Clients.{IsAdded}
use integration_server.Server.Process.Served.{IsClosed}
use integration_server.Server.Process.Lifetime.{started, next, Reaches-served}
use integration_server.Server.Process.Lifetime
use integration_server.Server.Sentry.Limit.{limit_loop_lem}
use integration_server.Server.Sentry.Bound.{initialised, adds, IsBound, Reaches-IsBound}

-- Socket 3 is added at the time 0.
abbrev one_client : ObjectManager
one_client = add_connector 0 (some 3) (init new_manager)

on_timer_lem_example :
    let n = on_timer 20 one_client in
    ((uid : ℕ) → find uid n.object_map ≡ unless_timeout 20 (find uid one_client.object_map))
    × (acts : List Action) × (n.actions ≡ (one_client.actions ++ acts) ++ timer_after 5 ∷ [])
    × (closed acts ≡ silent link_timeout 20 one_client.object_map)
    × (pinged acts ≡ silent link_active_time 20 n.object_map)
unfolding add_connector add_object find_object init new_manager find new_object insert assign
on_timer_lem_example = on_timer_lem 20 one_client (tt, tt)

limit_loop_lem_example : limit_loop (2 ^ 32) 5 0 ≡ some (if 5 == 0 then 2 ^ 32 else 5)
limit_loop_lem_example = limit_loop_lem (2 ^ 32) 5 (omega arith) (omega arith)

Reaches-IsBound_example : IsBound one_client
unfolding init new_manager find
Reaches-IsBound_example = Reaches-IsBound 1 one_client (
    adds 0 3 (init new_manager) (λ uid ob found. absurd (ground (arith, found))) (omega arith)
      initialised)

abbrev numbered : Commands
numbered = record {
  msg_ping = 1;
  msg_pong = 2;
  msg_robot = 3;
  msg_test_tcp_request = 4;
  msg_test_tcp_reply = 5;
  pong_robot = λ e. absurd (omega (arith, e));
  pong_request = λ e. absurd (omega (arith, e));
  robot_request = λ e. absurd (omega (arith, e));
}

msg_handler-init_msg_handler_example :
    msg_handler true true 2 (init_msg_handler numbered [])
    ≡ (if true && true then handler_of numbered 2 else none)
msg_handler-init_msg_handler_example = msg_handler-init_msg_handler numbered true true 2

abbrev acceptor : Acceptor
acceptor = (Acceptor.listen Acceptor.listening Acceptor.new_acceptor).1

-- A server that listens, and one whose acceptor has made a socket.
abbrev listening_server : SingleServer
listening_server = (run_server true numbered Acceptor.listening 0 new_server).1

abbrev accepted_one : SingleServer
accepted_one = network_event (Acceptor.accept_done no_error) acceptor listening_server

in-Reaches : Lifetime.Reaches (2 ^ 32) accepted_one
unfolding run_server init_signal init_server on_init_network on_init_logic new_server
    BoostNetwork.listen_at BoostNetwork.listen_new BoostNetwork.add_listener BoostNetwork.init
    BoostNetwork.new_network Acceptor.listen Acceptor.new_acceptor Acceptor.accept
    Acceptor.is_enabled insert assign find
in-Reaches =
    next listening_server accepted_one (started numbered Acceptor.listening 0 listening_server refl)
      (network_acts (Acceptor.accept_done no_error) acceptor refl refl)

Reaches-served_example :
    (made : ℕ) × HasMade made accepted_one.network
    × (accepted_one.added ++ pending accepted_one.tasks ≡ numbers made)
    × ((2 ^ 64 ≤ made) ⊎ IsAdded accepted_one.added accepted_one.objects)
    × (closings accepted_one.tasks + accepted_one.closes
        ≤ (if accepted_one.interrupted then 1 else 0))
    × ((accepted_one.closes ≡ 0) ⊎ IsClosed accepted_one)
Reaches-served_example = Reaches-served (2 ^ 32) accepted_one in-Reaches
