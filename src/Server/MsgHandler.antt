-- ===== src/Server/MsgHandler.antt =====
-- service_core/boost_msg_handler.hpp: the handlers of a process by command. A NULL handler, socket or
-- buffer is an argument. The numbers of the commands are made by the build: they are a parameter.
use integration_server.Prelude.{ℕ, ◌≢◌, Bool, true, false, Option, none, some, if◌then◌else◌}
use integration_server.Prelude.Map.{Map, find, assign}

-- The commands of proto/op_cmd, which the generated enumeration numbers.
pub record Commands : Type 0 where
  pub msg_ping : ℕ
  pub msg_pong : ℕ
  pub msg_robot : ℕ
  pub msg_test_tcp_request : ℕ
  pub msg_test_tcp_reply : ℕ
  pub pong_robot : msg_pong ≢ msg_robot
  pub pong_request : msg_pong ≢ msg_test_tcp_request
  pub robot_request : msg_robot ≢ msg_test_tcp_request

module _ {F : Type 0} where
  abbrev set_func : ℕ → F → Option F → Map F → Bool × Map F
  set_func cmd f (some g) m = (false, m)
  set_func cmd f none m = (true, assign cmd f m)

  -- registerFunc
  unfoldable pub register_func : ℕ → Option F → Map F → Bool × Map F
  register_func cmd none m = (false, m)
  register_func cmd (some f) m = set_func cmd f (find cmd m) m

  abbrev run_func : Bool → Bool → Option F → Option F
  run_func has_socket has_buf none = none
  run_func has_socket has_buf (some f) =
      if has_socket then if has_buf then some f else none else none

  -- msgHandler: the handler that is called, where it returns true.
  unfoldable pub msg_handler : Bool → Bool → ℕ → Map F → Option F
  msg_handler has_socket has_buf cmd m = run_func has_socket has_buf (find cmd m)
