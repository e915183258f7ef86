-- ===== src/Server/Sentry/Dispatch.antt =====
-- Which handler a message of a client reaches.
use integration_server.Prelude.{
  ℕ, ◌≡◌, Bool, [], Option, none, some, ◌&&◌, ◌==◌, if◌then◌else◌, arith,
}
use integration_server.Prelude.Map.{find, assign}
use integration_server.Server.MsgHandler.{Commands, register_func, msg_handler}
use integration_server.Server.Sentry.{
  Handler, handle_msg_robot, handle_msg_pong, handle_msg_test_tcp_request, init_msg_handler,
}

-- The handler of a command, by the names of the two.
pub handler_of : Commands → ℕ → Option Handler
handler_of c cmd =
    if cmd == c.msg_robot
    then some handle_msg_robot
    else if cmd == c.msg_pong
    then some handle_msg_pong
    else if cmd == c.msg_test_tcp_request
    then some handle_msg_test_tcp_request
    else none

init_msg_handler_lem :
    (c : Commands)
    → init_msg_handler c []
      ≡ assign c.msg_test_tcp_request handle_msg_test_tcp_request
          (assign c.msg_pong handle_msg_pong (assign c.msg_robot handle_msg_robot []))
unfolding init_msg_handler register_func find assign
init_msg_handler_lem c = ground (arith, c.pong_robot, c.pong_request, c.robot_request)

-- After initMsgHandler on an empty registry, with commands that differ from each other, msgHandler
-- calls the handler of the command MsgRobot, MsgPong or MsgTestTcpRequest when socket and buffer
-- are given, and for any other command, or without one of them, it calls none and returns false.
pub msg_handler-init_msg_handler :
    (c : Commands) (has_socket has_buf : Bool) (cmd : ℕ)
    → msg_handler has_socket has_buf cmd (init_msg_handler c [])
      ≡ (if has_socket && has_buf then handler_of c cmd else none)
unfolding msg_handler handler_of find assign
msg_handler-init_msg_handler c has_socket has_buf cmd =
    rw (init_msg_handler_lem c) (ground (arith, c.pong_robot, c.pong_request, c.robot_request))
