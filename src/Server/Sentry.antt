-- ===== src/Server/Sentry.antt =====
-- single_server/sentry: the clients of the server. A TcpSocket is a number, and `bind_uid` holds
-- m_bindUid of each. What the server sends, closes and asks of its timer is kept in a list; seconds
-- are those of TimeHelper, an argument, and so far below 2^31 that the sums of is_timeout and
-- check_active, of int32 in the code, do not overflow. The allocations succeed.
pub mod Timeout
pub mod Shrink
pub mod Bound
pub mod Limit
pub mod Dispatch
use integration_server.Prelude.{
  ℕ, zero, suc, ◌+◌, ◌-◌, ◌%◌, ◌^◌, Bool, true, false, List, [], ◌∷◌, ◌++◌, Option, none, some, ltb,
  ◌==◌, if◌then◌else◌,
}
use integration_server.Prelude.Map.{Map, find, insert, erase, update}
use integration_server.Server.MsgHandler.{Commands, register_func}

abbrev pub link_active_time : ℕ
link_active_time = 10

abbrev pub link_timeout : ℕ
link_timeout = 15

pub record Object : Type 0 where
  pub socket : ℕ
  pub uid : ℕ
  pub active_time : ℕ

pub data Action : Type 0 where
  send_ping post_close : ℕ → Action
  send_replies : ℕ → ℕ → Action
  timer_after : ℕ → Action

pub record ObjectManager : Type 0 where
  pub object_map : Map Object
  pub global_uid : ℕ
  pub bind_uid : ℕ → ℕ
  pub actions : List Action

unfoldable pub new_manager : ObjectManager
new_manager = record { object_map = []; global_uid = 0; bind_uid = λ s. 0; actions = [] }

abbrev pub acted : List Action → ObjectManager → ObjectManager
acted new m = record m { actions = m.actions ++ new }

-- The timer that init starts, and that onTimer starts again.
unfoldable pub init : ObjectManager → ObjectManager
init m = acted (timer_after 5 ∷ []) m

unfoldable pub find_object : ℕ → ObjectManager → Option Object
find_object uid m = find uid m.object_map

unfoldable pub add_object : Object → ObjectManager → Bool × ObjectManager
unfolding find_object
add_object ob m = elim (find_object ob.uid m) [
  | none ↦ (true, record m { object_map = insert ob.uid ob m.object_map })
  | some other ↦ (false, m)
]

unfoldable pub del_object : ℕ → ObjectManager → Bool × ObjectManager
unfolding find_object
del_object uid m = elim (find_object uid m) [
  | none ↦ (false, m)
  | some ob ↦ (true, record m { object_map = erase uid m.object_map })
]

-- The constructor of Object binds its socket.
unfoldable pub new_object : ℕ → ℕ → ℕ → ObjectManager → Object × ObjectManager
new_object now s uid m = (
  record { socket = s; uid = uid; active_time = now },
  record m { bind_uid = λ t. if t == s then uid else m.bind_uid t },
)

unfoldable pub add_connector : ℕ → Option ℕ → ObjectManager → ObjectManager
add_connector now none m = m
add_connector now (some s) m =
    let uid = m.global_uid in
    let r = new_object now s uid (record m { global_uid = (uid + 1) % 2 ^ 64 }) in
    (add_object r.0 r.1).1

unfoldable pub del_connector : Option ℕ → ObjectManager → ObjectManager
del_connector none m = m
del_connector (some s) m = (del_object (m.bind_uid s) m).1

unfoldable pub is_timeout : ℕ → Object → Bool
is_timeout now ob = ltb (ob.active_time + link_timeout) now

unfoldable pub check_active : ℕ → Object → List Action
check_active now ob =
    if ltb (ob.active_time + link_active_time) now then send_ping ob.socket ∷ [] else []

-- The loop of onTimer: what it does, and the objects that it leaves.
unfoldable pub check_all : ℕ → Map Object → List Action × Map Object
check_all now [] = ([], [])
check_all now ((uid, ob) ∷ m) =
    let rest = check_all now m in
    if is_timeout now ob
    then (post_close ob.socket ∷ rest.0, rest.1)
    else (check_active now ob ++ rest.0, (uid, ob) ∷ rest.1)

unfoldable pub on_timer : ℕ → ObjectManager → ObjectManager
on_timer now m =
    let r = check_all now m.object_map in
    record m { object_map = r.1; actions = (m.actions ++ r.0) ++ timer_after 5 ∷ [] }

-- The loop of testLimitTcp on fuel: how many replies it sends. The count falls before it is tested.
unfoldable pub limit_loop : ℕ → ℕ → ℕ → Option ℕ
limit_loop zero times sent = none
limit_loop (suc fuel) times sent =
    let left = (times + 2 ^ 32 - 1) % 2 ^ 32 in
    let rest = limit_loop fuel left (sent + 1) in if left == 0 then some (sent + 1) else rest

unfoldable pub test_limit_tcp : ℕ → ℕ → Object → ObjectManager → Option ObjectManager
test_limit_tcp fuel times ob m = elim (limit_loop fuel times 0) [
  | none ↦ none
  | some sent ↦ some (
      del_connector (some ob.socket)
        (acted (send_replies ob.socket sent ∷ post_close ob.socket ∷ []) m))
]

-- The three handlers, on a socket and the fields of the message that they read.
pub data Handler : Type 0 where
  handle_msg_robot handle_msg_pong handle_msg_test_tcp_request : Handler

unfoldable pub run_handler : ℕ → ℕ → ℕ → ℕ → Handler → ObjectManager → Option (Bool × ObjectManager)
run_handler fuel now count s h m = elim (find (m.bind_uid s) m.object_map) [
  | none ↦ some (false, m)
  | some ob ↦ elim h [
    | handle_msg_robot ↦ some (true, m)
    | handle_msg_pong ↦ some (
      true,
      record m {
        object_map = update (m.bind_uid s) (λ o. record o { active_time = now }) m.object_map;
      },
    )
    | handle_msg_test_tcp_request ↦ elim (test_limit_tcp fuel count ob m) [
      | none ↦ none
      | some m' ↦ some (true, m')
    ]
  ]
]

-- SentryMsgHandler::initMsgHandler
unfoldable pub init_msg_handler : Commands → Map Handler → Map Handler
init_msg_handler c m =
    (register_func c.msg_test_tcp_request (some handle_msg_test_tcp_request)
      (register_func c.msg_pong (some handle_msg_pong)
        (register_func c.msg_robot (some handle_msg_robot) m).1).1).1
