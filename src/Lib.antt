-- ===== src/Lib.antt =====
-- integration_server: a model of the core of IntegrationServer, a C++ game server framework.
--
-- The program. logic_work/ holds game logic: a turn-based battle (battle/) and a map of cells that
-- see their neighbours (aoi_nine/). boost_network/ carries messages between processes over TCP:
-- a packet is a six-byte head and a body, TcpSocket queues packets for sending and cuts the bytes
-- it receives into packets, on top of a growing buffer; Acceptor and Connector own the sockets, and
-- BoostNetwork owns those. service_core/ and single_server/ are a server of clients on top of that.
-- utils/ holds what they share, and a network of its own: schedulers that threads share, a reactor
-- on epoll with its timers, and stream sockets that put their operations on it. The battle
-- calls utils for a subtraction that stops at 0 and for random numbers; the socket hands each
-- message to a callback of its owner.
--
-- The files.
--   Prelude: tests on numbers, lists, maps as ordered association lists (std::map), and the
--   rounding of a quotient to a float of 24 bits. Prelude/Map/Laws and Prelude/Float/Exact hold
--   their laws.
--   Utils/CalcTool and Utils/Rand: safeSub of utils/calc_tool.cpp and Rand::randBetween of
--   utils/rand.cpp. The engine and the distribution are the standard library's: they are
--   the record Dice, a function from the number of the draw, with the documented range as its law.
--   Battle/Common, Battle/Unit: logic_work/battle/battle_common.hpp, battle_attr.hpp,
--   battle_unit.cpp and camp_unit.cpp. A unit is a record; a table of attributes is a map.
--   Battle/Combat: the state of Combat (logic_work/battle/combat.hpp), its lookups, checkInit,
--   checkRoundStart, checkRoundOperate, checkRoundPlayEnd and checkCombatEnd. The current unit,
--   a pointer in the code, is the key of the unit in the map.
--   Battle/Calc: combat_calc.cpp. Battle/SpeedBar: initSpeedBar, runSpeedBar, compareSpeedBar.
--   Battle/Round: roundStart, autoFight, getDefaultSkillTarget, roundFight, roundEnd, combatEnd.
--   A use of a NULL current unit is a result of its own, and running out of fuel another.
--   Battle/Api: init, setLoadingEnd, setOperateSkill, setPlayEnd.
--   Aoi/NineMap: logic_work/aoi_nine/nine_map.cpp with its three tables.
--   Network/Packet, Network/Buffer, Network/Socket: boost_network/message.hpp, common.hpp,
--   buffer.cpp and tcp_socket.cpp. Bytes are numbers below 256. What the code hands to async_send
--   and to the callback is recorded in the socket's state.
--   Network/Connector: boost_network/connector.cpp. A TcpSocket there is a number, and the events
--   of boost.asio come in any order.
--   Network/Acceptor: boost_network/acceptor.cpp, in the same way. Network/BoostNetwork:
--   network.cpp, whose calls act on the acceptors and connectors of the two files above.
--   Utils/SafeUnit: utils/scheduler_safe_unit.cpp. Threads interleave at its locks, and a posted
--   function is a number.
--   Utils/SchedulerList, Utils/Scheduler, Utils/SchedulerLf: utils/scheduler_list.cpp,
--   scheduler.cpp and scheduler_leader_follower.cpp. Threads are counted by where they stand.
--   Utils/TimedQueue: what timers promise. Utils/TimeManager: utils/time_manager.cpp, with what the
--   functions of the timers do as a parameter. Utils/ReactorTimer: utils/reactor_timer.cpp.
--   Utils/Reactor/Mount, Utils/Reactor/Epoll, Utils/Reactor/StreamSocket:
--   utils/reactor_epoll_mount_data.cpp, reactor_epoll.cpp and stream_socket.hpp. A unit is a number,
--   and the triggers and units of a socket are ordered maps. startEvent holds no mutex between its
--   test of the trigger, its call of epoll_ctl and addUnit, so that each of them is a step.
--   Server/MsgHandler: service_core/boost_msg_handler.hpp. The numbers of the commands, which a
--   script generates, are the record Commands. Server/Sentry: single_server/sentry/.
--   Server/Process: service_core/boost_server.cpp, single_server/main/single_server.cpp and
--   sentry_listener.cpp: a process on its network, its clients and its timers, with the functions
--   that are posted to its main thread in a list.
--   Db/Text, Db/Pool, Db/Sql, Db/Manager: utils/db_connection_pool.cpp, sql.cpp and db_manager.cpp.
--   Text is a list of bytes; what the zdb library does in a call is an argument.
-- The modules below these hold their proofs and are named for what they show; the modules called
-- Tests run the definitions on small inputs.
--
-- Bounds and fuel. roundStart, roundFight and roundEnd call each other once per round; each call
-- of roundStart that goes on adds one to the round, and checkCombatEnd stops at MAX_ROUND, so that
-- a fuel of 99 is enough. The loop of readParse takes at least the six bytes of a head per turn,
-- and runs on the number of unread bytes and one more. The loop of testLimitTcp takes at most
-- 2 ^ 32 turns. Numbers of a fixed width wrap where they are computed (% 2 ^ w). A quotient of
-- floats is exact up to 24 bits; speeds of at most 99998 stay in that range.
--
-- Not modelled. The binding of the parameters of prepared statements, the robot, which is a client
-- of the server, the stress test, logging, clocks, signals and semaphores, and the programs under
-- test/. In TcpSocket, the socket's address and the asio objects are left out; of StreamSocket, the
-- functions that are one system call. Allocations succeed.
pub mod Prelude
pub mod Utils
pub mod Battle
pub mod Aoi
pub mod Network
pub mod Server
pub mod Db
