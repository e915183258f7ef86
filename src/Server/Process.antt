-- ===== src/Server/Process.antt =====
-- service_core/boost_server.cpp and server_base.hpp, with the SingleServer of single_server/main/ and
-- the SentryListener: a process. What is posted to its main thread waits in a list, and one thread
-- runs it; the threads of the network act in between. The generated tables of CmdManager and
-- the memory of protobuf are left out.
pub mod Heard
pub mod Clients
pub mod Served
pub mod Lifetime
use integration_server.Prelude.{
  ℕ, ◌+◌, ◌^◌, ◌<◌, ◌≡◌, Bool, true, false, List, [], ◌∷◌, ◌++◌, Option, none, some, if◌then◌else◌,
}
use integration_server.Prelude.Map.{Map, find, update}
use integration_server.Network.Acceptor.{
  Acceptor, AcceptorCall, async_accept, close_acceptor, on_new_accept, start_read, close_socket,
  on_close, ListenResult,
}
use integration_server.Network.Acceptor
use integration_server.Network.BoostNetwork.{
  BoostNetwork, new_network, listen_at, post_close_socket, acceptor_at,
}
use integration_server.Network.BoostNetwork
use integration_server.Utils.TimeManager.{
  TimerManager, Command, after_func_of, after_func, cancel_timer,
}
use integration_server.Utils.TimeManager
use integration_server.Utils.TimeManager.Ticks
use integration_server.Server.MsgHandler.{Commands, msg_handler}
use integration_server.Server.Sentry.{
  Action, send_ping, post_close, send_replies, timer_after, ObjectManager, Handler, add_connector,
  del_connector, run_handler, init_msg_handler,
}
use integration_server.Server.Sentry

abbrev pub listen_port : ℕ
listen_port = 23333

-- s_timer, and ObjectManager::onTimer, which starts it again.
abbrev pub sentry_timer : ℕ
sentry_timer = 1

abbrev pub on_timer_func : ℕ
on_timer_func = 0

unfoldable pub timer_body : ℕ → List Command
timer_body f = after_func_of 5 sentry_timer (some on_timer_func) ∷ []

-- What is posted to m_ios: a message with its command and the count that it holds.
pub data Task : Type 0 where
  close_server_task : Task
  on_add_sentry on_del_sentry : ℕ → Task
  on_sentry_msg : ℕ → ℕ → ℕ → Task

-- `signal_waits` is the async_wait of the signals. `closes` counts the runs of closeServer, and
-- `added` records the sockets that were given to addConnector.
pub record SingleServer : Type 0 where
  pub interrupted : Bool
  pub signal_waits : Bool
  pub has_work : Bool
  pub stopped : Bool
  pub tasks : List Task
  pub network : BoostNetwork
  pub handlers : Map Handler
  pub objects : ObjectManager
  pub timers : TimerManager
  pub closes : ℕ
  pub added : List ℕ

unfoldable pub new_server : SingleServer
new_server = record {
  interrupted = false;
  signal_waits = false;
  has_work = false;
  stopped = false;
  tasks = [];
  network = new_network;
  handlers = [];
  objects = Sentry.new_manager;
  timers = Ticks.new_manager;
  closes = 0;
  added = [];
}

unfoldable pub init_signal : Bool → SingleServer → Bool × SingleServer
init_signal signals_added s =
    if signals_added then (true, record s { signal_waits = true }) else (false, s)

-- The result of startNetwork is not read.
unfoldable pub on_init_network : Commands → ListenResult → SingleServer → Bool × SingleServer
on_init_network c r s =
    let l = listen_at listen_port true r (BoostNetwork.init 1 s.network).1 in
    if l.0
    then (true, record s { network = l.1; handlers = init_msg_handler c s.handlers })
    else (false, record s { network = l.1 })

unfoldable pub on_init_logic : ℕ → SingleServer → SingleServer
on_init_logic now s = record s {
  timers = after_func now 5 sentry_timer (some on_timer_func) (TimeManager.init s.timers);
  objects = Sentry.init s.objects;
}

-- initServer, which calls onInitServer.
unfoldable pub init_server : Commands → ListenResult → ℕ → SingleServer → Bool × SingleServer
unfolding on_init_network on_init_logic
init_server c r now s =
    let n = on_init_network c r s in if n.0 then (true, on_init_logic now n.1) else (false, n.1)

-- runServer, up to the run of the main thread.
unfoldable pub run_server : Bool → Commands → ListenResult → ℕ → SingleServer → Bool × SingleServer
unfolding init_signal init_server
run_server signals_added c r now s =
    let a = init_signal signals_added s in
    let b = init_server c r now a.1 in
    if a.0
    then if b.0 then (true, record b.1 { has_work = true }) else (false, b.1)
    else (false, a.1)

-- handleSignal and interruptedServer: the signals are waited for once.
unfoldable pub handle_signal : SingleServer → SingleServer
handle_signal s =
    let t : SingleServer = record s { signal_waits = false } in
    if s.interrupted
    then t
    else record t { interrupted = true; tasks = s.tasks ++ close_server_task ∷ [] }

unfoldable pub close_logic : SingleServer → SingleServer
close_logic s = record s { timers = TimeManager.cancel (cancel_timer sentry_timer s.timers) }

unfoldable pub close_network : SingleServer → SingleServer
close_network s = record s { network = BoostNetwork.close (BoostNetwork.stop s.network) }

unfoldable pub close_server : SingleServer → SingleServer
unfolding close_logic close_network
close_server s = record (close_network (close_logic s)) {
  has_work = false;
  stopped = true;
  closes = s.closes + 1;
}

-- SentryListener: what the network posts for the calls of the acceptor.
unfoldable pub listener : List AcceptorCall → List Task
listener [] = []
listener (async_accept ∷ cs) = listener cs
listener (close_acceptor ∷ cs) = listener cs
listener (on_new_accept s ∷ cs) = on_add_sentry s ∷ listener cs
listener (start_read s ∷ cs) = listener cs
listener (close_socket s ∷ cs) = listener cs
listener (on_close s ∷ cs) = on_del_sentry s ∷ listener cs

-- An event of the acceptor: its new calls go to the listener.
unfoldable pub network_event : Acceptor.Event → Acceptor → SingleServer → SingleServer
network_event e a s =
    let b = Acceptor.handle e (record a { calls = [] }) in
    record s {
      network = record s.network {
        listen_map =
            update listen_port (λ _. record b { calls = a.calls ++ b.calls }) s.network.listen_map;
      };
      tasks = s.tasks ++ listener b.calls;
    }

-- SentryListener::onNewMsg
unfoldable pub on_new_msg : ℕ → ℕ → ℕ → SingleServer → SingleServer
on_new_msg socket cmd count s = record s { tasks = s.tasks ++ on_sentry_msg socket cmd count ∷ [] }

-- postCloseSocket of each socket that the clients' code closes.
unfoldable pub post_closes : List Action → BoostNetwork → BoostNetwork
post_closes [] n = n
post_closes (post_close s ∷ acts) n =
    post_closes acts (post_close_socket (acceptor_at listen_port) s n)
post_closes (send_ping s ∷ acts) n = post_closes acts n
post_closes (send_replies s k ∷ acts) n = post_closes acts n
post_closes (timer_after k ∷ acts) n = post_closes acts n

-- The clients after a call, with what it asked of the network.
unfoldable pub set_objects : ObjectManager → SingleServer → SingleServer
set_objects m s = record s {
  objects = record m { actions = s.objects.actions ++ m.actions };
  network = post_closes m.actions s.network;
}

abbrev pub quiet : ObjectManager → ObjectManager
quiet m = record m { actions = [] }

-- onSentryMsg: the handler that msgHandler calls, if it calls one.
unfoldable pub run_msg : Option Handler → ℕ → ℕ → ℕ → ℕ → SingleServer → Option SingleServer
run_msg none fuel now socket count s = some s
run_msg (some h) fuel now socket count s =
    elim (run_handler fuel now count socket h (quiet s.objects)) [
      | none ↦ none
      | some r ↦ some (set_objects r.1 s)
    ]

-- A function that the main thread takes from its list.
unfoldable pub run_task : ℕ → ℕ → Task → SingleServer → Option SingleServer
run_task fuel now close_server_task s = some (close_server s)
run_task fuel now (on_add_sentry socket) s = some (
    set_objects (add_connector now (some socket) (quiet s.objects))
      (record s { added = s.added ++ socket ∷ [] }))
run_task fuel now (on_del_sentry socket) s =
    some (set_objects (del_connector (some socket) (quiet s.objects)) s)
run_task fuel now (on_sentry_msg socket cmd count) s =
    run_msg (msg_handler true true cmd s.handlers) fuel now socket count s

-- The runs of ObjectManager::onTimer in a tick.
unfoldable pub run_timers : ℕ → List ℕ → ObjectManager → ObjectManager
run_timers now [] m = m
run_timers now (f ∷ fs) m = run_timers now fs (Sentry.on_timer now m)

unfoldable pub timer_event : Bool → ℕ → SingleServer → SingleServer
timer_event failed now s =
    let t = TimeManager.on_timer timer_body failed now (record s.timers { runs = [] }) in
    set_objects (run_timers now t.runs (quiet s.objects)) (record s { timers = t })

-- A step of the main thread, of a thread of the network, or of a signal.
pub data Step (fuel : ℕ) (s : SingleServer) : SingleServer → Type 0 where
  signalled : s.signal_waits ≡ true → Step fuel s (handle_signal s)
  network_acts :
      (e : Acceptor.Event) (a : Acceptor)
      → find listen_port s.network.listen_map ≡ some a
      → Acceptor.is_enabled e a ≡ true
      → Step fuel s (network_event e a s)
  message_comes :
      (socket cmd count : ℕ) → count < 2 ^ 32 → Step fuel s (on_new_msg socket cmd count s)
  runs_task :
      (now : ℕ) (t : Task) (ts : List Task) (u : SingleServer)
      → s.stopped ≡ false
      → s.tasks ≡ t ∷ ts
      → run_task fuel now t (record s { tasks = ts }) ≡ some u
      → Step fuel s u
  timer_fires :
      (failed : Bool) (now : ℕ)
      → s.stopped ≡ false
      → 0 < s.timers.waits
      → Step fuel s (timer_event failed now s)
