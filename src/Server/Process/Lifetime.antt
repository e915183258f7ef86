-- ===== src/Server/Process/Lifetime.antt =====
-- A process from its start to its end.
use integration_server.Prelude.{
  ℕ, ◌+◌, ◌^◌, ◌≤◌, ◌≡◌, ◌⊎◌, refl, sym, ap, ◌∙◌, subst, inl, inr, Bool, true, false, [], ◌∷◌, ◌++◌,
  some, if◌then◌else◌, arith, length, length-append, Bool-cases, append_assoc, append_nil,
}
use mathlib.Core.Option.{some-injective}
use integration_server.Prelude.Map.{find, insert, assign}
use integration_server.Prelude.Map.Laws.{find-update}
use integration_server.Network.Acceptor.{Acceptor, ListenResult}
use integration_server.Network.Acceptor
use integration_server.Network.Acceptor.Owned.{numbers}
use integration_server.Network.BoostNetwork
use integration_server.Server.MsgHandler.{Commands}
use integration_server.Server.Sentry
use integration_server.Server.Sentry.{
  ObjectManager, Handler, add_connector, del_connector, run_handler,
}
use integration_server.Server.Process.{
  listen_port, close_server_task, on_sentry_msg, SingleServer, new_server, run_server, init_signal,
  init_server, on_init_network, on_init_logic, handle_signal, listener, network_event, on_new_msg,
  quiet, timer_event, Step, signalled, network_acts, message_comes, runs_task, timer_fires,
}
use integration_server.Server.Process.Heard.{
  pending, closings, pending-append, closings-append, handle-IsHeard, HasMade,
}
use integration_server.Server.Process.Clients.{IsAdded, actions-IsAdded, run_timers-IsAdded}
use integration_server.Server.Sentry.{
  limit_loop, test_limit_tcp, handle_msg_robot, handle_msg_pong, handle_msg_test_tcp_request,
}
use integration_server.Server.Process.Served.{
  IsClosed, IsServed, set_objects-IsServed, length-numbers, running-closes, kept_closed,
  run_task-IsServed,
}

pub data Reaches (fuel : ℕ) : SingleServer → Type 0 where
  started :
      (c : Commands) (r : ListenResult) (now : ℕ) (s : SingleServer)
      → run_server true c r now new_server ≡ (true, s)
      → Reaches fuel s
  next : (s t : SingleServer) → Reaches fuel s → Step fuel s t → Reaches fuel t

module _ (made : ℕ) (s : SingleServer) (h : IsServed made s) where
  timer_event-IsServed :
      (failed : Bool) (now : ℕ) → s.stopped ≡ false → IsServed made (timer_event failed now s)
  unfolding timer_event
  timer_event-IsServed failed now running =
      set_objects-IsServed made _ _ h.has_made h.order
        (elim h.clients [
          | inl big ↦ inl big
          | inr a ↦ inr (
              run_timers-IsAdded now _ s.added (quiet s.objects)
                (actions-IsAdded s.added [] s.objects a))
        ])
        h.once (running-closes made s h running)

  message_comes-IsServed : (socket cmd n : ℕ) → IsServed made (on_new_msg socket cmd n s)
  unfolding on_new_msg pending closings
  message_comes-IsServed socket cmd n =
      let more = on_sentry_msg socket cmd n ∷ [] in
      record {
        has_made = h.has_made;
        order =
            ap (λ us. s.added ++ us) (pending-append s.tasks more ∙ append_nil (pending s.tasks))
            ∙ h.order;
        clients = h.clients;
        once = omega (arith, h.once, closings-append s.tasks more);
        closed = kept_closed made s h s.signal_waits s.interrupted (s.tasks ++ more);
      }

  handle_signal-IsServed : s.signal_waits ≡ true → IsServed made (handle_signal s)
  unfolding handle_signal pending closings
  handle_signal-IsServed e = elim (Bool-cases s.interrupted) [
    | inl i ↦ simp i (record {
      has_made = h.has_made;
      order = h.order;
      clients = h.clients;
      once = omega (arith, h.once, ap {A = Bool} {B = ℕ} (λ b. if b then 1 else 0) i);
      closed = kept_closed made s h false true s.tasks;
    })
    | inr i ↦
        (let more = close_server_task ∷ [] in
          simp i (record {
            has_made = h.has_made;
            order =
                ap (λ us. s.added ++ us)
                  (pending-append s.tasks more ∙ append_nil (pending s.tasks))
                ∙ h.order;
            clients = h.clients;
            once = omega (
              arith,
              h.once,
              closings-append s.tasks more,
              ap {A = Bool} {B = ℕ} (λ b. if b then 1 else 0) i,
            );
            closed = kept_closed made s h false true (s.tasks ++ more);
          }))
  ]

  network_event-IsServed :
      (e : Acceptor.Event) (a : Acceptor)
      → find listen_port s.network.listen_map ≡ some a
      → IsServed (Acceptor.handle e (record a { calls = [] })).made (network_event e a s)
  unfolding network_event find
  network_event-IsServed e a found =
      let b = Acceptor.handle e (record a { calls = [] }) in
      let d = handle-IsHeard e a in
      let more = listener b.calls in
      record {
        has_made = λ c got.
            (let law =
                find-update listen_port listen_port (λ _. record b { calls = a.calls ++ b.calls })
                  s.network.listen_map in
              let moved : record b { calls = a.calls ++ b.calls } ≡ c =
                ground (arith, found, got, law) in
              ap (λ (x : Acceptor). x.made) (sym moved));
        order =
            ap (λ us. s.added ++ us) (pending-append s.tasks more)
            ∙ sym (append_assoc s.added (pending s.tasks) (pending more))
            ∙ ap (λ us. us ++ pending more) h.order
            ∙ ap (λ k. numbers k ++ pending more) (sym (h.has_made a found))
            ∙ d.sockets;
        clients = elim h.clients [
          | inl big ↦ inl (
              omega (
                arith,
                big,
                h.has_made a found,
                ap length d.sockets,
                length-numbers b.made,
                length-append (numbers a.made) (pending more),
                length-numbers a.made,
              ))
          | inr k ↦ inr k
        ];
        once = omega (arith, h.once, closings-append s.tasks more, d.no_close);
        closed = elim h.closed [
          | inl z ↦ inl z
          | inr c ↦ absurd (ground (arith, found, c.no_listener))
        ];
      }

run_server-IsServed :
    (c : Commands) (r : ListenResult) (now : ℕ) (s : SingleServer)
    → run_server true c r now new_server ≡ (true, s)
    → IsServed 0 s
unfolding run_server init_signal init_server on_init_network on_init_logic new_server
    BoostNetwork.listen_at BoostNetwork.listen_new BoostNetwork.add_listener BoostNetwork.init
    BoostNetwork.new_network Acceptor.listen Acceptor.new_acceptor Acceptor.accept insert assign
    find pending closings numbers Sentry.init Sentry.new_manager
run_server-IsServed c Acceptor.not_resolved now s e = absurd (ground (arith, ap (λ p. p.0) e))
run_server-IsServed c Acceptor.not_bound now s e = absurd (ground (arith, ap (λ p. p.0) e))
run_server-IsServed c Acceptor.listening now s e = subst (IsServed 0) (ap (λ p. p.1) e) (record {
  has_made = λ a found. ap (λ (x : Acceptor). x.made) (sym (some-injective _ _ found));
  order = refl;
  clients = inr (record {
    is_bound = record { ordered = tt; bound = λ uid ob found. absurd (ground (arith, found)) };
    given = refl;
    among = λ uid ob found. absurd (ground (arith, found));
  });
  once = omega arith;
  closed = inl refl;
})

-- Some number of sockets was made.
Step-IsServed :
    (fuel : ℕ) (s t : SingleServer)
    → Step fuel s t
    → (made : ℕ) × IsServed made s
    → (made : ℕ) × IsServed made t
Step-IsServed fuel s _ (signalled w) (made, h) = (made, handle_signal-IsServed made s h w)
Step-IsServed fuel s _ (network_acts e a found p) (made, h) =
    (_, network_event-IsServed made s h e a found)
Step-IsServed fuel s _ (message_comes socket cmd n p) (made, h) =
    (made, message_comes-IsServed made s h socket cmd n)
Step-IsServed fuel s t (runs_task now task ts _ running e ran) (made, h) =
    (made, run_task-IsServed made s h fuel now task ts t running e ran)
Step-IsServed fuel s _ (timer_fires failed now running w) (made, h) =
    (made, timer_event-IsServed made s h failed now running)

Reaches-IsServed : (fuel : ℕ) (s : SingleServer) → Reaches fuel s → (made : ℕ) × IsServed made s
Reaches-IsServed fuel s (started c r now _ e) = (0, run_server-IsServed c r now s e)
Reaches-IsServed fuel _ (next s t r st) = Step-IsServed fuel s t st (Reaches-IsServed fuel s r)

-- After the server has started and any steps of its main thread, of the network, of messages and of
-- signals: for some number of sockets, which is that of the acceptor as long as it is there, the
-- sockets that were added, followed by those that wait to be, are all of them, once each and in the
-- order in which they were made; unless 2^64 were made, the clients are bound to their numbers, as
-- many numbers were given as sockets were added, and each client's socket was added; closeServer
-- was posted or run once at most, and only when the server was interrupted; and if it was run, the
-- main thread is stopped, and nothing is left of the work, the listeners, the connectors and the
-- timer.
pub Reaches-served :
    (fuel : ℕ) (s : SingleServer)
    → Reaches fuel s
    → (made : ℕ) × HasMade made s.network
      × (s.added ++ pending s.tasks ≡ numbers made)
      × ((2 ^ 64 ≤ made) ⊎ IsAdded s.added s.objects)
      × (closings s.tasks + s.closes ≤ (if s.interrupted then 1 else 0))
      × ((s.closes ≡ 0) ⊎ IsClosed s)
Reaches-served fuel s r =
    let (made, h) = Reaches-IsServed fuel s r in
    (made, h.has_made, h.order, h.clients, h.once, h.closed)
