-- ===== src/Server/Process/Served.antt =====
-- A process from its start to its end: the sockets of its acceptor, its clients, and its close.
use integration_server.Prelude.{
  ℕ, zero, suc, ◌+◌, ◌^◌, ◌<◌, ◌≤◌, ◌≡◌, ◌⊎◌, refl, sym, ap, ◌∙◌, subst, inl, inr, Bool, true,
  false, List, [], ◌∷◌, ◌++◌, Option, none, some, if◌then◌else◌, arith, length, length-append,
  count, count-append, Bool-cases, Option-cases, append_assoc,
}
use mathlib.Core.Option.{some-injective}
use integration_server.Prelude.Map.{find}
use integration_server.Network.Acceptor.Owned.{numbers, count-numbers}
use integration_server.Network.BoostNetwork
use integration_server.Utils.TimeManager
use integration_server.Server.MsgHandler.{msg_handler}
use integration_server.Server.Sentry.{
  ObjectManager, Handler, add_connector, del_connector, run_handler,
}
use integration_server.Server.Sentry.Shrink.{Shrinks, del_connector-Shrinks, run_handler-Shrinks}
use integration_server.Server.Process.{
  Task, close_server_task, on_add_sentry, on_del_sentry, on_sentry_msg, SingleServer, close_logic,
  close_network, close_server, set_objects, quiet, run_msg, run_task,
}
use integration_server.Server.Process.Heard.{
  pending, closings, closings-append, HasMade, post_closes-HasMade,
}
use integration_server.Server.Process.Clients.{
  IsAdded, Shrinks-IsAdded, actions-IsAdded, add_connector-IsAdded,
}

-- What closeServer leaves.
pub record IsClosed (s : SingleServer) : Type 0 where
  pub no_run : s.stopped ≡ true
  pub no_work : s.has_work ≡ false
  pub no_listener : s.network.listen_map ≡ []
  pub no_connector : s.network.connect_vec ≡ []
  pub no_timer : s.timers.armed ≡ false

-- The acceptor has made so many sockets. Each was given to the main thread once, in order, and was
-- added or waits to be; the server is closed once at most, and only when it was interrupted.
pub record IsServed (made : ℕ) (s : SingleServer) : Type 0 where
  pub has_made : HasMade made s.network
  pub order : s.added ++ pending s.tasks ≡ numbers made
  pub clients : (2 ^ 64 ≤ made) ⊎ IsAdded s.added s.objects
  pub once : closings s.tasks + s.closes ≤ (if s.interrupted then 1 else 0)
  pub closed : (s.closes ≡ 0) ⊎ IsClosed s

pub set_objects-IsServed :
    (made : ℕ) (m : ObjectManager) (s : SingleServer)
    → HasMade made s.network
    → s.added ++ pending s.tasks ≡ numbers made
    → (2 ^ 64 ≤ made) ⊎ IsAdded s.added m
    → closings s.tasks + s.closes ≤ (if s.interrupted then 1 else 0)
    → s.closes ≡ 0
    → IsServed made (set_objects m s)
unfolding set_objects
set_objects-IsServed made m s has_made order clients once not_closed = record {
  has_made = post_closes-HasMade made m.actions s.network has_made;
  order = order;
  clients = elim clients [
    | inl big ↦ inl big
    | inr h ↦ inr (actions-IsAdded s.added (s.objects.actions ++ m.actions) m h)
  ];
  once = once;
  closed = inl not_closed;
}

close_server-IsClosed : (s : SingleServer) → IsClosed (close_server s)
unfolding close_server close_logic close_network BoostNetwork.close TimeManager.cancel
close_server-IsClosed s = record {
  no_run = refl;
  no_work = refl;
  no_listener = refl;
  no_connector = refl;
  no_timer = elim (Bool-cases s.timers.armed) [
    | inl e ↦ ground (arith, e)
    | inr e ↦ ground (arith, e)
  ];
}

pub length-numbers : (n : ℕ) → length (numbers n) ≡ n
unfolding numbers
length-numbers zero = refl
length-numbers (suc n) = omega (arith, length-append (numbers n) (n ∷ []), length-numbers n)

big_or_small : (n : ℕ) → (2 ^ 64 ≤ n) ⊎ (n < 2 ^ 64)
big_or_small n = omega arith

module _ (made : ℕ) (s : SingleServer) (h : IsServed made s) where
  pub running-closes : s.stopped ≡ false → s.closes ≡ 0
  running-closes e = elim h.closed [ inl z ↦ z | inr c ↦ absurd (ground (arith, e, c.no_run)) ]

  -- What does not touch the network keeps it closed.
  pub kept_closed :
      (waits i : Bool) (us : List Task)
      → (s.closes ≡ 0) ⊎ IsClosed (record s { signal_waits = waits; interrupted = i; tasks = us })
  kept_closed waits i us = elim h.closed [
    | inl z ↦ inl z
    | inr c ↦ inr (record {
      no_run = c.no_run;
      no_work = c.no_work;
      no_listener = c.no_listener;
      no_connector = c.no_connector;
      no_timer = c.no_timer;
    })
  ]

  -- A task that was taken from the list.
  module _ (now : ℕ) (ts : List Task) (running : s.stopped ≡ false) where
    added-IsServed :
        (x : ℕ)
        → s.tasks ≡ on_add_sentry x ∷ ts
        → IsServed made (
            set_objects
              (add_connector now (some x) (quiet s.objects))
              (record s { tasks = ts; added = s.added ++ x ∷ [] }))
    unfolding pending closings count
    added-IsServed x e =
        let order : s.added ++ x ∷ pending ts ≡ numbers made =
          ap (λ us. s.added ++ pending us) (sym e) ∙ h.order in
        set_objects-IsServed made (add_connector now (some x) (quiet s.objects))
          (record s { tasks = ts; added = s.added ++ x ∷ [] }) h.has_made
          (append_assoc s.added (x ∷ []) (pending ts) ∙ order)
          (elim (big_or_small made) [
            | inl big ↦ inl big
            | inr less ↦ elim h.clients [
              | inl big ↦ inl big
              | inr a ↦ inr (
                  add_connector-IsAdded s.added (quiet s.objects)
                    (actions-IsAdded s.added [] s.objects a) now x
                    (ground (
                      arith,
                      ap (count x) order,
                      count-append x s.added (x ∷ pending ts),
                      count-numbers x made,
                    ))
                    (omega (
                      arith,
                      less,
                      ap length order,
                      length-append s.added (x ∷ pending ts),
                      length-numbers made,
                    )))
            ]
          ])
          (omega (arith, h.once, ap closings e)) (running-closes running)

    -- A call that adds no client.
    shrunk-IsServed :
        (t : Task) (m : ObjectManager)
        → s.tasks ≡ t ∷ ts
        → pending (t ∷ ts) ≡ pending ts
        → (IsAdded s.added (quiet s.objects) → Shrinks (quiet s.objects) m)
        → IsServed made (set_objects m (record s { tasks = ts }))
    unfolding closings
    shrunk-IsServed t m e same k =
        set_objects-IsServed made m (record s { tasks = ts }) h.has_made
          (ap (λ us. s.added ++ us) (sym same) ∙ ap (λ us. s.added ++ pending us) (sym e) ∙ h.order)
          (elim h.clients [
            | inl big ↦ inl big
            | inr a ↦
                (let a' = actions-IsAdded s.added [] s.objects a in
                  inr (Shrinks-IsAdded s.added (quiet s.objects) m a' (k a')))
          ])
          (omega (arith, h.once, ap closings e, closings-append (t ∷ []) ts))
          (running-closes running)

    closed-IsServed :
        s.tasks ≡ close_server_task ∷ ts → IsServed made (close_server (record s { tasks = ts }))
    unfolding close_server close_logic close_network BoostNetwork.close pending closings find
    closed-IsServed e = record {
      has_made = λ a missing. absurd (ground (arith, missing));
      order = ap (λ us. s.added ++ pending us) (sym e) ∙ h.order;
      clients = h.clients;
      once = omega (arith, h.once, ap closings e);
      closed = inr (close_server-IsClosed (record s { tasks = ts }));
    }

    message-IsServed :
        (fuel socket cmd n : ℕ) (o : Option Handler) (u : SingleServer)
        → s.tasks ≡ on_sentry_msg socket cmd n ∷ ts
        → run_msg o fuel now socket n (record s { tasks = ts }) ≡ some u
        → IsServed made u
    unfolding run_msg pending closings
    message-IsServed fuel socket cmd n none u e ran =
        subst (IsServed made) (some-injective _ _ ran) (record {
          has_made = h.has_made;
          order = ap (λ us. s.added ++ pending us) (sym e) ∙ h.order;
          clients = h.clients;
          once = omega (arith, h.once, ap closings e);
          closed = kept_closed s.signal_waits s.interrupted ts;
        })
    message-IsServed fuel socket cmd n (some g) u e ran =
        elim (Option-cases (run_handler fuel now n socket g (quiet s.objects))) [
          | inl out ↦ absurd (ground (arith, ran, out))
          | inr ((ok, m), got) ↦
              (let moved : set_objects m (record s { tasks = ts }) ≡ u = ground (arith, ran, got) in
                subst (IsServed made) moved (
                  shrunk-IsServed (on_sentry_msg socket cmd n) m e refl (λ a.
                    run_handler-Shrinks fuel now n socket g (quiet s.objects) m ok
                      a.is_bound.ordered got)))
        ]

  pub run_task-IsServed :
      (fuel now : ℕ) (t : Task) (ts : List Task) (u : SingleServer)
      → s.stopped ≡ false
      → s.tasks ≡ t ∷ ts
      → run_task fuel now t (record s { tasks = ts }) ≡ some u
      → IsServed made u
  unfolding run_task pending
  run_task-IsServed fuel now close_server_task ts u running e ran =
      subst (IsServed made) (some-injective _ _ ran) (closed-IsServed now ts running e)
  run_task-IsServed fuel now (on_add_sentry x) ts u running e ran =
      subst (IsServed made) (some-injective _ _ ran) (added-IsServed now ts running x e)
  run_task-IsServed fuel now (on_del_sentry x) ts u running e ran =
      subst (IsServed made) (some-injective _ _ ran) (
        shrunk-IsServed now ts running (on_del_sentry x) (del_connector (some x) (quiet s.objects))
          e refl (λ a. del_connector-Shrinks (some x) (quiet s.objects) a.is_bound.ordered))
  run_task-IsServed fuel now (on_sentry_msg socket cmd n) ts u running e ran =
      message-IsServed now ts running fuel socket cmd n (msg_handler true true cmd s.handlers) u e
        ran
