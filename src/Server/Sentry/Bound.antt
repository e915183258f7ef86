-- ===== src/Server/Sentry/Bound.antt =====
-- The clients, their numbers and their sockets, after any history of the server.
use integration_server.Prelude.{
  ℕ, ◌+◌, ◌%◌, ◌^◌, ◌<◌, ◌≡◌, ◌≢◌, sym, ap, ◌∙◌, subst, inl, inr, Bool, Option, none, some, ◌==◌,
  if◌then◌else◌, arith, Option-cases,
}
use integration_server.Prelude.Map.{find, insert, IsOrdered}
use integration_server.Prelude.Map.Laws.{insert-IsOrdered, find-insert}
use integration_server.Server.Sentry.{
  Object, ObjectManager, new_manager, init, find_object, add_object, new_object, add_connector,
  del_connector, on_timer, Handler, run_handler,
}
use integration_server.Server.Sentry.Shrink.{
  Shrinks, del_connector-Shrinks, on_timer-Shrinks, run_handler-Shrinks,
}

-- No client has the socket.
abbrev pub IsNew : ℕ → ObjectManager → Type 0
IsNew s m = (uid : ℕ) (ob : Object) → find uid m.object_map ≡ some ob → ob.socket ≢ s

-- The calls that reach the main thread. A socket is added once, and fewer than 2 ^ 64 are.
pub data Reaches (fuel : ℕ) : ObjectManager → Type 0 where
  initialised : Reaches fuel (init new_manager)
  adds :
      (now s : ℕ) (m : ObjectManager)
      → IsNew s m
      → m.global_uid + 1 < 2 ^ 64
      → Reaches fuel m
      → Reaches fuel (add_connector now (some s) m)
  deletes : (s : Option ℕ) (m : ObjectManager) → Reaches fuel m → Reaches fuel (del_connector s m)
  timer_fires : (now : ℕ) (m : ObjectManager) → Reaches fuel m → Reaches fuel (on_timer now m)
  receives :
      (now count s : ℕ) (h : Handler) (m : ObjectManager) (ok : Bool) (n : ObjectManager)
      → run_handler fuel now count s h m ≡ some (ok, n)
      → Reaches fuel m
      → Reaches fuel n

-- A client stands under its number, which was given before, and its socket is bound to it.
pub record IsBound (m : ObjectManager) : Type 0 where
  pub ordered : IsOrdered m.object_map
  pub bound :
      (uid : ℕ) (ob : Object)
      → find uid m.object_map ≡ some ob
      → (ob.uid ≡ uid) × (uid < m.global_uid) × (m.bind_uid ob.socket ≡ uid)

module _ (m : ObjectManager) (h : IsBound m) where
  pub Shrinks-IsBound : (n : ObjectManager) → Shrinks m n → IsBound n
  Shrinks-IsBound n k = record {
    ordered = k.ordered;
    bound = λ uid ob e.
        (let (old, found, same_uid, same_socket) = k.from uid ob e in
          let (a, b, c) = h.bound uid old found in
          (
            same_uid ∙ a,
            subst (λ g. uid < g) (sym k.same_given) b,
            ap n.bind_uid same_socket ∙ ap (λ f. f old.socket) k.same_bind ∙ c,
          ));
  }

  pub not_given : find m.global_uid m.object_map ≡ none
  not_given = elim (Option-cases (find m.global_uid m.object_map)) [
    | inl e ↦ e
    | inr (old, e) ↦ absurd (let (a, b, c) = h.bound m.global_uid old e in omega arith)
  ]

  -- What the call does when the number does not wrap.
  pub add_connector-fresh :
      (now s : ℕ)
      → m.global_uid + 1 < 2 ^ 64
      → add_connector now (some s) m ≡ record m {
        object_map =
            insert m.global_uid
              (record { socket = s; uid = m.global_uid; active_time = now })
              m.object_map;
        global_uid = m.global_uid + 1;
        bind_uid = λ t. if t == s then m.global_uid else m.bind_uid t;
      }
  unfolding add_connector add_object find_object new_object
  add_connector-fresh now s small =
      let next : (m.global_uid + 1) % 2 ^ 64 ≡ m.global_uid + 1 = omega arith in
      ground (arith, not_given, next)

  pub add_connector-IsBound :
      (now s : ℕ) → IsNew s m → m.global_uid + 1 < 2 ^ 64 → IsBound (add_connector now (some s) m)
  add_connector-IsBound now s new_socket small = rw (add_connector-fresh now s small) record {
    ordered = insert-IsOrdered m.global_uid _ m.object_map h.ordered;
    bound = λ uid ob found. ground (
      arith,
      found,
      find-insert uid m.global_uid (record { socket = s; uid = m.global_uid; active_time = now })
          m.object_map h.ordered not_given,
      h.bound uid ob,
      new_socket uid ob,
    );
  }

-- After any calls of addConnector with sockets that no client has, of delConnector, of the timer
-- and of the message handlers, as long as fewer than 2^64 clients were added: the clients are
-- ordered by number, each stands under its own number, which was given before, and its socket is
-- bound to that number.
pub Reaches-IsBound : (fuel : ℕ) (m : ObjectManager) → Reaches fuel m → IsBound m
unfolding init new_manager find
Reaches-IsBound fuel m initialised = record {
  ordered = tt;
  bound = λ uid ob found. absurd (ground (arith, found));
}
Reaches-IsBound fuel m (adds now s m' new_socket small r) =
    add_connector-IsBound m' (Reaches-IsBound fuel m' r) now s new_socket small
Reaches-IsBound fuel m (deletes s m' r) =
    (let h = Reaches-IsBound fuel m' r in
      Shrinks-IsBound m' h (del_connector s m') (del_connector-Shrinks s m' h.ordered))
Reaches-IsBound fuel m (timer_fires now m' r) =
    (let h = Reaches-IsBound fuel m' r in
      Shrinks-IsBound m' h (on_timer now m') (on_timer-Shrinks m' h.ordered now))
Reaches-IsBound fuel m (receives now count s h m' ok n e r) =
    (let b = Reaches-IsBound fuel m' r in
      Shrinks-IsBound m' b n (run_handler-Shrinks fuel now count s h m' n ok b.ordered e))
