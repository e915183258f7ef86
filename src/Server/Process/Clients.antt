-- ===== src/Server/Process/Clients.antt =====
-- The clients of a process are sockets that its main thread was given, each once.
use integration_server.Prelude.{
  ℕ, ◌+◌, ◌^◌, ◌<◌, ◌≡◌, sym, ap, ◌∙◌, subst, inl, inr, List, [], ◌∷◌, ◌++◌, some, ◌==◌, arith,
  length, length-append, count, count-append, Bool-cases,
}
use integration_server.Prelude.Map.{find}
use integration_server.Prelude.Map.Laws.{find-insert}
use integration_server.Server.Sentry.{Object, Action, ObjectManager, add_connector, on_timer}
use integration_server.Server.Sentry.Shrink.{Shrinks, on_timer-Shrinks}
use integration_server.Server.Sentry.Bound.{
  IsNew, IsBound, Shrinks-IsBound, add_connector-IsBound, add_connector-fresh, not_given,
}
use integration_server.Server.Process.{run_timers}

-- As many numbers were given as sockets were added, and the clients' sockets are among those.
pub record IsAdded (added : List ℕ) (m : ObjectManager) : Type 0 where
  pub is_bound : IsBound m
  pub given : m.global_uid ≡ length added
  pub among : (uid : ℕ) (ob : Object) → find uid m.object_map ≡ some ob → 0 < count ob.socket added

pub Shrinks-IsAdded :
    (added : List ℕ) (m n : ObjectManager) → IsAdded added m → Shrinks m n → IsAdded added n
Shrinks-IsAdded added m n h k = record {
  is_bound = Shrinks-IsBound m h.is_bound n k;
  given = k.same_given ∙ h.given;
  among = λ uid ob e.
      (let (old, found, same_uid, same_socket) = k.from uid ob e in
        subst (λ s. 0 < count s added) (sym same_socket) (h.among uid old found));
}

-- What is asked of others does not count.
pub actions-IsAdded :
    (added : List ℕ) (acts : List Action) (m : ObjectManager)
    → IsAdded added m
    → IsAdded added (record m { actions = acts })
actions-IsAdded added acts m h = record {
  is_bound = record { ordered = h.is_bound.ordered; bound = h.is_bound.bound };
  given = h.given;
  among = h.among;
}

module _ (added : List ℕ) (m : ObjectManager) (h : IsAdded added m) where
  -- A socket that was not added before.
  pub add_connector-IsAdded :
      (now s : ℕ)
      → count s added ≡ 0
      → length added + 1 < 2 ^ 64
      → IsAdded (added ++ s ∷ []) (add_connector now (some s) m)
  unfolding count
  add_connector-IsAdded now s none_yet small =
      let small' : m.global_uid + 1 < 2 ^ 64 = omega (arith, h.given, small) in
      let new : IsNew s m =
        λ uid ob e same. omega (arith, h.among uid ob e, ap (λ t. count t added) same, none_yet) in
      record {
        is_bound = add_connector-IsBound m h.is_bound now s new small';
        given =
            ap (λ (n : ObjectManager). n.global_uid) (add_connector-fresh m h.is_bound now s small')
            ∙ omega (arith, h.given, length-append added (s ∷ []));
        among = λ uid ob e.
            (let ob' : Object = record { socket = s; uid = m.global_uid; active_time = now } in
              let found =
                sym (
                  find-insert uid m.global_uid ob' m.object_map h.is_bound.ordered
                    (not_given m h.is_bound))
                ∙ ap (λ (n : ObjectManager). find uid n.object_map)
                    (sym (add_connector-fresh m h.is_bound now s small'))
                ∙ e in
              let more = count-append ob.socket added (s ∷ []) in
              elim (Bool-cases (uid == m.global_uid)) [
                | inl c ↦
                    (let same : ob' ≡ ob = ground (arith, found, c) in
                      ground (arith, more, ap (λ (o : Object). o.socket) same))
                | inr c ↦
                    (let old : find uid m.object_map ≡ some ob = ground (arith, found, c) in
                      omega (arith, more, h.among uid ob old))
              ]);
      }

pub run_timers-IsAdded :
    (now : ℕ) (fs : List ℕ) (added : List ℕ) (m : ObjectManager)
    → IsAdded added m
    → IsAdded added (run_timers now fs m)
unfolding run_timers
run_timers-IsAdded now [] added m h = h
run_timers-IsAdded now (f ∷ fs) added m h =
    run_timers-IsAdded now fs added (on_timer now m)
      (Shrinks-IsAdded added m (on_timer now m) h (on_timer-Shrinks m h.is_bound.ordered now))
