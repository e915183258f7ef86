-- ===== src/Server/Sentry/Shrink.antt =====
-- What the calls that add no client leave of the clients.
use integration_server.Prelude.{
  ℕ, ◌≡◌, refl, subst, inl, inr, Bool, List, [], ◌∷◌, Option, none, some, arith, Option-cases,
}
use integration_server.Prelude.Map.{find, update, IsOrdered}
use integration_server.Prelude.Map.Laws.{erase-IsOrdered, update-IsOrdered, find-erase, find-update}
use integration_server.Server.Sentry.{
  Object, Action, send_replies, post_close, ObjectManager, find_object, del_object, del_connector,
  acted, on_timer, limit_loop, test_limit_tcp, Handler, handle_msg_robot, handle_msg_pong,
  handle_msg_test_tcp_request, run_handler,
}
use integration_server.Server.Sentry.Timeout.{unless_timeout, find-check_all, check_all-IsOrdered}

-- The clients of `n` are some of those of `m`, with other times.
pub record Shrinks (m n : ObjectManager) : Type 0 where
  pub ordered : IsOrdered n.object_map
  pub from :
      (uid : ℕ) (ob : Object)
      → find uid n.object_map ≡ some ob
      → (o : Object) × (find uid m.object_map ≡ some o) × (ob.uid ≡ o.uid) × (ob.socket ≡ o.socket)
  pub same_given : n.global_uid ≡ m.global_uid
  pub same_bind : n.bind_uid ≡ m.bind_uid

module _ (m : ObjectManager) (h : IsOrdered m.object_map) where
  pub Shrinks-refl : Shrinks m m
  Shrinks-refl = record {
    ordered = h;
    from = λ uid ob e. (ob, e, refl, refl);
    same_given = refl;
    same_bind = refl;
  }

  del_object-Shrinks : (uid : ℕ) → Shrinks m (del_object uid m).1
  unfolding del_object find_object
  del_object-Shrinks uid = elim (Option-cases (find uid m.object_map)) [
    | inl e ↦ rw (e, del_object, find_object) Shrinks-refl
    | inr (old, e) ↦
        rw (e, del_object, find_object)
          (record {
            ordered = erase-IsOrdered uid m.object_map h;
            from = λ k ob found.
                (ob, ground (arith, found, find-erase k uid m.object_map h), refl, refl);
            same_given = refl;
            same_bind = refl;
          })
  ]

  pub on_timer-Shrinks : (now : ℕ) → Shrinks m (on_timer now m)
  unfolding on_timer unless_timeout
  on_timer-Shrinks now = record {
    ordered = check_all-IsOrdered now m.object_map h;
    from =
        λ k ob found. (ob, ground (arith, found, find-check_all k now m.object_map h), refl, refl);
    same_given = refl;
    same_bind = refl;
  }

  pong-Shrinks :
      (now uid : ℕ)
      → Shrinks m
          (record m { object_map = update uid (λ o. record o { active_time = now }) m.object_map })
  pong-Shrinks now uid = record {
    ordered = update-IsOrdered uid _ m.object_map h;
    from = λ k ob found.
        (let law = find-update k uid (λ o. record o { active_time = now }) m.object_map in
          elim (Option-cases (find k m.object_map)) [
            | inl missing ↦ absurd (ground (arith, missing, found, law))
            | inr (old, was) ↦
                (old, was, ground (arith, was, found, law), ground (arith, was, found, law))
          ]);
    same_given = refl;
    same_bind = refl;
  }

-- What is asked of others does not count.
pub acted-Shrinks :
    (acts : List Action) (m n : ObjectManager) → Shrinks (acted acts m) n → Shrinks m n
acted-Shrinks acts m n k = record {
  ordered = k.ordered;
  from = k.from;
  same_given = k.same_given;
  same_bind = k.same_bind;
}

pub del_connector-Shrinks :
    (s : Option ℕ) (m : ObjectManager) → IsOrdered m.object_map → Shrinks m (del_connector s m)
unfolding del_connector
del_connector-Shrinks none m h = Shrinks-refl m h
del_connector-Shrinks (some s) m h = del_object-Shrinks m h (m.bind_uid s)

test_limit_tcp-Shrinks :
    (fuel times : ℕ) (ob : Object) (m n : ObjectManager)
    → IsOrdered m.object_map
    → test_limit_tcp fuel times ob m ≡ some n
    → Shrinks m n
unfolding test_limit_tcp
test_limit_tcp-Shrinks fuel times ob m n h e = elim (Option-cases (limit_loop fuel times 0)) [
  | inl none_left ↦ ground (arith, e, none_left)
  | inr (sent, counted) ↦
      (let left : del_connector (some ob.socket)
              (acted (send_replies ob.socket sent ∷ post_close ob.socket ∷ []) m)
            ≡ n =
          ground (arith, e, counted) in
        subst (Shrinks m) left (
          acted-Shrinks _ m _ (
            del_connector-Shrinks (some ob.socket)
              (acted (send_replies ob.socket sent ∷ post_close ob.socket ∷ []) m) h)))
]

pub run_handler-Shrinks :
    (fuel now count s : ℕ) (h : Handler) (m n : ObjectManager) (ok : Bool)
    → IsOrdered m.object_map
    → run_handler fuel now count s h m ≡ some (ok, n)
    → Shrinks m n
unfolding run_handler
run_handler-Shrinks fuel now count s h m n ok b e =
    elim (Option-cases (find (m.bind_uid s) m.object_map)) [
      | inl missing ↦
          (let left : m ≡ n = ground (arith, e, missing) in
            subst (Shrinks m) left (Shrinks-refl m b))
      | inr (ob, found) ↦
          elim h as (λ h. run_handler fuel now count s h m ≡ some (ok, n) → Shrinks m n) [
            | handle_msg_robot ↦ λ e.
                (let left : m ≡ n = ground (arith, e, found) in
                  subst (Shrinks m) left (Shrinks-refl m b))
            | handle_msg_pong ↦ λ e.
                (let left : record m {
                  object_map =
                      update (m.bind_uid s) (λ o. record o { active_time = now }) m.object_map;
                }
                      ≡ n =
                    ground (arith, e, found) in
                  subst (Shrinks m) left (pong-Shrinks m b now (m.bind_uid s)))
            | handle_msg_test_tcp_request ↦ λ e.
                elim (Option-cases (test_limit_tcp fuel count ob m)) [
                  | inl out ↦ absurd (ground (arith, e, found, out))
                  | inr (m', ran) ↦
                      (let left : m' ≡ n = ground (arith, e, found, ran) in
                        subst (Shrinks m) left (test_limit_tcp-Shrinks fuel count ob m m' b ran))
                ]
          ]
            e
    ]
