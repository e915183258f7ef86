-- ===== src/Server/Process/Heard.antt =====
-- What the main thread hears of the sockets of the acceptor.
use integration_server.Prelude.{
  ℕ, ◌+◌, ◌-◌, ◌≡◌, refl, sym, ap, ◌∙◌, inl, inr, Bool, true, false, List, [], ◌∷◌, ◌++◌, none,
  some, if◌then◌else◌, arith, Bool-cases, Option-cases, append_nil,
}
use integration_server.Prelude.Map.{find}
use integration_server.Prelude.Map.Laws.{find-update}
use integration_server.Network.Connector.{Ec, no_error, operation_aborted, other_error}
use integration_server.Network.Acceptor.{
  Acceptor, AcceptorCall, close_socket, on_close, find_socket, erase_socket, drop_socket, close_all,
  accept_done, active_close, passive_close, stop_posted, clear_posted, on_active_socket_close,
  on_passive_socket_close, accepted, accept_next, on_accepted,
}
use integration_server.Network.Acceptor
use integration_server.Network.Acceptor.Owned.{numbers, numbers-add_one}
use integration_server.Network.BoostNetwork.{BoostNetwork, post_close_socket, acceptor_at}
use integration_server.Server.Sentry.{Action, send_ping, post_close, send_replies, timer_after}
use integration_server.Server.Process.{
  listen_port, Task, close_server_task, on_add_sentry, on_del_sentry, on_sentry_msg, listener,
  post_closes,
}

-- The sockets that wait to be added.
unfoldable pub pending : List Task → List ℕ
pending [] = []
pending (close_server_task ∷ ts) = pending ts
pending (on_add_sentry s ∷ ts) = s ∷ pending ts
pending (on_del_sentry s ∷ ts) = pending ts
pending (on_sentry_msg s cmd count ∷ ts) = pending ts

unfoldable pub closings : List Task → ℕ
closings [] = 0
closings (close_server_task ∷ ts) = closings ts + 1
closings (on_add_sentry s ∷ ts) = closings ts
closings (on_del_sentry s ∷ ts) = closings ts
closings (on_sentry_msg s cmd count ∷ ts) = closings ts

pub pending-append : (ts us : List Task) → pending (ts ++ us) ≡ pending ts ++ pending us
unfolding pending
pending-append [] us = refl
pending-append (close_server_task ∷ ts) us = pending-append ts us
pending-append (on_add_sentry s ∷ ts) us = ap (λ zs. s ∷ zs) (pending-append ts us)
pending-append (on_del_sentry s ∷ ts) us = pending-append ts us
pending-append (on_sentry_msg s cmd count ∷ ts) us = pending-append ts us

pub closings-append : (ts us : List Task) → closings (ts ++ us) ≡ closings ts + closings us
unfolding closings
closings-append [] us = omega arith
closings-append (close_server_task ∷ ts) us = omega (arith, closings-append ts us)
closings-append (on_add_sentry s ∷ ts) us = closings-append ts us
closings-append (on_del_sentry s ∷ ts) us = closings-append ts us
closings-append (on_sentry_msg s cmd count ∷ ts) us = closings-append ts us

-- The calls of an acceptor that had made `n` sockets: each new socket is heard of.
pub record IsHeard (n : ℕ) (b : Acceptor) : Type 0 where
  pub sockets : numbers n ++ pending (listener b.calls) ≡ numbers b.made
  pub no_close : closings (listener b.calls) ≡ 0

if-IsHeard :
    (n : ℕ) (b : Bool) (x y : Acceptor) → IsHeard n x → IsHeard n y → IsHeard n (if b then x else y)
if-IsHeard n true x y hx hy = hx
if-IsHeard n false x y hx hy = hy

listener-close_all : (ss : List ℕ) → listener (close_all ss) ≡ []
unfolding listener close_all
listener-close_all [] = refl
listener-close_all (s ∷ ss) = listener-close_all ss

-- No socket is made.
silent-IsHeard : (a : Acceptor) → listener a.calls ≡ [] → IsHeard a.made a
unfolding pending closings
silent-IsHeard a e = record {
  sockets = ap (λ ts. numbers a.made ++ pending ts) e ∙ append_nil (numbers a.made);
  no_close = ap closings e;
}

drop_socket-IsHeard :
    (leave : AcceptorCall) (s : ℕ) (a : Acceptor)
    → a.calls ≡ []
    → pending (listener (leave ∷ [])) ≡ []
    → closings (listener (leave ∷ [])) ≡ 0
    → IsHeard a.made (drop_socket leave s a)
unfolding drop_socket listener
drop_socket-IsHeard leave s a e p c = elim (Bool-cases (find_socket s a.socket_vec)) [
  | inl found ↦ simp found (record {
    sockets =
        ap (λ cs. numbers a.made ++ pending (listener (cs ++ leave ∷ []))) e
        ∙ ap (λ ss. numbers a.made ++ ss) p
        ∙ append_nil (numbers a.made);
    no_close = ap (λ cs. closings (listener (cs ++ leave ∷ []))) e ∙ c;
  })
  | inr gone ↦ simp gone (silent-IsHeard a (ap listener e))
]

accept_next-IsHeard : (ec : Ec) (a : Acceptor) → a.calls ≡ [] → IsHeard a.made (accept_next ec a)
unfolding accept_next accepted Acceptor.accept listener pending closings
accept_next-IsHeard no_error a e =
    let f = λ (cs : List AcceptorCall). listener (
      (cs ++ Acceptor.on_new_accept a.made ∷ Acceptor.start_read a.made ∷ [])
      ++ Acceptor.async_accept ∷ []) in
    record {
      sockets = ap (λ cs. numbers a.made ++ pending (f cs)) e ∙ sym (numbers-add_one a.made);
      no_close = ap (λ cs. closings (f cs)) e;
    }
accept_next-IsHeard operation_aborted a e = silent-IsHeard a (ap listener e)
accept_next-IsHeard other_error a e =
    silent-IsHeard (Acceptor.accept a) (ap (λ cs. listener (cs ++ Acceptor.async_accept ∷ [])) e)

pub handle-IsHeard :
    (e : Acceptor.Event) (a : Acceptor)
    → IsHeard a.made (Acceptor.handle e (record a { calls = [] }))
unfolding Acceptor.handle on_active_socket_close on_passive_socket_close Acceptor.stop
    Acceptor.clear on_accepted listener pending closings
handle-IsHeard (accept_done ec) a =
    let b : Acceptor = record a { calls = []; accepting = a.accepting - 1 } in
    if-IsHeard a.made a.is_open (accept_next ec b) b (accept_next-IsHeard ec b refl)
      (silent-IsHeard b refl)
handle-IsHeard (active_close none) a = silent-IsHeard (record a { calls = [] }) refl
handle-IsHeard (active_close (some s)) a =
    drop_socket-IsHeard (close_socket s) s (record a { calls = [] }) refl refl refl
handle-IsHeard (passive_close none) a = silent-IsHeard (record a { calls = [] }) refl
handle-IsHeard (passive_close (some s)) a =
    drop_socket-IsHeard (on_close s) s (record a { calls = [] }) refl refl refl
handle-IsHeard stop_posted a =
    if-IsHeard a.made a.is_open (record a { is_open = false; calls = Acceptor.close_acceptor ∷ [] })
      (record a { calls = [] })
      (silent-IsHeard (record a { is_open = false; calls = Acceptor.close_acceptor ∷ [] }) refl)
      (silent-IsHeard (record a { calls = [] }) refl)
handle-IsHeard clear_posted a =
    silent-IsHeard (Acceptor.clear (record a { calls = [] })) (listener-close_all a.socket_vec)

-- Every acceptor at the port has made so many sockets.
abbrev pub HasMade : ℕ → BoostNetwork → Type 0
HasMade made n = (a : Acceptor) → find listen_port n.listen_map ≡ some a → a.made ≡ made

drop_socket-made :
    (leave : AcceptorCall) (s : ℕ) (a : Acceptor) → (drop_socket leave s a).made ≡ a.made
unfolding drop_socket
drop_socket-made leave s a = ground arith

post_close_socket-HasMade :
    (s made : ℕ) (n : BoostNetwork)
    → HasMade made n
    → HasMade made (post_close_socket (acceptor_at listen_port) s n)
unfolding post_close_socket on_active_socket_close
post_close_socket-HasMade s made n h a e =
    let law = find-update listen_port listen_port (on_active_socket_close (some s)) n.listen_map in
    elim (Option-cases (find listen_port n.listen_map)) [
      | inl missing ↦ absurd (ground (arith, missing, law, e))
      | inr (b, found) ↦
          (let moved : on_active_socket_close (some s) b ≡ a = ground (arith, found, law, e) in
            ap (λ (c : Acceptor). c.made) (sym moved)
            ∙ drop_socket-made (close_socket s) s b
            ∙ h b found)
    ]

pub post_closes-HasMade :
    (made : ℕ) (acts : List Action) (n : BoostNetwork)
    → HasMade made n
    → HasMade made (post_closes acts n)
unfolding post_closes
post_closes-HasMade made [] n h = h
post_closes-HasMade made (post_close s ∷ acts) n h =
    post_closes-HasMade made acts (post_close_socket (acceptor_at listen_port) s n)
      (post_close_socket-HasMade s made n h)
post_closes-HasMade made (send_ping s ∷ acts) n h = post_closes-HasMade made acts n h
post_closes-HasMade made (send_replies s k ∷ acts) n h = post_closes-HasMade made acts n h
post_closes-HasMade made (timer_after k ∷ acts) n h = post_closes-HasMade made acts n h
