-- ===== src/Network/Acceptor/Owned.antt =====
-- What becomes of the sockets of an Acceptor, by any order of events.
use integration_server.Prelude.{
  ℕ, zero, suc, ◌+◌, ◌-◌, ◌≤◌, ◌<◌, ◌≡◌, refl, sym, ap, ◌∙◌, inl, inr, Bool, true, false, List, [],
  ◌∷◌, ◌++◌, none, some, arith, ◌==◌, ltb, if◌then◌else◌, Bool-cases, ltb→lt, count, count-append,
  append_nil, ==_iff,
}
use integration_server.Network.Connector.{Ec, no_error, operation_aborted, other_error}
use integration_server.Network.Acceptor.{
  AcceptorCall, async_accept, close_acceptor, on_new_accept, start_read, close_socket, on_close,
  Acceptor, new_acceptor, called, accept, ListenResult, not_resolved, not_bound, listening, listen,
  accepted, accept_next, on_accepted, find_socket, erase_socket, drop_socket,
  on_active_socket_close, on_passive_socket_close, stop, close_all, clear, Event, accept_done,
  active_close, passive_close, stop_posted, clear_posted, is_enabled, handle,
}

-- The events after a listen, which may have failed.
pub data Reaches (r : ListenResult) : Acceptor → Type 0 where
  listened : Reaches r (listen r new_acceptor).1
  next : (e : Event) (a : Acceptor) → is_enabled e a ≡ true → Reaches r a → Reaches r (handle e a)

-- The sockets that were shown to the callback, and those that were closed or reported as closed.
unfoldable pub shown : List AcceptorCall → List ℕ
shown [] = []
shown (async_accept ∷ cs) = shown cs
shown (close_acceptor ∷ cs) = shown cs
shown (on_new_accept s ∷ cs) = s ∷ shown cs
shown (start_read s ∷ cs) = shown cs
shown (close_socket s ∷ cs) = shown cs
shown (on_close s ∷ cs) = shown cs

unfoldable pub gone : List AcceptorCall → List ℕ
gone [] = []
gone (async_accept ∷ cs) = gone cs
gone (close_acceptor ∷ cs) = gone cs
gone (on_new_accept s ∷ cs) = gone cs
gone (start_read s ∷ cs) = gone cs
gone (close_socket s ∷ cs) = s ∷ gone cs
gone (on_close s ∷ cs) = s ∷ gone cs

shown-append : (xs ys : List AcceptorCall) → shown (xs ++ ys) ≡ shown xs ++ shown ys
unfolding shown
shown-append [] ys = refl
shown-append (async_accept ∷ xs) ys = shown-append xs ys
shown-append (close_acceptor ∷ xs) ys = shown-append xs ys
shown-append (on_new_accept s ∷ xs) ys = ap (λ zs. s ∷ zs) (shown-append xs ys)
shown-append (start_read s ∷ xs) ys = shown-append xs ys
shown-append (close_socket s ∷ xs) ys = shown-append xs ys
shown-append (on_close s ∷ xs) ys = shown-append xs ys

gone-append : (xs ys : List AcceptorCall) → gone (xs ++ ys) ≡ gone xs ++ gone ys
unfolding gone
gone-append [] ys = refl
gone-append (async_accept ∷ xs) ys = gone-append xs ys
gone-append (close_acceptor ∷ xs) ys = gone-append xs ys
gone-append (on_new_accept s ∷ xs) ys = gone-append xs ys
gone-append (start_read s ∷ xs) ys = gone-append xs ys
gone-append (close_socket s ∷ xs) ys = ap (λ zs. s ∷ zs) (gone-append xs ys)
gone-append (on_close s ∷ xs) ys = ap (λ zs. s ∷ zs) (gone-append xs ys)

-- 0, 1, … up to but not including n.
unfoldable pub numbers : ℕ → List ℕ
numbers zero = []
numbers (suc n) = numbers n ++ n ∷ []

pub numbers-add_one : (n : ℕ) → numbers (n + 1) ≡ numbers n ++ n ∷ []
unfolding numbers
numbers-add_one n = let e : n + 1 ≡ suc n = omega arith in ap numbers e

pub count-numbers : (s n : ℕ) → count s (numbers n) ≡ (if ltb s n then 1 else 0)
unfolding numbers count
count-numbers s zero = ground arith
count-numbers s (suc n) = ground (arith, count-numbers s n, count-append s (numbers n) (n ∷ []))

-- Every socket that was made was shown once, in the order in which they were made, and is in the list
-- or gone, once; and at most one async_accept waits.
pub record IsOwned (a : Acceptor) : Type 0 where
  pub once : shown a.calls ≡ numbers a.made
  pub owned : (s : ℕ) → count s a.socket_vec + count s (gone a.calls) ≡ count s (numbers a.made)
  pub single : a.accepting ≤ 1

-- Calls that show nothing, and the sockets that leave the list by them.
module _ (a : Acceptor) (cs : List AcceptorCall) (rest : List ℕ) (h : IsOwned a)
    (quiet : shown cs ≡ [])
    (left : (s : ℕ) → count s rest + count s (gone cs) ≡ count s a.socket_vec) where
  leave-IsOwned : IsOwned (record (called cs a) { socket_vec = rest })
  leave-IsOwned = record {
    once =
        shown-append a.calls cs
        ∙ ap (λ xs. shown a.calls ++ xs) quiet
        ∙ append_nil (shown a.calls)
        ∙ h.once;
    owned = λ s. omega (
      arith,
      h.owned s,
      left s,
      ap (count s) (gone-append a.calls cs),
      count-append s (gone a.calls) (gone cs),
    );
    single = h.single;
  }

accept-IsOwned : (a : Acceptor) → a.accepting ≡ 0 → IsOwned a → IsOwned (accept a)
unfolding accept shown gone count
accept-IsOwned a e h = record {
  once = shown-append a.calls (async_accept ∷ []) ∙ append_nil (shown a.calls) ∙ h.once;
  owned = λ s. omega (
    arith,
    h.owned s,
    ap (count s) (gone-append a.calls (async_accept ∷ [])),
    count-append s (gone a.calls) [],
  );
  single = omega (arith, e);
}

accepted-IsOwned : (a : Acceptor) → IsOwned a → IsOwned (accepted a)
unfolding accepted shown gone count numbers
accepted-IsOwned a h =
    let cs = on_new_accept a.made ∷ start_read a.made ∷ [] in
    record {
      once =
          shown-append a.calls cs
          ∙ ap (λ xs. xs ++ a.made ∷ []) h.once
          ∙ sym (numbers-add_one a.made);
      owned = λ s. omega (
        arith,
        h.owned s,
        ap (count s) (gone-append a.calls cs),
        count-append s (gone a.calls) [],
        count-append s a.socket_vec (a.made ∷ []),
        count-append s (numbers a.made) (a.made ∷ []),
        ap (count s) (numbers-add_one a.made),
      );
      single = h.single;
    }

count-erase_socket :
    (s t : ℕ) (ts : List ℕ)
    → find_socket s ts ≡ true
    → count t (erase_socket s ts) + count t (s ∷ []) ≡ count t ts
unfolding find_socket erase_socket count
count-erase_socket s t [] h = cc
count-erase_socket s t (u ∷ ts) h = elim (Bool-cases (s == u)) [
  | inl e ↦ rw (e, (==_iff s u).0 e) (omega arith)
  | inr e ↦ rw e (omega (arith, count-erase_socket s t ts (rw e at h)))
]

drop_socket-IsOwned :
    (leave : AcceptorCall) (s : ℕ) (a : Acceptor)
    → shown (leave ∷ []) ≡ []
    → gone (leave ∷ []) ≡ s ∷ []
    → IsOwned a
    → IsOwned (drop_socket leave s a)
unfolding drop_socket
drop_socket-IsOwned leave s a quiet g h = elim (Bool-cases (find_socket s a.socket_vec)) [
  | inl e ↦ simp e (
      leave-IsOwned a (leave ∷ []) (erase_socket s a.socket_vec) h quiet (λ t.
        ap (λ xs. count t (erase_socket s a.socket_vec) + count t xs) g
        ∙ count-erase_socket s t a.socket_vec e))
  | inr e ↦ simp e h
]

gone-close_all : (ss : List ℕ) → (shown (close_all ss) ≡ []) × (gone (close_all ss) ≡ ss)
unfolding shown gone close_all
gone-close_all [] = (refl, refl)
gone-close_all (s ∷ ss) = let (a, b) = gone-close_all ss in (a, ap (λ xs. s ∷ xs) b)

accept_next-IsOwned :
    (ec : Ec) (a : Acceptor) → a.accepting ≡ 0 → IsOwned a → IsOwned (accept_next ec a)
unfolding accept_next accepted
accept_next-IsOwned no_error a e h = accept-IsOwned (accepted a) e (accepted-IsOwned a h)
accept_next-IsOwned operation_aborted a e h = h
accept_next-IsOwned other_error a e h = accept-IsOwned a e h

if-IsOwned : (b : Bool) (x y : Acceptor) → IsOwned x → IsOwned y → IsOwned (if b then x else y)
if-IsOwned true x y hx hy = hx
if-IsOwned false x y hx hy = hy

on_accepted-IsOwned :
    (ec : Ec) (a : Acceptor) → 0 < a.accepting → IsOwned a → IsOwned (on_accepted ec a)
unfolding on_accepted
on_accepted-IsOwned ec a p h =
    let b : Acceptor = record a { accepting = a.accepting - 1 } in
    let h' : IsOwned b = record {
      once = h.once;
      owned = h.owned;
      single = omega (arith, h.single);
    } in
    if-IsOwned a.is_open (accept_next ec b) b
      (accept_next-IsOwned ec b (omega (arith, p, h.single)) h') h'

stop-IsOwned : (a : Acceptor) → IsOwned a → IsOwned (stop a)
unfolding stop shown gone count
stop-IsOwned a h =
    let o = leave-IsOwned a (close_acceptor ∷ []) a.socket_vec h refl (λ s. omega arith) in
    if-IsOwned a.is_open (called (close_acceptor ∷ []) (record a { is_open = false })) a
      (record { once = o.once; owned = o.owned; single = o.single }) h

pub handle-IsOwned :
    (e : Event) (a : Acceptor) → is_enabled e a ≡ true → IsOwned a → IsOwned (handle e a)
unfolding handle is_enabled on_active_socket_close on_passive_socket_close clear shown gone count
handle-IsOwned (accept_done ec) a p h = on_accepted-IsOwned ec a (ltb→lt 0 a.accepting p) h
handle-IsOwned (active_close none) a p h = h
handle-IsOwned (active_close (some s)) a p h = drop_socket-IsOwned (close_socket s) s a refl refl h
handle-IsOwned (passive_close none) a p h = h
handle-IsOwned (passive_close (some s)) a p h = drop_socket-IsOwned (on_close s) s a refl refl h
handle-IsOwned stop_posted a p h = stop-IsOwned a h
handle-IsOwned clear_posted a p h =
    let (quiet, g) = gone-close_all a.socket_vec in
    leave-IsOwned a (close_all a.socket_vec) [] h quiet (λ s. omega (arith, ap (count s) g))

pub listen-IsOwned : (r : ListenResult) → IsOwned (listen r new_acceptor).1
unfolding listen new_acceptor accept shown gone numbers count
listen-IsOwned not_resolved = record { once = refl; owned = λ s. refl; single = omega arith }
listen-IsOwned not_bound = record { once = refl; owned = λ s. refl; single = omega arith }
listen-IsOwned listening = record { once = refl; owned = λ s. refl; single = omega arith }

Reaches-IsOwned : (r : ListenResult) (a : Acceptor) → Reaches r a → IsOwned a
Reaches-IsOwned r _ listened = listen-IsOwned r
Reaches-IsOwned r _ (next e a p t) = handle-IsOwned e a p (Reaches-IsOwned r a t)

-- After listen, with any result, and any events of an Acceptor, where the handler of async_accept
-- runs at most once for each call of it: the sockets that were made were shown to the callback once
-- each, in the order in which they were made; each of them is in the list or was closed or reported
-- as closed, exactly one of the two and once; and at most one async_accept is pending.
pub Reaches-owned :
    (r : ListenResult) (a : Acceptor)
    → Reaches r a
    → (shown a.calls ≡ numbers a.made)
      × ((s : ℕ) → count s a.socket_vec + count s (gone a.calls) ≡ (if ltb s a.made then 1 else 0))
      × (a.accepting ≤ 1)
Reaches-owned r a t =
    let h = Reaches-IsOwned r a t in (h.once, λ s. h.owned s ∙ count-numbers s a.made, h.single)
