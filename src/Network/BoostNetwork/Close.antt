-- ===== src/Network/BoostNetwork/Close.antt =====
-- What stop and close leave of the connections of a process, after any history.
use integration_server.Prelude.{
  ℕ, zero, suc, ◌≡◌, refl, subst, inl, inr, Bool, true, false, List, [], ◌∷◌, map, Option, none,
  some, ◌==◌, ltb, if◌then◌else◌, arith, Bool-cases, Option-cases, count, All, All-append,
  get_elem?,
}
use integration_server.Prelude.Map.{Map, find, assign, insert, update}
use integration_server.Network.Acceptor.{Acceptor, new_acceptor, ListenResult, listen}
use integration_server.Network.Acceptor
use integration_server.Network.Acceptor.Owned.{
  IsOwned, gone, count-numbers, handle-IsOwned, listen-IsOwned,
}
use integration_server.Network.Connector.{Connector, new_connector}
use integration_server.Network.Connector
use integration_server.Network.Connector.Reach.{OneTry, handle-OneTry, new_connector-OneTry}
use integration_server.Network.BoostNetwork.{
  BoostNetwork, new_network, init, add_listener, listen_new, listen_at, connect_to, Owner, no_owner,
  acceptor_at, connector_at, modify_at, post_close_socket, map_values, stop, drain,
}

-- The calls of the program, and the events of the acceptors and the connectors.
pub data Reaches : BoostNetwork → Type 0 where
  fresh : Reaches new_network
  initialises : (k : ℕ) (n : BoostNetwork) → Reaches n → Reaches (init k n).1
  listens :
      (port : ℕ) (has_callback : Bool) (r : ListenResult) (n : BoostNetwork)
      → Reaches n
      → Reaches (listen_at port has_callback r n).1
  connects :
      (has_callback : Bool) (time : ℕ) (n : BoostNetwork)
      → Reaches n
      → Reaches (connect_to has_callback time n).1
  closes_socket :
      (o : Owner) (s : ℕ) (n : BoostNetwork) → Reaches n → Reaches (post_close_socket o s n)
  acceptor_event :
      (port : ℕ) (e : Acceptor.Event) (a : Acceptor) (n : BoostNetwork)
      → find port n.listen_map ≡ some a
      → Acceptor.is_enabled e a ≡ true
      → Reaches n
      → Reaches (record n { listen_map = update port (Acceptor.handle e) n.listen_map })
  connector_event :
      (i : ℕ) (e : Connector.Event) (c : Connector) (n : BoostNetwork)
      → get_elem? n.connect_vec i ≡ some c
      → Connector.is_enabled e c ≡ true
      → Reaches n
      → Reaches (record n { connect_vec = modify_at i (Connector.handle e) n.connect_vec })

abbrev pub AllValues : (Acceptor → Type 0) → Map Acceptor → Type 0
AllValues P [] = Unit
AllValues P ((k, a) ∷ m) = P a × AllValues P m

AllValues-assign :
    (P : Acceptor → Type 0) (k : ℕ) (a : Acceptor) (m : Map Acceptor)
    → P a
    → AllValues P m
    → AllValues P (assign k a m)
unfolding assign
AllValues-assign P k a [] p h = (p, tt)
AllValues-assign P k a ((j, b) ∷ m) p h = ground (arith, p, AllValues-assign P k a m p h.1)

AllValues-insert :
    (P : Acceptor → Type 0) (k : ℕ) (a : Acceptor) (m : Map Acceptor)
    → P a
    → AllValues P m
    → AllValues P (insert k a m)
unfolding insert
AllValues-insert P k a m p h = elim (Option-cases (find k m)) [
  | inl e ↦ rw (e, insert) (AllValues-assign P k a m p h)
  | inr (b, e) ↦ rw (e, insert) h
]

AllValues-update :
    (P : Acceptor → Type 0) (k : ℕ) (f : Acceptor → Acceptor) (m : Map Acceptor)
    → ((a : Acceptor) → find k m ≡ some a → P a → P (f a))
    → AllValues P m
    → AllValues P (update k f m)
unfolding update find
AllValues-update P k f [] g h = tt
AllValues-update P k f ((j, b) ∷ m) g h = elim (Bool-cases (j == k)) [
  | inl e ↦ rw e (g b (rw e refl) h.0, h.1)
  | inr e ↦ rw e (h.0, AllValues-update P k f m (λ a q. g a (rw e q)) h.1)
]

All-modify_at :
    (P : Connector → Type 0) (i : ℕ) (f : Connector → Connector) (cs : List Connector)
    → ((c : Connector) → get_elem? cs i ≡ some c → P c → P (f c))
    → All P cs
    → All P (modify_at i f cs)
unfolding modify_at
All-modify_at P i f [] g h = tt
All-modify_at P zero f (c ∷ cs) g h = (g c refl h.0, h.1)
All-modify_at P (suc i) f (c ∷ cs) g h = (h.0, All-modify_at P i f cs g h.1)

record IsKept (n : BoostNetwork) : Type 0 where
  listeners : AllValues IsOwned n.listen_map
  connectors : All OneTry n.connect_vec

add_listener-IsKept :
    (port : ℕ) (r : Bool × Acceptor) (n : BoostNetwork)
    → IsOwned r.1
    → IsKept n
    → IsKept (add_listener port r n).1
unfolding add_listener
add_listener-IsKept port (true, a) n o h = record {
  listeners = AllValues-insert IsOwned port a n.listen_map o h.listeners;
  connectors = h.connectors;
}
add_listener-IsKept port (false, a) n o h = h

listen_new-IsKept :
    (port : ℕ) (has_callback : Bool) (r : ListenResult) (found : Option Acceptor) (n : BoostNetwork)
    → IsKept n
    → IsKept (listen_new port has_callback r found n).1
unfolding listen_new
listen_new-IsKept port has_callback r (some a) n h = h
listen_new-IsKept port true r none n h =
    add_listener-IsKept port (listen r new_acceptor) n (listen-IsOwned r) h
listen_new-IsKept port false r none n h = h

post_close_socket-IsKept :
    (o : Owner) (s : ℕ) (n : BoostNetwork) → IsKept n → IsKept (post_close_socket o s n)
unfolding post_close_socket
post_close_socket-IsKept no_owner s n h = h
post_close_socket-IsKept (acceptor_at port) s n h = record {
  listeners =
      AllValues-update IsOwned port (Acceptor.on_active_socket_close (some s)) n.listen_map
        (λ a e.
          unfold Acceptor.handle Acceptor.is_enabled in
          handle-IsOwned (Acceptor.active_close (some s)) a refl)
        h.listeners;
  connectors = h.connectors;
}
post_close_socket-IsKept (connector_at i) s n h = record {
  listeners = h.listeners;
  connectors =
      All-modify_at OneTry i (Connector.on_active_socket_close (some s)) n.connect_vec
        (λ c e.
          unfold Connector.handle Connector.is_enabled in
          handle-OneTry (Connector.active_close (some s)) c refl)
        h.connectors;
}

if-IsKept :
    (b : Bool) (n m : BoostNetwork)
    → IsKept n
    → IsKept m
    → let r : Bool × BoostNetwork = if b then (false, n) else (true, m) in IsKept r.1
if-IsKept true n m h g = h
if-IsKept false n m h g = g

Reaches-IsKept : (n : BoostNetwork) → Reaches n → IsKept n
unfolding new_network init listen_at connect_to
Reaches-IsKept _ fresh = record { listeners = tt; connectors = tt }
Reaches-IsKept _ (initialises k n r) =
    let h = Reaches-IsKept n r in
    if-IsKept (k == 0) n (record n { has_work = true; threads = k }) h
      (record { listeners = h.listeners; connectors = h.connectors })
Reaches-IsKept _ (listens port has_callback l n r) =
    listen_new-IsKept port has_callback l (find port n.listen_map) n (Reaches-IsKept n r)
Reaches-IsKept _ (connects true time n r) =
    let h = Reaches-IsKept n r in
    record {
      listeners = h.listeners;
      connectors =
          All-append OneTry n.connect_vec (new_connector time ∷ []) h.connectors
            (new_connector-OneTry time, tt);
    }
Reaches-IsKept _ (connects false time n r) = Reaches-IsKept n r
Reaches-IsKept _ (closes_socket o s n r) = post_close_socket-IsKept o s n (Reaches-IsKept n r)
Reaches-IsKept _ (acceptor_event port e a n found on r) =
    let h = Reaches-IsKept n r in
    record {
      listeners =
          AllValues-update IsOwned port (Acceptor.handle e) n.listen_map
            (λ b same. handle-IsOwned e b (subst (λ x. Acceptor.is_enabled e x ≡ true) (cc) on))
            h.listeners;
      connectors = h.connectors;
    }
Reaches-IsKept _ (connector_event i e c n found on r) =
    let h = Reaches-IsKept n r in
    record {
      listeners = h.listeners;
      connectors =
          All-modify_at OneTry i (Connector.handle e) n.connect_vec
            (λ b same. handle-OneTry e b (subst (λ x. Connector.is_enabled e x ≡ true) (cc) on))
            h.connectors;
    }

-- An acceptor that is closed, with every socket that it made closed or reported, once.
abbrev pub Drained : Acceptor → Type 0
Drained a =
    (a.is_open ≡ false)
    × (a.socket_vec ≡ [])
    × ((s : ℕ) → count s (gone a.calls) ≡ (if ltb s a.made then 1 else 0))

-- A connector without a socket and without a timer.
abbrev pub Cut : Connector → Type 0
Cut c = (c.socket_ptr ≡ none) × (c.start_sign ≡ false) × (c.waiting ≡ 0)

stop-closed : (a : Acceptor) → (Acceptor.stop a).is_open ≡ false
unfolding Acceptor.stop
stop-closed a = ground arith

drain-Drained : (a : Acceptor) → IsOwned a → Drained (Acceptor.clear (Acceptor.stop a))
unfolding Acceptor.clear Acceptor.handle Acceptor.is_enabled count
drain-Drained a h =
    let b = Acceptor.stop a in
    let h' : IsOwned b = handle-IsOwned Acceptor.stop_posted a refl h in
    let g : IsOwned (Acceptor.clear b) = handle-IsOwned Acceptor.clear_posted b refl h' in
    (stop-closed a, refl, λ s. omega (arith, g.owned s, count-numbers s b.made))

clear_socket-none :
    (p : Option ℕ) (c : Connector)
    → c.socket_ptr ≡ p
    → (Connector.clear_socket p c).socket_ptr ≡ none
unfolding Connector.clear_socket
clear_socket-none none c h = h
clear_socket-none (some s) c h = refl

clear-none : (c : Connector) → (Connector.clear c).socket_ptr ≡ none
unfolding Connector.clear
clear-none c = clear_socket-none c.socket_ptr c refl

clear-Cut : (c : Connector) → OneTry c → Cut (Connector.clear (Connector.stop c))
unfolding Connector.handle Connector.is_enabled
clear-Cut c h =
    let d = Connector.stop c in
    let h' : OneTry d = handle-OneTry Connector.stop_posted c refl h in
    let g : OneTry (Connector.clear d) = handle-OneTry Connector.clear_posted d refl h' in
    (clear-none d, g.unstarted, g.idle)

map_values-Drained :
    (m : Map Acceptor)
    → AllValues IsOwned m
    → AllValues Drained (map_values Acceptor.clear (map_values Acceptor.stop m))
unfolding map_values
map_values-Drained [] h = tt
map_values-Drained ((k, a) ∷ m) h = (drain-Drained a h.0, map_values-Drained m h.1)

map-Cut :
    (cs : List Connector) → All OneTry cs → All Cut (map Connector.clear (map Connector.stop cs))
map-Cut [] h = tt
map-Cut (c ∷ cs) h = (clear-Cut c h.0, map-Cut cs h.1)

-- After any history of a new network (init, listenAt, connectTo, postCloseSocket, and events of its
-- acceptors and connectors), stop followed by the first part of close leaves every acceptor without
-- a socket, closed, and with each socket that it made closed or reported as closed exactly once,
-- and every connector without a socket, with its start sign unset and no timer waited for.
pub Reaches-drain :
    (n : BoostNetwork)
    → Reaches n
    → AllValues Drained (drain (stop n)).listen_map × All Cut (drain (stop n)).connect_vec
unfolding drain stop
Reaches-drain n r =
    let h = Reaches-IsKept n r in
    (map_values-Drained n.listen_map h.listeners, map-Cut n.connect_vec h.connectors)
