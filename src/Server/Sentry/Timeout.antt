-- ===== src/Server/Sentry/Timeout.antt =====
-- What the timer of the server does with its clients.
use integration_server.Prelude.{
  ℕ, ◌+◌, ◌≡◌, refl, ap, List, [], ◌∷◌, ◌++◌, Option, none, some, ltb, if◌then◌else◌, arith,
}
use integration_server.Prelude.Map.{Map, find, Above, IsOrdered}
use integration_server.Prelude.Map.Laws.{find-Above}
use integration_server.Server.Sentry.{
  Object, Action, send_ping, post_close, send_replies, timer_after, ObjectManager, is_timeout,
  check_active, check_all, on_timer, link_active_time, link_timeout,
}

-- The clients that were last active before `now - seconds`.
pub silent : ℕ → ℕ → Map Object → List ℕ
silent seconds now [] = []
silent seconds now ((uid, ob) ∷ m) =
    if ltb (ob.active_time + seconds) now
    then ob.socket ∷ silent seconds now m
    else silent seconds now m

pub closed : List Action → List ℕ
closed [] = []
closed (send_ping s ∷ acts) = closed acts
closed (post_close s ∷ acts) = s ∷ closed acts
closed (send_replies s n ∷ acts) = closed acts
closed (timer_after n ∷ acts) = closed acts

pub pinged : List Action → List ℕ
pinged [] = []
pinged (send_ping s ∷ acts) = s ∷ pinged acts
pinged (post_close s ∷ acts) = pinged acts
pinged (send_replies s n ∷ acts) = pinged acts
pinged (timer_after n ∷ acts) = pinged acts

closed-append : (xs ys : List Action) → closed (xs ++ ys) ≡ closed xs ++ closed ys
unfolding closed
closed-append [] ys = refl
closed-append (send_ping s ∷ xs) ys = closed-append xs ys
closed-append (post_close s ∷ xs) ys = ap (λ zs. s ∷ zs) (closed-append xs ys)
closed-append (send_replies s n ∷ xs) ys = closed-append xs ys
closed-append (timer_after n ∷ xs) ys = closed-append xs ys

pinged-append : (xs ys : List Action) → pinged (xs ++ ys) ≡ pinged xs ++ pinged ys
unfolding pinged
pinged-append [] ys = refl
pinged-append (send_ping s ∷ xs) ys = ap (λ zs. s ∷ zs) (pinged-append xs ys)
pinged-append (post_close s ∷ xs) ys = pinged-append xs ys
pinged-append (send_replies s n ∷ xs) ys = pinged-append xs ys
pinged-append (timer_after n ∷ xs) ys = pinged-append xs ys

closed-check_active : (now : ℕ) (ob : Object) → closed (check_active now ob) ≡ []
unfolding closed check_active
closed-check_active now ob = ground arith

check_all-closed :
    (now : ℕ) (m : Map Object) → closed (check_all now m).0 ≡ silent link_timeout now m
unfolding closed check_all is_timeout silent
check_all-closed now [] = refl
check_all-closed now ((uid, ob) ∷ m) = ground (
  arith,
  check_all-closed now m,
  closed-check_active now ob,
  closed-append (check_active now ob) (check_all now m).0,
)

-- Those that are left and silent for the shorter time are asked for a sign of life.
check_all-pinged :
    (now : ℕ) (m : Map Object)
    → pinged (check_all now m).0 ≡ silent link_active_time now (check_all now m).1
unfolding pinged check_all is_timeout check_active silent
check_all-pinged now [] = refl
check_all-pinged now ((uid, ob) ∷ m) = ground (arith, check_all-pinged now m)

-- A client that is found, unless its time is over.
unfoldable pub unless_timeout : ℕ → Option Object → Option Object
unless_timeout now none = none
unless_timeout now (some ob) = if is_timeout now ob then none else some ob

pub find-check_all :
    (uid now : ℕ) (m : Map Object)
    → IsOrdered m
    → find uid (check_all now m).1 ≡ unless_timeout now (find uid m)
unfolding find check_all unless_timeout
find-check_all uid now [] o = refl
find-check_all uid now ((k, ob) ∷ m) o =
    ground (arith, find-check_all uid now m o.1, find-Above uid k m o.0)

check_all-Above : (n now : ℕ) (m : Map Object) → Above n m → Above n (check_all now m).1
unfolding check_all
check_all-Above n now [] h = tt
check_all-Above n now ((k, ob) ∷ m) h = ground (arith, check_all-Above n now m h.1)

pub check_all-IsOrdered : (now : ℕ) (m : Map Object) → IsOrdered m → IsOrdered (check_all now m).1
unfolding check_all
check_all-IsOrdered now [] o = tt
check_all-IsOrdered now ((k, ob) ∷ m) o =
    ground (arith, check_all-IsOrdered now m o.1, check_all-Above k now m o.0)

-- When the clients are ordered by number, onTimer removes exactly those that were silent for more
-- than 15 seconds, closes their sockets and no other, in order, asks exactly those of the remaining
-- ones that were silent for more than 10 seconds for a sign of life, and then starts its timer
-- again.
pub on_timer_lem :
    (now : ℕ) (m : ObjectManager)
    → IsOrdered m.object_map
    → let n = on_timer now m in
      ((uid : ℕ) → find uid n.object_map ≡ unless_timeout now (find uid m.object_map))
      × (acts : List Action) × (n.actions ≡ (m.actions ++ acts) ++ timer_after 5 ∷ [])
      × (closed acts ≡ silent link_timeout now m.object_map)
      × (pinged acts ≡ silent link_active_time now n.object_map)
unfolding on_timer
on_timer_lem now m o = (
  λ uid. find-check_all uid now m.object_map o,
  (check_all now m.object_map).0,
  refl,
  check_all-closed now m.object_map,
  check_all-pinged now m.object_map,
)
