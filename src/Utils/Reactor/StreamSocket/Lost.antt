-- ===== src/Utils/Reactor/StreamSocket/Lost.antt =====
-- A unit that startEvent adds after its event has come.
use integration_server.Prelude.{
  ℕ, ◌<◌, ◌≡◌, refl, sym, ap, ◌∙◌, subst, Bool, true, false, List, [], ◌∷◌, ◌++◌, some, count,
  arith,
}
use integration_server.Prelude.Map.{assign, keys}
use integration_server.Prelude.Map.Laws.{find-assign_self}
use integration_server.Utils.Reactor.Mount.{
  reactor_activate_event_read, touches, Mount, add_unit, set_triggers, take_touched, run_event_op,
  get_trigger, get_tigger_event,
}
use integration_server.Utils.Reactor.Mount.Wakes.{count-assign_self}
use integration_server.Utils.Reactor.StreamSocket.{
  finished, StreamSocket, submit, add_event, async_read_data, async_write_data, async_accept,
  async_connect, connect_func, poll, Step, connects, reads, writes, accepts, runs_connect,
  runs_read, runs_write, tests, watches, adds_read, adds_write, polls, cancels,
}
use integration_server.Utils.Reactor.StreamSocket.Units.{events, HoldsWith}
use integration_server.Utils.Reactor.StreamSocket.Once.{Reaches, next, Reaches-HoldsWith}
use integration_server.Utils.Reactor.StreamSocket.Waits.{
  Waits, other_call, alone, runs_write-Waits, tests-Waits, watches-Waits, add_unit_live,
  run_event_op_live, adds_write-Waits, poll-Waits,
}

-- The steps that can wake an operation that waits to read.
abbrev pub wakes_read : (s t : StreamSocket) → Step s t → Bool
wakes_read s _ (connects e) = false
wakes_read s _ (reads e) = false
wakes_read s _ (writes e) = false
wakes_read s _ (accepts e) = false
wakes_read s _ (runs_connect xs ys r e) = false
wakes_read s _ (runs_read xs ys r e) = false
wakes_read s _ (runs_write xs ys r e) = false
wakes_read s _ (tests xs ys event e) = false
wakes_read s _ (watches xs ys event e) = false
wakes_read s _ (adds_read xs ys e) = false
wakes_read s _ (adds_write xs ys e) = false
wakes_read s _ (polls event) = touches event reactor_activate_event_read
wakes_read s _ cancels = true

-- Any steps but those.
pub data Quiet (s : StreamSocket) : StreamSocket → Type 0 where
  still : Quiet s s
  then_step :
      (t u : StreamSocket) (st : Step t u) → Quiet s t → wakes_read t u st ≡ false → Quiet s u

Step-Waits :
    (n : ℕ) (s t : StreamSocket) (st : Step s t)
    → HoldsWith [] s
    → wakes_read s t st ≡ false
    → Waits n s
    → Waits n t
unfolding async_read_data async_write_data async_accept async_connect connect_func submit count
Step-Waits n s _ (connects e) h q w = record { live = w.live; stored = w.stored; calls = w.calls }
Step-Waits n s _ (reads e) h q w = record { live = w.live; stored = w.stored; calls = w.calls }
Step-Waits n s _ (writes e) h q w = record { live = w.live; stored = w.stored; calls = w.calls }
Step-Waits n s _ (accepts e) h q w = record { live = w.live; stored = w.stored; calls = w.calls }
Step-Waits n s _ (runs_connect xs ys r e) h q w =
    other_call n 0 (finished r) (record s { posted = xs ++ ys }) refl
      (record { live = w.live; stored = w.stored; calls = w.calls })
Step-Waits n s _ (runs_read xs ys r e) h q w =
    absurd (alone n xs ys s.posted s h w (omega (arith, h.limit reactor_activate_event_read)) e)
Step-Waits n s _ (runs_write xs ys r e) h q w =
    runs_write-Waits n r (record s { posted = xs ++ ys })
      (record { live = w.live; stored = w.stored; calls = w.calls })
Step-Waits n s _ (tests xs ys event e) h q w =
    tests-Waits n event (record s { testing = xs ++ ys })
      (record { live = w.live; stored = w.stored; calls = w.calls })
Step-Waits n s _ (watches xs ys event e) h q w =
    watches-Waits n event (record s { watching = xs ++ ys })
      (record { live = w.live; stored = w.stored; calls = w.calls })
Step-Waits n s _ (adds_read xs ys e) h q w =
    absurd (alone n xs ys s.adding s h w (omega (arith, h.limit reactor_activate_event_read)) e)
Step-Waits n s _ (adds_write xs ys e) h q w =
    adds_write-Waits n (record s { adding = xs ++ ys })
      (record { live = w.live; stored = w.stored; calls = w.calls })
Step-Waits n s _ (polls event) h q w = poll-Waits n event s h q w
Step-Waits n s _ cancels h q w = absurd cc

Quiet-Waits :
    (fd n : ℕ) (s t : StreamSocket)
    → Reaches fd s
    → Waits n s
    → Quiet s t
    → Waits n t × Reaches fd t
Quiet-Waits fd n s _ r w still = (w, r)
Quiet-Waits fd n s _ r w (then_step t u st q e) =
    let (w', r') = Quiet-Waits fd n s t r w q in
    (Step-Waits n t u st (Reaches-HoldsWith fd t r') e w', next t u r' st)

-- A poll between the test of the trigger and the addUnit of a read.
abbrev pub late : ℕ → List ℕ → List ℕ → StreamSocket → StreamSocket
late event xs ys s =
    add_event reactor_activate_event_read (record (poll event s) { adding = xs ++ ys })

late_lem :
    (event : ℕ) (xs ys : List ℕ) (s : StreamSocket)
    → s.mount.cancel_flag ≡ false
    → touches event reactor_activate_event_read ≡ true
    → (get_tigger_event reactor_activate_event_read (late event xs ys s).mount ≡ true)
      × Waits (count reactor_activate_event_read (events s.handled)) (late event xs ys s)
unfolding add_event poll get_tigger_event get_trigger set_triggers
late_lem event xs ys s c t =
    let left = (take_touched event s.mount.unit_map).1 in
    let m : Mount = record s.mount {
      tigger_event_map = set_triggers event s.mount.tigger_event_map;
      unit_map = left;
    } in
    let n : Mount = record m {
      unit_map = assign reactor_activate_event_read reactor_activate_event_read left;
    } in
    let e : (add_unit (some reactor_activate_event_read) reactor_activate_event_read
          (run_event_op [] event s.mount).1).1
        ≡ n =
      ap
        (λ (r : List ℕ × Mount).
          (add_unit (some reactor_activate_event_read) reactor_activate_event_read r.1).1)
        (run_event_op_live event s.mount c)
      ∙ add_unit_live reactor_activate_event_read m refl c in
    subst
      (λ x.
        (get_tigger_event reactor_activate_event_read x ≡ true)
        × Waits (count reactor_activate_event_read (events s.handled))
            (record (late event xs ys s) { mount = x }))
      (sym e)
      (
        rw t (
            ap get_trigger
              (find-assign_self reactor_activate_event_read true s.mount.tigger_event_map)),
        record {
          live = c;
          stored = count-assign_self reactor_activate_event_read left;
          calls = refl;
        },
      )

-- In any reachable state that is not cancelled, let a thread stand before the addUnit of startEvent
-- for reading, and a poll report an event that can be read from; then the thread adds the unit.
-- After that the trigger for reading is set, and after any further steps without a cancel and
-- without another report of such an event, which epoll does not make for an edge that it has
-- reported: the unit is still stored, no handler of a read was called meanwhile, and fewer were
-- called than reads were started.
pub Reaches-lost :
    (fd event : ℕ) (xs ys : List ℕ) (s t : StreamSocket)
    → Reaches fd s
    → s.mount.cancel_flag ≡ false
    → s.adding ≡ xs ++ reactor_activate_event_read ∷ ys
    → touches event reactor_activate_event_read ≡ true
    → Quiet (late event xs ys s) t
    → (get_tigger_event reactor_activate_event_read (late event xs ys s).mount ≡ true)
      × (0 < count reactor_activate_event_read (keys t.mount.unit_map))
      × (count reactor_activate_event_read (events t.handled)
          ≡ count reactor_activate_event_read (events s.handled))
      × (count reactor_activate_event_read (events t.handled)
          < count reactor_activate_event_read t.started)
unfolding poll
Reaches-lost fd event xs ys s t r c e touched q =
    let n = count reactor_activate_event_read (events s.handled) in
    let (set, w) = late_lem event xs ys s c touched in
    let polled = next s (poll event s) r (polls event) in
    let reached = next (poll event s) (late event xs ys s) polled (adds_read xs ys e) in
    let (w', r') = Quiet-Waits fd n (late event xs ys s) t reached w q in
    let h = Reaches-HoldsWith fd t r' in
    (set, w'.stored, w'.calls, omega (arith, h.bound reactor_activate_event_read, w'.stored))
