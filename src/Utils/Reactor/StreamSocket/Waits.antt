-- ===== src/Utils/Reactor/StreamSocket/Waits.antt =====
-- A unit that waits to read goes on waiting while its event does not come.
use integration_server.Prelude.{
  ℕ, ◌+◌, ◌<◌, ◌≤◌, ◌≡◌, ◌≢◌, refl, sym, ap, ◌∙◌, subst, inl, inr, Bool, false, List, [], ◌∷◌, ◌++◌,
  some, count, count-append, ◌==◌, if◌then◌else◌, arith, Bool-cases, ==_iff,
}
use integration_server.Prelude.Map.{Map, assign, keys}
use integration_server.Utils.Reactor.Mount.{
  reactor_activate_event_read, reactor_activate_event_write, touches, event_bit, Mount, add_unit,
  set_triggers, take_touched, run_event_op, get_tigger_event,
}
use integration_server.Utils.Reactor.Mount.Wakes.{take_touched-count, take_touched-other}
use integration_server.Utils.Reactor.StreamSocket.{
  IoResult, Outcome, StreamSocket, submit, test_event, watch_event, add_event, io_func, outcome,
  net_func, poll,
}
use integration_server.Utils.Reactor.StreamSocket.Holds.{watch_lem}
use integration_server.Utils.Reactor.StreamSocket.Units.{events, events-append, HoldsWith}
use integration_server.Utils.Reactor.StreamSocket.Once.{run_io_func_cases, after}

-- A unit waits to read, and `n` handlers of reads were called.
pub record Waits (n : ℕ) (s : StreamSocket) : Type 0 where
  pub live : s.mount.cancel_flag ≡ false
  pub stored : 0 < count reactor_activate_event_read (keys s.mount.unit_map)
  pub calls : count reactor_activate_event_read (events s.handled) ≡ n

pub other_call :
    (n event : ℕ) (o : Outcome) (s : StreamSocket)
    → (event == reactor_activate_event_read) ≡ false
    → Waits n s
    → Waits n (record s { handled = s.handled ++ (event, o) ∷ [] })
unfolding count
other_call n event o s other w = record {
  live = w.live;
  stored = w.stored;
  calls = omega (
    arith,
    w.calls,
    ap (count reactor_activate_event_read) (events-append s.handled event o),
    count-append reactor_activate_event_read (events s.handled) (event ∷ []),
    ap {A = Bool} {B = ℕ} (λ b. if b then 1 else 0) other,
  );
}

-- A thread has no other unit for reading.
pub alone :
    (n : ℕ) (xs ys zs : List ℕ) (s : StreamSocket)
    → HoldsWith [] s
    → Waits n s
    → count reactor_activate_event_read zs
        + count reactor_activate_event_read (keys s.mount.unit_map)
      ≤ 1
    → zs ≢ xs ++ reactor_activate_event_read ∷ ys
unfolding count
alone n xs ys zs s h w small e = omega (
  arith,
  small,
  w.stored,
  ap (count reactor_activate_event_read) e,
  count-append reactor_activate_event_read xs (reactor_activate_event_read ∷ ys),
)

pub runs_write-Waits :
    (n : ℕ) (r : IoResult) (s : StreamSocket)
    → Waits n s
    → Waits n (net_func reactor_activate_event_write r s)
unfolding net_func submit
runs_write-Waits n r s w =
    elim (run_io_func_cases reactor_activate_event_write (io_func r) s.mount) [
      | inl e ↦
          subst (λ io. Waits n (after reactor_activate_event_write r s io)) (sym e)
            (other_call n reactor_activate_event_write (outcome s.mount.cancel_flag r) s refl w)
      | inr e ↦
          subst (λ io. Waits n (after reactor_activate_event_write r s io)) (sym e)
            (record { live = w.live; stored = w.stored; calls = w.calls })
    ]

pub tests-Waits : (n event : ℕ) (s : StreamSocket) → Waits n s → Waits n (test_event event s)
unfolding test_event
tests-Waits n event s w = elim (Bool-cases (get_tigger_event event s.mount)) [
  | inl t ↦ rw t (record { live = w.live; stored = w.stored; calls = w.calls })
  | inr t ↦ rw t (record { live = w.live; stored = w.stored; calls = w.calls })
]

pub watches-Waits : (n event : ℕ) (s : StreamSocket) → Waits n s → Waits n (watch_event event s)
unfolding watch_event
watches-Waits n event s w =
    let (u, c) = watch_lem (event_bit event) s.mount in
    record {
      live = c ∙ w.live;
      stored = subst (λ m. 0 < count reactor_activate_event_read (keys m)) (sym u) w.stored;
      calls = w.calls;
    }

pub count-assign_other :
    (e k : ℕ) (m : Map ℕ) → (k == e) ≡ false → count e (keys (assign k k m)) ≡ count e (keys m)
unfolding count assign
count-assign_other e k [] other = ground (arith, other)
count-assign_other e k ((j, u) ∷ m) other =
    ground (arith, other, count-assign_other e k m other, ==_iff k j)

-- addUnit of a mount that is not cancelled.
pub add_unit_live :
    (event : ℕ) (m : Mount)
    → (event == 4) ≡ false
    → m.cancel_flag ≡ false
    → (add_unit (some event) event m).1 ≡ record m { unit_map = assign event event m.unit_map }
unfolding add_unit
add_unit_live event m other c = ground (arith, other, c)

-- runEventOp of a mount that is not cancelled.
pub run_event_op_live :
    (event : ℕ) (m : Mount)
    → m.cancel_flag ≡ false
    → run_event_op [] event m ≡ (
      (take_touched event m.unit_map).0,
      record m {
        tigger_event_map = set_triggers event m.tigger_event_map;
        unit_map = (take_touched event m.unit_map).1;
      },
    )
unfolding run_event_op
run_event_op_live event m c = ground (arith, c)

pub adds_write-Waits :
    (n : ℕ) (s : StreamSocket) → Waits n s → Waits n (add_event reactor_activate_event_write s)
unfolding add_event
adds_write-Waits n s w =
    subst (λ m. Waits n (record s { mount = m }))
      (sym (add_unit_live reactor_activate_event_write s.mount refl w.live))
      (record {
        live = w.live;
        stored = omega (
          arith,
          w.stored,
          count-assign_other reactor_activate_event_read reactor_activate_event_write
              s.mount.unit_map refl,
        );
        calls = w.calls;
      })

pub poll-Waits :
    (n event : ℕ) (s : StreamSocket)
    → HoldsWith [] s
    → touches event reactor_activate_event_read ≡ false
    → Waits n s
    → Waits n (poll event s)
unfolding poll
poll-Waits n event s h off w =
    subst (λ r. Waits n (record s { mount = r.1; posted = s.posted ++ r.0 }))
      (sym (run_event_op_live event s.mount w.live))
      (record {
        live = w.live;
        stored = omega (
          arith,
          w.stored,
          take_touched-count event reactor_activate_event_read s.mount.unit_map h.own,
          take_touched-other event reactor_activate_event_read s.mount.unit_map h.own off,
        );
        calls = w.calls;
      })
