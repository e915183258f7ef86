-- ===== src/Utils/Reactor/StreamSocket/Once.antt =====
-- Each operation of a socket calls its handler once, unless the units are cancelled.
use integration_server.Prelude.{
  ℕ, ◌+◌, ◌≤◌, ◌≡◌, ◌⊎◌, refl, sym, subst, inl, inr, Bool, true, false, [], ◌∷◌, ◌++◌, count,
  count-append, if◌then◌else◌, arith, Bool-cases,
}
use integration_server.Prelude.Map.{erase}
use integration_server.Utils.Reactor.Mount.{
  reactor_activate_event_read, reactor_activate_event_write, Mount, new_mount, run_event_op,
  run_io_func,
}
use integration_server.Utils.Reactor.StreamSocket.{
  IoResult, finished, StreamSocket, new_stream, submit, async_read_data, async_write_data,
  async_accept, io_func, outcome, net_func, async_connect, connect_func, poll, cancel, away,
  pending, Step, connects, reads, writes, accepts, runs_connect, runs_read, runs_write, tests,
  watches, adds_read, adds_write, polls, cancels,
}
use integration_server.Utils.Reactor.StreamSocket.Holds.{run_event_op-Holds, cancel_units-Holds}
use integration_server.Utils.Reactor.StreamSocket.Units.{
  events, HoldsWith, moved, start-HoldsWith, split-count, take-HoldsWith, post-HoldsWith,
  submit-HoldsWith, test-HoldsWith, watch-HoldsWith, add-HoldsWith, finish-HoldsWith,
}

pub data Reaches (fd : ℕ) : StreamSocket → Type 0 where
  fresh : Reaches fd (new_stream fd)
  next : (s t : StreamSocket) → Reaches fd s → Step s t → Reaches fd t

pub run_io_func_cases :
    (event : ℕ) (b : Bool) (m : Mount)
    → (run_io_func event b m ≡ (true, m))
      ⊎ (run_io_func event b m
          ≡ (false, record m { tigger_event_map = erase event m.tigger_event_map }))
unfolding run_io_func
run_io_func_cases event b m = elim (Bool-cases m.cancel_flag) [
  | inl c ↦ inl (ground (arith, c))
  | inr c ↦ elim (Bool-cases b) [
    | inl d ↦ inl (ground (arith, c, d))
    | inr d ↦ inr (ground (arith, c, d))
  ]
]

abbrev pub after : ℕ → IoResult → StreamSocket → Bool × Mount → StreamSocket
after event r s io =
    if io.0
    then record s {
      mount = io.1;
      handled = s.handled ++ (event, outcome s.mount.cancel_flag r) ∷ [];
    }
    else submit event (record s { mount = io.1 })

net_func-HoldsWith :
    (event : ℕ) (r : IoResult) (s : StreamSocket)
    → HoldsWith (event ∷ []) s
    → HoldsWith [] (net_func event r s)
unfolding net_func
net_func-HoldsWith event r s h = elim (run_io_func_cases event (io_func r) s.mount) [
  | inl e ↦
      subst (λ io. HoldsWith [] (after event r s io)) (sym e)
        (finish-HoldsWith event (outcome s.mount.cancel_flag r) s h)
  | inr e ↦
      (let m : Mount = record s.mount { tigger_event_map = erase event s.mount.tigger_event_map } in
        subst (λ io. HoldsWith [] (after event r s io)) (sym e)
          (submit-HoldsWith event (record s { mount = m })
            (moved (event ∷ []) (event ∷ []) s (record s { mount = m }) (λ e. refl) refl refl h)))
]

poll-HoldsWith : (event : ℕ) (s : StreamSocket) → HoldsWith [] s → HoldsWith [] (poll event s)
unfolding poll count
poll-HoldsWith event s h =
    let r = run_event_op [] event s.mount in
    let t : StreamSocket = record s { posted = s.posted ++ r.0 } in
    run_event_op-Holds s.started (events s.handled) event (λ e. 0 + away s e) (λ e. 0 + away t e)
      s.mount (λ e. omega (arith, count-append e s.posted r.0)) h

Step-HoldsWith : (s t : StreamSocket) → Step s t → HoldsWith [] s → HoldsWith [] t
unfolding async_read_data async_write_data async_accept async_connect connect_func cancel count
Step-HoldsWith s _ (connects e) h =
    post-HoldsWith 0 (record s { started = s.started ++ 0 ∷ [] }) (start-HoldsWith 0 s e h)
Step-HoldsWith s _ (reads e) h =
    submit-HoldsWith reactor_activate_event_read
      (record s { started = s.started ++ reactor_activate_event_read ∷ [] })
      (start-HoldsWith reactor_activate_event_read s e h)
Step-HoldsWith s _ (writes e) h =
    submit-HoldsWith reactor_activate_event_write
      (record s { started = s.started ++ reactor_activate_event_write ∷ [] })
      (start-HoldsWith reactor_activate_event_write s e h)
Step-HoldsWith s _ (accepts e) h =
    submit-HoldsWith reactor_activate_event_read
      (record s { started = s.started ++ reactor_activate_event_read ∷ [] })
      (start-HoldsWith reactor_activate_event_read s e h)
Step-HoldsWith s _ (runs_connect xs ys r e) h =
    finish-HoldsWith 0 (finished r) (record s { posted = xs ++ ys }) (take-HoldsWith xs ys 0 s e h)
Step-HoldsWith s _ (runs_read xs ys r e) h =
    net_func-HoldsWith reactor_activate_event_read r (record s { posted = xs ++ ys })
      (take-HoldsWith xs ys reactor_activate_event_read s e h)
Step-HoldsWith s _ (runs_write xs ys r e) h =
    net_func-HoldsWith reactor_activate_event_write r (record s { posted = xs ++ ys })
      (take-HoldsWith xs ys reactor_activate_event_write s e h)
Step-HoldsWith s _ (tests xs ys event e) h =
    test-HoldsWith event (record s { testing = xs ++ ys })
      (moved [] (event ∷ []) s (record s { testing = xs ++ ys })
        (λ i. omega (arith, split-count xs ys s.testing event i e)) refl refl h)
Step-HoldsWith s _ (watches xs ys event e) h =
    watch-HoldsWith event (record s { watching = xs ++ ys })
      (moved [] (event ∷ []) s (record s { watching = xs ++ ys })
        (λ i. omega (arith, split-count xs ys s.watching event i e)) refl refl h)
Step-HoldsWith s _ (adds_read xs ys e) h =
    add-HoldsWith reactor_activate_event_read xs ys s e refl h
Step-HoldsWith s _ (adds_write xs ys e) h =
    add-HoldsWith reactor_activate_event_write xs ys s e refl h
Step-HoldsWith s _ (polls event) h = poll-HoldsWith event s h
Step-HoldsWith s _ cancels h =
    cancel_units-Holds s.started (events s.handled) (λ e. count e [] + away s e) s.mount h

pub Reaches-HoldsWith : (fd : ℕ) (s : StreamSocket) → Reaches fd s → HoldsWith [] s
unfolding new_stream new_mount events count
Reaches-HoldsWith fd _ fresh = record {
  own = tt;
  live = λ c e. refl;
  bound = λ e. omega arith;
  limit = λ e. omega arith;
}
Reaches-HoldsWith fd t (next s _ r st) = Step-HoldsWith s t st (Reaches-HoldsWith fd s r)

-- After any sequence of operations, of runs of posted units with any result of their system calls,
-- of the steps of the threads that are in startEvent, of polls and of cancels on a new
-- StreamSocket, in any order, where an operation is started only when none for its event is
-- pending: for each event at most one operation is pending; and the pending ones and the handlers
-- that were called are together at most the operations that were started, and exactly those as long
-- as nothing was cancelled.
pub Reaches-once :
    (fd e : ℕ) (s : StreamSocket)
    → Reaches fd s
    → (pending e s ≤ 1)
      × (pending e s + count e (events s.handled) ≤ count e s.started)
      × ((s.mount.cancel_flag ≡ true)
          ⊎ (count e s.started ≡ pending e s + count e (events s.handled)))
unfolding count
Reaches-once fd e s r =
    let h = Reaches-HoldsWith fd s r in
    (
      omega (arith, h.limit e),
      omega (arith, h.bound e),
      elim (Bool-cases s.mount.cancel_flag) [
        | inl c ↦ inl c
        | inr c ↦ inr (omega (arith, h.live c e))
      ],
    )
