-- ===== src/Utils/TimeManager/Kept.antt =====
-- The order of the timers, kept by every call, and the loop that takes those that are due.
use integration_server.Prelude.{
  ℕ, ◌+◌, ◌^◌, ◌%◌, ◌≡◌, refl, subst, inl, inr, true, List, [], ◌∷◌, ◌++◌, Option, none, some, ◌==◌,
  All, arith, Bool-cases, ==_iff,
}
use integration_server.Utils.TimedQueue.{
  put, due, waiting, IsSorted, put-IsSorted, due-From, waiting-From,
}
use integration_server.Utils.TimeManager.{
  TimerBase, TimerManager, set_timer, registrate, after_func, cancel_timer, Command, after_func_of,
  cancel_of, command, commands, take_due, run_func, do_complete, complete_all,
}

module _ (body : ℕ → List Command) where
  abbrev pub HasFunc : Option ℕ → Type 0
  HasFunc none = ⊥
  HasFunc (some f) = Unit

  -- Every timer of the list has a function.
  abbrev pub Callable : TimerManager → List ℕ → Type 0
  Callable m ps = All (λ p. HasFunc (m.timers p).func) ps

  abbrev pub addresses : List (ℕ × ℕ) → List ℕ
  addresses [] = []
  addresses ((s, p) ∷ q) = p ∷ addresses q

  -- The timers are in order, each has a function, and no empty function was called.
  pub record IsKept (m : TimerManager) : Type 0 where
    pub sorted : IsSorted m.timer_map
    pub callable : Callable m (addresses m.timer_map)
    pub good : m.bad_calls ≡ 0

  -- A timer that has a function keeps one.
  abbrev pub Grows : TimerManager → TimerManager → Type 0
  Grows m m' = (p : ℕ) → HasFunc (m.timers p).func → HasFunc (m'.timers p).func

  pub Callable-Grows :
      (m m' : TimerManager) (ps : List ℕ) → Grows m m' → Callable m ps → Callable m' ps
  Callable-Grows m m' [] g h = tt
  Callable-Grows m m' (p ∷ ps) g h = (g p h.0, Callable-Grows m m' ps g h.1)

  Callable-put :
      (m : TimerManager) (t p : ℕ) (q : List (ℕ × ℕ))
      → HasFunc (m.timers p).func
      → Callable m (addresses q)
      → Callable m (addresses (put t p q))
  unfolding put
  Callable-put m t p [] h g = (h, tt)
  Callable-put m t p ((s, r) ∷ q) h g = ground (arith, Callable-put m t p q h g.1)

  set_timer-Grows :
      (p : ℕ) (t : TimerBase) (m : TimerManager)
      → (HasFunc (m.timers p).func → HasFunc t.func)
      → Grows m (set_timer p t m)
  unfolding set_timer
  set_timer-Grows p t m h q g = elim (Bool-cases (q == p)) [
    | inl e ↦ rw e (h (subst (λ r. HasFunc (m.timers r).func) ((==_iff q p).0 e) g))
    | inr e ↦ rw e g
  ]

  command-Grows : (now : ℕ) (c : Command) (m : TimerManager) → Grows m (command now c m)
  unfolding command after_func cancel_timer registrate
  command-Grows now (after_func_of seconds p none) m = λ q h. h
  command-Grows now (after_func_of seconds p (some f)) m =
      set_timer-Grows p (record (m.timers p) { start = (now + seconds) % 2 ^ 32; func = some f }) m
        (λ _. tt)
  command-Grows now (cancel_of p) m =
      set_timer-Grows p (record (m.timers p) { over = true }) m (λ h. h)

  set_timer-IsKept :
      (p : ℕ) (t : TimerBase) (m : TimerManager)
      → (HasFunc (m.timers p).func → HasFunc t.func)
      → IsKept m
      → IsKept (set_timer p t m)
  unfolding set_timer
  set_timer-IsKept p t m h k = record {
    sorted = k.sorted;
    callable =
        Callable-Grows m (set_timer p t m) (addresses m.timer_map) (set_timer-Grows p t m h)
          k.callable;
    good = k.good;
  }

  set_timer_self :
      (p : ℕ) (t : TimerBase) (m : TimerManager)
      → HasFunc t.func
      → HasFunc ((set_timer p t m).timers p).func
  unfolding set_timer
  set_timer_self p t m h = rw ((==_iff p p).1 refl) h

  registrate-IsKept :
      (p : ℕ) (m : TimerManager) → HasFunc (m.timers p).func → IsKept m → IsKept (registrate p m)
  unfolding registrate
  registrate-IsKept p m h k = record {
    sorted = put-IsSorted (m.timers p).start p m.timer_map k.sorted;
    callable = Callable-put m (m.timers p).start p m.timer_map h k.callable;
    good = k.good;
  }

  pub command-IsKept :
      (now : ℕ) (c : Command) (m : TimerManager) → IsKept m → IsKept (command now c m)
  unfolding command after_func cancel_timer
  command-IsKept now (after_func_of seconds p none) m k = k
  command-IsKept now (after_func_of seconds p (some f)) m k =
      let t : TimerBase = record (m.timers p) { start = (now + seconds) % 2 ^ 32; func = some f } in
      registrate-IsKept p (set_timer p t m) (set_timer_self p t m tt)
        (set_timer-IsKept p t m (λ _. tt) k)
  command-IsKept now (cancel_of p) m k =
      set_timer-IsKept p (record (m.timers p) { over = true }) m (λ h. h) k

  commands-IsKept :
      (now : ℕ) (cs : List Command) (m : TimerManager)
      → IsKept m
      → IsKept (commands now cs m) × Grows m (commands now cs m)
  unfolding commands
  commands-IsKept now [] m k = (k, λ p h. h)
  commands-IsKept now (c ∷ cs) m k =
      let (k', g) = commands-IsKept now cs (command now c m) (command-IsKept now c m k) in
      (k', λ p h. g p (command-Grows now c m p h))

  run_func-IsKept :
      (now : ℕ) (f : Option ℕ) (m : TimerManager)
      → HasFunc f
      → IsKept m
      → IsKept (run_func body now f m) × Grows m (run_func body now f m)
  unfolding run_func
  run_func-IsKept now none m h k = absurd h
  run_func-IsKept now (some f) m h k =
      commands-IsKept now (body f) (record m { runs = m.runs ++ f ∷ [] })
        (record { sorted = k.sorted; callable = k.callable; good = k.good })

  pub do_complete-IsKept :
      (now p : ℕ) (m : TimerManager)
      → HasFunc (m.timers p).func
      → IsKept m
      → IsKept (do_complete body now p m) × Grows m (do_complete body now p m)
  unfolding do_complete
  do_complete-IsKept now p m h k = elim (Bool-cases (m.timers p).over) [
    | inl e ↦ simp e (k, λ q g. g)
    | inr e ↦
        (let m' = run_func body now (m.timers p).func m in
          let t : TimerBase = record (m'.timers p) { start = 0 } in
          let (k', g) = run_func-IsKept now (m.timers p).func m h k in
          simp e
            (set_timer-IsKept p t m' (λ x. x) k', λ q x. set_timer-Grows p t m' (λ y. y) q (g q x)))
  ]

  pub complete_all-IsKept :
      (now : ℕ) (ps : List ℕ) (m : TimerManager)
      → Callable m ps
      → IsKept m
      → IsKept (complete_all body now ps m)
  unfolding complete_all
  complete_all-IsKept now [] m h k = k
  complete_all-IsKept now (p ∷ ps) m h k =
      let (k', g) = do_complete-IsKept now p m h.0 k in
      complete_all-IsKept now ps (do_complete body now p m)
        (Callable-Grows m (do_complete body now p m) ps g h.1) k'

-- The loop stops at the first timer whose time has not come, and behind it none has.
pub take_due_lem :
    (now : ℕ) (q : List (ℕ × ℕ))
    → IsSorted q
    → (take_due now q).0 ≡ due now q × ((take_due now q).1 ≡ waiting now q)
unfolding take_due due waiting
take_due_lem now [] o = (refl, refl)
take_due_lem now ((s, p) ∷ q) o =
    ground (arith, take_due_lem now q o.1, due-From now s q, waiting-From now s q)

module _ (body : ℕ → List Command) where
  pub Callable-due :
      (now : ℕ) (m : TimerManager) (q : List (ℕ × ℕ))
      → Callable body m (addresses body q)
      → Callable body m (due now q) × Callable body m (addresses body (waiting now q))
  unfolding due waiting
  Callable-due now m [] h = (tt, tt)
  Callable-due now m ((s, p) ∷ q) h = ground (arith, Callable-due now m q h.1)
