-- ===== src/Utils/TimeManager/Says.antt =====
-- The timers after a tick, by what its functions said.
use integration_server.Prelude.{
  ℕ, ◌≡◌, refl, sym, ap, ◌∙◌, subst, inl, inr, Bool, true, false, ◌||◌, List, [], ◌∷◌, ◌++◌, Option,
  none, some, ◌==◌, if◌then◌else◌, arith, Bool-cases, ==_iff, append_assoc, append_nil,
}
use integration_server.Utils.TimeManager.{
  TimerManager, set_timer, registrate, after_func, cancel_timer, Command, after_func_of, cancel_of,
  command, commands, run_func, do_complete, complete_all,
}
use integration_server.Utils.TimeManager.Kept.{
  HasFunc, Callable, IsKept, Callable-Grows, do_complete-IsKept,
}
use integration_server.Utils.TimeManager.Spec.{
  cancelled, latest, entered, said, fires, spec_runs, cancelled-append, latest-append,
  entered-append,
}

-- The manager `m`, since it was `m0`, has heard the calls and run the functions.
pub record Says (now : ℕ) (m0 : TimerManager) (cs : List Command) (ran : List ℕ) (m : TimerManager)
    : Type 0 where
  pub over : (p : ℕ) → (m.timers p).over ≡ ((m0.timers p).over || cancelled p cs)
  pub func : (p : ℕ) → (m.timers p).func ≡ latest p (m0.timers p).func cs
  pub queue : m.timer_map ≡ entered now cs m0.timer_map
  pub runs : m.runs ≡ m0.runs ++ ran
  pub same_armed : m.armed ≡ m0.armed
  pub same_waits : m.waits ≡ m0.waits

module _ (now : ℕ) (m0 : TimerManager) (ran : List ℕ) where
  command-Says :
      (c : Command) (cs : List Command) (m : TimerManager)
      → Says now m0 cs ran m
      → Says now m0 (cs ++ c ∷ []) ran (command now c m)
  unfolding command after_func cancel_timer registrate set_timer cancelled latest entered
  command-Says (after_func_of seconds p none) cs m h = record {
    over = λ q. ground (arith, h.over q, cancelled-append q cs (after_func_of seconds p none ∷ []));
    func = λ q. h.func q ∙ sym (latest-append q _ cs (after_func_of seconds p none ∷ []));
    queue = h.queue ∙ sym (entered-append now cs (after_func_of seconds p none ∷ []) m0.timer_map);
    runs = h.runs;
    same_armed = h.same_armed;
    same_waits = h.same_waits;
  }
  command-Says (after_func_of seconds p (some f)) cs m h = record {
    over = λ q. elim (Bool-cases (q == p)) [
      | inl e ↦ ground (
        arith,
        e,
        ap (λ r. (m.timers r).over) ((==_iff q p).0 e),
        h.over q,
        cancelled-append q cs (after_func_of seconds p (some f) ∷ []),
      )
      | inr e ↦
          ground (arith, e, h.over q, cancelled-append q cs (after_func_of seconds p (some f) ∷ []))
    ];
    func = λ q. elim (Bool-cases (q == p)) [
      | inl e ↦ ground (
        arith,
        e,
        ap (λ r. (m.timers r).func) ((==_iff q p).0 e),
        h.func q,
        latest-append q (m0.timers q).func cs (after_func_of seconds p (some f) ∷ []),
      )
      | inr e ↦ ground (
        arith,
        e,
        h.func q,
        latest-append q (m0.timers q).func cs (after_func_of seconds p (some f) ∷ []),
      )
    ];
    queue = ground (
      arith,
      h.queue,
      (==_iff p p).1 refl,
      entered-append now cs (after_func_of seconds p (some f) ∷ []) m0.timer_map,
    );
    runs = h.runs;
    same_armed = h.same_armed;
    same_waits = h.same_waits;
  }
  command-Says (cancel_of p) cs m h = record {
    over = λ q. elim (Bool-cases (q == p)) [
      | inl e ↦ ground (
        arith,
        e,
        ap (λ r. (m.timers r).over) ((==_iff q p).0 e),
        h.over q,
        cancelled-append q cs (cancel_of p ∷ []),
      )
      | inr e ↦ ground (arith, e, h.over q, cancelled-append q cs (cancel_of p ∷ []))
    ];
    func = λ q. elim (Bool-cases (q == p)) [
      | inl e ↦ ground (
        arith,
        e,
        ap (λ r. (m.timers r).func) ((==_iff q p).0 e),
        h.func q,
        latest-append q (m0.timers q).func cs (cancel_of p ∷ []),
      )
      | inr e ↦
          ground (arith, e, h.func q, latest-append q (m0.timers q).func cs (cancel_of p ∷ []))
    ];
    queue = h.queue ∙ sym (entered-append now cs (cancel_of p ∷ []) m0.timer_map);
    runs = h.runs;
    same_armed = h.same_armed;
    same_waits = h.same_waits;
  }

  commands-Says :
      (ds cs : List Command) (m : TimerManager)
      → Says now m0 cs ran m
      → Says now m0 (cs ++ ds) ran (commands now ds m)
  unfolding commands
  commands-Says [] cs m h = subst (λ es. Says now m0 es ran m) (sym (append_nil cs)) h
  commands-Says (d ∷ ds) cs m h =
      subst (λ es. Says now m0 es ran (commands now ds (command now d m)))
        (append_assoc cs (d ∷ []) ds)
        (commands-Says ds (cs ++ d ∷ []) (command now d m) (command-Says d cs m h))

module _ (body : ℕ → List Command) where
  said-append : (fs : List ℕ) (f : ℕ) → said body (fs ++ f ∷ []) ≡ said body fs ++ body f
  unfolding said
  said-append [] f = append_nil (body f)
  said-append (g ∷ fs) f =
      ap (λ cs. body g ++ cs) (said-append fs f)
      ∙ sym (append_assoc (body g) (said body fs) (body f))

  module _ (now : ℕ) (m0 : TimerManager) where
    -- The functions of `ran` were run, with the calls that they make.
    abbrev pub Ran : List ℕ → TimerManager → Type 0
    Ran ran m = Says now m0 (said body ran) ran m

    run_func-Ran :
        (f : ℕ) (ran : List ℕ) (m : TimerManager)
        → Ran ran m
        → Ran (ran ++ f ∷ []) (run_func body now (some f) m)
    unfolding run_func
    run_func-Ran f ran m h =
        subst (λ cs. Says now m0 cs (ran ++ f ∷ []) (run_func body now (some f) m))
          (sym (said-append ran f))
          (commands-Says now m0 (ran ++ f ∷ []) (body f) (said body ran)
            (record m { runs = m.runs ++ f ∷ [] })
            (record {
              over = h.over;
              func = h.func;
              queue = h.queue;
              runs = ap (λ rs. rs ++ f ∷ []) h.runs ∙ append_assoc m0.runs ran (f ∷ []);
              same_armed = h.same_armed;
              same_waits = h.same_waits;
            }))

    -- m_start is written.
    restart-Ran :
        (p t : ℕ) (ran : List ℕ) (m : TimerManager)
        → Ran ran m
        → Ran ran (set_timer p (record (m.timers p) { start = t }) m)
    unfolding set_timer
    restart-Ran p t ran m h = record {
      over = λ q. elim (Bool-cases (q == p)) [
        | inl e ↦ ground (arith, e, ap (λ r. (m.timers r).over) ((==_iff q p).0 e), h.over q)
        | inr e ↦ ground (arith, e, h.over q)
      ];
      func = λ q. elim (Bool-cases (q == p)) [
        | inl e ↦ ground (arith, e, ap (λ r. (m.timers r).func) ((==_iff q p).0 e), h.func q)
        | inr e ↦ ground (arith, e, h.func q)
      ];
      queue = h.queue;
      runs = h.runs;
      same_armed = h.same_armed;
      same_waits = h.same_waits;
    }

    -- What doComplete runs.
    abbrev then_ran : List ℕ → Option ℕ → List ℕ
    then_ran ran none = ran
    then_ran ran (some f) = ran ++ f ∷ []

    fires_lem :
        (p : ℕ) (ran : List ℕ) (m : TimerManager)
        → Ran ran m
        → fires body ran p (m0.timers p) ≡ (if (m.timers p).over then none else (m.timers p).func)
    unfolding fires
    fires_lem p ran m h = ground (arith, h.over p, h.func p)

    -- doComplete, by the flag and the function of its timer.
    abbrev completed : ℕ → TimerManager → Bool → Option ℕ → TimerManager
    completed p m over g =
        if over
        then m
        else let m' = run_func body now g m in set_timer p (record (m'.timers p) { start = 0 }) m'

    completed-Ran :
        (p : ℕ) (ran : List ℕ) (m : TimerManager) (over : Bool) (g : Option ℕ)
        → HasFunc body g
        → Ran ran m
        → Ran (then_ran ran (if over then none else g)) (completed p m over g)
    completed-Ran p ran m true g c h = h
    completed-Ran p ran m false none c h = absurd c
    completed-Ran p ran m false (some f) c h =
        restart-Ran p 0 (ran ++ f ∷ []) (run_func body now (some f) m) (run_func-Ran f ran m h)

    do_complete-Ran :
        (p : ℕ) (ran : List ℕ) (m : TimerManager)
        → HasFunc body (m.timers p).func
        → Ran ran m
        → Ran (then_ran ran (fires body ran p (m0.timers p))) (do_complete body now p m)
    unfolding do_complete
    do_complete-Ran p ran m c h =
        subst (λ x. Ran (then_ran ran x) (do_complete body now p m)) (sym (fires_lem p ran m h))
          (completed-Ran p ran m (m.timers p).over (m.timers p).func c h)

    then_ran-append :
        (ran ps : List ℕ) (x : Option ℕ)
        → then_ran ran x ++ spec_runs body m0.timers (then_ran ran x) ps
          ≡ ran ++ (elim x [
            | none ↦ spec_runs body m0.timers ran ps
            | some f ↦ f ∷ spec_runs body m0.timers (ran ++ f ∷ []) ps
          ])
    then_ran-append ran ps none = refl
    then_ran-append ran ps (some f) =
        append_assoc ran (f ∷ []) (spec_runs body m0.timers (ran ++ f ∷ []) ps)

    pub complete_all-Ran :
        (ps ran : List ℕ) (m : TimerManager)
        → Callable body m ps
        → IsKept body m
        → Ran ran m
        → Ran (ran ++ spec_runs body m0.timers ran ps) (complete_all body now ps m)
    unfolding complete_all spec_runs
    complete_all-Ran [] ran m c k h = subst (λ r. Ran r m) (sym (append_nil ran)) h
    complete_all-Ran (p ∷ ps) ran m c k h =
        let m' = do_complete body now p m in
        let ran' = then_ran ran (fires body ran p (m0.timers p)) in
        let (k', g) = do_complete-IsKept body now p m c.0 k in
        subst (λ r. Ran r (complete_all body now ps m'))
          (then_ran-append ran ps (fires body ran p (m0.timers p)))
          (complete_all-Ran ps ran' m' (Callable-Grows body m m' ps g c.1) k'
            (do_complete-Ran p ran m c.0 h))
