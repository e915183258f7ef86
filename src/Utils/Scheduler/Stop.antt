-- ===== src/Utils/Scheduler/Stop.antt =====
-- What stop does not do: a worker that waits for a unit goes on waiting.
use integration_server.Prelude.{
  ℕ, ◌-◌, ◌≡◌, refl, ap, inl, inr, false, List, [], ◌∷◌, arith, Bool-cases,
}
use integration_server.Utils.SchedulerList.{get_task, can_wake}
use integration_server.Utils.Scheduler.{
  Scheduler, start_all, stop, begin_work, begin_reactor, consume, consumer_func, complete, wake,
  test_work, test_reactor, Step, starts, stops, begins, begins_reactor, consumes, completes, wakes,
  tests, tests_reactor,
}

-- Any steps of the threads, of start and of stop, without a post.
pub data Steps : Scheduler → Scheduler → Type 0 where
  no_step : (s : Scheduler) → Steps s s
  more_steps : (s t u : Scheduler) → Step s t → Steps t u → Steps s u

-- The list is empty, the work is stopped, and `n` workers wait for a unit.
pub record IsStopped (n : ℕ) (s : Scheduler) : Type 0 where
  pub no_unit : s.work_list ≡ []
  pub no_work : s.work_start ≡ false
  pub asleep : s.sleeping ≡ n

consume-IsStopped :
    (n : ℕ) (us : List ℕ) (s : Scheduler)
    → us ≡ []
    → IsStopped n s
    → IsStopped n
        (consume (get_task us).0 (record s { work_list = (get_task us).1; ready = s.ready - 1 }))
unfolding get_task consume
consume-IsStopped n [] s e h =
    simp h.no_work (record { no_unit = refl; no_work = refl; asleep = h.asleep })
consume-IsStopped n (u ∷ us) s e h = cc

Step-IsStopped : (n : ℕ) (s t : Scheduler) → Step s t → IsStopped n s → IsStopped n t
unfolding start_all stop begin_work begin_reactor consumer_func complete can_wake wake test_work
    test_reactor
Step-IsStopped n s _ starts h = record {
  no_unit = h.no_unit;
  no_work = h.no_work;
  asleep = h.asleep;
}
Step-IsStopped n s _ stops h = record { no_unit = h.no_unit; no_work = refl; asleep = h.asleep }
Step-IsStopped n s _ (begins e l) h = record {
  no_unit = h.no_unit;
  no_work = h.no_work;
  asleep = h.asleep;
}
Step-IsStopped n s _ (begins_reactor e l) h = record {
  no_unit = h.no_unit;
  no_work = h.no_work;
  asleep = h.asleep;
}
Step-IsStopped n s _ (consumes l) h = consume-IsStopped n s.work_list s h.no_unit h
Step-IsStopped n s _ (completes xs f ys e) h = record {
  no_unit = h.no_unit;
  no_work = h.no_work;
  asleep = h.asleep;
}
Step-IsStopped n s _ (wakes l e) h = absurd (ground (arith, ap can_wake h.no_unit, e))
Step-IsStopped n s _ (tests l) h =
    simp h.no_work (record { no_unit = h.no_unit; no_work = refl; asleep = h.asleep })
Step-IsStopped n s _ (tests_reactor l) h = elim (Bool-cases s.reactor_start) [
  | inl e ↦ simp e h
  | inr e ↦ simp e (record { no_unit = h.no_unit; no_work = h.no_work; asleep = h.asleep })
]

Steps-IsStopped : (n : ℕ) (s t : Scheduler) → Steps s t → IsStopped n s → IsStopped n t
Steps-IsStopped n s _ (no_step _) h = h
Steps-IsStopped n s t (more_steps _ u _ first rest) h =
    Steps-IsStopped n u t rest (Step-IsStopped n s u first h)

-- After stop of a Scheduler whose list is empty, and any steps that post nothing, as many workers
-- sleep in wait as before, and the list is still empty: the sleeping workers never end.
pub Steps-stop :
    (s t : Scheduler)
    → s.work_list ≡ []
    → Steps (stop s) t
    → (t.sleeping ≡ s.sleeping) × (t.work_list ≡ [])
unfolding stop
Steps-stop s t e steps =
    let h =
      Steps-IsStopped s.sleeping (stop s) t steps
        (record { no_unit = e; no_work = refl; asleep = refl }) in
    (h.asleep, h.no_unit)
