-- ===== src/Utils/SchedulerLf/Leader.antt =====
-- There is one leader at most, and the units are taken in the order in which they came.
use integration_server.Prelude.{
  ℕ, ◌+◌, ◌-◌, ◌<◌, ◌≡◌, ◌⊎◌, refl, sym, ap, ◌∙◌, inl, inr, Bool, true, false, List, [], ◌∷◌, ◌++◌,
  none, some, map, length, length-append, append_assoc, arith, Bool-cases, if◌then◌else◌,
}
use integration_server.Utils.SchedulerList.{push, push_batch, get_task}
use integration_server.Utils.SchedulerLf.{
  LfUnit, reactor_unit, task, SchedulerLf, new_scheduler, push_unit, start_work, push_reactor, stop,
  post, dispatch, take_task, reactor_wait, push_tasks, complete, wake, test_work, Step, starts,
  pushes_reactor, stops, posts, takes, polls, pushes, completes, wakes, tests,
}

pub data Reaches (reactor_mode : Bool) (threads : ℕ) : SchedulerLf → Type 0 where
  fresh : Reaches reactor_mode threads (new_scheduler reactor_mode threads)
  next :
      (s t : SchedulerLf)
      → Reaches reactor_mode threads s
      → Step s t
      → Reaches reactor_mode threads t

-- How often the unit that makes a leader stands in a list.
unfoldable pub leads : List LfUnit → ℕ
leads [] = 0
leads (reactor_unit ∷ us) = leads us + 1
leads (task f ∷ us) = leads us

leads-append : (us vs : List LfUnit) → leads (us ++ vs) ≡ leads us + leads vs
unfolding leads
leads-append [] vs = omega arith
leads-append (reactor_unit ∷ us) vs = omega (arith, leads-append us vs)
leads-append (task f ∷ us) vs = omega (arith, leads-append us vs)

leads-map : (fs : List ℕ) → leads (map task fs) ≡ 0
unfolding leads
leads-map [] = refl
leads-map (f ∷ fs) = leads-map fs

-- One leader once the scheduler has started in reactor mode, and none in the other cases.
abbrev due_leaders : SchedulerLf → ℕ
due_leaders s = if s.start then if s.reactor_mode then 1 else 0 else 0

abbrev pub thread_count : SchedulerLf → ℕ
thread_count s =
    s.ready + s.polling + s.polled + length s.running + s.sleeping + s.testing + s.ended

pub record OneLeader (threads : ℕ) (s : SchedulerLf) : Type 0 where
  pub one : leads s.work_list + s.polling + s.polled + (if s.starting then 1 else 0) ≡ due_leaders s
  pub private_tasks : (0 < s.polled) ⊎ (s.task_list ≡ [])
  pub tasks_only : leads s.task_list ≡ 0
  pub in_order : s.taken ++ s.work_list ≡ s.queued
  pub all_there : thread_count s ≡ threads

module _ (threads : ℕ) where
  push_unit-OneLeader :
      (f : ℕ) (s : SchedulerLf) → OneLeader threads s → OneLeader threads (push_unit (task f) s)
  unfolding push_unit push leads
  push_unit-OneLeader f s o = record {
    one = omega (arith, o.one, leads-append s.work_list (task f ∷ []));
    private_tasks = o.private_tasks;
    tasks_only = o.tasks_only;
    in_order =
        sym (append_assoc s.taken s.work_list (task f ∷ []))
        ∙ ap (λ us. us ++ task f ∷ []) o.in_order;
    all_there = o.all_there;
  }

  start_work-OneLeader :
      (s : SchedulerLf) → s.start ≡ false → OneLeader threads s → OneLeader threads (start_work s)
  unfolding start_work
  start_work-OneLeader s e o = record {
    one = ground (arith, e, o.one);
    private_tasks = o.private_tasks;
    tasks_only = o.tasks_only;
    in_order = o.in_order;
    all_there = o.all_there;
  }

  push_reactor-OneLeader :
      (s : SchedulerLf)
      → s.starting ≡ true
      → OneLeader threads s
      → OneLeader threads (push_reactor s)
  unfolding push_reactor push_unit push leads
  push_reactor-OneLeader s e o = record {
    one = ground (arith, e, o.one, leads-append s.work_list (reactor_unit ∷ []));
    private_tasks = o.private_tasks;
    tasks_only = o.tasks_only;
    in_order =
        sym (append_assoc s.taken s.work_list (reactor_unit ∷ []))
        ∙ ap (λ us. us ++ reactor_unit ∷ []) o.in_order;
    all_there = o.all_there;
  }

  -- By what stands in the list.
  dispatch-OneLeader :
      (us : List LfUnit) (s : SchedulerLf)
      → s.work_list ≡ us
      → 0 < s.ready
      → OneLeader threads s
      → OneLeader threads
          (dispatch (get_task us).0 (record s { work_list = (get_task us).1; ready = s.ready - 1 }))
  unfolding get_task dispatch leads
  dispatch-OneLeader [] s e h o =
      let order : s.taken ++ [] ≡ s.queued = ap (λ us. s.taken ++ us) (sym e) ∙ o.in_order in
      let one = ap leads (sym e) in
      elim (Bool-cases s.work) [
        | inl w ↦ simp w (record {
          one = omega (arith, one, o.one);
          private_tasks = o.private_tasks;
          tasks_only = o.tasks_only;
          in_order = order;
          all_there = omega (arith, h, o.all_there);
        })
        | inr w ↦ simp w (record {
          one = omega (arith, one, o.one);
          private_tasks = o.private_tasks;
          tasks_only = o.tasks_only;
          in_order = order;
          all_there = omega (arith, h, o.all_there);
        })
      ]
  dispatch-OneLeader (reactor_unit ∷ us) s e h o = record {
    one = omega (arith, ap leads e, o.one);
    private_tasks = o.private_tasks;
    tasks_only = o.tasks_only;
    in_order =
        append_assoc s.taken (reactor_unit ∷ []) us ∙ ap (λ us. s.taken ++ us) (sym e) ∙ o.in_order;
    all_there = omega (arith, h, o.all_there);
  }
  dispatch-OneLeader (task f ∷ us) s e h o = record {
    one = omega (arith, ap leads e, o.one);
    private_tasks = o.private_tasks;
    tasks_only = o.tasks_only;
    in_order =
        append_assoc s.taken (task f ∷ []) us ∙ ap (λ us. s.taken ++ us) (sym e) ∙ o.in_order;
    all_there = omega (arith, h, o.all_there);
  }

  reactor_wait-OneLeader :
      (fs : List ℕ) (s : SchedulerLf)
      → 0 < s.polling
      → OneLeader threads s
      → OneLeader threads (reactor_wait fs s)
  unfolding reactor_wait
  reactor_wait-OneLeader fs s h o = record {
    one = omega (arith, h, o.one);
    private_tasks = inl (omega arith);
    tasks_only = omega (arith, o.tasks_only, leads-append s.task_list (map task fs), leads-map fs);
    in_order = o.in_order;
    all_there = omega (arith, h, o.all_there);
  }

  push_tasks-OneLeader :
      (s : SchedulerLf) → 0 < s.polled → OneLeader threads s → OneLeader threads (push_tasks s)
  unfolding push_tasks push_batch leads
  push_tasks-OneLeader s h o = record {
    one = omega (
      arith,
      h,
      o.one,
      o.tasks_only,
      leads-append s.work_list (s.task_list ++ reactor_unit ∷ []),
      leads-append s.task_list (reactor_unit ∷ []),
    );
    private_tasks = inr refl;
    tasks_only = refl;
    in_order =
        sym (append_assoc s.taken s.work_list (s.task_list ++ reactor_unit ∷ []))
        ∙ ap (λ us. us ++ (s.task_list ++ reactor_unit ∷ [])) o.in_order;
    all_there = omega (arith, h, o.all_there);
  }

  complete-OneLeader :
      (xs : List ℕ) (f : ℕ) (ys : List ℕ) (s : SchedulerLf)
      → s.running ≡ xs ++ f ∷ ys
      → OneLeader threads s
      → OneLeader threads (complete f (xs ++ ys) s)
  unfolding complete
  complete-OneLeader xs f ys s e o = record {
    one = o.one;
    private_tasks = o.private_tasks;
    tasks_only = o.tasks_only;
    in_order = o.in_order;
    all_there =
        omega (arith, o.all_there, ap length e, length-append xs (f ∷ ys), length-append xs ys);
  }

  wake-OneLeader :
      (s : SchedulerLf) → 0 < s.sleeping → OneLeader threads s → OneLeader threads (wake s)
  unfolding wake
  wake-OneLeader s h o = record {
    one = o.one;
    private_tasks = o.private_tasks;
    tasks_only = o.tasks_only;
    in_order = o.in_order;
    all_there = omega (arith, h, o.all_there);
  }

  test_work-OneLeader :
      (s : SchedulerLf) → 0 < s.testing → OneLeader threads s → OneLeader threads (test_work s)
  unfolding test_work
  test_work-OneLeader s h o =
      ground (arith, h, o.all_there, o.one, o.private_tasks, o.tasks_only, o.in_order)

  Step-OneLeader : (s t : SchedulerLf) → Step s t → OneLeader threads s → OneLeader threads t
  unfolding take_task stop post
  Step-OneLeader s _ (starts e) o = start_work-OneLeader s e o
  Step-OneLeader s _ (pushes_reactor e) o = push_reactor-OneLeader s e o
  Step-OneLeader s _ stops o = record {
    one = o.one;
    private_tasks = o.private_tasks;
    tasks_only = o.tasks_only;
    in_order = o.in_order;
    all_there = o.all_there;
  }
  Step-OneLeader s _ (posts none) o = o
  Step-OneLeader s _ (posts (some f)) o = push_unit-OneLeader f s o
  Step-OneLeader s _ (takes e h) o = dispatch-OneLeader s.work_list s refl h o
  Step-OneLeader s _ (polls fs h) o = reactor_wait-OneLeader fs s h o
  Step-OneLeader s _ (pushes h) o = push_tasks-OneLeader s h o
  Step-OneLeader s _ (completes xs f ys e) o = complete-OneLeader xs f ys s e o
  Step-OneLeader s _ (wakes h e) o = wake-OneLeader s h o
  Step-OneLeader s _ (tests h) o = test_work-OneLeader s h o

-- After any steps of any number of threads on a new SchedulerLF: the unit that makes a leader, the
-- threads that are leaders, and a call of start that has set m_start and not yet pushed that unit,
-- are together one when the mode has the reactor and start was called, and none else; m_taskList is
-- empty unless a leader has polled and not yet handed its tasks over, and never holds that unit;
-- what was taken from the list, followed by what is left in it, is what was put in, in that order;
-- and no thread is lost.
pub Reaches-OneLeader :
    (reactor_mode : Bool) (threads : ℕ) (s : SchedulerLf)
    → Reaches reactor_mode threads s
    → OneLeader threads s
unfolding new_scheduler leads
Reaches-OneLeader reactor_mode threads _ fresh = record {
  one = refl;
  private_tasks = inr refl;
  tasks_only = refl;
  in_order = refl;
  all_there = omega arith;
}
Reaches-OneLeader reactor_mode threads t (next s _ r st) =
    Step-OneLeader threads s t st (Reaches-OneLeader reactor_mode threads s r)
