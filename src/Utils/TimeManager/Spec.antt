-- ===== src/Utils/TimeManager/Spec.antt =====
-- What the functions of a tick say, and what that makes of the timers: the tick by its history.
use integration_server.Prelude.{
  ℕ, ◌+◌, ◌^◌, ◌%◌, ◌≡◌, refl, Bool, false, ◌||◌, List, [], ◌∷◌, ◌++◌, Option, none, some, ◌==◌,
  if◌then◌else◌, arith,
}
use integration_server.Utils.TimedQueue.{put}
use integration_server.Utils.TimeManager.{TimerBase, Command, after_func_of, cancel_of}

-- Whether a timer is cancelled by the calls.
unfoldable pub cancelled : ℕ → List Command → Bool
cancelled p [] = false
cancelled p (after_func_of seconds q f ∷ cs) = cancelled p cs
cancelled p (cancel_of q ∷ cs) = p == q || cancelled p cs

-- The function that a timer has after the calls: the last one that it was given.
unfoldable pub latest : ℕ → Option ℕ → List Command → Option ℕ
latest p o [] = o
latest p o (after_func_of seconds q none ∷ cs) = latest p o cs
latest p o (after_func_of seconds q (some f) ∷ cs) = latest p (if p == q then some f else o) cs
latest p o (cancel_of q ∷ cs) = latest p o cs

-- The calls with a function enter their timers, `seconds` from now, in their order.
unfoldable pub entered : ℕ → List Command → List (ℕ × ℕ) → List (ℕ × ℕ)
entered now [] q = q
entered now (after_func_of seconds p none ∷ cs) q = entered now cs q
entered now (after_func_of seconds p (some f) ∷ cs) q =
    entered now cs (put ((now + seconds) % 2 ^ 32) p q)
entered now (cancel_of p ∷ cs) q = entered now cs q

module _ (body : ℕ → List Command) where
  -- The calls that the functions make.
  unfoldable pub said : List ℕ → List Command
  said [] = []
  said (f ∷ fs) = body f ++ said fs

  -- The function that a timer runs when those of `ran` were run since it was as `t` tells.
  unfoldable pub fires : List ℕ → ℕ → TimerBase → Option ℕ
  fires ran p t = if t.over || cancelled p (said ran) then none else latest p t.func (said ran)

  -- The functions that the timers of a list run, one after the other.
  unfoldable pub spec_runs : (ℕ → TimerBase) → List ℕ → List ℕ → List ℕ
  spec_runs timers ran [] = []
  spec_runs timers ran (p ∷ ps) = elim (fires ran p (timers p)) [
    | none ↦ spec_runs timers ran ps
    | some f ↦ f ∷ spec_runs timers (ran ++ f ∷ []) ps
  ]

pub cancelled-append :
    (p : ℕ) (cs ds : List Command) → cancelled p (cs ++ ds) ≡ (cancelled p cs || cancelled p ds)
unfolding cancelled
cancelled-append p [] ds = refl
cancelled-append p (after_func_of seconds q f ∷ cs) ds = cancelled-append p cs ds
cancelled-append p (cancel_of q ∷ cs) ds = ground (arith, cancelled-append p cs ds)

pub latest-append :
    (p : ℕ) (o : Option ℕ) (cs ds : List Command)
    → latest p o (cs ++ ds) ≡ latest p (latest p o cs) ds
unfolding latest
latest-append p o [] ds = refl
latest-append p o (after_func_of seconds q none ∷ cs) ds = latest-append p o cs ds
latest-append p o (after_func_of seconds q (some f) ∷ cs) ds =
    latest-append p (if p == q then some f else o) cs ds
latest-append p o (cancel_of q ∷ cs) ds = latest-append p o cs ds

pub entered-append :
    (now : ℕ) (cs ds : List Command) (q : List (ℕ × ℕ))
    → entered now (cs ++ ds) q ≡ entered now ds (entered now cs q)
unfolding entered
entered-append now [] ds q = refl
entered-append now (after_func_of seconds p none ∷ cs) ds q = entered-append now cs ds q
entered-append now (after_func_of seconds p (some f) ∷ cs) ds q =
    entered-append now cs ds (put ((now + seconds) % 2 ^ 32) p q)
entered-append now (cancel_of p ∷ cs) ds q = entered-append now cs ds q
