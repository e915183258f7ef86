-- ===== src/Utils/SafeUnit.antt =====
-- utils/scheduler_safe_unit.cpp: functions posted from any thread, of which one runs at a time. A
-- function is a number. `scheduled` counts the units handed to the scheduler that no thread has
-- taken yet; each element of `runs` is what a call of doComplete has left in its runList. Each body
-- under listMutex is one step, and so are the swap before the loop and each function that runs.
pub mod Order
use integration_server.Prelude.{
  ℕ, ◌+◌, ◌-◌, ◌<◌, ◌≡◌, Bool, true, false, List, [], ◌∷◌, ◌++◌, if◌then◌else◌,
}

pub record SafeUnit : Type 0 where
  pub access : Bool
  pub cancel_flag : Bool
  pub wait_list : List ℕ
  pub access_list : List ℕ
  pub scheduled : ℕ
  pub runs : List (List ℕ)
  pub done : List ℕ
  pub accepted : List ℕ

unfoldable pub new_safe_unit : SafeUnit
new_safe_unit = record {
  access = false;
  cancel_flag = false;
  wait_list = [];
  access_list = [];
  scheduled = 0;
  runs = [];
  done = [];
  accepted = [];
}

-- `accepted` records what postWithoutLock was called with.
unfoldable pub post_without_lock : ℕ → SafeUnit → SafeUnit
post_without_lock func u =
    if u.access
    then record u { wait_list = u.wait_list ++ func ∷ []; accepted = u.accepted ++ func ∷ [] }
    else record u {
      access = true;
      access_list = u.access_list ++ func ∷ [];
      scheduled = u.scheduled + 1;
      accepted = u.accepted ++ func ∷ [];
    }

unfoldable pub post : ℕ → SafeUnit → SafeUnit
post func u = if u.cancel_flag then u else post_without_lock func u

unfoldable pub cancel_units : ℕ → SafeUnit → SafeUnit
cancel_units logic_func u =
    if u.cancel_flag then u else record (post_without_lock logic_func u) { cancel_flag = true }

-- doComplete up to its loop, on a thread that takes the unit from the scheduler.
unfoldable pub begin_complete : SafeUnit → SafeUnit
begin_complete u = record u {
  access_list = [];
  scheduled = u.scheduled - 1;
  runs = u.access_list ∷ u.runs;
}

-- The end of doComplete, by what the swap brings into accessList.
unfoldable pub end_complete : List ℕ → SafeUnit → SafeUnit
end_complete [] u = record u { access = false }
end_complete (f ∷ fs) u = record u { scheduled = u.scheduled + 1 }

-- doComplete after its loop.
unfoldable pub finish_complete : SafeUnit → SafeUnit
finish_complete u =
    end_complete u.wait_list (record u { wait_list = u.access_list; access_list = u.wait_list })

-- The steps of any number of threads.
pub data Step : SafeUnit → SafeUnit → Type 0 where
  posts : (func : ℕ) (u : SafeUnit) → Step u (post func u)
  cancels : (logic_func : ℕ) (u : SafeUnit) → Step u (cancel_units logic_func u)
  begins : (u : SafeUnit) → 0 < u.scheduled → Step u (begin_complete u)
  runs_one :
      (xs ys : List (List ℕ)) (f : ℕ) (fs : List ℕ) (u : SafeUnit)
      → u.runs ≡ xs ++ (f ∷ fs) ∷ ys
      → Step u (record u { runs = xs ++ fs ∷ ys; done = u.done ++ f ∷ [] })
  finishes :
      (xs ys : List (List ℕ)) (u : SafeUnit)
      → u.runs ≡ xs ++ [] ∷ ys
      → Step u (finish_complete (record u { runs = xs ++ ys }))
