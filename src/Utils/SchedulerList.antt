-- ===== src/Utils/SchedulerList.antt =====
-- utils/scheduler_list.cpp: the list of units that the threads of a scheduler share. Each function
-- holds the list's mutex, and so is one step. Which thread a notify wakes is not modelled: a thread
-- in `wait` may go on whenever `can_wake` holds, which it tests under the mutex.
use integration_server.Prelude.{
  Bool, true, false, List, [], ◌∷◌, ◌++◌, Option, none, some, ℕ, length, ◌%◌, ◌^◌,
}

module _ {U : Type 0} where
  -- pushWithNotify and pushWithoutNofity
  unfoldable pub push : U → List U → List U
  push u task_list = task_list ++ u ∷ []

  -- pushBatchWithNotify and pushBatchWithoutNotify: the given list is spliced, and left empty.
  unfoldable pub push_batch : List U → List U → List U × List U
  push_batch batch task_list = (task_list ++ batch, [])

  unfoldable pub get_task : List U → Option U × List U
  get_task [] = (none, [])
  get_task (u ∷ task_list) = (some u, task_list)

  -- The two lists are swapped.
  unfoldable pub get_task_list : List U → List U → List U × List U
  get_task_list list task_list = (task_list, list)

  unfoldable pub get_task_size : List U → ℕ
  get_task_size task_list = length task_list % 2 ^ 32

  -- The predicate of wait.
  unfoldable pub can_wake : List U → Bool
  can_wake [] = false
  can_wake (u ∷ task_list) = true
