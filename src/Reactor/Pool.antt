-- ===== src/Reactor/Pool.antt =====
-- reactor/TaskQueue.cc and reactor/ThreadPool.cc: the tasks and the threads that run them. The
-- threads take turns, one section under the mutex or one test of a flag at a time. A thread that waits
-- for a condition may go on as soon as it holds, so a wakeup that is lost is left out; what a task does
-- is left out too.
pub mod Order
pub mod Stopped
use car_detect.Prelude.{
  ℕ, zero, suc, Option, none, some, Bool, true, false, List, [], ◌∷◌, ◌++◌, ◌==◌, length, replicate,
  if◌then◌else◌, ◌&&◌,
}

-- `A` is a function to call.
pub record TaskQueue (A : Type 0) : Type 0 where
  pub queue_size : ℕ
  pub queue : List A
  pub not_exit : Bool

-- Where a worker is in `doTask`: at the loop's test, in `getTask`, in the task that it took, or behind
-- the loop.
pub data Worker (A : Type 0) : Type 0 where
  at_test in_get_task exited : Worker A
  runs : A → Worker A

-- Where the thread that calls `stop` is: before it, behind `_isExit = true`, in the loop that waits
-- for the tasks, before the joins, or behind them.
pub data Stopper : Type 0 where
  not_called exit_set waits_for_tasks joins returned : Stopper

pub record ThreadPool (A : Type 0) : Type 0 where
  pub thread_num : ℕ
  pub task_queue : TaskQueue A
  pub is_exit : Bool
  pub threads : List (Worker A)
  pub stopper : Stopper

-- Whose turn it is: a thread that calls `addTask`, where the task may be empty, the one that calls
-- `start`, the one in `stop`, or the worker at an index.
pub data Turn (A : Type 0) : Type 0 where
  adds : Option A → Turn A
  starts stops : Turn A
  works : ℕ → Turn A

-- What a turn leaves: the tasks that were put into the queue, those that were taken from it, and the
-- pool.
pub record Moved (A : Type 0) : Type 0 where
  pub added : List A
  pub taken : List A
  pub pool : ThreadPool A

module _ {A : Type 0} where
  unfoldable pub new_pool : ℕ → ℕ → ThreadPool A
  new_pool thread_num queue_size = record {
    thread_num = thread_num;
    task_queue = record { queue_size = queue_size; queue = []; not_exit = true };
    is_exit = false;
    threads = [];
    stopper = not_called;
  }

  abbrev pub is_full : TaskQueue A → Bool
  is_full q = length q.queue == q.queue_size

  abbrev pub is_empty : TaskQueue A → Bool
  is_empty q = length q.queue == 0

  -- `none` where the thread waits.
  unfoldable pub push : A → TaskQueue A → Option (TaskQueue A)
  push task q = if is_full q then none else some (record q { queue = q.queue ++ (task ∷ []) })

  -- `none` where the thread waits, and the empty task where the queue is left.
  unfoldable pub pop : TaskQueue A → Option (Option A × TaskQueue A)
  pop q = pop_when q.not_exit q.queue
    where
      pop_when : Bool → List A → Option (Option A × TaskQueue A)
      pop_when false tasks = some (none, q)
      pop_when true [] = none
      pop_when true (task ∷ tasks) = some (some task, record q { queue = tasks })

  abbrev pub wake_up : TaskQueue A → TaskQueue A
  wake_up q = record q { not_exit = false }

  -- A worker's turn in `doTask`: the task that it took, itself and the queue.
  unfoldable pub do_task : Bool → TaskQueue A → Worker A → List A × Worker A × TaskQueue A
  unfolding pop
  do_task is_exit q at_test = ([], if is_exit then exited else in_get_task, q)
  do_task is_exit q in_get_task = elim (pop q) [
    | none ↦ ([], in_get_task, q)
    | some (none, q') ↦ ([], at_test, q')
    | some (some task, q') ↦ (task ∷ [], runs task, q')
  ]
  do_task is_exit q (runs task) = ([], at_test, q)
  do_task is_exit q exited = ([], exited, q)

  unfoldable pub do_task_at :
      ℕ → Bool → TaskQueue A → List (Worker A) → List A × List (Worker A) × TaskQueue A
  unfolding do_task
  do_task_at i is_exit q [] = ([], [], q)
  do_task_at zero is_exit q (w ∷ ws) =
      let (taken, w', q') = do_task is_exit q w in (taken, w' ∷ ws, q')
  do_task_at (suc i) is_exit q (w ∷ ws) =
      let (taken, ws', q') = do_task_at i is_exit q ws in (taken, w ∷ ws', q')

  abbrev pub all_exited : List (Worker A) → Bool
  all_exited [] = true
  all_exited (exited ∷ ws) = all_exited ws
  all_exited (at_test ∷ ws) = false
  all_exited (in_get_task ∷ ws) = false
  all_exited (runs task ∷ ws) = false

  -- The joins wait for the end of every worker.
  unfoldable pub stop : ThreadPool A → ThreadPool A
  stop p = stop_at p.stopper
    where
      stop_at : Stopper → ThreadPool A
      stop_at not_called = record p { is_exit = true; stopper = exit_set }
      stop_at exit_set = record p { task_queue = wake_up p.task_queue; stopper = waits_for_tasks }
      stop_at waits_for_tasks = if is_empty p.task_queue then record p { stopper = joins } else p
      stop_at joins = if all_exited p.threads then record p { stopper = returned } else p
      stop_at returned = p

  unfoldable pub start : ThreadPool A → ThreadPool A
  start p = record p { threads = p.threads ++ replicate p.thread_num at_test }

  unfoldable pub add_task : Option A → ThreadPool A → Moved A
  unfolding push
  add_task none p = record { added = []; taken = []; pool = p }
  add_task (some task) p = elim (push task p.task_queue) [
    | none ↦ record { added = []; taken = []; pool = p }
    | some q ↦ record { added = task ∷ []; taken = []; pool = record p { task_queue = q } }
  ]

  unfoldable pub take_turn : Turn A → ThreadPool A → Moved A
  unfolding add_task start stop do_task_at
  take_turn (adds task) p = add_task task p
  take_turn starts p = record { added = []; taken = []; pool = start p }
  take_turn stops p = record { added = []; taken = []; pool = stop p }
  take_turn (works i) p =
      let (taken, ws, q) = do_task_at i p.is_exit p.task_queue p.threads in
      record { added = []; taken = taken; pool = record p { threads = ws; task_queue = q } }

  unfoldable pub run : List (Turn A) → ThreadPool A → Moved A
  unfolding take_turn
  run [] p = record { added = []; taken = []; pool = p }
  run (t ∷ ts) p =
      let m = take_turn t p in
      let n = run ts m.pool in
      record { added = m.added ++ n.added; taken = m.taken ++ n.taken; pool = n.pool }
