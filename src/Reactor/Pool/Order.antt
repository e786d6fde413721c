-- ===== src/Reactor/Pool/Order.antt =====
-- The order of the tasks in reactor/TaskQueue.cc, whatever turns the threads take.
use car_detect.Prelude.{
  ℕ, zero, suc, ◌≡◌, ◌≤◌, refl, sym, ap, ◌∙◌, Option, none, some, Bool, true, false, List, [], ◌∷◌,
  ◌++◌, length, length-append, append-nil, append_assoc, arith, Bool-cases, inl, inr,
}
use car_detect.Reactor.Pool.{
  TaskQueue, Worker, at_test, in_get_task, runs, exited, Stopper, not_called, exit_set,
  waits_for_tasks, joins, returned, ThreadPool, Turn, adds, starts, stops, works, new_pool,
  is_empty, is_full, push, pop, do_task, do_task_at, all_exited, stop, start, add_task, take_turn,
  run,
}

module _ {A : Type 0} where
  -- What was in the queue and what came, in order, is what was taken and what is left; the queue's
  -- bound is the same, and is kept.
  pub Kept : TaskQueue A → List A → List A → TaskQueue A → Type 0
  Kept q added taken q' =
      (q.queue ++ added ≡ taken ++ q'.queue)
      × (q'.queue_size ≡ q.queue_size)
      × (length q.queue ≤ q.queue_size → length q'.queue ≤ q'.queue_size)

  Kept-refl : (q : TaskQueue A) → Kept q [] [] q
  unfolding Kept
  Kept-refl q = (append-nil q.queue, refl, λ h. h)

  Kept-trans :
      (q r s : TaskQueue A) (xs bs cs ds : List A)
      → Kept q xs cs r
      → Kept r bs ds s
      → Kept q (xs ++ bs) (cs ++ ds) s
  unfolding Kept
  Kept-trans q r s xs bs cs ds (order, size, bound) (order', size', bound') = (
    sym (append_assoc q.queue xs bs)
        ∙ ap (λ ys. ys ++ bs) order
        ∙ append_assoc cs r.queue bs
        ∙ ap (λ ys. cs ++ ys) order'
        ∙ sym (append_assoc cs ds s.queue),
    size' ∙ size,
    λ h. bound' (bound h),
  )

  get_task-Kept :
      (is_exit : Bool) (size : ℕ) (tasks : List A) (not_exit : Bool)
      → let q : TaskQueue A = record { queue_size = size; queue = tasks; not_exit = not_exit } in
        let (taken, w, q') = do_task is_exit q in_get_task in Kept q [] taken q'
  unfolding do_task pop Kept
  get_task-Kept is_exit size tasks false = (append-nil tasks, refl, λ h. h)
  get_task-Kept is_exit size [] true = (refl, refl, λ h. h)
  get_task-Kept is_exit size (task ∷ tasks) true = (append-nil _, refl, λ h. omega arith)

  do_task-Kept :
      (is_exit : Bool) (q : TaskQueue A) (w : Worker A)
      → let (taken, w', q') = do_task is_exit q w in Kept q [] taken q'
  unfolding do_task
  do_task-Kept is_exit q at_test = Kept-refl q
  do_task-Kept is_exit q (runs task) = Kept-refl q
  do_task-Kept is_exit q exited = Kept-refl q
  do_task-Kept is_exit q in_get_task = get_task-Kept is_exit q.queue_size q.queue q.not_exit

  do_task_at-Kept :
      (i : ℕ) (is_exit : Bool) (q : TaskQueue A) (ws : List (Worker A))
      → let (taken, ws', q') = do_task_at i is_exit q ws in Kept q [] taken q'
  unfolding do_task_at
  do_task_at-Kept i is_exit q [] = Kept-refl q
  do_task_at-Kept zero is_exit q (w ∷ ws) = do_task-Kept is_exit q w
  do_task_at-Kept (suc i) is_exit q (w ∷ ws) = do_task_at-Kept i is_exit q ws

  stop-Kept :
      (s : Stopper) (p : ThreadPool A) → p.stopper ≡ s → Kept p.task_queue [] [] (stop p).task_queue
  unfolding stop Kept
  stop-Kept not_called p e = rw (stop, e) (Kept-refl p.task_queue)
  stop-Kept exit_set p e = rw (stop, e) (append-nil p.task_queue.queue, refl, λ h. h)
  stop-Kept waits_for_tasks p e = elim (Bool-cases (is_empty p.task_queue)) [
    | inl b ↦ rw (stop, e, b) (Kept-refl p.task_queue)
    | inr b ↦ rw (stop, e, b) (Kept-refl p.task_queue)
  ]
  stop-Kept joins p e = elim (Bool-cases (all_exited p.threads)) [
    | inl b ↦ rw (stop, e, b) (Kept-refl p.task_queue)
    | inr b ↦ rw (stop, e, b) (Kept-refl p.task_queue)
  ]
  stop-Kept returned p e = rw (stop, e) (Kept-refl p.task_queue)

  push-Kept :
      (task : A) (q : TaskQueue A)
      → is_full q ≡ false
      → Kept q (task ∷ []) [] (record q { queue = q.queue ++ (task ∷ []) })
  unfolding Kept
  push-Kept task q h = (refl, refl, λ le. ground (arith, length-append q.queue (task ∷ [])))

  add_task-Kept :
      (task : Option A) (p : ThreadPool A)
      → let m = add_task task p in Kept p.task_queue m.added m.taken m.pool.task_queue
  unfolding add_task push
  add_task-Kept none p = Kept-refl p.task_queue
  add_task-Kept (some task) p = elim (Bool-cases (is_full p.task_queue)) [
    | inl e ↦ rw (add_task, e) (Kept-refl p.task_queue)
    | inr e ↦ rw (add_task, e) (push-Kept task p.task_queue e)
  ]

  take_turn-Kept :
      (t : Turn A) (p : ThreadPool A)
      → let m = take_turn t p in Kept p.task_queue m.added m.taken m.pool.task_queue
  unfolding take_turn start
  take_turn-Kept (adds task) p = add_task-Kept task p
  take_turn-Kept starts p = Kept-refl p.task_queue
  take_turn-Kept stops p = stop-Kept p.stopper p refl
  take_turn-Kept (works i) p = do_task_at-Kept i p.is_exit p.task_queue p.threads

  run-Kept :
      (ts : List (Turn A)) (p : ThreadPool A)
      → let m = run ts p in Kept p.task_queue m.added m.taken m.pool.task_queue
  unfolding run
  run-Kept [] p = Kept-refl p.task_queue
  run-Kept (t ∷ ts) p =
      let m = take_turn t p in
      let n = run ts m.pool in
      Kept-trans p.task_queue m.pool.task_queue n.pool.task_queue m.added n.added m.taken n.taken
        (take_turn-Kept t p) (run-Kept ts m.pool)

  -- Whatever turns the threads take, and however many of them there are: the tasks that were taken
  -- from the queue of a new pool are the first ones of those that were put into it, each once and in
  -- order, the rest are in the queue, and the queue never holds more than its size.
  pub run-first_in_first_out :
      (ts : List (Turn A)) (thread_num queue_size : ℕ)
      → let m = run ts (new_pool thread_num queue_size) in
        (m.added ≡ m.taken ++ m.pool.task_queue.queue)
        × (length m.pool.task_queue.queue ≤ queue_size)
  unfolding new_pool Kept
  run-first_in_first_out ts thread_num queue_size =
      let (order, size, bound) = run-Kept ts (new_pool thread_num queue_size) in
      (order, omega (arith, size, bound (omega arith)))
