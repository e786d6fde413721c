-- ===== src/Reactor/Pool/Stopped.antt =====
-- What `stop` of reactor/ThreadPool.cc waits for.
use car_detect.Prelude.{
  ℕ, zero, suc, ◌≡◌, refl, ap, Option, none, some, Bool, true, false, List, [], ◌∷◌, Bool-cases,
  inl, inr, length-append, arith,
}
use mathlib.Core.Path.{subst}
use car_detect.Reactor.Pool.{
  TaskQueue, Worker, at_test, in_get_task, runs, exited, Stopper, not_called, exit_set,
  waits_for_tasks, joins, returned, ThreadPool, Turn, adds, starts, stops, works, new_pool,
  is_empty, is_full, push, pop, do_task, do_task_at, all_exited, stop, start, add_task, take_turn,
  run,
}

-- Once it waits, the thread in `stop` has told the queue to end.
WokenAt : Stopper → Bool → Type 0
WokenAt not_called not_exit = Unit {0}
WokenAt exit_set not_exit = Unit {0}
WokenAt waits_for_tasks not_exit = not_exit ≡ false
WokenAt joins not_exit = not_exit ≡ false
WokenAt returned not_exit = not_exit ≡ false

module _ {A : Type 0} where
  Woken : ThreadPool A → Type 0
  Woken p = WokenAt p.stopper p.task_queue.not_exit

  get_task-not_exit :
      (is_exit : Bool) (size : ℕ) (tasks : List A) (not_exit : Bool)
      → let q : TaskQueue A = record { queue_size = size; queue = tasks; not_exit = not_exit } in
        (do_task is_exit q in_get_task).2.not_exit ≡ not_exit
  unfolding do_task pop
  get_task-not_exit is_exit size tasks false = refl
  get_task-not_exit is_exit size [] true = refl
  get_task-not_exit is_exit size (task ∷ tasks) true = refl

  do_task_at-not_exit :
      (i : ℕ) (is_exit : Bool) (q : TaskQueue A) (ws : List (Worker A))
      → (do_task_at i is_exit q ws).2.not_exit ≡ q.not_exit
  unfolding do_task_at do_task
  do_task_at-not_exit i is_exit q [] = refl
  do_task_at-not_exit zero is_exit q (at_test ∷ ws) = refl
  do_task_at-not_exit zero is_exit q (runs task ∷ ws) = refl
  do_task_at-not_exit zero is_exit q (exited ∷ ws) = refl
  do_task_at-not_exit zero is_exit q (in_get_task ∷ ws) =
      get_task-not_exit is_exit q.queue_size q.queue q.not_exit
  do_task_at-not_exit (suc i) is_exit q (w ∷ ws) = do_task_at-not_exit i is_exit q ws

  stop-Woken :
      (s : Stopper) (p : ThreadPool A)
      → WokenAt s p.task_queue.not_exit
      → Woken (stop (record p { stopper = s }))
  unfolding stop Woken WokenAt
  stop-Woken not_called p h = tt
  stop-Woken exit_set p h = refl
  stop-Woken waits_for_tasks p h = elim (Bool-cases (is_empty p.task_queue)) [
    | inl b ↦ rw b h
    | inr b ↦ rw b h
  ]
  stop-Woken joins p h = elim (Bool-cases (all_exited p.threads)) [
    | inl b ↦ rw b h
    | inr b ↦ rw b h
  ]
  stop-Woken returned p h = h

  add_task-Woken : (task : Option A) (p : ThreadPool A) → Woken p → Woken (add_task task p).pool
  unfolding add_task push Woken
  add_task-Woken none p h = h
  add_task-Woken (some task) p h = elim (Bool-cases (is_full p.task_queue)) [
    | inl e ↦ rw (add_task, e) h
    | inr e ↦ rw (add_task, e) h
  ]

  run-Woken : (ts : List (Turn A)) (p : ThreadPool A) → Woken p → Woken (run ts p).pool
  unfolding run take_turn start Woken
  run-Woken [] p h = h
  run-Woken (adds task ∷ ts) p h = run-Woken ts _ (add_task-Woken task p h)
  run-Woken (starts ∷ ts) p h = run-Woken ts (start p) h
  run-Woken (stops ∷ ts) p h = run-Woken ts (stop p) (stop-Woken p.stopper p h)
  run-Woken (works i ∷ ts) p h =
      run-Woken ts (take_turn (works i) p).pool
        (rw (do_task_at-not_exit i p.is_exit p.task_queue p.threads) h)

  -- There are tasks, the queue has ended, and the thread in `stop` waits.
  Waits : ThreadPool A → Type 0
  Waits p =
      (p.stopper ≡ waits_for_tasks)
      × (p.task_queue.not_exit ≡ false)
      × (is_empty p.task_queue ≡ false)

  do_task_at-ended :
      (i : ℕ) (is_exit : Bool) (q : TaskQueue A) (ws : List (Worker A))
      → q.not_exit ≡ false
      → ((do_task_at i is_exit q ws).0 ≡ []) × ((do_task_at i is_exit q ws).2 ≡ q)
  unfolding do_task_at do_task pop
  do_task_at-ended i is_exit q [] e = (refl, refl)
  do_task_at-ended zero is_exit q (at_test ∷ ws) e = (refl, refl)
  do_task_at-ended zero is_exit q (runs task ∷ ws) e = (refl, refl)
  do_task_at-ended zero is_exit q (exited ∷ ws) e = (refl, refl)
  do_task_at-ended zero is_exit q (in_get_task ∷ ws) e =
      rw (do_task, pop, e) (refl, ap (λ b. record q { not_exit = b }) e)
  do_task_at-ended (suc i) is_exit q (w ∷ ws) e = do_task_at-ended i is_exit q ws e

  add_task-Waits :
      (task : Option A) (p : ThreadPool A)
      → Waits p
      → ((add_task task p).taken ≡ []) × Waits (add_task task p).pool
  unfolding add_task push Waits
  add_task-Waits none p h = (refl, h)
  add_task-Waits (some task) p (s, e, n) = elim (Bool-cases (is_full p.task_queue)) [
    | inl b ↦ rw (add_task, b) (refl, (s, e, n))
    | inr b ↦
        rw (add_task, b)
          (refl, (s, e, ground (arith, length-append p.task_queue.queue (task ∷ []))))
  ]

  take_turn-Waits :
      (t : Turn A) (p : ThreadPool A)
      → Waits p
      → ((take_turn t p).taken ≡ []) × Waits (take_turn t p).pool
  unfolding take_turn start stop Waits
  take_turn-Waits (adds task) p h = add_task-Waits task p h
  take_turn-Waits starts p h = (refl, h)
  take_turn-Waits stops p (s, e, n) = (refl, rw (stop, s, n) (refl, e, n))
  take_turn-Waits (works i) p (s, e, n) =
      let (nothing, same) = do_task_at-ended i p.is_exit p.task_queue p.threads e in
      (nothing, (s, rw same e, rw same n))

  run-Waits :
      (ts : List (Turn A)) (p : ThreadPool A)
      → Waits p
      → ((run ts p).taken ≡ []) × Waits (run ts p).pool
  unfolding run
  run-Waits [] p h = (refl, h)
  run-Waits (t ∷ ts) p h =
      let (nothing, waits) = take_turn-Waits t p h in
      let (nothing', waits') = run-Waits ts (take_turn t p).pool waits in
      (rw (nothing, nothing') refl, waits')

  -- Once `stop` waits, and a task is in the queue, no task is ever taken from it any more, and `stop`
  -- waits for ever, whatever turns the threads take.
  pub run-waits_for_tasks :
      (ts us : List (Turn A)) (thread_num queue_size : ℕ)
      → let p = (run ts (new_pool thread_num queue_size)).pool in
        p.stopper ≡ waits_for_tasks
        → is_empty p.task_queue ≡ false
        → ((run us p).taken ≡ []) × ((run us p).pool.stopper ≡ waits_for_tasks)
  unfolding Waits Woken WokenAt new_pool
  run-waits_for_tasks ts us thread_num queue_size s n =
      let p = (run ts (new_pool thread_num queue_size)).pool in
      let woken = run-Woken ts (new_pool thread_num queue_size) tt in
      let ended : WokenAt waits_for_tasks p.task_queue.not_exit =
        subst (λ x. WokenAt x p.task_queue.not_exit) s woken in
      let (nothing, waits) = run-Waits us p (s, ended, n) in (nothing, waits.0)
