-- ===== src/Tests/Reacting.antt =====
-- The theorems on the reactor, applied to concrete inputs.
use car_detect.Prelude.{
  ◌≡◌, refl, some, [], ◌∷◌, ◌++◌, map, Bytes, codes, arith, ◌≤◌, ℕ, length, List,
}
use car_detect.Rtsp.Text.{strstr, search, begins}
use car_detect.Rtp.Send.{interleave}
use car_detect.Reactor.Framing.{recv_one_item, interleaved_frame, rfind}
use car_detect.Reactor.Framing.Conserved.{
  Conserved, recv_one_item-Conserved, recv_one_item-interleave,
}
use car_detect.Reactor.Timers.{Timer, TimerManager, add_timer, remove_timer, handle_read}
use car_detect.Reactor.Timers.Order.{WellFormed, operations-WellFormed}
use car_detect.Reactor.Timers.Due.{due_timers, handle_read-due_timers}
use car_detect.Reactor.Pool.{
  Turn, adds, starts, stops, works, waits_for_tasks, new_pool, run, take_turn, add_task, push, pop,
  do_task, do_task_at, start, stop,
}
use car_detect.Reactor.Pool.Order.{run-first_in_first_out}
use car_detect.Reactor.Pool.Stopped.{run-waits_for_tasks}

abbrev request_end : Bytes
request_end = 13 ∷ 10 ∷ 13 ∷ 10 ∷ b'$' ∷ []

recv_one_item-Conserved_example :
    Conserved
      (codes "OPTIONS *" ++ request_end)
      (recv_one_item (some request_end) (codes "OPTIONS *"))
unfolding rfind begins
recv_one_item-Conserved_example = recv_one_item-Conserved request_end (codes "OPTIONS *") refl

abbrev rtp_data : Bytes
rtp_data = 0x80 ∷ 0x60 ∷ 0 ∷ 1 ∷ []

recv_one_item-interleave_example :
    recv_one_item (some (rtp_data ++ (b'$' ∷ []))) (b'$' ∷ 1 ∷ 0 ∷ 4 ∷ [])
    ≡ some (interleaved_frame (record { channel = 1; payload = interleave 1 rtp_data }), b'$' ∷ [])
unfolding interleave strstr search begins
recv_one_item-interleave_example =
    recv_one_item-interleave 1 rtp_data (b'$' ∷ []) (b'$' ∷ 1 ∷ 0 ∷ 4 ∷ [])
      (rtp_data ++ (b'$' ∷ [])) (omega arith) (omega arith) refl refl

abbrev two_timers : TimerManager
two_timers = record {
  timers =
      record { id = 1; expire = 50; interval = 0 }
      ∷ record { id = 2; expire = 900; interval = 100 }
      ∷ [];
  next_id = 3;
  timerfd = (0, 0);
}

handle_read-due_timers_example :
    (handle_read 60 two_timers).0 ≡ map (λ (t : Timer). t.id) (due_timers 60 two_timers.timers)
handle_read-due_timers_example = handle_read-due_timers 60 two_timers ((omega arith, tt), (tt, tt))

-- Two tasks come, and the only worker goes for one of them.
abbrev two_tasks : List (Turn ℕ)
two_tasks = starts ∷ adds (some 7) ∷ works 0 ∷ adds (some 8) ∷ works 0 ∷ []

run-first_in_first_out_example :
    let m = run two_tasks (new_pool 1 10) in
    (m.added ≡ m.taken ++ m.pool.task_queue.queue) × (length m.pool.task_queue.queue ≤ 10)
run-first_in_first_out_example = run-first_in_first_out two_tasks 1 10

-- Then `stop` begins.
abbrev and_stop : List (Turn ℕ)
and_stop = two_tasks ++ (stops ∷ stops ∷ [])

run-waits_for_tasks_example :
    let p = (run and_stop (new_pool 1 10)).pool in
    ((run (works 0 ∷ works 0 ∷ stops ∷ []) p).taken ≡ [])
    × ((run (works 0 ∷ works 0 ∷ stops ∷ []) p).pool.stopper ≡ waits_for_tasks)
unfolding run take_turn add_task push pop do_task do_task_at start stop new_pool
run-waits_for_tasks_example =
    run-waits_for_tasks and_stop (works 0 ∷ works 0 ∷ stops ∷ []) 1 10 refl refl

operations-WellFormed_example :
    WellFormed (add_timer 30 0 60 two_timers).1
    × WellFormed (remove_timer 1 60 two_timers)
    × WellFormed (handle_read 60 two_timers).1
operations-WellFormed_example =
    operations-WellFormed two_timers 60 30 0 1
      (((omega arith, tt), (tt, tt)), (omega arith, (omega arith, tt)))
