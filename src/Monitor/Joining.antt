-- ===== src/Monitor/Joining.antt =====
-- media/MonitorServer.cc: `kcp_update_thread` and the two places that wait for its end, which take
-- turns, a statement at a time: `removeCam`, which holds the session's mutex, and `acceptLoop` on a
-- viewer that has gone, which does not. Nobody else takes the mutex meanwhile.
pub mod Ends
use car_detect.Prelude.{Bool, true, false, List, [], ◌∷◌, if◌then◌else◌, ◌&&◌, not}

-- Where the thread is: at the loop's test, at the lock, in the lock, asleep, or behind the loop.
pub data KcpThread : Type 0 where
  at_test at_lock locked sleeps ended : KcpThread

-- Where the other one is: at the lock, behind it, in the join, or behind the join.
pub data Joiner : Type 0 where
  wants_lock begins joins joined : Joiner

pub record Ending : Type 0 where
  pub kcp_running : Bool
  pub thread : KcpThread
  pub joiner : Joiner

-- Whether the mutex is free: `takes_lock` is whether the joiner is `removeCam`, which keeps the mutex
-- from its first statement on.
abbrev pub joiner_holds : Bool → Joiner → Bool
joiner_holds takes_lock wants_lock = false
joiner_holds takes_lock begins = takes_lock
joiner_holds takes_lock joins = takes_lock
joiner_holds takes_lock joined = false

abbrev pub thread_holds : KcpThread → Bool
thread_holds at_test = false
thread_holds at_lock = false
thread_holds locked = true
thread_holds sleeps = false
thread_holds ended = false

-- A turn of the thread; at a lock that is taken it waits.
unfoldable pub run_thread : Bool → Ending → Ending
run_thread takes_lock e = from e.thread
  where
    from : KcpThread → Ending
    from at_test = record e { thread = if e.kcp_running then at_lock else ended }
    from at_lock = record e {
      thread = if joiner_holds takes_lock e.joiner then at_lock else locked;
    }
    from locked = record e { thread = sleeps }
    from sleeps = record e { thread = at_test }
    from ended = e

abbrev pub has_ended : KcpThread → Bool
has_ended at_test = false
has_ended at_lock = false
has_ended locked = false
has_ended sleeps = false
has_ended ended = true

-- A turn of the one that joins. Without the mutex there is nothing to wait for at the first place.
unfoldable pub run_joiner : Bool → Ending → Ending
run_joiner takes_lock e = from e.joiner
  where
    from : Joiner → Ending
    from wants_lock = record e {
      joiner = if takes_lock && thread_holds e.thread then wants_lock else begins;
    }
    from begins = record e { kcp_running = false; joiner = joins }
    from joins = record e { joiner = if has_ended e.thread then joined else joins }
    from joined = e

-- `true` is a turn of the thread.
unfoldable pub take_turns : Bool → List Bool → Ending → Ending
unfolding run_thread run_joiner
take_turns takes_lock [] e = e
take_turns takes_lock (true ∷ ts) e = take_turns takes_lock ts (run_thread takes_lock e)
take_turns takes_lock (false ∷ ts) e = take_turns takes_lock ts (run_joiner takes_lock e)
