-- ===== src/Reactor/Timers.antt =====
-- reactor/TimerManager.h and .cc: `TimerManager`. What the callbacks do is left out, and so are
-- callbacks that change the timers; times are milliseconds, read from the clock where `now` stands.
pub mod Due
pub mod Order
use car_detect.Prelude.{
  ℕ, zero, suc, ◌+◌, ◌-◌, ◌*◌, ◌/◌, ◌%◌, Option, none, some, Bool, true, false, List, [], ◌∷◌, ◌++◌,
  ltb, map, leb, ◌==◌, if◌then◌else◌,
}

-- An entry of `_timers`: the id, the time at which it is due, and the interval, 0 for once.
pub record Timer : Type 0 where
  pub id : ℕ
  pub expire : ℕ
  pub interval : ℕ

-- The map goes by ids. `timerfd` is what it was last set to, seconds and nanoseconds, and (0, 0) when
-- it is off.
pub record TimerManager : Type 0 where
  pub timers : List Timer
  pub next_id : ℕ
  pub timerfd : ℕ × ℕ

-- `emplace`: an id that is there keeps its entry.
unfoldable pub emplace : Timer → List Timer → List Timer
emplace t [] = t ∷ []
emplace t (u ∷ ts) =
    let rest = emplace t ts in
    if t.id == u.id then u ∷ ts else if ltb t.id u.id then t ∷ u ∷ ts else u ∷ rest

unfoldable pub erase : ℕ → List Timer → List Timer
erase id [] = []
erase id (u ∷ ts) = let rest = erase id ts in if u.id == id then ts else u ∷ rest

abbrev pub has_timer : ℕ → List Timer → Bool
has_timer id [] = false
has_timer id (u ∷ ts) = let rest = has_timer id ts in if u.id == id then true else rest

-- `resetTimerfd`: for the first entry of the map.
unfoldable pub timerfd_for : ℕ → List Timer → ℕ × ℕ
timerfd_for now [] = (0, 0)
timerfd_for now (t ∷ ts) =
    let diff = if ltb now t.expire then t.expire - now else 1 in
    (diff / 1000, diff % 1000 * 1000000)

unfoldable pub reset_timerfd : ℕ → TimerManager → TimerManager
unfolding timerfd_for
reset_timerfd now m = record m { timerfd = timerfd_for now m.timers }

-- `addTimer`, with the interval 0, and `addPeriodicTimer`. The delay, named in seconds, is added to
-- milliseconds.
unfoldable pub add_timer : ℕ → ℕ → ℕ → TimerManager → ℕ × TimerManager
unfolding emplace reset_timerfd
add_timer delay interval now m =
    let t : Timer = record { id = m.next_id; expire = now + delay; interval = interval } in
    (
      m.next_id,
      reset_timerfd now (record m { timers = emplace t m.timers; next_id = m.next_id + 1 }),
    )

unfoldable pub remove_timer : ℕ → ℕ → TimerManager → TimerManager
unfolding erase reset_timerfd
remove_timer id now m =
    if has_timer id m.timers then reset_timerfd now (record m { timers = erase id m.timers }) else m

-- The loop over the map: it ends at the first entry that is not due.
unfoldable pub take_due : ℕ → List Timer → List Timer × List Timer
take_due now [] = ([], [])
take_due now (t ∷ ts) =
    let (due, rest) = take_due now ts in if leb t.expire now then (t ∷ due, rest) else ([], t ∷ ts)

-- A timer with an interval is put back.
unfoldable pub put_back : ℕ → List Timer → List Timer → List Timer
unfolding emplace
put_back now [] ts = ts
put_back now (t ∷ due) ts =
    put_back now due
      (if ltb 0 t.interval then emplace (record t { expire = now + t.interval }) ts else ts)

-- `handleRead`: the ids whose callbacks run, in order.
unfoldable pub handle_read : ℕ → TimerManager → List ℕ × TimerManager
unfolding take_due put_back reset_timerfd
handle_read now m =
    let (due, rest) = take_due now m.timers in
    (map (λ (t : Timer). t.id) due, reset_timerfd now (record m { timers = put_back now due rest }))
