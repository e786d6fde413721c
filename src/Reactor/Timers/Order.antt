-- ===== src/Reactor/Timers/Order.antt =====
-- The order of the map `_timers` of reactor/TimerManager.cc.
use car_detect.Prelude.{
  ℕ, ◌+◌, ◌<◌, List, [], ◌∷◌, All, ltb, leb, ◌==◌, arith, Bool-cases, inl, inr,
}
use car_detect.Reactor.Timers.{
  Timer, TimerManager, emplace, erase, has_timer, reset_timerfd, add_timer, remove_timer, take_due,
  put_back, handle_read,
}

-- Each id stands once, in order.
abbrev pub Ordered : List Timer → Type 0
Ordered [] = Unit {0}
Ordered (t ∷ ts) = All (λ u. t.id < u.id) ts × Ordered ts

module _ (P : Timer → Type 0) where
  emplace-All : (t : Timer) (ts : List Timer) → P t → All P ts → All P (emplace t ts)
  unfolding emplace
  emplace-All t [] ht h = (ht, tt)
  emplace-All t (u ∷ ts) ht (hu, hts) = elim (Bool-cases (t.id == u.id)) [
    | inl e ↦ rw e (hu, hts)
    | inr e ↦ elim (Bool-cases (ltb t.id u.id)) [
      | inl less ↦ rw (e, less) (ht, (hu, hts))
      | inr more ↦ rw (e, more) (hu, emplace-All t ts ht hts)
    ]
  ]

  erase-All : (id : ℕ) (ts : List Timer) → All P ts → All P (erase id ts)
  unfolding erase
  erase-All id [] h = tt
  erase-All id (u ∷ ts) (hu, hts) = elim (Bool-cases (u.id == id)) [
    | inl e ↦ rw e hts
    | inr e ↦ rw e (hu, erase-All id ts hts)
  ]

  take_due-All :
      (now : ℕ) (ts : List Timer) → All P ts → All P (take_due now ts).0 × All P (take_due now ts).1
  unfolding take_due
  take_due-All now [] h = (tt, tt)
  take_due-All now (t ∷ ts) (ht, hts) =
      let (due, rest) = take_due-All now ts hts in
      elim (Bool-cases (leb t.expire now)) [
        | inl e ↦ rw e ((ht, due), rest)
        | inr e ↦ rw e (tt, (ht, hts))
      ]

All-less : (n m : ℕ) (ts : List Timer) → n < m → All (λ u. m < u.id) ts → All (λ u. n < u.id) ts
All-less n m [] h hts = tt
All-less n m (t ∷ ts) h (ht, hts) = (omega arith, All-less n m ts h hts)

emplace-Ordered : (t : Timer) (ts : List Timer) → Ordered ts → Ordered (emplace t ts)
unfolding emplace
emplace-Ordered t [] h = (tt, tt)
emplace-Ordered t (u ∷ ts) (hu, hts) = elim (Bool-cases (t.id == u.id)) [
  | inl e ↦ rw e (hu, hts)
  | inr e ↦ elim (Bool-cases (ltb t.id u.id)) [
    | inl less ↦
        let below : t.id < u.id = ground (arith, less) in
        rw (e, less) ((below, All-less t.id u.id ts below hu), (hu, hts))
    | inr more ↦
        let above : u.id < t.id = ground (arith, e, more) in
        rw (e, more) (emplace-All (λ v. u.id < v.id) t ts above hu, emplace-Ordered t ts hts)
  ]
]

erase-Ordered : (id : ℕ) (ts : List Timer) → Ordered ts → Ordered (erase id ts)
unfolding erase
erase-Ordered id [] h = tt
erase-Ordered id (u ∷ ts) (hu, hts) = elim (Bool-cases (u.id == id)) [
  | inl e ↦ rw e hts
  | inr e ↦ rw e (erase-All (λ v. u.id < v.id) id ts hu, erase-Ordered id ts hts)
]

take_due-Ordered : (now : ℕ) (ts : List Timer) → Ordered ts → Ordered (take_due now ts).1
unfolding take_due
take_due-Ordered now [] h = tt
take_due-Ordered now (t ∷ ts) (ht, hts) = elim (Bool-cases (leb t.expire now)) [
  | inl e ↦ rw e (take_due-Ordered now ts hts)
  | inr e ↦ rw e (ht, hts)
]

-- The map is in order, and an id that is given out next is new.
abbrev pub Kept : ℕ → List Timer → Type 0
Kept next ts = Ordered ts × All (λ t. t.id < next) ts

put_back-Kept :
    (now next : ℕ) (due ts : List Timer)
    → All (λ t. t.id < next) due
    → Kept next ts
    → Kept next (put_back now due ts)
unfolding put_back
put_back-Kept now next [] ts h kept = kept
put_back-Kept now next (t ∷ due) ts (ht, hdue) (order, below) =
    elim (Bool-cases (ltb 0 t.interval)) [
      | inl e ↦
          let u : Timer = record t { expire = now + t.interval } in
          rw e (
            put_back-Kept now next due (emplace u ts) hdue
              (emplace-Ordered u ts order, emplace-All (λ v. v.id < next) u ts ht below))
      | inr e ↦ rw e (put_back-Kept now next due ts hdue (order, below))
    ]

abbrev pub WellFormed : TimerManager → Type 0
WellFormed m = Kept m.next_id m.timers

All-next : (n : ℕ) (ts : List Timer) → All (λ t. t.id < n) ts → All (λ t. t.id < n + 1) ts
All-next n [] h = tt
All-next n (t ∷ ts) (ht, hts) = (omega arith, All-next n ts hts)

-- Every operation keeps the map in the order of the ids, each id once and below the next one: adding
-- a timer, removing one, and running those that are due.
pub operations-WellFormed :
    (m : TimerManager) (now delay interval id : ℕ)
    → WellFormed m
    → WellFormed (add_timer delay interval now m).1
      × WellFormed (remove_timer id now m)
      × WellFormed (handle_read now m).1
unfolding add_timer remove_timer handle_read reset_timerfd
operations-WellFormed m now delay interval id (order, below) =
    let t : Timer = record { id = m.next_id; expire = now + delay; interval = interval } in
    let (due, rest) = take_due-All (λ u. u.id < m.next_id) now m.timers below in
    (
      (
        emplace-Ordered t m.timers order,
        emplace-All (λ u. u.id < m.next_id + 1) t m.timers (omega arith)
            (All-next m.next_id m.timers below),
      ),
      elim (Bool-cases (has_timer id m.timers)) [
        | inl e ↦
            rw e
              (erase-Ordered id m.timers order, erase-All (λ u. u.id < m.next_id) id m.timers below)
        | inr e ↦ rw e (order, below)
      ],
      put_back-Kept now m.next_id (take_due now m.timers).0 (take_due now m.timers).1 due
          (take_due-Ordered now m.timers order, rest),
    )
