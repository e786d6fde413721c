-- ===== src/Reactor/Timers/Due.antt =====
-- Which timers `handleRead` of reactor/TimerManager.cc runs.
use car_detect.Prelude.{
  ℕ, ◌≤◌, ◌<◌, ◌≡◌, refl, ap, false, List, [], ◌∷◌, map, All, leb, arith, if◌then◌else◌, Bool-cases,
  inl, inr, lt→leb_false,
}
use car_detect.Reactor.Timers.{Timer, TimerManager, take_due, handle_read}

-- The timers that are due: a description with no regard to the order.
abbrev pub due_timers : ℕ → List Timer → List Timer
due_timers now [] = []
due_timers now (t ∷ ts) =
    let rest = due_timers now ts in if leb t.expire now then t ∷ rest else rest

-- The times go up with the ids.
abbrev pub Ascending : List Timer → Type 0
Ascending [] = Unit {0}
Ascending (t ∷ ts) = All (λ u. t.expire ≤ u.expire) ts × Ascending ts

due_timers-none :
    (now e : ℕ) (ts : List Timer) → now < e → All (λ u. e ≤ u.expire) ts → due_timers now ts ≡ []
due_timers-none now e [] late h = refl
due_timers-none now e (t ∷ ts) late (ht, hts) =
    let not_due : leb t.expire now ≡ false = lt→leb_false _ _ (omega arith) in
    rw (not_due, due_timers-none now e ts late hts) refl

take_due-due_timers :
    (now : ℕ) (ts : List Timer) → Ascending ts → (take_due now ts).0 ≡ due_timers now ts
unfolding take_due
take_due-due_timers now [] h = refl
take_due-due_timers now (t ∷ ts) (ht, hts) = elim (Bool-cases (leb t.expire now)) [
  | inl due ↦ rw due (ap (◌∷◌ t) (take_due-due_timers now ts hts))
  | inr late ↦ rw (late, due_timers-none now t.expire ts (ground (arith, late)) ht) refl
]

-- Where the timers' times go up with their ids, `handleRead` runs the callbacks of just those timers
-- that are due, each once, in the order of their ids.
pub handle_read-due_timers :
    (now : ℕ) (m : TimerManager)
    → Ascending m.timers
    → (handle_read now m).0 ≡ map (λ (t : Timer). t.id) (due_timers now m.timers)
unfolding handle_read
handle_read-due_timers now m h = ap (map (λ (t : Timer). t.id)) (take_due-due_timers now m.timers h)
