-- ===== src/Monitor/Joining/Ends.antt =====
-- Whether the join of a viewer's KCP thread (media/MonitorServer.cc) comes back.
use car_detect.Prelude.{
  ℕ, suc, ◌≤◌, ◌≡◌, refl, ap, ◌∙◌, ◌≢◌, ◌⊎◌, inl, inr, ◌++◌, Bool, true, false, List, [], ◌∷◌,
  arith,
}
use car_detect.Monitor.Joining.{
  KcpThread, at_test, at_lock, locked, sleeps, ended, Joiner, wants_lock, begins, joins, joined,
  Ending, joiner_holds, run_thread, run_joiner, take_turns,
}

-- The turns that the thread gets.
abbrev pub thread_turns : List Bool → ℕ
thread_turns [] = 0
thread_turns (true ∷ ts) = suc (thread_turns ts)
thread_turns (false ∷ ts) = thread_turns ts

-- The turns that the thread needs, once it is told to end.
abbrev needs : KcpThread → ℕ
needs at_test = 1
needs at_lock = 4
needs locked = 3
needs sleeps = 2
needs ended = 0

-- The join waits, the flag is down, and the thread is at a place.
abbrev pub waiting : KcpThread → Ending
waiting t = record { kcp_running = false; thread = t; joiner = joins }

abbrev finished : Ending
finished = record { kcp_running = false; thread = ended; joiner = joined }

-- The join is over, or will be with its next turn.
abbrev Ended : Ending → Type 0
Ended e = (e ≡ waiting ended) ⊎ (e ≡ finished)

stays-finished : (ts : List Bool) → take_turns false ts finished ≡ finished
unfolding take_turns run_thread run_joiner
stays-finished [] = refl
stays-finished (true ∷ ts) = stays-finished ts
stays-finished (false ∷ ts) = stays-finished ts

waiting-Ended :
    (ts : List Bool) (t : KcpThread)
    → needs t ≤ thread_turns ts
    → Ended (take_turns false ts (waiting t))
unfolding take_turns run_thread run_joiner
waiting-Ended [] at_test h = absurd (omega arith)
waiting-Ended [] at_lock h = absurd (omega arith)
waiting-Ended [] locked h = absurd (omega arith)
waiting-Ended [] sleeps h = absurd (omega arith)
waiting-Ended [] ended h = inl refl
waiting-Ended (true ∷ ts) at_test h = waiting-Ended ts ended (omega arith)
waiting-Ended (true ∷ ts) at_lock h = waiting-Ended ts locked (omega arith)
waiting-Ended (true ∷ ts) locked h = waiting-Ended ts sleeps (omega arith)
waiting-Ended (true ∷ ts) sleeps h = waiting-Ended ts at_test (omega arith)
waiting-Ended (true ∷ ts) ended h = waiting-Ended ts ended (omega arith)
waiting-Ended (false ∷ ts) at_test h = waiting-Ended ts at_test h
waiting-Ended (false ∷ ts) at_lock h = waiting-Ended ts at_lock h
waiting-Ended (false ∷ ts) locked h = waiting-Ended ts locked h
waiting-Ended (false ∷ ts) sleeps h = waiting-Ended ts sleeps h
waiting-Ended (false ∷ ts) ended h = inr (stays-finished ts)

-- The thread has been told to end.
abbrev Told : Ending → Type 0
Told e = ((t : KcpThread) × (e ≡ waiting t)) ⊎ (e ≡ finished)

waiting-Told : (ts : List Bool) (t : KcpThread) → Told (take_turns false ts (waiting t))
unfolding take_turns run_thread run_joiner
waiting-Told [] t = inl (t, refl)
waiting-Told (true ∷ ts) at_test = waiting-Told ts ended
waiting-Told (true ∷ ts) at_lock = waiting-Told ts locked
waiting-Told (true ∷ ts) locked = waiting-Told ts sleeps
waiting-Told (true ∷ ts) sleeps = waiting-Told ts at_test
waiting-Told (true ∷ ts) ended = waiting-Told ts ended
waiting-Told (false ∷ ts) at_test = waiting-Told ts at_test
waiting-Told (false ∷ ts) at_lock = waiting-Told ts at_lock
waiting-Told (false ∷ ts) locked = waiting-Told ts locked
waiting-Told (false ∷ ts) sleeps = waiting-Told ts sleeps
waiting-Told (false ∷ ts) ended = inr (stays-finished ts)

-- A session whose thread runs, at a place, and the other one's place.
abbrev pub running : KcpThread → Joiner → Ending
running t j = record { kcp_running = true; thread = t; joiner = j }

abbrev pub joiner_turns : List Bool → ℕ
joiner_turns [] = 0
joiner_turns (true ∷ ts) = joiner_turns ts
joiner_turns (false ∷ ts) = suc (joiner_turns ts)

begins-Told :
    (ts : List Bool) (t : KcpThread)
    → 1 ≤ joiner_turns ts
    → Told (take_turns false ts (running t begins))
unfolding take_turns run_thread run_joiner
begins-Told [] t h = absurd (omega arith)
begins-Told (true ∷ ts) at_test h = begins-Told ts at_lock h
begins-Told (true ∷ ts) at_lock h = begins-Told ts locked h
begins-Told (true ∷ ts) locked h = begins-Told ts sleeps h
begins-Told (true ∷ ts) sleeps h = begins-Told ts at_test h
begins-Told (true ∷ ts) ended h = begins-Told ts ended h
begins-Told (false ∷ ts) t h = waiting-Told ts t

wants_lock-Told :
    (ts : List Bool) (t : KcpThread)
    → 2 ≤ joiner_turns ts
    → Told (take_turns false ts (running t wants_lock))
unfolding take_turns run_thread run_joiner
wants_lock-Told [] t h = absurd (omega arith)
wants_lock-Told (true ∷ ts) at_test h = wants_lock-Told ts at_lock h
wants_lock-Told (true ∷ ts) at_lock h = wants_lock-Told ts locked h
wants_lock-Told (true ∷ ts) locked h = wants_lock-Told ts sleeps h
wants_lock-Told (true ∷ ts) sleeps h = wants_lock-Told ts at_test h
wants_lock-Told (true ∷ ts) ended h = wants_lock-Told ts ended h
wants_lock-Told (false ∷ ts) t h = begins-Told ts t (omega arith)

take_turns-append :
    (b : Bool) (ts us : List Bool) (e : Ending)
    → take_turns b (ts ++ us) e ≡ take_turns b us (take_turns b ts e)
unfolding take_turns
take_turns-append b [] us e = refl
take_turns-append b (true ∷ ts) us e = take_turns-append b ts us (run_thread b e)
take_turns-append b (false ∷ ts) us e = take_turns-append b ts us (run_joiner b e)

Ended-joined : (e : Ending) → Ended e → (take_turns false (false ∷ []) e).joiner ≡ joined
unfolding take_turns run_joiner
Ended-joined e (inl h) = rw h refl
Ended-joined e (inr h) = rw h refl

needs-bound : (t : KcpThread) → needs t ≤ 4
needs-bound at_test = omega arith
needs-bound at_lock = omega arith
needs-bound locked = omega arith
needs-bound sleeps = omega arith
needs-bound ended = omega arith

Told-Ended :
    (e : Ending) (us : List Bool) → Told e → 4 ≤ thread_turns us → Ended (take_turns false us e)
Told-Ended e us (inl (t, h)) many = rw h (waiting-Ended us t (omega (arith, needs-bound t)))
Told-Ended e us (inr h) many = rw h (inr (stays-finished us))

-- When a viewer has gone, wherever its thread is at that moment: once the one that joins has had two
-- turns, then the thread four, and then the one that joins another, the join is over, whatever turns
-- lie between.
pub close_client-joins :
    (ts us : List Bool) (t : KcpThread)
    → 2 ≤ joiner_turns ts
    → 4 ≤ thread_turns us
    → (take_turns false ((ts ++ us) ++ (false ∷ [])) (running t wants_lock)).joiner ≡ joined
close_client-joins ts us t two four =
    let told = wants_lock-Told ts t two in
    ap (λ e. e.joiner) (take_turns-append false (ts ++ us) (false ∷ []) (running t wants_lock))
    ∙ ap (λ e. (take_turns false (false ∷ []) e).joiner)
        (take_turns-append false ts us (running t wants_lock))
    ∙ Ended-joined _ (Told-Ended _ us told four)

-- In removeCam, once it has taken the mutex: when the thread is at the lock by then, the join is
-- never over, the thread stays at the lock, and the mutex is never given back, whatever turns they
-- take.
pub remove_cam-waits :
    (ts : List Bool) (flag : Bool) (j : Joiner)
    → joiner_holds true j ≡ true
    → let e = take_turns true ts (record { kcp_running = flag; thread = at_lock; joiner = j }) in
      (e.joiner ≢ joined) × (e.thread ≡ at_lock) × (joiner_holds true e.joiner ≡ true)
unfolding take_turns run_thread run_joiner
remove_cam-waits [] flag wants_lock k = cc
remove_cam-waits [] flag begins k = (λ e. cc, refl, refl)
remove_cam-waits [] flag joins k = (λ e. cc, refl, refl)
remove_cam-waits [] flag joined k = cc
remove_cam-waits (true ∷ ts) flag wants_lock k = cc
remove_cam-waits (true ∷ ts) flag begins k = remove_cam-waits ts flag begins k
remove_cam-waits (true ∷ ts) flag joins k = remove_cam-waits ts flag joins k
remove_cam-waits (true ∷ ts) flag joined k = cc
remove_cam-waits (false ∷ ts) flag wants_lock k = cc
remove_cam-waits (false ∷ ts) flag begins k = remove_cam-waits ts false joins k
remove_cam-waits (false ∷ ts) flag joins k = remove_cam-waits ts flag joins k
remove_cam-waits (false ∷ ts) flag joined k = cc
