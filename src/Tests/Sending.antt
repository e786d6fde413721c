-- ===== src/Tests/Sending.antt =====
-- The theorem on a connection's sending, applied to the system in memory.
use car_detect.Prelude.{◌≡◌, refl, suc, List, [], ◌∷◌, ◌++◌, Bytes, codes, arith, inl, inr}
use car_detect.Effect.{done}
use car_detect.Reactor.Sending.{Call, sends, can_write, new_sender, run}
use car_detect.Reactor.Sending.Stream.{IsAlive, holding, messages, run-holding}
use car_detect.Tests.Machine.{Machine, machine_os, machine_WriteLaws, write_of-moves, idle}

unfoldable machine_IsAlive : IsAlive machine_os machine_WriteLaws 3
machine_IsAlive = record {
  pending = λ m. m.signals;
  moves = λ b rest m. elim (write_of-moves m.signals b rest m refl) [
    | inl fewer ↦ inl fewer
    | inr (k, e, same) ↦ inr (inr (suc k, e, same))
  ];
}

abbrev two_answers : List Call
two_answers = sends (codes "RTSP/1.0 200 OK") ∷ can_write ∷ sends (codes "RTSP/1.0 454") ∷ []

run-holding_example :
    (rest : Bytes) × (w' : Machine) × (run machine_os 40 3 two_answers new_sender idle
      ≡ done (holding rest, w'))
    × (w'.stream ++ rest ≡ idle.stream ++ messages two_answers)
unfolding machine_IsAlive machine_WriteLaws
run-holding_example =
    run-holding machine_os machine_WriteLaws 3 machine_IsAlive 40 two_answers idle (omega arith)
