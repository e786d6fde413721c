-- ===== src/Client/Loop/Laws.antt =====
-- Laws of the event loop of camera/rtsp_client.c.
use car_detect.Prelude.{
  ℕ, zero, suc, ◌+◌, ◌*◌, ◌/◌, ◌%◌, ◌≤◌, ◌<◌, ◌≡◌, ◌-◌, min, leb, if◌then◌else◌, Option, none, some,
  Bool, ap, ◌∙◌, List, [], ◌∷◌, ◌++◌, Bytes, length, All, take, take_all, arith, append-nil,
  append_assoc,
}
use car_detect.Effect.{Action, done, faults, bind-done, call, ◌>>=◌}
use car_detect.Os.{Os, RecvResult, received, no_data}
use car_detect.Udp.{udp_recv}
use car_detect.Kcp.{KcpLib, iclock}
use car_detect.Rtsp.Session.{RtspSession}
use car_detect.Client.Loop.{
  LoopState, wait_ms, drive, on_activity, turn, round, drain, max_buffer_size,
}

wait_ms_lem :
    (next_update now : ℕ)
    → let wait = wait_ms next_update now in
      (wait % 1000 * 1000 < 1000000)
      × (wait / 1000 * 1000000 + wait % 1000 * 1000
          ≡ 1000 * (if leb next_update now then 1 else min 1000 (next_update - now)))
unfolding wait_ms
wait_ms_lem next_update now = ground arith

-- A round of the loop on a session with a control block, whose clock gives a time and which has driven
-- KCP up to the time of its next update, calls `select` with seconds, and with microseconds below a
-- million, that are together the time to that update, but a millisecond where it has come and a second
-- at most, and goes on with what `select` gives.
pub round-select :
    (os : Os) (lib : KcpLib (Os.World os)) (fuel : ℕ) (l : LoopState os lib) (kcp : KcpLib.Kcb lib)
    (now next : ℕ) (w w1 w2 : Os.World os)
    → l.session.kcp ≡ some kcp
    → iclock os lib w ≡ done (now, w1)
    → drive os lib kcp l.next_update now w1 ≡ done (next, w2)
    → (sec usec : ℕ) × (round os lib fuel l w
        ≡ (call (Os.select os sec usec)
              >>= on_activity os lib fuel kcp (record l { next_update = next }))
            w2)
      × (usec < 1000000)
      × (sec * 1000000 + usec ≡ 1000 * (if leb next now then 1 else min 1000 (next - now)))
unfolding round turn
round-select os lib fuel l kcp now next w w1 w2 there clock driven =
    let with_block : Option (KcpLib.Kcb lib) → Action (Os.World os) (LoopState os lib × Bool) =
      λ k. elim k [ none ↦ faults | some kcp ↦ turn os lib fuel l kcp ] in
    let wait = wait_ms next now in
    let (below, whole) = wait_ms_lem next now in
    (
      wait / 1000,
      wait % 1000 * 1000,
      ap (λ k. with_block k w) there
          ∙ (bind-done (iclock os lib) _ w w1 now clock
              ∙ bind-done (drive os lib kcp l.next_update now) _ w1 w2 next driven),
      below,
      whole,
    )

module _ (os : Os) (lib : KcpLib (Os.World os)) (s : RtspSession (KcpLib.Kcb lib))
    (kcp : KcpLib.Kcb lib) where
  abbrev received_from : ℕ → Os.World os → RecvResult × Os.World os
  received_from = Os.recv os s.rtp_socket.fd

  -- recv(2) on a datagram socket that does not block, and KCP's input: `queue` holds the datagrams
  -- that wait, and `fed` those that KCP was given. What does not fit the buffer is lost.
  pub record DatagramLaws : Type 0 where
    pub queue : Os.World os → List Bytes
    pub fed : Os.World os → List Bytes
    pub recv_next :
        (len : ℕ) (w : Os.World os) (d : Bytes) (ds : List Bytes)
        → queue w ≡ d ∷ ds
        → ((received_from len w).0 ≡ received (take len d))
          × (queue (received_from len w).1 ≡ ds)
          × (fed (received_from len w).1 ≡ fed w)
    pub recv_empty :
        (len : ℕ) (w : Os.World os)
        → queue w ≡ []
        → ((received_from len w).0 ≡ no_data)
          × (queue (received_from len w).1 ≡ [])
          × (fed (received_from len w).1 ≡ fed w)
    pub lock_keeps :
        (w : Os.World os)
        → (queue (Os.mutex_lock os w) ≡ queue w) × (fed (Os.mutex_lock os w) ≡ fed w)
    pub unlock_keeps :
        (w : Os.World os)
        → (queue (Os.mutex_unlock os w) ≡ queue w) × (fed (Os.mutex_unlock os w) ≡ fed w)
    pub input_feeds :
        (d : Bytes) (w : Os.World os)
        → (queue (KcpLib.ikcp_input lib kcp d w) ≡ queue w)
          × (fed (KcpLib.ikcp_input lib kcp d w) ≡ fed w ++ (d ∷ []))

  -- Not empty, and no longer than the buffer of 2048 bytes.
  abbrev pub Fits : Bytes → Type 0
  Fits [] = ⊥
  Fits (b ∷ bs) = length (b ∷ bs) ≤ 2048

  -- With more rounds than datagrams wait, each of 1 to 2048 bytes, reading ends, and KCP was given
  -- every datagram that waited, whole, once and in order; none waits any more.
  pub drain-feeds :
      (laws : DatagramLaws) (fuel : ℕ) (ds : List Bytes) (w : Os.World os)
      → DatagramLaws.queue laws w ≡ ds
      → All Fits ds
      → length ds < fuel
      → (w' : Os.World os) × (drain os lib fuel s kcp w ≡ done (tt, w'))
        × (DatagramLaws.fed laws w' ≡ DatagramLaws.fed laws w ++ ds)
        × (DatagramLaws.queue laws w' ≡ [])
  unfolding drain udp_recv
  drain-feeds laws zero ds w q n h = absurd (omega arith)
  drain-feeds laws (suc fuel) [] w q n h =
      let (e, eq, ef) = laws.recv_empty max_buffer_size w q in
      ((received_from max_buffer_size w).1, rw e, rw (ef, append-nil), eq)
  drain-feeds laws (suc fuel) ([] ∷ ds) w q n h = elim n.0 [ ]
  drain-feeds laws (suc fuel) ((b ∷ bs) ∷ ds) w q n h =
      let (e, eq, ef) = laws.recv_next max_buffer_size w (b ∷ bs) ds q in
      let whole : take max_buffer_size (b ∷ bs) ≡ b ∷ bs = take_all max_buffer_size (b ∷ bs) n.0 in
      let w1 = (received_from max_buffer_size w).1 in
      let w2 = Os.mutex_lock os w1 in
      let w3 = KcpLib.ikcp_input lib kcp (b ∷ bs) w2 in
      let w4 = Os.mutex_unlock os w3 in
      let kept : laws.queue w4 ≡ ds =
        (laws.unlock_keeps w3).0 ∙ (laws.input_feeds (b ∷ bs) w2).0 ∙ (laws.lock_keeps w1).0 ∙ eq in
      let grew : laws.fed w4 ≡ laws.fed w ++ ((b ∷ bs) ∷ []) =
        (laws.unlock_keeps w3).1
        ∙ (laws.input_feeds (b ∷ bs) w2).1
        ∙ ap (λ (t : List Bytes). t ++ ((b ∷ bs) ∷ [])) ((laws.lock_keeps w1).1 ∙ ef) in
      let (w', ran, fed', queue') = drain-feeds laws fuel ds w4 kept n.1 (omega arith) in
      (w', rw (e ∙ ap received whole) ran, rw (fed', grew, append_assoc), queue')
