-- ===== src/Viewer/Reassembler/Units.antt =====
-- `H264RtpReassembler` on the packets that `rtp_send_h264` of camera/rtsp.c makes of one NAL unit.
use car_detect.Prelude.{
  ℕ, suc, ◌+◌, ◌-◌, ◌%◌, ◌^◌, ◌≤◌, ◌<◌, ◌≡◌, refl, sym, ap, ap₂, ◌∙◌, inl, inr, Bool, true, false,
  List, [], ◌∷◌, ◌++◌, Bytes, IsByte, length, take, drop, uncons, ltb, leb, if◌then◌else◌, bit_and,
  arith, length-drop, Bool-cases, le→leb, lt→leb_false, ltb→lt, ltb_false→le,
}
use car_detect.Effect.{Outcome, done}
use car_detect.Rtp.Header.{IsU32, build_rtp_header}
use car_detect.Rtp.Send.{single_marker}
use car_detect.Rtp.Packets.{pieces, fragments, rtp_packets}
use car_detect.Rtp.Packets.Contents.{joined, joined-pieces}
use car_detect.Viewer.Reassembler.{
  Reassembler, handle_all, process_rtp_nalu, single_nalu, fu_reset, deliver, add_nalu, start_code4,
}
use car_detect.Viewer.Reassembler.Fragments.{IsUnitType}
use car_detect.Viewer.Reassembler.Arrivals.{
  Follows, handle_rtp-built, counted, handle_packet-Follows,
}
use car_detect.Viewer.Reassembler.Runs.{
  handle_all-one, with_unit, Idle, fu_reset-Idle, add_nalu-Idle, handle_all-fragments,
}

-- Handing on a second time does nothing.
deliver_twice :
    (marker : Bool) (r : Reassembler)
    → (let (r1, out) = deliver marker r in let (r2, out') = deliver marker r1 in (r2, out ++ out'))
      ≡ deliver marker r
unfolding deliver
deliver_twice marker r = ground arith

process-single :
    (q h : ℕ) (marker : Bool) (rest : Bytes) (r : Reassembler)
    → IsUnitType (bit_and h 0x1f)
    → r.fu_started ≡ false
    → process_rtp_nalu q marker (h ∷ rest) r
      ≡ deliver marker (add_nalu (bit_and h 0x1f) (start_code4 ++ (h ∷ rest)) r)
unfolding process_rtp_nalu single_nalu
process-single q h marker rest r (pos, below) idle =
    let positive : ltb 0 (bit_and h 0x1f) ≡ true = ground arith in
    let unit : ltb (bit_and h 0x1f) 24 ≡ true = ground arith in
    rw (positive, unit, idle) (deliver_twice marker _)

-- A payload that does not fit is two pieces at least.
pieces-two :
    (rest : Bytes)
    → 1383 < length rest
    → (b : ℕ) × (piece : Bytes) × (p : Bytes) × (ps : List Bytes) × (pieces (length rest) rest
        ≡ (b ∷ piece) ∷ p ∷ ps)
unfolding pieces
pieces-two [] h = absurd (omega arith)
pieces-two (b ∷ []) h = absurd (omega arith)
pieces-two (b ∷ b' ∷ bs) h =
    behind (uncons (drop 1381 (b' ∷ bs)) (omega (arith, length-drop 1380 bs)))
  where
    behind :
        (c : ℕ) × (cs : Bytes) × (drop 1381 (b' ∷ bs) ≡ c ∷ cs)
        → (d : ℕ) × (piece : Bytes) × (p : Bytes) × (ps : List Bytes) × (pieces
              (length (b ∷ b' ∷ bs))
              (b ∷ b' ∷ bs)
            ≡ (d ∷ piece) ∷ p ∷ ps)
    behind (c, cs, e) = (
      b,
      take 1381 (b' ∷ bs),
      take 1382 (c ∷ cs),
      pieces (length bs) (drop 1382 (c ∷ cs)),
      rw e refl,
    )

-- Whether the last packet of a unit carries the marker.
abbrev pub unit_marker : ℕ → Bytes → Bool
unit_marker h rest = if leb (length rest) 1383 then single_marker h else true

pub length-fragments :
    (timestamp ssrc h : ℕ) (is_start : Bool) (seq : ℕ) (ps : List Bytes)
    → length (fragments timestamp ssrc h is_start seq ps) ≡ length ps
unfolding fragments
length-fragments timestamp ssrc h is_start seq [] = refl
length-fragments timestamp ssrc h is_start seq (p ∷ []) = refl
length-fragments timestamp ssrc h is_start seq (p ∷ p' ∷ ps) =
    ap suc (length-fragments timestamp ssrc h false ((seq + 1) % 2 ^ 64) (p' ∷ ps))

-- The viewer's reassembler, with no fragments waiting, takes the packets of a unit, whose numbers
-- follow and stay below 2^16 and which are at most 1024: the unit joins the frame.
pub handle_all-rtp_packets :
    (seq q timestamp ssrc h : ℕ) (rest : Bytes) (r : Reassembler)
    → IsU32 timestamp
    → IsU32 ssrc
    → IsByte h
    → IsUnitType (bit_and h 0x1f)
    → Idle r
    → seq < 2 ^ 64
    → seq % 2 ^ 16 ≡ q
    → Follows r.last_seq q
    → q + length (rtp_packets seq timestamp ssrc (h ∷ rest)) < 2 ^ 16
    → length (rtp_packets seq timestamp ssrc (h ∷ rest)) ≤ 1024
    → handle_all (rtp_packets seq timestamp ssrc (h ∷ rest)) r
      ≡ done (
          with_unit
            (q + length (rtp_packets seq timestamp ssrc (h ∷ rest)) - 1)
            (unit_marker h rest)
            h
            (h ∷ rest)
            r)
unfolding rtp_packets
handle_all-rtp_packets seq q timestamp ssrc h rest r ht hs hb unit (empty, off, expected, start)
      small e follows =
    elim (Bool-cases (ltb 1383 (length rest))) [
      | inr fits ↦ rw (le→leb (length rest) 1383 (ltb_false→le _ _ fits)) (single)
      | inl more ↦
          let (b, piece, p, ps, two) = pieces-two rest (ltb→lt _ _ more) in
          rw (lt→leb_false (length rest) 1383 (ltb→lt _ _ more), two, length-fragments)
            (fragmented b piece p ps two)
    ]
  where
    received : ℕ → Bytes → Outcome (Reassembler × List Bytes)
    received n nal =
        done
          (counted n (deliver true (fu_reset (add_nalu (bit_and h 0x1f) (start_code4 ++ nal) r))))

    single :
        q + 1 < 2 ^ 16
        → 1 ≤ 1024
        → handle_all
            ((build_rtp_header (seq % 2 ^ 16) timestamp ssrc 96 (single_marker h) ++ (h ∷ rest))
              ∷ [])
            r
          ≡ done (with_unit (q + 1 - 1) (single_marker h) h (h ∷ rest) r)
    single last room = rw e (
        handle_all-one _ r (with_unit q (single_marker h) h (h ∷ rest) r) (
          handle_rtp-built q timestamp ssrc (single_marker h) (h ∷ rest) r (omega arith) ht hs
          ∙ ap done (
              handle_packet-Follows _ r h rest refl follows
              ∙ ap (counted q) (process-single q h (single_marker h) rest r unit off)))
        ∙ ap (λ (n : ℕ). done (with_unit n (single_marker h) h (h ∷ rest) r)) (omega arith))

    fragmented :
        (b : ℕ) (piece p : Bytes) (ps : List Bytes)
        → pieces (length rest) rest ≡ (b ∷ piece) ∷ p ∷ ps
        → q + suc (suc (length ps)) < 2 ^ 16
        → suc (suc (length ps)) ≤ 1024
        → handle_all (fragments timestamp ssrc h true seq ((b ∷ piece) ∷ p ∷ ps)) r
          ≡ done (with_unit (q + suc (suc (length ps)) - 1) true h (h ∷ rest) r)
    fragmented b piece p ps two last room =
        let whole : joined ((h ∷ b ∷ piece) ∷ p ∷ ps) ≡ h ∷ rest =
          ap (◌∷◌ h) (ap joined (sym two) ∙ joined-pieces (length rest) rest (omega arith)) in
        handle_all-fragments timestamp ssrc h ht hs hb unit q r seq b piece p ps small e follows
          (omega arith) (omega arith)
        ∙ ap₂ received (omega arith) whole
        ∙ ap
            (λ (r' : Reassembler). done (counted (q + suc (suc (length ps)) - 1) (deliver true r')))
            (fu_reset-Idle _ (
              add_nalu-Idle (bit_and h 0x1f) (start_code4 ++ (h ∷ rest)) r
                (empty, off, expected, start)))
