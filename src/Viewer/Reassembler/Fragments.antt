-- ===== src/Viewer/Reassembler/Fragments.antt =====
-- `H264RtpReassembler` on single packets of the camera: the first, a middle and the last fragment of a
-- unit.
use car_detect.Prelude.{
  ℕ, ◌+◌, ◌-◌, ◌%◌, ◌^◌, ◌<◌, ◌≡◌, refl, ap, Bool, true, false, not, List, [], ◌∷◌, ◌++◌, Bytes,
  length, ltb, leb, ◌==◌, bit_and, bit_or, arith, every_below, IsByte, length-append,
}
use car_detect.Rtp.Send.{fu_indicator, fu_header}
use car_detect.Rtp.Packets.Contents.{joined}
use car_detect.Viewer.Reassembler.{
  Reassembler, insert, complete, check_and_save_sps_pps, process_rtp_nalu, fu_a, fu_start, fu_next,
  fu_piece, fu_end, end_or_not, overflow, fu_reset, deliver, add_nalu, finish, start_code4,
}
use car_detect.Viewer.Reassembler.Arrivals.{
  fu_bits, fu_bits_table, numbered, length-numbered, insert-numbered, contiguous-numbered,
  values-numbered,
}

-- What the receiver reads from the FU bytes.
pub fu_bytes :
    (is_start is_last : Bool) (h : ℕ)
    → IsByte h
    → (bit_and (fu_indicator h) 0x1f ≡ 28)
      × (bit_and (fu_header is_start is_last h) 0x1f ≡ bit_and h 0x1f)
      × ((bit_and (fu_header is_start is_last h) 0x80 == 0) ≡ not is_start)
      × ((bit_and (fu_header is_start is_last h) 0x40 == 0) ≡ not is_last)
      × (bit_or (bit_and (fu_indicator h) 0xe0) (bit_and h 0x1f) ≡ h)
fu_bytes true true h lt =
    ground (arith, every_below 256 (fu_bits true true) h lt (fu_bits_table true true))
fu_bytes true false h lt =
    ground (arith, every_below 256 (fu_bits true false) h lt (fu_bits_table true false))
fu_bytes false true h lt =
    ground (arith, every_below 256 (fu_bits false true) h lt (fu_bits_table false true))
fu_bytes false false h lt =
    ground (arith, every_below 256 (fu_bits false false) h lt (fu_bits_table false false))

-- Some fragments of a unit have arrived, the first with the number `q`.
abbrev pub collecting : Reassembler → ℕ → List Bytes → Reassembler
collecting r q cs = record r {
  fu_buffer = numbered q cs;
  fu_started = true;
  fu_start_seq = q;
  fu_expected_seq = q + length cs;
}

abbrev pub IsUnitType : ℕ → Type 0
IsUnitType nal_type = (0 < nal_type) × (nal_type < 24)

pub process-first :
    (q h b : ℕ) (piece : Bytes) (r : Reassembler)
    → IsByte h
    → IsUnitType (bit_and h 0x1f)
    → q + 1 < 2 ^ 16
    → process_rtp_nalu q false (fu_indicator h ∷ fu_header true false h ∷ b ∷ piece) r
      ≡ (collecting r q ((h ∷ b ∷ piece) ∷ []), [])
unfolding process_rtp_nalu fu_a fu_start insert overflow finish deliver numbered
process-first q h b piece r hb (pos, below) hq =
    let (e0, e1, e2, e3, e4) = fu_bytes true false h hb in
    let nonzero : (bit_and h 0x1f == 0) ≡ false = ground arith in
    let unit : leb 24 (bit_and h 0x1f) ≡ false = ground arith in
    let next : (q + 1) % 2 ^ 16 ≡ q + 1 = omega arith in
    rw (e0, e1, e2, e4, nonzero, unit, next) refl

pub process-middle :
    (q h : ℕ) (piece : Bytes) (cs : List Bytes) (r : Reassembler)
    → IsByte h
    → IsUnitType (bit_and h 0x1f)
    → q + length cs + 1 < 2 ^ 16
    → length cs < 1024
    → process_rtp_nalu
        (q + length cs)
        false
        (fu_indicator h ∷ fu_header false false h ∷ piece)
        (collecting r q cs)
      ≡ (collecting r q (cs ++ (piece ∷ [])), [])
unfolding process_rtp_nalu fu_a fu_next fu_piece end_or_not overflow finish deliver
process-middle q h piece cs r hb (pos, below) hq room =
    let (e0, e1, e2, e3, e4) = fu_bytes false false h hb in
    let nonzero : (bit_and h 0x1f == 0) ≡ false = ground arith in
    let unit : leb 24 (bit_and h 0x1f) ≡ false = ground arith in
    let next : (q + length cs + 1) % 2 ^ 16 ≡ q + length (cs ++ (piece ∷ [])) =
      omega (arith, length-append cs (piece ∷ [])) in
    let here : ltb (q + length cs) (q + length cs) ≡ false = ground arith in
    let near : ltb 3 (q + length cs - (q + length cs)) ≡ false = ground arith in
    let fits : ltb 1024 (length (numbered q (cs ++ (piece ∷ [])))) ≡ false =
      rw length-numbered (rw length-append (ground arith)) in
    rw (e0, e1, e2, e3, nonzero, unit, here, near, insert-numbered q piece cs, fits, next) refl

-- Adding a unit does not look at the fragments.
pub add_nalu-collecting :
    (nal_type : ℕ) (nalu : Bytes) (r : Reassembler) (q : ℕ) (cs : List Bytes)
    → fu_reset (add_nalu nal_type nalu (collecting r q cs)) ≡ fu_reset (add_nalu nal_type nalu r)
unfolding add_nalu fu_reset check_and_save_sps_pps
add_nalu-collecting nal_type nalu r q cs = ground arith

pub process-last :
    (q h : ℕ) (piece : Bytes) (cs : List Bytes) (r : Reassembler)
    → IsByte h
    → IsUnitType (bit_and h 0x1f)
    → q + length cs + 1 < 2 ^ 16
    → length cs < 1024
    → process_rtp_nalu
        (q + length cs)
        true
        (fu_indicator h ∷ fu_header false true h ∷ piece)
        (collecting r q cs)
      ≡ deliver true
          (fu_reset (add_nalu (bit_and h 0x1f) (start_code4 ++ joined (cs ++ (piece ∷ []))) r))
unfolding process_rtp_nalu fu_a fu_next fu_piece end_or_not overflow finish fu_end complete
process-last q h piece cs r hb (pos, below) hq room =
    let (e0, e1, e2, e3, e4) = fu_bytes false true h hb in
    let all = cs ++ (piece ∷ []) in
    let count : length all ≡ length cs + 1 = omega (arith, length-append cs (piece ∷ [])) in
    let nonzero : (bit_and h 0x1f == 0) ≡ false = ground arith in
    let unit : leb 24 (bit_and h 0x1f) ≡ false = ground arith in
    let next : (q + length cs + 1) % 2 ^ 16 ≡ q + length all = omega (arith, count) in
    let here : ltb (q + length cs) (q + length cs) ≡ false = ground arith in
    let near : ltb 3 (q + length cs - (q + length cs)) ≡ false = ground arith in
    let fits : ltb 1024 (length (numbered q all)) ≡ false =
      rw (length-numbered q all) (rw count (ground arith)) in
    let last : (q + length cs + 1 == q + length all) ≡ true = rw count (ground arith) in
    rw
      (
        e0,
        e1,
        e2,
        e3,
        nonzero,
        unit,
        here,
        near,
        insert-numbered q piece cs,
        fits,
        next,
        contiguous-numbered q all (omega (arith, count)),
        last,
        values-numbered q all,
      )
      (ap (deliver true) (add_nalu-collecting (bit_and h 0x1f) (start_code4 ++ joined all) r q all))
