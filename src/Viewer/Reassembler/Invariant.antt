-- ===== src/Viewer/Reassembler/Invariant.antt =====
-- The state of `H264RtpReassembler` between packets.
use car_detect.Prelude.{
  ℕ, ◌+◌, ◌-◌, ◌%◌, ◌^◌, ◌≤◌, ◌<◌, ◌≡◌, refl, ◌⊎◌, inl, inr, some, Bool, true, false, not, ◌&&◌,
  ◌||◌, List, [], ◌∷◌, ◌++◌, Bytes, All, All-append, length, ltb, leb, ◌==◌, if◌then◌else◌, bit_and,
  bit_or, arith, Bool-cases, ltb→lt, ltb_false→le, if_cases,
}
use car_detect.Effect.{done}
use car_detect.Rtp.Header.{RtpPacket, parse_rtp}
use car_detect.Viewer.Reassembler.{
  Reassembler, insert, complete, contiguous, values, handle_rtp, handle_parsed, handle_packet,
  is_duplicate, check_gap, seq_gap, process_rtp_nalu, fu_a, fu_start, fu_next, fu_piece, fu_end,
  end_or_not, overflow, fu_reset, deliver, add_nalu, single_nalu, finish, is_nil, start_code4, Way,
  returned, fell_through, check_and_save_sps_pps, max_fu_buffer_size,
}

-- The buffer is a map: its keys go up.
abbrev pub Sorted : List (ℕ × Bytes) → Type 0
Sorted [] = Unit {0}
Sorted ((k, v) ∷ m) = All (λ e. k < e.0) m × Sorted m

-- The buffer is a map within its bound, and empty while no unit has begun.
abbrev pub Wf : Reassembler → Type 0
Wf r =
    Sorted r.fu_buffer
    × (length r.fu_buffer ≤ max_fu_buffer_size)
    × ((r.fu_started ≡ true) ⊎ (r.fu_buffer ≡ []))

insert-All :
    (j k : ℕ) (v : Bytes) (m : List (ℕ × Bytes))
    → j < k
    → All (λ e. j < e.0) m
    → All (λ e. j < e.0) (insert k v m)
unfolding insert
insert-All j k v [] lt h = (lt, tt)
insert-All j k v ((i, w) ∷ m) lt (hi, hm) = elim (Bool-cases (ltb k i)) [
  | inl before ↦ rw before (lt, (hi, hm))
  | inr after ↦ elim (Bool-cases (k == i)) [
    | inl same ↦ rw (after, same) (lt, hm)
    | inr other ↦ rw (after, other) (hi, insert-All j k v m lt hm)
  ]
]

All-later : (j k : ℕ) (m : List (ℕ × Bytes)) → j < k → All (λ e. k < e.0) m → All (λ e. j < e.0) m
All-later j k [] lt h = tt
All-later j k ((i, w) ∷ m) lt (hi, hm) = (omega arith, All-later j k m lt hm)

insert-Sorted : (k : ℕ) (v : Bytes) (m : List (ℕ × Bytes)) → Sorted m → Sorted (insert k v m)
unfolding insert
insert-Sorted k v [] h = (tt, tt)
insert-Sorted k v ((j, w) ∷ m) (hj, hm) = elim (Bool-cases (ltb k j)) [
  | inl before ↦ rw before ((ltb→lt _ _ before, All-later k j m (ltb→lt _ _ before) hj), (hj, hm))
  | inr after ↦ elim (Bool-cases (k == j)) [
    | inl same ↦ let e : k ≡ j = ground arith in rw (after, same) (rw e hj, hm)
    | inr other ↦ rw (after, other) (insert-All j k v m (ground arith) hj, insert-Sorted k v m hm)
  ]
]

fu_reset-Wf : (r : Reassembler) → Wf (fu_reset r)
unfolding fu_reset
fu_reset-Wf r = (tt, omega arith, inr refl)

add_nalu-Wf : (nal_type : ℕ) (nalu : Bytes) (r : Reassembler) → Wf r → Wf (add_nalu nal_type nalu r)
unfolding add_nalu check_and_save_sps_pps
add_nalu-Wf nal_type nalu r wf = ground arith

-- What holds after a step: the state is right, and no empty frame is handed on.
abbrev pub Stepped : Reassembler × List Bytes → Type 0
Stepped (r, out) = Wf r × All (λ frame. is_nil frame ≡ false) out

deliver-Stepped : (marker : Bool) (r : Reassembler) → Wf r → Stepped (deliver marker r)
unfolding deliver
deliver-Stepped marker r wf = elim (Bool-cases (marker && not (is_nil r.frame))) [
  | inl now ↦ rw now (wf, (ground arith, tt))
  | inr later ↦ rw later (wf, tt)
]

abbrev WfWay : Way → Type 0
WfWay (returned r) = Wf r
WfWay (fell_through r) = Wf r

finish-Stepped : (marker : Bool) (w : Way) → WfWay w → Stepped (finish marker w)
unfolding finish
finish-Stepped marker (returned r) wf = (wf, tt)
finish-Stepped marker (fell_through r) wf = deliver-Stepped marker r wf

overflow-Wf :
    (way : Reassembler → Way) (r : Reassembler)
    → ((r' : Reassembler) → Wf r' → WfWay (way r'))
    → Sorted r.fu_buffer
    → r.fu_started ≡ true
    → WfWay (overflow way r)
unfolding overflow
overflow-Wf way r h sorted started = elim (Bool-cases (ltb 1024 (length r.fu_buffer))) [
  | inl over ↦ rw over (h (fu_reset r) (fu_reset-Wf r))
  | inr fits ↦ rw fits (sorted, ltb_false→le _ _ fits, inl started)
]

fu_end-Wf : (seq nal_type : ℕ) (r : Reassembler) → Wf (fu_end seq nal_type r)
unfolding fu_end
fu_end-Wf seq nal_type r = fu_reset-Wf (
    if complete seq (contiguous r.fu_start_seq r.fu_buffer)
    then add_nalu nal_type (start_code4 ++ values r.fu_buffer) r
    else r)

end_or_not-Wf :
    (seq nal_type : ℕ) (is_end : Bool) (w : Way)
    → WfWay w
    → WfWay (end_or_not seq nal_type is_end w)
unfolding end_or_not
end_or_not-Wf seq nal_type is_end (returned r) wf = wf
end_or_not-Wf seq nal_type true (fell_through r) wf = fu_end-Wf seq nal_type r
end_or_not-Wf seq nal_type false (fell_through r) wf = wf

fu_start-Wf :
    (seq nal_header : ℕ) (piece : Bytes) (r : Reassembler) → WfWay (fu_start seq nal_header piece r)
unfolding fu_start
fu_start-Wf seq nal_header [] r = fu_reset-Wf r
fu_start-Wf seq nal_header (b ∷ piece) r =
    overflow-Wf fell_through
      (record r {
        fu_buffer = insert seq (nal_header ∷ b ∷ piece) [];
        fu_started = true;
        fu_start_seq = seq;
        fu_expected_seq = (seq + 1) % 2 ^ 16;
      })
      (λ r' wf. wf) (insert-Sorted seq (nal_header ∷ b ∷ piece) [] tt) refl

fu_piece-Wf :
    (seq nal_type : ℕ) (is_end : Bool) (piece : Bytes) (r : Reassembler)
    → r.fu_started ≡ true
    → Wf r
    → WfWay (fu_piece seq nal_type is_end piece r)
unfolding fu_piece
fu_piece-Wf seq nal_type is_end piece r on wf =
    if_cases WfWay (ltb seq r.fu_expected_seq) _ _ (λ _. wf)
      λ _.
        if_cases WfWay (ltb 3 (seq - r.fu_expected_seq)) _ _ (λ _. fu_reset-Wf r)
          λ _. end_or_not-Wf seq nal_type is_end _ (
            overflow-Wf returned
              (record r {
                fu_buffer = insert seq piece r.fu_buffer;
                fu_expected_seq = (seq + 1) % 2 ^ 16;
              })
              (λ r' wf'. wf') (insert-Sorted seq piece r.fu_buffer wf.0) on)

fu_a-Wf :
    (seq indicator : ℕ) (payload : Bytes) (r : Reassembler)
    → Wf r
    → WfWay (fu_a seq indicator payload r)
unfolding fu_a fu_next
fu_a-Wf seq indicator [] r wf = fu_reset-Wf r
fu_a-Wf seq indicator (header ∷ piece) r wf =
    let nal_type = bit_and header 0x1f in
    if_cases WfWay (nal_type == 0 || leb 24 nal_type) _ _ (λ _. fu_reset-Wf r)
      λ _.
        if_cases WfWay (not (bit_and header 0x80 == 0)) _ _
          (λ _. fu_start-Wf seq (bit_or (bit_and indicator 0xe0) nal_type) piece r)
          λ _.
            if_cases WfWay r.fu_started _ _
              (λ on. fu_piece-Wf seq nal_type (not (bit_and header 0x40 == 0)) piece r on wf)
              (λ _. wf)

single_nalu-Stepped :
    (nal_type : ℕ) (payload : Bytes) (marker : Bool) (r : Reassembler)
    → Wf r
    → Stepped (single_nalu nal_type payload marker r)
unfolding single_nalu
single_nalu-Stepped nal_type payload marker r wf = deliver-Stepped marker _ (
    add_nalu-Wf nal_type (start_code4 ++ payload) _
      (if_cases Wf r.fu_started (fu_reset r) r (λ _. fu_reset-Wf r) (λ _. wf)))

process_rtp_nalu-Stepped :
    (seq : ℕ) (marker : Bool) (payload : Bytes) (r : Reassembler)
    → Wf r
    → Stepped (process_rtp_nalu seq marker payload r)
unfolding process_rtp_nalu
process_rtp_nalu-Stepped seq marker [] r wf = (wf, tt)
process_rtp_nalu-Stepped seq marker (b ∷ rest) r wf =
    let nal_type = bit_and b 0x1f in
    let (wf1, full1) = single_nalu-Stepped nal_type (b ∷ rest) marker r wf in
    let (wf2, full2) = deliver-Stepped marker _ wf1 in
    if_cases Stepped (ltb 0 nal_type && ltb nal_type 24) _ _
      (λ _. (wf2, All-append _ _ _ full1 full2))
      λ _.
        if_cases Stepped (nal_type == 28) _ _
          (λ _. finish-Stepped marker (fu_a seq b rest r) (fu_a-Wf seq b rest r wf))
          λ _. deliver-Stepped marker r wf

check_gap-Wf : (seq : ℕ) (r : Reassembler) → Wf r → Wf (check_gap seq r)
unfolding check_gap
check_gap-Wf seq r wf =
    if_cases Wf (not (r.last_seq == 0) && ltb 3 (seq_gap r.last_seq seq)) _ _
      (λ _. fu_reset-Wf (record r { frame = [] })) (λ _. wf)

handle_packet-Stepped : (pkt : RtpPacket) (r : Reassembler) → Wf r → Stepped (handle_packet pkt r)
unfolding handle_packet
handle_packet-Stepped pkt r wf =
    if_cases Stepped (is_nil pkt.payload || is_duplicate r.last_seq pkt.seq) _ _ (λ _. (wf, tt))
      λ _.
        process_rtp_nalu-Stepped pkt.seq pkt.marker pkt.payload (check_gap pkt.seq r)
          (check_gap-Wf pkt.seq r wf)

-- A packet of any size but 1 to 10 bytes.
abbrev pub IsReadable : Bytes → Type 0
IsReadable p = (length p ≡ 0) ⊎ (11 ≤ length p)

parse_rtp_reads : (p : Bytes) → 11 ≤ length p → (pkt : RtpPacket) × (parse_rtp p ≡ some pkt)
unfolding parse_rtp
parse_rtp_reads [] h = absurd (omega arith)
parse_rtp_reads (b0 ∷ []) h = absurd (omega arith)
parse_rtp_reads (b0 ∷ b1 ∷ []) h = absurd (omega arith)
parse_rtp_reads (b0 ∷ b1 ∷ b2 ∷ []) h = absurd (omega arith)
parse_rtp_reads (b0 ∷ b1 ∷ b2 ∷ b3 ∷ []) h = absurd (omega arith)
parse_rtp_reads (b0 ∷ b1 ∷ b2 ∷ b3 ∷ b4 ∷ []) h = absurd (omega arith)
parse_rtp_reads (b0 ∷ b1 ∷ b2 ∷ b3 ∷ b4 ∷ b5 ∷ []) h = absurd (omega arith)
parse_rtp_reads (b0 ∷ b1 ∷ b2 ∷ b3 ∷ b4 ∷ b5 ∷ b6 ∷ []) h = absurd (omega arith)
parse_rtp_reads (b0 ∷ b1 ∷ b2 ∷ b3 ∷ b4 ∷ b5 ∷ b6 ∷ b7 ∷ []) h = absurd (omega arith)
parse_rtp_reads (b0 ∷ b1 ∷ b2 ∷ b3 ∷ b4 ∷ b5 ∷ b6 ∷ b7 ∷ b8 ∷ []) h = absurd (omega arith)
parse_rtp_reads (b0 ∷ b1 ∷ b2 ∷ b3 ∷ b4 ∷ b5 ∷ b6 ∷ b7 ∷ b8 ∷ b9 ∷ []) h = absurd (omega arith)
parse_rtp_reads (b0 ∷ b1 ∷ b2 ∷ b3 ∷ b4 ∷ b5 ∷ b6 ∷ b7 ∷ b8 ∷ b9 ∷ b10 ∷ []) h = (_, refl)
parse_rtp_reads (b0 ∷ b1 ∷ b2 ∷ b3 ∷ b4 ∷ b5 ∷ b6 ∷ b7 ∷ b8 ∷ b9 ∷ b10 ∷ b11 ∷ payload) h =
    (_, refl)

-- On every packet but those of 1 to 10 bytes, whatever it holds, `handleRtp` returns, and it keeps the
-- buffer of fragments a map with ascending keys, of at most 1024 entries, and empty while no unit has
-- begun; no frame that it hands on is empty.
pub handle_rtp-Stepped :
    (p : Bytes) (r : Reassembler)
    → IsReadable p
    → Wf r
    → (t : Reassembler × List Bytes) × (handle_rtp p r ≡ done t) × Stepped t
unfolding handle_rtp handle_parsed
handle_rtp-Stepped [] r readable wf = ((r, []), refl, (wf, tt))
handle_rtp-Stepped (b ∷ p) r (inl e) wf = absurd (omega arith)
handle_rtp-Stepped (b ∷ p) r (inr long) wf =
    let (pkt, e) = parse_rtp_reads (b ∷ p) long in
    (handle_packet pkt r, rw e refl, handle_packet-Stepped pkt r wf)
