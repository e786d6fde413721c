-- ===== src/Viewer/Reassembler.antt =====
-- car_detect_qt/h264rtpreassembler.h and .cpp: `H264RtpReassembler`, which puts the NAL units of RTP
-- packets together again. The name of the stream, which is only passed on, is left out, and so are
-- the log messages.
pub mod Arrivals
pub mod Fragments
pub mod Runs
pub mod Units
pub mod Outputs
pub mod Pictures
pub mod Invariant
use car_detect.Prelude.{
  ℕ, zero, suc, ◌+◌, ◌-◌, ◌%◌, ◌^◌, Option, none, some, Bool, true, false, not, ◌&&◌, ◌||◌, List,
  [], ◌∷◌, ◌++◌, Bytes, length, ltb, leb, ◌==◌, if◌then◌else◌, bit_and, bit_or,
}
use car_detect.Effect.{Outcome, done, crash, stuck}
use car_detect.Rtp.Header.{RtpPacket, parse_rtp}

-- `_maxSeqGap` and `_maxFuBufferSize`, which nothing changes.
abbrev pub max_seq_gap : ℕ
max_seq_gap = 3

abbrev pub max_fu_buffer_size : ℕ
max_fu_buffer_size = 1024

-- The fields; `fu_buffer` is a QMap from sequence numbers, in their order.
pub record Reassembler : Type 0 where
  pub frame : Bytes
  pub fu_buffer : List (ℕ × Bytes)
  pub fu_started : Bool
  pub last_seq : ℕ
  pub sps_nalu : Bytes
  pub pps_nalu : Bytes
  pub fu_start_seq : ℕ
  pub fu_expected_seq : ℕ

unfoldable pub new_reassembler : Reassembler
new_reassembler = record {
  frame = [];
  fu_buffer = [];
  fu_started = false;
  last_seq = 0;
  sps_nalu = [];
  pps_nalu = [];
  fu_start_seq = 0;
  fu_expected_seq = 0;
}

abbrev pub is_nil : Bytes → Bool
is_nil [] = true
is_nil (b ∷ bs) = false

abbrev pub start_code4 : Bytes
start_code4 = 0 ∷ 0 ∷ 0 ∷ 1 ∷ []

-- `QMap::insert`: the keys stay in order, and a key that is there gets the new value.
unfoldable pub insert : ℕ → Bytes → List (ℕ × Bytes) → List (ℕ × Bytes)
insert k v [] = (k, v) ∷ []
insert k v ((j, w) ∷ m) =
    if ltb k j then (k, v) ∷ (j, w) ∷ m else if k == j then (k, v) ∷ m else (j, w) ∷ insert k v m

unfoldable pub fu_reset : Reassembler → Reassembler
fu_reset r = record r { fu_buffer = []; fu_started = false; fu_expected_seq = 0; fu_start_seq = 0 }

-- `_checkAndSaveSpsPps`.
unfoldable pub check_and_save_sps_pps : ℕ → Bytes → Reassembler → Reassembler
check_and_save_sps_pps nal_type nalu r =
    if nal_type == 7
    then record r { sps_nalu = nalu }
    else if nal_type == 8
    then record r { pps_nalu = nalu }
    else r

-- `if (pkt.marker && !_frame.isEmpty())`: the frame is handed on, and the next one begins.
unfoldable pub deliver : Bool → Reassembler → Reassembler × List Bytes
deliver marker r =
    if marker && not (is_nil r.frame) then (record r { frame = [] }, r.frame ∷ []) else (r, [])

-- A unit, behind its start code, becomes part of the frame.
unfoldable pub add_nalu : ℕ → Bytes → Reassembler → Reassembler
unfolding check_and_save_sps_pps
add_nalu nal_type nalu r =
    let r' = check_and_save_sps_pps nal_type nalu r in record r' { frame = r'.frame ++ nalu }

unfoldable pub single_nalu : ℕ → Bytes → Bool → Reassembler → Reassembler × List Bytes
unfolding fu_reset add_nalu deliver
single_nalu nal_type payload marker r =
    let r1 = if r.fu_started then fu_reset r else r in
    deliver marker (add_nalu nal_type (start_code4 ++ payload) r1)

-- The two ways out of the code for a fragment: `return`, and on to the test of the marker.
pub data Way : Type 0 where
  returned fell_through : Reassembler → Way

unfoldable pub overflow : (Reassembler → Way) → Reassembler → Way
unfolding fu_reset
overflow way r =
    if ltb max_fu_buffer_size (length r.fu_buffer) then way (fu_reset r) else fell_through r

-- A fragment with the start bit: `piece` is what stands behind the FU header.
unfoldable pub fu_start : ℕ → ℕ → Bytes → Reassembler → Way
unfolding fu_reset insert overflow
fu_start seq nal_header [] r = returned (fu_reset r)
fu_start seq nal_header (b ∷ piece) r = overflow fell_through (record r {
  fu_buffer = insert seq (nal_header ∷ b ∷ piece) [];
  fu_started = true;
  fu_start_seq = seq;
  fu_expected_seq = (seq + 1) % 2 ^ 16;
})

-- Whether the keys count up from a number: the number behind the last one.
unfoldable pub contiguous : ℕ → List (ℕ × Bytes) → Option ℕ
contiguous expected [] = some expected
contiguous expected ((k, v) ∷ m) =
    let rest = contiguous ((expected + 1) % 2 ^ 16) m in if k == expected then rest else none

unfoldable pub values : List (ℕ × Bytes) → Bytes
values [] = []
values ((k, v) ∷ m) = v ++ values m

-- The unit is complete, and the packet at hand is its last. `expectedSeq - 1` is an `int`.
unfoldable pub complete : ℕ → Option ℕ → Bool
complete seq none = false
complete seq (some expected) = seq + 1 == expected

-- The end bit.
unfoldable pub fu_end : ℕ → ℕ → Reassembler → Reassembler
unfolding contiguous complete values add_nalu fu_reset
fu_end seq nal_type r = fu_reset (
    if complete seq (contiguous r.fu_start_seq r.fu_buffer)
    then add_nalu nal_type (start_code4 ++ values r.fu_buffer) r
    else r)

-- What follows the check of the buffer's size.
unfoldable pub end_or_not : ℕ → ℕ → Bool → Way → Way
unfolding fu_end
end_or_not seq nal_type is_end (returned r) = returned r
end_or_not seq nal_type is_end (fell_through r) =
    fell_through (if is_end then fu_end seq nal_type r else r)

-- A fragment without the start bit, of a unit that has begun.
unfoldable pub fu_piece : ℕ → ℕ → Bool → Bytes → Reassembler → Way
unfolding fu_reset insert overflow end_or_not
fu_piece seq nal_type is_end piece r =
    if ltb seq r.fu_expected_seq
    then returned r
    else if ltb max_seq_gap (seq - r.fu_expected_seq)
    then returned (fu_reset r)
    else end_or_not seq nal_type is_end (
        overflow returned (record r {
          fu_buffer = insert seq piece r.fu_buffer;
          fu_expected_seq = (seq + 1) % 2 ^ 16;
        }))

-- The same when no unit has begun: it is not taken.
unfoldable pub fu_next : ℕ → ℕ → Bool → Bytes → Reassembler → Way
unfolding fu_piece
fu_next seq nal_type is_end piece r =
    if r.fu_started then fu_piece seq nal_type is_end piece r else fell_through r

-- FU-A: the payload behind the FU indicator.
unfoldable pub fu_a : ℕ → ℕ → Bytes → Reassembler → Way
unfolding fu_reset fu_start fu_next
fu_a seq indicator [] r = returned (fu_reset r)
fu_a seq indicator (header ∷ piece) r =
    let nal_type = bit_and header 0x1f in
    if nal_type == 0 || leb 24 nal_type
    then returned (fu_reset r)
    else if not (bit_and header 0x80 == 0)
    then fu_start seq (bit_or (bit_and indicator 0xe0) nal_type) piece r
    else fu_next seq nal_type (not (bit_and header 0x40 == 0)) piece r

unfoldable pub finish : Bool → Way → Reassembler × List Bytes
unfolding deliver
finish marker (returned r) = (r, [])
finish marker (fell_through r) = deliver marker r

-- `_processRtpNalu`: the frames that it hands on.
unfoldable pub process_rtp_nalu : ℕ → Bool → Bytes → Reassembler → Reassembler × List Bytes
unfolding single_nalu fu_a finish
process_rtp_nalu seq marker [] r = (r, [])
process_rtp_nalu seq marker (b ∷ rest) r =
    let nal_type = bit_and b 0x1f in
    if ltb 0 nal_type && ltb nal_type 24
    then (let (r1, out) = single_nalu nal_type (b ∷ rest) marker r in
        let (r2, out') = deliver marker r1 in (r2, out ++ out'))
    else if nal_type == 28
    then finish marker (fu_a seq b rest r)
    else deliver marker r

-- A number that is not behind the last one, but for a small one behind a large one.
unfoldable pub is_duplicate : ℕ → ℕ → Bool
is_duplicate last seq =
    not (last == 0) && (leb seq last && not (ltb (65535 - max_seq_gap) last && ltb seq max_seq_gap))

unfoldable pub seq_gap : ℕ → ℕ → ℕ
seq_gap last seq = if ltb seq last then 65535 - last + seq + 1 else seq - last

-- After a large gap what has been collected is dropped.
unfoldable pub check_gap : ℕ → Reassembler → Reassembler
unfolding seq_gap fu_reset
check_gap seq r =
    if not (r.last_seq == 0) && ltb max_seq_gap (seq_gap r.last_seq seq)
    then fu_reset (record r { frame = [] })
    else r

-- A packet that has been parsed.
unfoldable pub handle_packet : RtpPacket → Reassembler → Reassembler × List Bytes
unfolding is_duplicate check_gap process_rtp_nalu
handle_packet pkt r =
    if is_nil pkt.payload || is_duplicate r.last_seq pkt.seq
    then (r, [])
    else (let (r', out) = process_rtp_nalu pkt.seq pkt.marker pkt.payload (check_gap pkt.seq r) in
        (record r' { last_seq = pkt.seq }, out))

unfoldable pub handle_parsed : Option RtpPacket → Reassembler → Outcome (Reassembler × List Bytes)
unfolding handle_packet
handle_parsed none r = crash
handle_parsed (some pkt) r = done (handle_packet pkt r)

-- `handleRtp`. A packet of 1 to 10 bytes is read behind its end.
unfoldable pub handle_rtp : Bytes → Reassembler → Outcome (Reassembler × List Bytes)
unfolding handle_parsed
handle_rtp [] r = done (r, [])
handle_rtp (b ∷ bytes) r = handle_parsed (parse_rtp (b ∷ bytes)) r

unfoldable pub add_outputs :
    List Bytes → Outcome (Reassembler × List Bytes) → Outcome (Reassembler × List Bytes)
add_outputs out (done (r, out')) = done (r, out ++ out')
add_outputs out crash = crash
add_outputs out stuck = stuck

unfoldable pub chain :
    Outcome (Reassembler × List Bytes)
    → (Reassembler → Outcome (Reassembler × List Bytes))
    → Outcome (Reassembler × List Bytes)
unfolding add_outputs
chain (done (r, out)) next = add_outputs out (next r)
chain crash next = crash
chain stuck next = stuck

-- Packets one after the other.
unfoldable pub handle_all : List Bytes → Reassembler → Outcome (Reassembler × List Bytes)
unfolding handle_rtp chain
handle_all [] r = done (r, [])
handle_all (p ∷ ps) r = chain (handle_rtp p r) (handle_all ps)
