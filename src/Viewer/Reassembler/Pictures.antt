-- ===== src/Viewer/Reassembler/Pictures.antt =====
-- A whole picture: the packets that `video_stream_thread` of camera/rtsp_client.c sends for it, and
-- what `H264RtpReassembler` makes of them.
use car_detect.Prelude.{
  ℕ, zero, suc, ◌+◌, ◌-◌, ◌*◌, ◌%◌, ◌^◌, ◌≤◌, ◌<◌, ◌≡◌, refl, sym, ap, ◌∙◌, inl, inr, Bool, true,
  not, ◌&&◌, List, [], ◌∷◌, ◌++◌, Bytes, All, IsByte, length, drop, leb, bit_and, arith,
  length-append, length-drop, append_assoc, append-nil, Bool-cases,
}
use car_detect.Effect.{Outcome, done, crash, stuck}
use car_detect.Rtp.Header.{IsU32}
use car_detect.Rtp.Packets.{pieces, rtp_packets, advance}
use car_detect.Rtp.Packets.Contents.{joined}
use car_detect.Client.Video.Frames.{frame_packets}
use car_detect.Viewer.Reassembler.{
  Reassembler, handle_all, chain, add_outputs, deliver, add_nalu, check_and_save_sps_pps, is_nil,
  start_code4,
}
use car_detect.Viewer.Reassembler.Fragments.{IsUnitType}
use car_detect.Viewer.Reassembler.Arrivals.{Follows}
use car_detect.Viewer.Reassembler.Units.{unit_marker, length-fragments, handle_all-rtp_packets}
use car_detect.Viewer.Reassembler.Runs.{with_unit, Idle, add_nalu-Idle}
use car_detect.Viewer.Reassembler.Outputs.{handle_all-append}

-- The pieces of a payload are as few as they can be.
length-pieces :
    (rounds : ℕ) (payload : Bytes) → length (pieces rounds payload) * 1382 ≤ length payload + 1381
unfolding pieces
length-pieces zero payload = omega arith
length-pieces (suc rounds) [] = omega arith
length-pieces (suc rounds) (b ∷ bs) =
    omega (arith, length-pieces rounds (drop 1381 bs), length-drop 1381 bs)

pieces-some : (rest : Bytes) → 0 < length rest → 0 < length (pieces (length rest) rest)
unfolding pieces
pieces-some [] h = absurd (omega arith)
pieces-some (b ∷ bs) h = omega arith

-- A unit that the viewer can take: of a type from 1 to 23, in at most 1024 fragments.
abbrev pub IsSendable : Bytes → Type 0
IsSendable [] = ⊥
IsSendable (h ∷ rest) = IsByte h × IsUnitType (bit_and h 0x1f) × (length rest ≤ 1024 * 1382)

length-rtp_packets :
    (seq timestamp ssrc h : ℕ) (rest : Bytes)
    → length rest ≤ 1024 * 1382
    → (0 < length (rtp_packets seq timestamp ssrc (h ∷ rest)))
      × (length (rtp_packets seq timestamp ssrc (h ∷ rest)) ≤ 1024)
unfolding rtp_packets
length-rtp_packets seq timestamp ssrc h rest small = elim (Bool-cases (leb (length rest) 1383)) [
  | inl fits ↦ rw fits (omega arith, omega arith)
  | inr more ↦
      rw (more, length-fragments)
        (pieces-some rest (ground arith), omega (arith, length-pieces (length rest) rest))
]

advance-below :
    (seq n q : ℕ)
    → seq < 2 ^ 64
    → seq % 2 ^ 16 ≡ q
    → q + n < 2 ^ 16
    → (advance seq n < 2 ^ 64) × (advance seq n % 2 ^ 16 ≡ q + n)
unfolding advance
advance-below seq zero q small e h = (small, omega arith)
advance-below seq (suc n) q small e h =
    let (below, number) =
      advance-below ((seq + 1) % 2 ^ 64) n (q + 1) (omega arith) (omega arith) (omega arith) in
    (below, omega (arith, number))

-- The frame that the decoder takes: each unit behind a start code of four bytes.
abbrev pub with_codes : List Bytes → Bytes
with_codes [] = []
with_codes (nal ∷ nals) = start_code4 ++ (nal ++ with_codes nals)

-- Nothing is lost when a frame is handed on.
deliver-joined :
    (marker : Bool) (r : Reassembler)
    → joined (deliver marker r).1 ++ (deliver marker r).0.frame ≡ r.frame
unfolding deliver
deliver-joined marker r = elim (Bool-cases (marker && not (is_nil r.frame))) [
  | inl now ↦ rw (now, append-nil, append-nil) refl
  | inr later ↦ rw later refl
]

deliver-Idle : (marker : Bool) (r : Reassembler) → Idle r → Idle (deliver marker r).0
unfolding deliver
deliver-Idle marker r idle = elim (Bool-cases (marker && not (is_nil r.frame))) [
  | inl now ↦ rw now idle
  | inr later ↦ rw later idle
]

is_nil_nil : (bs : Bytes) → is_nil bs ≡ true → bs ≡ []
is_nil_nil [] h = refl
is_nil_nil (b ∷ bs) h = ground arith

deliver_marked : (r : Reassembler) → (deliver true r).0.frame ≡ []
unfolding deliver
deliver_marked r = elim (Bool-cases (is_nil r.frame)) [
  | inl empty ↦ rw empty (is_nil_nil r.frame empty)
  | inr full ↦ rw full refl
]

add_nalu-frame :
    (nal_type : ℕ) (nalu : Bytes) (r : Reassembler)
    → (add_nalu nal_type nalu r).frame ≡ r.frame ++ nalu
unfolding add_nalu check_and_save_sps_pps
add_nalu-frame nal_type nalu r = ground arith

-- Units, from one on, the last of which carries the marker.
abbrev pub IsPicture : List Bytes → Type 0
IsPicture [] = ⊥
IsPicture ([] ∷ nals) = ⊥
IsPicture ((h ∷ rest) ∷ []) = unit_marker h rest ≡ true
IsPicture ((h ∷ rest) ∷ nal ∷ nals) = IsPicture (nal ∷ nals)

-- What the receiver is like after a picture: it returns, nothing waits, `last` is the number that it
-- has seen last, and the bytes are what it has handed on.
abbrev pub Complete : ℕ → Bytes → Outcome (Reassembler × List Bytes) → Type 0
Complete last bytes (done (r, out)) =
    Idle r × (r.frame ≡ []) × (r.last_seq ≡ last) × (joined out ≡ bytes)
Complete last bytes crash = ⊥
Complete last bytes stuck = ⊥

joined-append : (xs ys : List Bytes) → joined (xs ++ ys) ≡ joined xs ++ joined ys
joined-append [] ys = refl
joined-append (x ∷ xs) ys =
    ap (◌++◌ x) (joined-append xs ys) ∙ sym (append_assoc x (joined xs) (joined ys))

Complete-after :
    (last : ℕ) (out : List Bytes) (waiting before bytes : Bytes)
    (o : Outcome (Reassembler × List Bytes))
    → joined out ++ waiting ≡ before
    → Complete last (waiting ++ bytes) o
    → Complete last (before ++ bytes) (add_outputs out o)
unfolding add_outputs
Complete-after last out waiting before bytes (done (r, out')) e (idle, empty, number, whole) = (
  idle,
  empty,
  number,
  joined-append out out'
      ∙ ap (◌++◌ (joined out)) whole
      ∙ sym (append_assoc (joined out) waiting bytes)
      ∙ ap (λ (t : Bytes). t ++ bytes) e,
)
Complete-after last out waiting before bytes crash e h = h
Complete-after last out waiting before bytes stuck e h = h

with_unit-joined :
    (n : ℕ) (marker : Bool) (h : ℕ) (nal : Bytes) (r : Reassembler)
    → joined (with_unit n marker h nal r).1 ++ (with_unit n marker h nal r).0.frame
      ≡ r.frame ++ (start_code4 ++ nal)
with_unit-joined n marker h nal r =
    deliver-joined marker (add_nalu (bit_and h 0x1f) (start_code4 ++ nal) r)
    ∙ add_nalu-frame (bit_and h 0x1f) (start_code4 ++ nal) r

Complete-one :
    (n : ℕ) (marker : Bool) (h : ℕ) (nal : Bytes) (r : Reassembler)
    → marker ≡ true
    → Idle r
    → Complete n (r.frame ++ (start_code4 ++ nal)) (done (with_unit n marker h nal r))
Complete-one n marker h nal r marked idle =
    let r' = add_nalu (bit_and h 0x1f) (start_code4 ++ nal) r in
    let empty : (deliver marker r').0.frame ≡ [] = rw marked (deliver_marked r') in
    (
      deliver-Idle marker r' (add_nalu-Idle _ _ r idle),
      empty,
      refl,
      sym (append-nil (joined (deliver marker r').1))
          ∙ ap (◌++◌ (joined (deliver marker r').1)) (sym empty)
          ∙ with_unit-joined n marker h nal r,
    )

module _ (timestamp ssrc : ℕ) (ht : IsU32 timestamp) (hs : IsU32 ssrc) where
  handle_all-unit :
      (seq q h : ℕ) (rest : Bytes) (r : Reassembler)
      → IsSendable (h ∷ rest)
      → Idle r
      → seq < 2 ^ 64
      → seq % 2 ^ 16 ≡ q
      → Follows r.last_seq q
      → q + length (rtp_packets seq timestamp ssrc (h ∷ rest)) < 2 ^ 16
      → handle_all (rtp_packets seq timestamp ssrc (h ∷ rest)) r
        ≡ done (
            with_unit
              (q + length (rtp_packets seq timestamp ssrc (h ∷ rest)) - 1)
              (unit_marker h rest)
              h
              (h ∷ rest)
              r)
  handle_all-unit seq q h rest r (hb, unit, small) idle below e follows last =
      handle_all-rtp_packets seq q timestamp ssrc h rest r ht hs hb unit idle below e follows last
        (length-rtp_packets seq timestamp ssrc h rest small).1

  pub handle_all-picture :
      (nals : List Bytes) (seq q : ℕ) (r : Reassembler)
      → All IsSendable nals
      → IsPicture nals
      → Idle r
      → seq < 2 ^ 64
      → seq % 2 ^ 16 ≡ q
      → Follows r.last_seq q
      → q + length (frame_packets seq timestamp ssrc nals) < 2 ^ 16
      → Complete
          (q + length (frame_packets seq timestamp ssrc nals) - 1)
          (r.frame ++ with_codes nals)
          (handle_all (frame_packets seq timestamp ssrc nals) r)
  unfolding frame_packets chain
  handle_all-picture [] seq q r ok whole idle small e follows last = absurd whole
  handle_all-picture ([] ∷ nals) seq q r ok whole idle small e follows last = absurd ok.0
  handle_all-picture ((h ∷ rest) ∷ []) seq q r ok whole idle small e follows last =
      rw
        (
          append-nil,
          append-nil,
          handle_all-unit seq q h rest r ok.0 idle small e follows
              (rw (append-nil (rtp_packets seq timestamp ssrc (h ∷ rest))) at last),
        )
        (Complete-one _ (unit_marker h rest) h (h ∷ rest) r whole idle)
  handle_all-picture ((h ∷ rest) ∷ nal ∷ nals) seq q r ok whole idle small e follows last =
      let ps = rtp_packets seq timestamp ssrc (h ∷ rest) in
      let (byte, unit, short) = ok.0 in
      let count = length-rtp_packets seq timestamp ssrc h rest short in
      let qs = frame_packets (advance seq (length ps)) timestamp ssrc (nal ∷ nals) in
      let both = length-append ps qs in
      let (below, number) = advance-below seq (length ps) q small e (omega (arith, both)) in
      let (r1, out) = with_unit (q + length ps - 1) (unit_marker h rest) h (h ∷ rest) r in
      let first = handle_all-unit seq q h rest r ok.0 idle small e follows (omega (arith, both)) in
      let later =
        handle_all-picture (nal ∷ nals) (advance seq (length ps)) (q + length ps) r1 ok.1 whole
          (deliver-Idle _ _ (add_nalu-Idle _ _ r idle)) below number
          (inr (omega (arith, count.0), omega (arith, count.0))) (omega (arith, both)) in
      let end : q + length ps + length qs - 1 ≡ q + length (ps ++ qs) - 1 = omega (arith, both) in
      rw (handle_all-append ps qs r, first)
        (rw (end, append_assoc r.frame (start_code4 ++ (h ∷ rest)) (with_codes (nal ∷ nals))) at
          (Complete-after (q + length ps + length qs - 1) out r1.frame
            (r.frame ++ (start_code4 ++ (h ∷ rest))) (with_codes (nal ∷ nals)) (handle_all qs r1)
            (with_unit-joined (q + length ps - 1) (unit_marker h rest) h (h ∷ rest) r) later))
