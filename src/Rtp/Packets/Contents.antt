-- ===== src/Rtp/Packets/Contents.antt =====
-- What the packets that `rtp_send_h264` of camera/rtsp.c sends hold of the NAL unit.
use car_detect.Prelude.{
  ℕ, zero, suc, ◌+◌, ◌*◌, ◌/◌, ◌≤◌, if◌then◌else◌, str_eq, str_eq_iff, every, every_below, IsByte,
  ◌≡◌, ◌%◌, ◌^◌, refl, ap, ◌∙◌, Bool, true, false, List, [], ◌∷◌, ◌++◌, Bytes, All, length, take,
  drop, arith, length-take, length-drop, take-append-drop, ltb, Bool-cases, inl, inr, ltb→lt,
  ltb_false→le, le→leb, lt→leb_false, ◌⊎◌,
}
use car_detect.Os.{Os}
use car_detect.Kcp.{KcpLib}
use car_detect.Rtsp.Session.{RtspSession}
use car_detect.Rtp.Header.{build_rtp_header, length-build_rtp_header}
use car_detect.Rtp.Send.{fu_indicator, fu_header, single_marker, rtp_send_h264}
use car_detect.Rtp.Packets.{pieces, fragment, fragments, rtp_packets, send_all}
use car_detect.Rtp.Packets.Refinement.{rtp_send_h264-send_all}

abbrev pub joined : List Bytes → Bytes
joined [] = []
joined (p ∷ ps) = p ++ joined ps

pub joined-pieces :
    (rounds : ℕ) (payload : Bytes)
    → length payload ≤ rounds
    → joined (pieces rounds payload) ≡ payload
unfolding pieces
joined-pieces zero [] h = refl
joined-pieces zero (b ∷ bs) h = absurd (omega arith)
joined-pieces (suc rounds) [] h = refl
joined-pieces (suc rounds) (b ∷ bs) h =
    ap (λ (t : Bytes). take 1382 (b ∷ bs) ++ t)
      (joined-pieces rounds (drop 1381 bs) (omega (arith, length-drop 1381 bs)))
    ∙ take-append-drop 1382 (b ∷ bs)

pieces-small : (rounds : ℕ) (payload : Bytes) → All (λ p. length p ≤ 1382) (pieces rounds payload)
unfolding pieces
pieces-small zero payload = tt
pieces-small (suc rounds) [] = tt
pieces-small (suc rounds) (b ∷ bs) =
    (omega (arith, length-take 1381 bs), pieces-small rounds (drop 1381 bs))

length-fragment :
    (timestamp ssrc h : ℕ) (is_start is_last : Bool) (seq : ℕ) (piece : Bytes)
    → length piece ≤ 1382
    → length (fragment timestamp ssrc h is_start is_last seq piece) ≤ 1396
unfolding fragment
length-fragment timestamp ssrc h is_start is_last seq piece small = omega (
  arith,
  length-build_rtp_header (seq % 2 ^ 16) timestamp ssrc 96 is_last
      (fu_indicator h ∷ fu_header is_start is_last h ∷ piece),
)

-- The two bytes of FU-A (RFC 6184, 5.8) for a unit whose first byte is `h`: the indicator has its
-- upper three bits and the type 28, the header the start bit, the end bit, and its lower five bits.
abbrev pub fu_bytes_for : ℕ → Bool → Bool → Bytes
fu_bytes_for h is_start is_last =
    (h / 32 * 32 + 28) ∷ ((if is_start then 128 else 0) + (if is_last then 64 else 0) + h % 32) ∷ []

abbrev fu_agree : Bool → Bool → ℕ → Bool
fu_agree is_start is_last h =
    str_eq (fu_indicator h ∷ fu_header is_start is_last h ∷ []) (fu_bytes_for h is_start is_last)

fu_agree_table : (is_start is_last : Bool) → every 256 (fu_agree is_start is_last) ≡ true
unfolding every fu_indicator fu_header
fu_agree_table true true = refl
fu_agree_table true false = refl
fu_agree_table false true = refl
fu_agree_table false false = refl

fu_bytes_for_lem :
    (h : ℕ) (is_start is_last : Bool)
    → IsByte h
    → fu_indicator h ∷ fu_header is_start is_last h ∷ [] ≡ fu_bytes_for h is_start is_last
fu_bytes_for_lem h is_start is_last hb = table is_start is_last
  where
    table :
        (is_start is_last : Bool)
        → fu_indicator h ∷ fu_header is_start is_last h ∷ [] ≡ fu_bytes_for h is_start is_last
    table s e =
        (str_eq_iff (fu_indicator h ∷ fu_header s e h ∷ []) (fu_bytes_for h s e)).0
          (every_below 256 (fu_agree s e) h hb (fu_agree_table s e))

-- What a fragment holds behind its RTP header: FU indicator, FU header, and a piece.
fragment-drop :
    (timestamp ssrc h : ℕ) (is_start is_last : Bool) (seq : ℕ) (piece : Bytes)
    → IsByte h
    → drop 12 (fragment timestamp ssrc h is_start is_last seq piece)
      ≡ fu_bytes_for h is_start is_last ++ piece
unfolding fragment build_rtp_header
fragment-drop timestamp ssrc h is_start is_last seq piece hb =
    ap (λ (b : Bytes). b ++ piece) (fu_bytes_for_lem h is_start is_last hb)

-- The fragments of a unit, from one on: the flags, and what they hold behind the RTP header.
abbrev pub FuPayloads : ℕ → Bool → List Bytes → List Bytes → Type 0
FuPayloads h is_start [] [] = Unit {0}
FuPayloads h is_start [] (q ∷ qs) = ⊥
FuPayloads h is_start (p ∷ ps) [] = ⊥
FuPayloads h is_start (p ∷ []) (q ∷ qs) =
    (drop 12 p ≡ fu_bytes_for h is_start true ++ q) × (qs ≡ [])
FuPayloads h is_start (p ∷ p' ∷ ps) (q ∷ qs) =
    (drop 12 p ≡ fu_bytes_for h is_start false ++ q) × FuPayloads h false (p' ∷ ps) qs

fragments-FuPayloads :
    (timestamp ssrc h : ℕ) (is_start : Bool) (seq : ℕ) (ps : List Bytes)
    → IsByte h
    → FuPayloads h is_start (fragments timestamp ssrc h is_start seq ps) ps
unfolding fragments
fragments-FuPayloads timestamp ssrc h is_start seq [] hb = tt
fragments-FuPayloads timestamp ssrc h is_start seq (p ∷ []) hb =
    (fragment-drop timestamp ssrc h is_start true seq p hb, refl)
fragments-FuPayloads timestamp ssrc h is_start seq (p ∷ q ∷ []) hb = (
  fragment-drop timestamp ssrc h is_start false seq p hb,
  fragments-FuPayloads timestamp ssrc h false ((seq + 1) % 2 ^ 64) (q ∷ []) hb,
)
fragments-FuPayloads timestamp ssrc h is_start seq (p ∷ q ∷ r ∷ ps) hb = (
  fragment-drop timestamp ssrc h is_start false seq p hb,
  fragments-FuPayloads timestamp ssrc h false ((seq + 1) % 2 ^ 64) (q ∷ r ∷ ps) hb,
)

fragments-small :
    (timestamp ssrc h : ℕ) (is_start : Bool) (seq : ℕ) (ps : List Bytes)
    → All (λ p. length p ≤ 1382) ps
    → All (λ p. length p ≤ 1396) (fragments timestamp ssrc h is_start seq ps)
unfolding fragments
fragments-small timestamp ssrc h is_start seq [] n = tt
fragments-small timestamp ssrc h is_start seq (p ∷ []) n =
    (length-fragment timestamp ssrc h is_start true seq p n.0, tt)
fragments-small timestamp ssrc h is_start seq (p ∷ q ∷ ps) n = (
  length-fragment timestamp ssrc h is_start false seq p n.0,
  fragments-small timestamp ssrc h false ((seq + 1) % 2 ^ 64) (q ∷ ps) n.1,
)

-- Packets that carry a unit: one that holds it whole behind the RTP header, or fragments whose
-- pieces are the unit behind its first byte.
abbrev pub Carries : ℕ → Bytes → List Bytes → Type 0
Carries h rest packets =
    ((p : Bytes) × (packets ≡ p ∷ []) × (drop 12 p ≡ h ∷ rest))
    ⊎ ((ps : List Bytes) × (joined ps ≡ rest) × FuPayloads h true packets ps)

rtp_packets-Carries :
    (seq timestamp ssrc h : ℕ) (rest : Bytes)
    → IsByte h
    → Carries h rest (rtp_packets seq timestamp ssrc (h ∷ rest))
      × All (λ p. length p ≤ 1396) (rtp_packets seq timestamp ssrc (h ∷ rest))
unfolding rtp_packets
rtp_packets-Carries seq timestamp ssrc h rest hb = elim (Bool-cases (ltb 1383 (length rest))) [
  | inr fits ↦ rw (le→leb (length rest) 1383 (ltb_false→le _ _ fits)) (
    inl (
      build_rtp_header (seq % 2 ^ 16) timestamp ssrc 96 (single_marker h) ++ (h ∷ rest),
      refl,
      unfold build_rtp_header in refl,
    ),
    (
      omega (
        arith,
        ltb_false→le _ _ fits,
        length-build_rtp_header (seq % 2 ^ 16) timestamp ssrc 96 (single_marker h) (h ∷ rest),
      ),
      tt,
    ),
  )
  | inl more ↦ rw (lt→leb_false (length rest) 1383 (ltb→lt _ _ more)) (
    inr (
      pieces (length rest) rest,
      joined-pieces (length rest) rest (omega arith),
      fragments-FuPayloads timestamp ssrc h true seq (pieces (length rest) rest) hb,
    ),
    fragments-small timestamp ssrc h true seq (pieces (length rest) rest)
        (pieces-small (length rest) rest),
  )
]

-- What `rtp_send_h264` sends for a NAL unit is packets of at most 1396 bytes that carry it: one that
-- holds the unit whole, or fragments that hold the unit's bytes behind the first, in order and
-- without a gap, each behind the two bytes of FU-A: the upper three bits of the unit's first byte with
-- the type 28, then 128 in the first fragment alone, 64 in the last alone, and the lower five bits.
pub rtp_send_h264-Carries :
    (os : Os) (lib : KcpLib (Os.World os)) (fuel : ℕ) (s : RtspSession (KcpLib.Kcb lib))
    (timestamp h : ℕ) (rest : Bytes)
    → IsByte h
    → (packets : List Bytes) × (rtp_send_h264 os lib fuel s timestamp (h ∷ rest)
        ≡ send_all os lib fuel s packets)
      × Carries h rest packets
      × All (λ p. length p ≤ 1396) packets
rtp_send_h264-Carries os lib fuel s timestamp h rest hb =
    let (carried, small) = rtp_packets-Carries s.rtp_seq timestamp s.rtp_ssrc h rest hb in
    (
      rtp_packets s.rtp_seq timestamp s.rtp_ssrc (h ∷ rest),
      rtp_send_h264-send_all os lib fuel s timestamp (h ∷ rest),
      carried,
      small,
    )
