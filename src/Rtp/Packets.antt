-- ===== src/Rtp/Packets.antt =====
-- A description of the packets of a NAL unit, with no loop over positions and no sending.
-- `Refinement` relates it to `rtp_send_h264` of camera/rtsp.c, `Contents` to the unit.
pub mod Refinement
pub mod Contents
use car_detect.Prelude.{
  ℕ, zero, suc, ◌+◌, ◌-◌, ◌*◌, ◌/◌, ◌%◌, ◌^◌, ◌≤◌, ◌<◌, ◌≡◌, refl, sym, ap, fun_ext, ◌∙◌, Option,
  none, some, Bool, true, false, List, [], ◌∷◌, ◌++◌, Bytes, arith, min, length, take, drop, ltb,
  leb, ◌==◌, if◌then◌else◌, length-take, length-drop, inl, inr, Bool-cases, length-append, lt→ltb,
  le→leb, le→ltb_false, take_all, drop_all, drop-drop, ltb→lt, ltb_false→le, lt→leb_false, uncons,
}
use car_detect.Effect.{Action, pure, faults, spins, call, ◌>>=◌, ◌>>◌, bind_assoc}
use car_detect.Os.{Os}
use car_detect.Kcp.{KcpLib}
use car_detect.Rtsp.Session.{RtspSession, next_seq}
use car_detect.Rtp.Header.{build_rtp_header, length-build_rtp_header}
use car_detect.Rtp.Send.{
  mtu, single_marker, fu_indicator, fu_header, fragment_len, packet_buffer, transmit, fu_loop,
  rtp_send_h264,
}

-- A payload cut into pieces of 1382 bytes and a last one of at most that; `rounds` is at least
-- the number of pieces.
unfoldable pub pieces : ℕ → Bytes → List Bytes
pieces zero payload = []
pieces (suc rounds) [] = []
pieces (suc rounds) (b ∷ bs) = take 1382 (b ∷ bs) ∷ pieces rounds (drop 1382 (b ∷ bs))

-- The packet of one fragment.
unfoldable pub fragment : ℕ → ℕ → ℕ → Bool → Bool → ℕ → Bytes → Bytes
fragment timestamp ssrc nal_header is_start is_last seq piece =
    build_rtp_header (seq % 2 ^ 16) timestamp ssrc 96 is_last
    ++ (fu_indicator nal_header ∷ fu_header is_start is_last nal_header ∷ piece)

-- The packets of the pieces: the last piece's is marked, and the numbers count up.
unfoldable pub fragments : ℕ → ℕ → ℕ → Bool → ℕ → List Bytes → List Bytes
fragments timestamp ssrc nal_header is_start seq [] = []
fragments timestamp ssrc nal_header is_start seq (piece ∷ []) =
    fragment timestamp ssrc nal_header is_start true seq piece ∷ []
fragments timestamp ssrc nal_header is_start seq (piece ∷ next ∷ more) =
    fragment timestamp ssrc nal_header is_start false seq piece
    ∷ fragments timestamp ssrc nal_header false ((seq + 1) % 2 ^ 64) (next ∷ more)

unfoldable pub rtp_packets : ℕ → ℕ → ℕ → Bytes → List Bytes
rtp_packets seq timestamp ssrc [] = []
rtp_packets seq timestamp ssrc (nal_header ∷ rest) =
    if leb (length rest) 1383
    then (build_rtp_header (seq % 2 ^ 16) timestamp ssrc 96 (single_marker nal_header)
        ++ (nal_header ∷ rest))
      ∷ []
    else fragments timestamp ssrc nal_header true seq (pieces (length rest) rest)

-- The counter after `n` packets.
unfoldable pub advance : ℕ → ℕ → ℕ
advance seq zero = seq
advance seq (suc n) = advance ((seq + 1) % 2 ^ 64) n

module _ (os : Os) (lib : KcpLib (Os.World os)) where
  abbrev Session : Type 0
  Session = RtspSession (KcpLib.Kcb lib)

  unfoldable pub send_each : ℕ → Session → List Bytes → Action (Os.World os) (Unit {0})
  send_each fuel s [] = pure tt
  send_each fuel s (p ∷ ps) = transmit os lib fuel s p >> send_each fuel s ps

  -- Send the packets and count them.
  unfoldable pub send_all : ℕ → Session → List Bytes → Action (Os.World os) Session
  send_all fuel s ps =
      send_each fuel s ps >> pure (record s { rtp_seq = advance s.rtp_seq (length ps) })
