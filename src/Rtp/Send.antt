-- ===== src/Rtp/Send.antt =====
-- camera/rtsp.c: `send_rtp_over_tcp` and `rtp_send_h264`, with MTU and RTP_HEADER_SIZE of
-- camera/rtsp.h.
use car_detect.Prelude.{
  ℕ, zero, suc, ◌+◌, ◌-◌, ◌%◌, ◌^◌, Option, none, some, Bool, true, false, ◌||◌, [], ◌∷◌, ◌++◌,
  Bytes, length, take, drop, ltb, leb, ◌==◌, if◌then◌else◌, str_eq, codes, bit_and, bit_or, shr,
}
use car_detect.Effect.{Action, pure, faults, spins, call, ◌>>=◌, ◌>>◌}
use car_detect.Os.{Os}
use car_detect.Tcp.{Ret, minus_one, TcpClient, tcp_write}
use car_detect.Kcp.{KcpLib, act, send_rtp_over_kcp}
use car_detect.Rtsp.Session.{RtspSession, next_seq}
use car_detect.Rtp.Header.{build_rtp_header}

abbrev pub mtu : ℕ
mtu = 1400

abbrev pub rtp_header_size : ℕ
rtp_header_size = 12

-- The four bytes before an RTP packet on the RTSP connection: '$', the channel, the length.
unfoldable pub interleave : ℕ → Bytes → Bytes
interleave channel rtp_data =
    b'$'
    ∷ channel % 2 ^ 8
    ∷ bit_and (shr (length rtp_data) 8) 0xff
    ∷ bit_and (length rtp_data) 0xff
    ∷ rtp_data

-- `uint8_t packet[MTU-4]`: more bytes do not fit.
abbrev pub packet_buffer : {W : Type 0} → Bytes → Action W Bytes
packet_buffer bytes = if leb (length bytes) (mtu - 4) then pure bytes else faults

-- The type of a NAL unit, from its first byte, and whether its packet carries the marker.
unfoldable pub single_marker : ℕ → Bool
single_marker nal_header =
    let nal_type = bit_and nal_header 0x1f in
    if nal_type == 7 || nal_type == 8 || nal_type == 6 then false else true

unfoldable pub fu_indicator : ℕ → ℕ
fu_indicator nal_header = bit_or (bit_and nal_header 0xe0) 28

unfoldable pub fu_header : Bool → Bool → ℕ → ℕ
fu_header is_start is_last nal_header =
    bit_or (bit_or (if is_start then 0x80 else 0) (if is_last then 0x40 else 0))
      (bit_and nal_header 0x1f)

-- `len` of a fragment, when `left` bytes of the payload are left.
abbrev pub fragment_len : ℕ → ℕ
fragment_len left = if ltb (mtu - 18) left then mtu - 18 else left

module _ (os : Os) (lib : KcpLib (Os.World os)) where
  open os use {World, malloc, mutex_lock, mutex_unlock}

  -- `fuel` bounds the calls of write(2) for one packet.
  unfoldable pub send_rtp_over_tcp : ℕ → TcpClient → Bytes → ℕ → Action World Ret
  send_rtp_over_tcp fuel client rtp_data channel = elim client.fd [
    | none ↦ pure minus_one
    | some fd ↦ do
      got ← call (malloc (4 + length rtp_data))
      if got then tcp_write os fuel client (interleave channel rtp_data) else pure minus_one
  ]

  -- `ikcp_flush` reads through its argument.
  unfoldable pub kcp_flush : Option (KcpLib.Kcb lib) → Action World (Unit {0})
  kcp_flush none = faults
  kcp_flush (some kcp) = act (KcpLib.ikcp_flush lib kcp)

  -- One packet, over the session's transport. The result of `send_rtp_over_tcp` is dropped.
  unfoldable pub transmit : ℕ → RtspSession (KcpLib.Kcb lib) → Bytes → Action World (Unit {0})
  unfolding send_rtp_over_tcp kcp_flush
  transmit fuel s packet =
      if str_eq s.trans_type (codes "tcp")
      then (do send_rtp_over_tcp fuel s.client packet s.rtp_channel; pure tt)
      else (do
        act mutex_lock
        send_rtp_over_kcp os lib packet s.kcp
        kcp_flush s.kcp
        act mutex_unlock)

  -- The fragments from `pos` on; `rounds` bounds the loop.
  unfoldable pub fu_loop :
      ℕ
      → ℕ
      → RtspSession (KcpLib.Kcb lib)
      → ℕ
      → ℕ
      → Bytes
      → ℕ
      → Bool
      → Action World (RtspSession (KcpLib.Kcb lib))
  unfolding next_seq fu_indicator fu_header
  fu_loop zero fuel s timestamp nal_header payload pos is_start = spins
  fu_loop (suc rounds) fuel s timestamp nal_header payload pos is_start =
      let size = length payload in
      let len = fragment_len (size - pos) in
      let is_last = leb size (pos + len) in
      let (seq, s') = next_seq s in
      let round : Action World (RtspSession (KcpLib.Kcb lib)) = do
        packet ← packet_buffer (
            build_rtp_header seq timestamp s.rtp_ssrc 96 is_last
            ++ (fu_indicator nal_header
                ∷ fu_header is_start is_last nal_header
                ∷ take len (drop pos payload)))
        transmit fuel s' packet
        fu_loop rounds fuel s' timestamp nal_header payload (pos + len) false
      in if ltb pos size then round else pure s

  -- One NAL unit: a packet of its own where it fits, fragments of type FU-A where not. The loop
  -- takes a byte at least in each round, so `length rest` rounds and the last test are enough.
  unfoldable pub rtp_send_h264 :
      ℕ → RtspSession (KcpLib.Kcb lib) → ℕ → Bytes → Action World (RtspSession (KcpLib.Kcb lib))
  unfolding next_seq single_marker fu_loop transmit
  rtp_send_h264 fuel s timestamp [] = pure s
  rtp_send_h264 fuel s timestamp (nal_header ∷ rest) =
      let nalu = nal_header ∷ rest in
      let (seq, s') = next_seq s in
      let header = build_rtp_header seq timestamp s.rtp_ssrc 96 (single_marker nal_header) in
      if leb (4 + length nalu + rtp_header_size) mtu
      then (do packet ← packet_buffer (header ++ nalu); transmit fuel s' packet; pure s')
      else fu_loop (suc (length rest)) fuel s timestamp nal_header rest 0 true
