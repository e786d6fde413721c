-- ===== src/Media/Transport.antt =====
-- media/RtspConnect.cc: `parseTransport`, the Transport header of a SETUP request.
use car_detect.Prelude.{
  ℕ, ◌%◌, ◌^◌, Option, none, some, Bool, true, false, ◌&&◌, ◌||◌, Bytes, drop, ltb, if◌then◌else◌,
  codes,
}
use car_detect.Rtsp.Text.{strstr, strtol_u16}
use car_detect.Media.Text.{cut_at, strip, is_blank2}

pub data TransportType : Type 0 where
  udp tcp : TransportType

pub record Transport : Type 0 where
  pub transport_type : TransportType
  pub client_rtp_port : ℕ
  pub client_rtcp_port : ℕ
  pub server_rtp_port : ℕ
  pub server_rtcp_port : ℕ
  pub rtp_channel : ℕ
  pub rtcp_channel : ℕ

-- Whether the text is found: `find(…) != npos`.
abbrev pub has : Bytes → Bytes → Bool
has s pat = elim (strstr s pat) [ none ↦ false | some rest ↦ true ]

-- `substr(0, find(";"))`.
abbrev pub before_semicolon : Bytes → Bytes
before_semicolon s = elim (cut_at b';' s) [ none ↦ s | some (before, behind) ↦ before ]

-- A number between blanks, in 16 bits; what `atoi` returns is cut.
abbrev pub number : Bytes → ℕ
number s = strtol_u16 (strip is_blank2 s)

-- The two numbers behind the keyword, which is twelve bytes: up to the '-', and up to the ';'. Without
-- a '-' they stay 0.
unfoldable pub pair_behind : Bytes → ℕ × ℕ
unfolding cut_at strip strtol_u16
pair_behind s = elim (cut_at b'-' s) [
  | none ↦ (0, 0)
  | some (first, second) ↦ (number first, number (before_semicolon second))
]

unfoldable pub pair_after : Bytes → Bytes → ℕ × ℕ
unfolding pair_behind
pair_after transport keyword = elim (strstr transport keyword) [
  | none ↦ (0, 0)
  | some rest ↦ pair_behind (drop 12 rest)
]

unfoldable pub udp_transport : Bytes → Option Transport
unfolding pair_after
udp_transport transport =
    let (client_rtp, client_rtcp) = pair_after transport (codes "client_port=") in
    let (server_rtp, server_rtcp) = pair_after transport (codes "server_port=") in
    if ltb 0 client_rtp && ltb 0 client_rtcp
    then some (record {
      transport_type = udp;
      client_rtp_port = client_rtp;
      client_rtcp_port = client_rtcp;
      server_rtp_port = server_rtp;
      server_rtcp_port = server_rtcp;
      rtp_channel = 0;
      rtcp_channel = 0;
    })
    else none

unfoldable pub tcp_transport : Bytes → Transport
unfolding pair_after
tcp_transport transport =
    let (rtp, rtcp) = pair_after transport (codes "interleaved=") in
    record {
      transport_type = tcp;
      client_rtp_port = 0;
      client_rtcp_port = 0;
      server_rtp_port = 0;
      server_rtcp_port = 0;
      rtp_channel = rtp % 2 ^ 8;
      rtcp_channel = rtcp % 2 ^ 8;
    }

-- `none` is the result false.
unfoldable pub parse_transport : Bytes → Option Transport
unfolding udp_transport tcp_transport
parse_transport transport =
    if has transport (codes "RTP/AVP/UDP") || has transport (codes "RTP/AVP;UDP")
    then udp_transport transport
    else if has transport (codes "RTP/AVP/TCP") || has transport (codes "RTP/AVP;TCP")
    then some (tcp_transport transport)
    else none
