-- ===== src/Rtsp/Session.antt =====
-- camera/rtsp.h: the session, with its C names; camera/rtsp.c: `rtsp_session_init`, `next_seq`,
-- `rtsp_session_cleanup`.
use car_detect.Prelude.{ℕ, ◌+◌, ◌%◌, ◌^◌, Option, none, [], Bytes}
use car_detect.Effect.{Action, pure, ◌>>=◌}
use car_detect.Os.{Os}
use car_detect.Tcp.{TcpClient, tcp_close_client}
use car_detect.Udp.{UdpSocket, udp_close}

pub data RtspState : Type 0 where
  init ready playing : RtspState

-- `K` is the type of a KCP control block; `kcp` is `none` for a null pointer. The strings stand
-- without their terminators.
pub record RtspSession (K : Type 0) : Type 0 where
  pub client : TcpClient
  pub state : RtspState
  pub kcp : Option K
  pub session_id : Bytes
  pub cseq : ℕ
  pub rtp_port : ℕ
  pub rtcp_port : ℕ
  pub server_rtp_port : ℕ
  pub server_rtcp_port : ℕ
  pub rtp_socket : UdpSocket
  pub rtp_channel : ℕ
  pub rtcp_channel : ℕ
  pub rtp_ssrc : ℕ
  pub rtp_seq : ℕ
  pub rtp_timestamp : ℕ
  pub content_base : Bytes
  pub control_attr : Bytes
  pub setup_url : Bytes
  pub payload_type : ℕ
  pub clock_rate : ℕ
  pub trans_type : Bytes

module _ {K : Type 0} where
  -- All zero, but for the stream's source id and the two descriptors.
  unfoldable pub rtsp_session_init : RtspSession K
  rtsp_session_init = record {
    client = record { fd = none; addr = record { ip = 0; port = 0 } };
    state = init;
    kcp = none;
    session_id = [];
    cseq = 0;
    rtp_port = 0;
    rtcp_port = 0;
    server_rtp_port = 0;
    server_rtcp_port = 0;
    rtp_socket = record { fd = none; addr = record { ip = 0; port = 0 } };
    rtp_channel = 0;
    rtcp_channel = 0;
    rtp_ssrc = 0x12345678;
    rtp_seq = 0;
    rtp_timestamp = 0;
    content_base = [];
    control_attr = [];
    setup_url = [];
    payload_type = 0;
    clock_rate = 0;
    trans_type = [];
  }

  -- `atomic_fetch_add` on a counter of 64 bits (`uint_fast16_t` on aarch64), and its low 16 bits.
  unfoldable pub next_seq : RtspSession K → ℕ × RtspSession K
  next_seq s = (s.rtp_seq % 2 ^ 16, record s { rtp_seq = (s.rtp_seq + 1) % 2 ^ 64 })

  unfoldable pub rtsp_session_cleanup :
      (os : Os) → RtspSession K → Action (Os.World os) (RtspSession K)
  rtsp_session_cleanup os s = do
    udp ← udp_close os s.rtp_socket
    client ← tcp_close_client os s.client
    pure (record s { rtp_socket = udp; client = client; state = init })
