-- ===== src/Media/Connect.antt =====
-- media/RtspConnect.h and .cc: one connection of the server, from its construction to its release. The
-- threads' and the sockets' callbacks, and the response with a body, which nothing sends, are left out.
pub mod Setup
pub mod Record
pub mod Release
pub mod Dispatch
pub mod Answers
pub mod Replies
pub mod Crashes
pub mod States
use car_detect.Prelude.{
  ℕ, ◌+◌, ◌-◌, ◌%◌, ◌^◌, Option, none, some, Bool, true, false, ◌&&◌, List, [], ◌∷◌, ◌++◌, Bytes,
  ltb, ◌==◌, if◌then◌else◌, codes, str_eq,
}
use car_detect.Effect.{Outcome, done, crash, stuck}
use car_detect.Rtsp.Session.{RtspState, init, ready, playing}
use car_detect.Rtsp.Text.{decimal, decimal_signed, strstr}
use car_detect.Rtsp.Requests.{crlf}
use car_detect.Media.Text.{map_find, map_set, stoul}
use car_detect.Media.Requests.{Headers, Request, parse_request, extract_cseq, extract_body}
use car_detect.Media.Transport.{Transport, TransportType, udp, tcp, has, parse_transport}
use car_detect.Media.Sessions.{
  UdpConnection, MediaSession, SessionManager, generate_session_id, add_session, remove_session,
  allocate_udp_ports,
}

-- A KCP control block with what `initCamKcp` sets.
pub record CamKcp : Type 0 where
  pub conv : ℕ
  pub user : Option UdpConnection
  pub interval : ℕ
  pub wndsize : ℕ
  pub mtu : ℕ

-- The pointer `_camKcp`; the constructor leaves it unset.
pub data KcpPointer : Type 0 where
  unset null : KcpPointer
  pointer : CamKcp → KcpPointer

pub record RtspConnect : Type 0 where
  pub state : RtspState
  pub client_ip : Bytes
  pub server_ip : Bytes
  pub session : MediaSession
  pub sdp : Bytes
  pub cam_kcp : KcpPointer
  pub kcp_running : Bool
  pub kcp_thread : Bool

-- What the connection does to the outside: to the peer, the event loop, and the monitor server.
pub data Event : Type 0 where
  responded : Bytes → Event
  udp_added udp_listens udp_removed : UdpConnection → Event
  cam_added : Bytes → Bytes → Event
  cam_removed : Bytes → Event
  kcp_released : CamKcp → Event

-- A connection, the session manager that all share, whether the TCP connection is still there, and
-- what has been done so far.
pub record Server : Type 0 where
  pub connect : RtspConnect
  pub manager : SessionManager
  pub connected : Bool
  pub events : List Event

abbrev pub emit : Event → Server → Server
emit e w = record w { events = w.events ++ (e ∷ []) }

abbrev pub set_connect : RtspConnect → Server → Server
set_connect c w = record w { connect = c }

abbrev pub set_session : MediaSession → Server → Server
set_session s w = record w { connect = record w.connect { session = s } }

abbrev pub set_state : RtspState → Server → Server
set_state st w = record w { connect = record w.connect { state = st } }

-- The constructor. The manager's copy of the session is made before the name of the stream is set.
unfoldable pub new_connect : ℕ → Bytes → Bytes → SessionManager → Server
unfolding generate_session_id add_session
new_connect time client_ip server_ip m =
    let (id, m') = generate_session_id time m in
    let s : MediaSession = record {
      session_id = id;
      video_rtp_conn = none;
      video_rtcp_conn = none;
      audio_rtp_conn = none;
      audio_rtcp_conn = none;
      transport_type = [];
      stream_name = [];
    } in
    record {
      connect = record {
        state = init;
        client_ip = client_ip;
        server_ip = server_ip;
        session = record s { stream_name = id };
        sdp = [];
        cam_kcp = unset;
        kcp_running = false;
        kcp_thread = false;
      };
      manager = add_session s m';
      connected = true;
      events = cam_added id id ∷ [];
    }

unfoldable pub header_lines : Headers → Bytes
header_lines [] = []
header_lines ((k, v) ∷ more) = k ++ (codes ": " ++ (v ++ (crlf ++ header_lines more)))

unfoldable pub response_text : ℕ → Bytes → Headers → ℕ → Bytes
unfolding header_lines
response_text status text extra cseq =
    codes "RTSP/1.0 "
    ++ (decimal status
        ++ (b' ' ∷ text
            ++ (crlf
                ++ (codes "CSeq: "
                    ++ (decimal_signed cseq
                        ++ (crlf
                            ++ (codes "Server: RTSP Server/1.0"
                                ++ (crlf ++ (header_lines extra ++ crlf)))))))))

-- Nothing is sent when the TCP connection has gone.
unfoldable pub send_response : ℕ → Bytes → Headers → ℕ → Server → Server
unfolding response_text
send_response status text extra cseq w =
    if w.connected then emit (responded (response_text status text extra cseq)) w else w

unfoldable pub handle_options : ℕ → Server → Server
unfolding send_response
handle_options cseq w =
    send_response 200 (codes "OK")
      ((codes "Public", codes "OPTIONS, ANNOUNCE, SETUP, TEARDOWN, RECORD") ∷ []) cseq w

unfoldable pub handle_announce : Bytes → Headers → ℕ → Server → Server
unfolding send_response
handle_announce request headers cseq w =
    send_response 200 (codes "OK") [] cseq
      (set_connect (record w.connect { sdp = extract_body request headers }) w)
