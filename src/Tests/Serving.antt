-- ===== src/Tests/Serving.antt =====
-- The theorems on the server, applied to concrete inputs.
use car_detect.Prelude.{
  ℕ, ◌≡◌, refl, inl, inr, none, some, Bool, true, false, [], ◌∷◌, ◌++◌, Bytes, All, codes, arith,
}
use car_detect.Effect.{done, crash}
use car_detect.Tcp.{value}
use car_detect.Rtsp.Session.{ready}
use car_detect.Rtsp.Text.{is_space, skip_spaces, to_lower, begins, search, strstr}
use car_detect.Rtsp.Requests.{record_request}
use car_detect.Rtsp.Setup.{rtsp_parse_setup_response}
use car_detect.Media.Text.{lines, word_of, next_word, cut_at, strip, erase_front, erase_back, less}
use car_detect.Media.Requests.{parse_request, parse_lines, read_headers, add_header}
use car_detect.Media.Transport.{Transport, udp}
use car_detect.Media.Sessions.{
  UdpConnection, SessionManager, allocate_udp_ports, new_manager, generate_session_id,
}
use car_detect.Media.Sessions.Ids.{generate_session_id-injective}
use car_detect.Media.Connect.{null, udp_added, Server, unset, responded}
use car_detect.Media.Connect.Setup.{open_track, with_type, set_up_transport, choose_ports}
use car_detect.Media.Connect.Record.{names_session}
use car_detect.Media.Connect.Dispatch.{method_of, handle_request}
use car_detect.Media.Connect.Crashes.{handle_request-crash}
use car_detect.Media.Connect.States.{Step, handle_request-Step}
use car_detect.Media.Camera.Accepted.{recording, handle_request-record_request}
use car_detect.Media.Camera.Lines.{InWord}
use car_detect.Media.Camera.Agreed.{set_up_transport-agreed}
use car_detect.Tests.Machine.{pushing}

abbrev video_conn : UdpConnection
video_conn = record {
  local_ip = codes "10.0.0.1";
  local_port = 10000;
  peer_ip = codes "10.0.0.2";
  peer_port = 5004;
}

abbrev ready_server : Server
ready_server = record {
  connect = record {
    state = ready;
    client_ip = codes "10.0.0.2";
    server_ip = codes "10.0.0.1";
    session = record {
      session_id = codes "1a-2";
      video_rtp_conn = some video_conn;
      video_rtcp_conn = none;
      audio_rtp_conn = none;
      audio_rtcp_conn = none;
      transport_type = codes "UDP";
      stream_name = codes "1a-2";
    };
    sdp = [];
    cam_kcp = unset;
    kcp_running = false;
    kcp_thread = false;
  };
  manager = record { sessions = []; next_udp_port = 10002; session_counter = 2 };
  connected = true;
  events = [];
}

abbrev address : Bytes
address = codes "rtsp://10.0.0.1/s"

abbrev every_number : ℕ → Bool
every_number n = true

-- `removeCam` comes back.
abbrev every_session : Bytes → Bool
every_session id = true

address-InWord : All InWord address
unfolding is_space
address-InWord = (
  refl,
  (
    refl,
    (
      refl,
      (
        refl,
        (
          refl,
          (
            refl,
            (
              refl,
              (refl, (refl, (refl, (refl, (refl, (refl, (refl, (refl, (refl, (refl, tt)))))))))),
            ),
          ),
        ),
      ),
    ),
  ),
)

handle_request-record_request_example :
    handle_request every_number every_session
      (record_request address 4 (codes "1a-2") 3000000000)
      ready_server
    ≡ done (recording ready_server video_conn 3000000000 4)
handle_request-record_request_example =
    handle_request-record_request every_number every_session ready_server video_conn address 4
      3000000000 address-InWord (omega arith) (refl, (refl, (refl, (refl, tt)))) (omega arith)
      (omega arith) refl refl refl refl

handle_request-Step_example :
    Step
      (method_of (parse_request (record_request address 4 (codes "1a-2") 7)).method)
      ready
      (recording ready_server video_conn 7 4).connect.state
handle_request-Step_example =
    handle_request-Step every_number every_session (record_request address 4 (codes "1a-2") 7)
      ready_server (recording ready_server video_conn 7 4)
      (handle_request-record_request every_number every_session ready_server video_conn address 4 7
        address-InWord (omega arith) (refl, (refl, (refl, (refl, tt)))) (omega arith) (omega arith)
        refl refl refl refl)

abbrev teardown_text : Bytes
teardown_text =
    codes "TEARDOWN rtsp://10.0.0.1/s RTSP/1.0"
    ++ (13 ∷ 10 ∷ codes "CSeq: 5" ++ (13 ∷ 10 ∷ codes "Session: 1a-2" ++ (13 ∷ 10 ∷ 13 ∷ 10 ∷ [])))

-- The connection is closed by the client before KCP was set up.
handle_request-crash_example :
    handle_request every_number every_session teardown_text ready_server ≡ crash
unfolding parse_request parse_lines lines next_word word_of skip_spaces is_space read_headers
    add_header cut_at strip erase_front erase_back to_lower less method_of names_session strstr
    search begins
handle_request-crash_example =
    handle_request-crash every_number every_session teardown_text ready_server refl

-- KCP was set up, and has been released.
abbrev released_server : Server
released_server = record ready_server { connect = record ready_server.connect { cam_kcp = null } }

abbrev asked : Transport
asked = record {
  transport_type = udp;
  client_rtp_port = 5004;
  client_rtcp_port = 5005;
  server_rtp_port = 0;
  server_rtcp_port = 0;
  rtp_channel = 0;
  rtcp_channel = 0;
}

abbrev track : Bytes
track = codes "rtsp://10.0.0.1/s/trackID=0"

set_up_transport-agreed_example :
    let (rtp, rtcp) = (open_track track asked (with_type asked ready_server)).0 in
    let after = set_up_transport track 3 asked ready_server in
    (conn : UdpConnection) × (text : Bytes) × (after.events
      ≡ ready_server.events ++ (udp_added conn ∷ responded text ∷ []))
    × (after.connect.session.video_rtp_conn ≡ some conn)
    × (conn.peer_ip ≡ codes "10.0.0.2")
    × (conn.peer_port ≡ asked.client_rtp_port)
    × (let (s', r) = rtsp_parse_setup_response text pushing in
        (r ≡ value 0)
        × (s'.trans_type ≡ codes "udp")
        × (s'.server_rtp_port ≡ conn.local_port)
        × (s'.server_rtcp_port ≡ rtcp)
        × (s'.session_id ≡ codes "1a-2"))
unfolding open_track choose_ports allocate_udp_ports strstr search begins
set_up_transport-agreed_example =
    set_up_transport-agreed pushing track 3 asked ready_server refl refl refl
      (
        inl (omega arith, omega arith),
        (
          inr (inl (omega arith, omega arith)),
          (inr (inr refl), (inl (omega arith, omega arith), tt)),
        ),
      )
      (omega arith) (omega arith) (omega arith)

abbrev now : ℕ
now = 0x6650

-- A manager that has given out a port, too.
abbrev used_manager : SessionManager
used_manager = (allocate_udp_ports new_manager).1

generate_session_id-injective_example :
    (now ≡ now)
    × ((generate_session_id now new_manager).1.session_counter
        ≡ (generate_session_id now used_manager).1.session_counter)
unfolding generate_session_id new_manager allocate_udp_ports
generate_session_id-injective_example =
    generate_session_id-injective now now new_manager used_manager (omega arith) (omega arith) refl
