-- ===== src/Tests/Monitoring.antt =====
-- The theorems on the monitor server, applied to concrete inputs.
use car_detect.Prelude.{
  ℕ, ◌+◌, ◌%◌, ◌^◌, ◌≡◌, ◌≢◌, refl, some, Bool, true, false, List, [], ◌∷◌, ◌++◌, Bytes, codes,
  arith, inl, inr, All,
}
use car_detect.Effect.{done}
use car_detect.Os.{received}
use car_detect.Rtsp.Text.{is_space}
use car_detect.Media.Text.{map_find}
use car_detect.Media.Camera.Lines.{InWord}
use car_detect.Media.Camera.Ids.{IsHexByte}
use car_detect.Viewer.Client.{MonitorClient, new_viewer, on_ready_read}
use car_detect.Monitor.{
  Address, ViewerKcp, UdpSession, QtClient, Effect, sent, MonitorServer, new_monitor, fd_find,
}
use car_detect.Monitor.Viewers.{on_readable}
use car_detect.Monitor.Cameras.{add_cam}
use car_detect.Monitor.Joining.{
  at_test, at_lock, sleeps, wants_lock, begins, joined, joiner_holds, run_thread, run_joiner,
  take_turns,
}
use car_detect.Monitor.Joining.Ends.{running, close_client-joins, remove_cam-waits}
use car_detect.Monitor.System.{
  Stimulus, accepted, readable, datagrams, cam_came, cam_went, nalu_udp, react_all,
}
use car_detect.Monitor.System.Kept.{AllEnd, react_all-WellServed}
use car_detect.Monitor.System.Delivered.{Delivered}
use car_detect.Monitor.Conversation.ByViewer.{new_port, reply}
use car_detect.Monitor.Conversation.ByServer.{made_session}
use car_detect.Monitor.Conversation.Agreed.{added_text, add_cam-agreed}

close_client-joins_example :
    (take_turns false
      (((false ∷ true ∷ false ∷ []) ++ (true ∷ true ∷ false ∷ true ∷ true ∷ [])) ++ (false ∷ []))
      (running sleeps wants_lock)).joiner
    ≡ joined
close_client-joins_example =
    close_client-joins (false ∷ true ∷ false ∷ []) (true ∷ true ∷ false ∷ true ∷ true ∷ []) sleeps
      (omega arith) (omega arith)

-- The thread goes to the lock, and then removeCam takes it.
at_the_lock :
    take_turns true (true ∷ false ∷ []) (running at_test wants_lock) ≡ running at_lock begins
unfolding take_turns run_thread run_joiner
at_the_lock = refl

remove_cam-waits_example :
    let e =
      take_turns true
        (false ∷ true ∷ false ∷ true ∷ [])
        (record { kcp_running = true; thread = at_lock; joiner = begins }) in
    (e.joiner ≢ joined) × (e.thread ≡ at_lock) × (joiner_holds true e.joiner ≡ true)
remove_cam-waits_example = remove_cam-waits (false ∷ true ∷ false ∷ true ∷ []) true begins refl

abbrev all_made : ℕ → Bool
all_made conv = true

abbrev server_text : Bytes
server_text = codes "10.0.0.1:9000"

abbrev cam_id : Bytes
cam_id = codes "6650a-1"

abbrev some_day : List Stimulus
some_day =
    cam_came cam_id cam_id
    ∷ accepted 7 (codes "10.0.0.9")
    ∷ readable 7 (
        received (
          codes "MESSAGE 10.0.0.9:5000"
          ++ (13 ∷ 10 ∷ codes "6650a-1: 6000 6001 1001" ++ (13 ∷ 10 ∷ 13 ∷ 10 ∷ []))))
    ∷ datagrams [] ((0xe9 ∷ 3 ∷ 0 ∷ 0 ∷ 81 ∷ []) ∷ [])
    ∷ nalu_udp cam_id (1 ∷ 2 ∷ [])
    ∷ cam_went (9 ∷ []) cam_id
    ∷ []

react_all-WellServed_example :
    AllEnd some_day (react_all all_made some_day (new_monitor server_text))
react_all-WellServed_example = react_all-WellServed all_made some_day server_text

abbrev viewer_address : Address
viewer_address = record { ip = codes "10.0.0.9"; port = 6000 }

abbrev viewer_kcp : ViewerKcp
viewer_kcp = record { conv = 1001; user = viewer_address; interval = 10; wndsize = 256; mtu = 1450 }

abbrev viewer_session : UdpSession
viewer_session = record {
  video_udp_rtp = viewer_address;
  video_udp_rtcp = record { ip = codes "10.0.0.9"; port = 6001 };
  ikcp = some viewer_kcp;
  conv = 1001;
  kcp_running = true;
  kcp_thread = true;
}

abbrev viewer_at_7 : List (Bytes × UdpSession) → QtClient
viewer_at_7 sessions = record {
  tcp_fd = 7;
  client_ip = codes "10.0.0.9";
  session_map = sessions;
  buffer = [];
  cseq = 1;
}

abbrev monitor_with : List (Bytes × UdpSession) → MonitorServer
monitor_with sessions = record {
  qt_clients = (7, viewer_at_7 sessions) ∷ [];
  cams = [];
  server = server_text;
  effects = [];
}

abbrev datagram : Bytes
datagram = 0xe9 ∷ 3 ∷ 0 ∷ 0 ∷ 81 ∷ []

abbrev viewer : MonitorClient
viewer = new_viewer (codes "10.0.0.9:5000")

abbrev port_of : ℕ → ℕ
port_of i = (6000 + i) % 2 ^ 16

server_text-InWord : All InWord server_text
unfolding is_space
server_text-InWord = (
  refl,
  (
    refl,
    (refl, (refl, (refl, (refl, (refl, (refl, (refl, (refl, (refl, (refl, (refl, tt))))))))))),
  ),
)

viewer-InWord : All InWord viewer.local
unfolding is_space
viewer-InWord = (
  refl,
  (
    refl,
    (refl, (refl, (refl, (refl, (refl, (refl, (refl, (refl, (refl, (refl, (refl, tt))))))))))),
  ),
)

cam_id-IsHexByte : All IsHexByte cam_id
cam_id-IsHexByte = (
  inl (omega arith, omega arith),
  (
    inl (omega arith, omega arith),
    (
      inl (omega arith, omega arith),
      (
        inl (omega arith, omega arith),
        (
          inr (inl (omega arith, omega arith)),
          (inr (inr refl), (inl (omega arith, omega arith), tt)),
        ),
      ),
    ),
  ),
)

add_cam-agreed_example :
    ((before : List Effect) × (after : List Effect) × ((add_cam cam_id cam_id
          (monitor_with [])).effects
        ≡ [] ++ (before ++ (sent 7 (added_text server_text cam_id (viewer_at_7 [])) ∷ after))))
    × (v' : MonitorClient) × (on_ready_read port_of all_made
          (added_text server_text cam_id (viewer_at_7 []))
          viewer
        ≡ done v')
    × (map_find cam_id v'.cam_map ≡ some (new_port port_of viewer))
    × (v'.written ≡ viewer.written ++ (reply port_of cam_id viewer ∷ []))
    × (m' : MonitorServer) × (c' : QtClient) × (on_readable all_made 7
          (received (reply port_of cam_id viewer))
          (add_cam cam_id cam_id (monitor_with []))
        ≡ done m')
    × (fd_find 7 m'.qt_clients ≡ some c')
    × (map_find cam_id c'.session_map
        ≡ some (made_session (codes "10.0.0.9") (new_port port_of viewer)))
add_cam-agreed_example =
    add_cam-agreed all_made all_made port_of cam_id cam_id 7 (viewer_at_7 []) (monitor_with [])
      viewer tt server_text-InWord viewer-InWord tt cam_id-IsHexByte
      (omega arith, omega arith, omega arith) refl refl refl refl refl refl
