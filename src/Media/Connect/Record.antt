-- ===== src/Media/Connect/Record.antt =====
-- media/RtspConnect.cc: `handleRecord` and `initCamKcp`.
use car_detect.Prelude.{
  ℕ, ◌%◌, ◌^◌, Option, none, some, Bool, true, false, [], ◌∷◌, Bytes, if◌then◌else◌, codes,
}
use car_detect.Effect.{Outcome, done, crash}
use car_detect.Rtsp.Session.{RtspState, init, ready, playing}
use car_detect.Media.Text.{map_find, stoul}
use car_detect.Media.Requests.{Headers}
use car_detect.Media.Transport.{has}
use car_detect.Media.Sessions.{UdpConnection, MediaSession}
use car_detect.Media.Connect.{
  KcpPointer, unset, null, pointer, CamKcp, pointer, RtspConnect, udp_listens, Server, emit,
  set_connect, set_state, send_response,
}

-- Whether the Session header holds the session's id.
unfoldable pub names_session : Headers → MediaSession → Bool
names_session headers s = elim (map_find (codes "session") headers) [
  | none ↦ false
  | some v ↦ has v s.session_id
]

-- The control block that `initCamKcp` sets up.
abbrev pub cam_kcp_for : ℕ → RtspConnect → CamKcp
cam_kcp_for conv c = record {
  conv = conv;
  user = c.session.video_rtp_conn;
  interval = 10;
  wndsize = 128;
  mtu = 1450;
}

-- `initCamKcp`: `creates` tells whether `ikcp_create` returns a control block for a number; a null
-- pointer is written through.
unfoldable pub init_cam_kcp : (ℕ → Bool) → ℕ → RtspConnect → Outcome RtspConnect
init_cam_kcp creates conv c =
    if creates conv then done (record c { cam_kcp = pointer (cam_kcp_for conv c) }) else crash

-- An exception of `std::stoul` is not caught.
unfoldable pub kcp_of_header : (ℕ → Bool) → Option Bytes → RtspConnect → Outcome RtspConnect
unfolding init_cam_kcp
kcp_of_header creates none c = done c
kcp_of_header creates (some v) c = elim (stoul v) [
  | none ↦ crash
  | some n ↦ init_cam_kcp creates (n % 2 ^ 32) c
]

-- The thread begins with `if (_camKcp)`, on a pointer that must have been set.
unfoldable pub run_thread : KcpPointer → RtspConnect → Outcome RtspConnect
run_thread unset c = crash
run_thread null c = done (record c { kcp_running = true; kcp_thread = true })
run_thread (pointer k) c = done (record c { kcp_running = true; kcp_thread = true })

-- The new thread; one that still runs must not be written over (`std::terminate`).
unfoldable pub start_thread : Outcome RtspConnect → Outcome RtspConnect
unfolding run_thread
start_thread (done c) = if c.kcp_thread then crash else run_thread c.cam_kcp c
start_thread _ = crash

-- The test of the state, the last thing that RECORD does.
unfoldable pub record_state : ℕ → Server → RtspState → Server
unfolding send_response
record_state cseq w init = send_response 455 (codes "Method Not Valid in This State") [] cseq w
record_state cseq w ready =
    send_response 200 (codes "OK") ((codes "Session", w.connect.session.session_id) ∷ []) cseq
      (set_state playing w)
record_state cseq w playing = send_response 455 (codes "Method Not Valid in This State") [] cseq w

-- `setMessageCallback` through a null pointer is a fault.
unfoldable pub listen : ℕ → Server → Option UdpConnection → Outcome Server
unfolding record_state
listen cseq w none = crash
listen cseq w (some conn) = done (record_state cseq (emit (udp_listens conn) w) w.connect.state)

unfoldable pub with_kcp : ℕ → Server → Outcome RtspConnect → Outcome Server
unfolding listen
with_kcp cseq w (done c) = listen cseq (set_connect c w) c.session.video_rtp_conn
with_kcp cseq w _ = crash

unfoldable pub handle_record : (ℕ → Bool) → Headers → ℕ → Server → Outcome Server
unfolding names_session kcp_of_header start_thread with_kcp send_response
handle_record creates headers cseq w =
    if names_session headers w.connect.session
    then with_kcp cseq w
        (start_thread (kcp_of_header creates (map_find (codes "kcpid") headers) w.connect))
    else done (send_response 454 (codes "Session Not Found") [] cseq w)
