-- ===== src/Media/Connect/Release.antt =====
-- media/RtspConnect.cc: `handleTeardown` and `releaseSession`.
use car_detect.Prelude.{Bytes, Bool, ℕ, Option, none, some, false, [], if◌then◌else◌, codes}
use car_detect.Effect.{stuck, Outcome, done, crash, stuck}
use car_detect.Media.Requests.{Headers}
use car_detect.Media.Sessions.{UdpConnection, MediaSession, remove_session}
use car_detect.Media.Connect.{
  KcpPointer, unset, null, pointer, udp_removed, cam_removed, kcp_released, Server, emit,
  set_connect, send_response,
}
use car_detect.Media.Connect.Record.{names_session}

unfoldable pub remove_conn : Option UdpConnection → Server → Server
remove_conn none w = w
remove_conn (some conn) w = emit (udp_removed conn) w

-- `if (_camKcp)` on the pointer; reading it before it is set is undefined.
unfoldable pub release_kcp : KcpPointer → Server → Outcome Server
release_kcp unset w = crash
release_kcp null w = done w
release_kcp (pointer k) w =
    done (emit (kcp_released k) (set_connect (record w.connect { cam_kcp = null }) w))

unfoldable pub release_conns : MediaSession → Server → Server
unfolding remove_conn remove_session
release_conns s w =
    let w1 = remove_conn s.audio_rtcp_conn (
      remove_conn s.audio_rtp_conn
        (remove_conn s.video_rtcp_conn (remove_conn s.video_rtp_conn w))) in
    record w1 { manager = remove_session s.session_id w1.manager }

abbrev pub map_done : (Server → Server) → Outcome Server → Outcome Server
map_done f (done w) = done (f w)
map_done f crash = crash
map_done f stuck = stuck

-- `removeCam` has come back: the monitor server has forgotten the camera. The thread is told to end and
-- joined; it takes no lock but `_kcpMutex`, which is free here.
abbrev pub begin_release : Server → Server
begin_release w =
    emit (cam_removed w.connect.session.session_id)
      (set_connect (record w.connect { kcp_running = false; kcp_thread = false }) w)

-- `releaseSession`: on TEARDOWN, and when the TCP connection is closed. `removes` tells for which
-- session `removeCam` of the monitor server comes back, which can wait for ever.
unfoldable pub release_session : (Bytes → Bool) → Server → Outcome Server
unfolding release_kcp release_conns
release_session removes w =
    if removes w.connect.session.session_id
    then map_done (release_conns w.connect.session)
        (release_kcp w.connect.cam_kcp (begin_release w))
    else stuck

unfoldable pub handle_teardown : (Bytes → Bool) → Headers → ℕ → Server → Outcome Server
unfolding names_session release_session send_response
handle_teardown removes headers cseq w =
    if names_session headers w.connect.session
    then map_done (send_response 200 (codes "OK") [] cseq) (release_session removes w)
    else done (send_response 454 (codes "Session Not Found") [] cseq w)
