-- ===== src/Media/Camera/Accepted.antt =====
-- The camera's RECORD at the server: `rtsp_client_record` of camera/rtsp.c and `handleRecord` of
-- media/RtspConnect.cc.
use car_detect.Prelude.{
  ℕ, ◌^◌, ◌<◌, ◌≡◌, refl, ap, some, none, Bool, true, false, [], ◌∷◌, Bytes, All, length, ◌==◌,
  codes, ==_refl,
}
use car_detect.Effect.{done}
use car_detect.Rtsp.Session.{ready, playing}
use car_detect.Rtsp.Text.{decimal_signed, strstr, begins, search}
use car_detect.Rtsp.Requests.{record_request}
use car_detect.Media.Text.{map_find}
use car_detect.Media.Requests.{Headers, extract_cseq}
use car_detect.Media.Transport.{has}
use car_detect.Media.Sessions.{UdpConnection}
use car_detect.Media.Connect.{
  pointer, Server, emit, set_connect, set_state, udp_listens, send_response,
}
use car_detect.Media.Connect.Record.{
  names_session, cam_kcp_for, init_cam_kcp, kcp_of_header, run_thread, start_thread, with_kcp,
  listen, record_state, handle_record,
}
use car_detect.Media.Connect.Dispatch.{method_of, dispatch, handle_request}
use car_detect.Media.Camera.Numbers.{stoul-decimal_signed, atoi_u32-decimal}
use car_detect.Media.Camera.Lines.{InWord, IsValue}
use car_detect.Media.Camera.Recording.{record_headers, parse_request-record_request}

begins_self : (s : Bytes) → begins ◌==◌ s s ≡ true
unfolding begins
begins_self [] = refl
begins_self (c ∷ s) = rw (==_refl c) (begins_self s)

strstr_self : (s : Bytes) → strstr s s ≡ some s
unfolding strstr search
strstr_self [] = unfold begins in refl
strstr_self (c ∷ s) = rw (begins_self (c ∷ s)) refl

has_self : (s : Bytes) → has s s ≡ true
has_self s = ap (λ o. elim o [ none ↦ false | some rest ↦ true ]) (strstr_self s)

-- What the server becomes: it listens for the video with the camera's conversation number, its thread
-- runs, and it has answered.
abbrev pub recording : Server → UdpConnection → ℕ → ℕ → Server
recording w conn conv cseq =
    let c = record w.connect {
      cam_kcp = pointer (cam_kcp_for conv w.connect);
      kcp_running = true;
      kcp_thread = true;
    } in
    send_response 200 (codes "OK") ((codes "Session", w.connect.session.session_id) ∷ []) cseq
      (set_state playing (emit (udp_listens conn) (set_connect c w)))

module _ (creates : ℕ → Bool) (removes : Bytes → Bool) (w : Server) (conn : UdpConnection)
    (url : Bytes) (cseq conv : ℕ) where
  kcp_of_header-decimal_signed :
      conv < 2 ^ 32
      → creates conv ≡ true
      → kcp_of_header creates (some (decimal_signed conv)) w.connect
        ≡ done (record w.connect { cam_kcp = pointer (cam_kcp_for conv w.connect) })
  unfolding kcp_of_header init_cam_kcp
  kcp_of_header-decimal_signed small made =
      let (m, e, back) = stoul-decimal_signed conv small in rw (kcp_of_header, e, back, made) refl

  handle_record-recording :
      (headers : Headers)
      → conv < 2 ^ 32
      → creates conv ≡ true
      → w.connect.state ≡ ready
      → w.connect.kcp_thread ≡ false
      → w.connect.session.video_rtp_conn ≡ some conn
      → names_session headers w.connect.session ≡ true
      → map_find (codes "kcpid") headers ≡ some (decimal_signed conv)
      → handle_record creates headers cseq w ≡ done (recording w conn conv cseq)
  unfolding handle_record start_thread run_thread with_kcp listen record_state
  handle_record-recording headers small made st idle video named kcpid =
      rw (named, kcpid, kcp_of_header-decimal_signed small made, idle, video, st) refl

  -- The server, in the state READY with a socket for the video, no thread, and a control block to be
  -- had, takes the RECORD request that the camera makes for the server's session id, an address
  -- without white space and any conversation number of 32 bits: it returns, the state is PLAYING, its
  -- KCP has the camera's conversation number, it listens on the socket, and it answers 200 with the
  -- request's number.
  pub handle_request-record_request :
      All InWord url
      → 0 < length url
      → All IsValue w.connect.session.session_id
      → cseq < 2 ^ 32
      → conv < 2 ^ 32
      → creates conv ≡ true
      → w.connect.state ≡ ready
      → w.connect.kcp_thread ≡ false
      → w.connect.session.video_rtp_conn ≡ some conn
      → handle_request creates removes (record_request url cseq w.connect.session.session_id conv) w
        ≡ done (recording w conn conv cseq)
  unfolding handle_request dispatch method_of names_session extract_cseq
  handle_request-record_request hu full hs hc hv made st idle video =
      let sid = w.connect.session.session_id in
      let headers = record_headers url sid cseq conv hu full hs in
      let named : names_session headers w.connect.session ≡ true = has_self sid in
      let number : extract_cseq headers ≡ cseq = atoi_u32-decimal cseq hc in
      rw (parse_request-record_request url sid cseq conv hu full hs, number)
        (handle_record-recording headers hv made st idle video named refl)
