-- ===== src/Rtsp/Requests/Whole.antt =====
-- The requests of camera/rtsp.c are sent whole.
use car_detect.Prelude.{ℕ, ◌+◌, ◌≤◌, ◌<◌, ◌≡◌, Bytes, length, ap, ◌∙◌, Option, some, lt→ltb}
use car_detect.Rtsp.Requests.{
  options_request, describe_request, setup_request, teardown_request, announce_request,
  record_request, send_request, rtsp_client_options, rtsp_client_describe, rtsp_client_setup,
  rtsp_client_announce, rtsp_client_record, rtsp_client_teardown, record_for,
}
use car_detect.Effect.{Action, pure, ◌>>=◌}
use car_detect.Os.{Os}
use car_detect.Tcp.{Ret, TcpClient, tcp_write}
use car_detect.Kcp.{KcpLib}
use car_detect.Rtsp.Session.{RtspSession}
use car_detect.Rtsp.Requests.Lengths.{
  length-options_request, length-describe_request, length-setup_request, length-teardown_request,
  length-announce_request, length-record_request,
}

module _ (os : Os) (lib : KcpLib (Os.World os)) where
  abbrev Session : Type 0
  Session = RtspSession (KcpLib.Kcb lib)

  -- A request that goes out whole: its text is written, and the session's counter is one higher.
  abbrev pub Whole : ℕ → Session → Bytes → Action (Os.World os) (Session × Ret) → Type 0
  Whole fuel s text send =
      send ≡ (tcp_write os fuel s.client text >>= λ r. pure (record s { cseq = s.cseq + 1 }, r))

  send_request-fits :
      (fuel size : ℕ) (client : TcpClient) (text : Bytes)
      → length text < size
      → send_request os lib fuel size client text ≡ tcp_write os fuel client text
  unfolding send_request
  send_request-fits fuel size client text h = rw (lt→ltb (length text) size h)

  abbrev after : Session → Action (Os.World os) Ret → Action (Os.World os) (Session × Ret)
  after s m = m >>= λ r. pure (record s { cseq = s.cseq + 1 }, r)

  pub options-Whole :
      (fuel : ℕ) (s : Session) (url : Bytes)
      → length url ≤ 255
      → Whole fuel s (options_request url (s.cseq + 1)) (rtsp_client_options os lib fuel s url)
  unfolding rtsp_client_options
  options-Whole fuel s url hu =
      ap (after s)
        (send_request-fits fuel 512 s.client _ (length-options_request url (s.cseq + 1) hu))

  describe-Whole :
      (fuel : ℕ) (s : Session) (url : Bytes)
      → length url ≤ 255
      → Whole fuel s (describe_request url (s.cseq + 1)) (rtsp_client_describe os lib fuel s url)
  unfolding rtsp_client_describe
  describe-Whole fuel s url hu =
      ap (after s)
        (send_request-fits fuel 512 s.client _ (length-describe_request url (s.cseq + 1) hu))

  pub setup-Whole :
      (fuel : ℕ) (s : Session) (url transport : Bytes)
      → length url ≤ 255
      → length transport ≤ 64
      → Whole fuel s
          (setup_request url transport (s.cseq + 1))
          (rtsp_client_setup os lib fuel s url transport)
  unfolding rtsp_client_setup
  setup-Whole fuel s url transport hu ht = ap (after s) (
      send_request-fits fuel 512 s.client _ (length-setup_request url transport (s.cseq + 1) hu ht))

  pub announce-Whole :
      (fuel : ℕ) (s : Session) (url sdp : Bytes)
      → length url ≤ 255
      → length sdp ≤ 511
      → Whole fuel s
          (announce_request url sdp (s.cseq + 1))
          (rtsp_client_announce os lib fuel s url sdp)
  unfolding rtsp_client_announce
  announce-Whole fuel s url sdp hu hs =
      ap (after s) (
        send_request-fits fuel 1024 s.client _ (length-announce_request url sdp (s.cseq + 1) hu hs))

  pub record-Whole :
      (fuel : ℕ) (s : Session) (kcp : KcpLib.Kcb lib) (url : Bytes)
      → length url ≤ 255
      → length s.session_id ≤ 63
      → s.kcp ≡ some kcp
      → Whole fuel s
          (record_request url (s.cseq + 1) s.session_id (KcpLib.conv lib kcp))
          (rtsp_client_record os lib fuel s url)
  unfolding rtsp_client_record
  record-Whole fuel s kcp url hu hi hk =
      ap (λ (k : Option (KcpLib.Kcb lib)). record_for os lib k fuel s url) hk
      ∙ ap (after s) (
          send_request-fits fuel 512 s.client
            (record_request url (s.cseq + 1) s.session_id (KcpLib.conv lib kcp))
            (length-record_request url s.session_id (s.cseq + 1) (KcpLib.conv lib kcp) hu hi))

  pub teardown-Whole :
      (fuel : ℕ) (s : Session) (url : Bytes)
      → length url ≤ 255
      → length s.session_id ≤ 63
      → Whole fuel s
          (teardown_request url (s.cseq + 1) s.session_id)
          (rtsp_client_teardown os lib fuel s url)
  unfolding rtsp_client_teardown
  teardown-Whole fuel s url hu hi = ap (after s) (
      send_request-fits fuel 512 s.client _
        (length-teardown_request url s.session_id (s.cseq + 1) hu hi))

  -- For an address of at most 255 bytes (what `main` builds), a session id of at most 63, a
  -- transport of at most 64 and an SDP text of at most 511, every request fits its buffer: it is
  -- handed to `tcp_write` whole, no byte behind the buffer is read, and the counter goes up by one.
  pub requests-Whole :
      (fuel : ℕ) (s : Session) (kcp : KcpLib.Kcb lib) (url transport sdp : Bytes)
      → length url ≤ 255
      → length transport ≤ 64
      → length sdp ≤ 511
      → length s.session_id ≤ 63
      → s.kcp ≡ some kcp
      → let n = s.cseq + 1 in
        Whole fuel s (options_request url n) (rtsp_client_options os lib fuel s url)
        × Whole fuel s (describe_request url n) (rtsp_client_describe os lib fuel s url)
        × Whole fuel s
            (setup_request url transport n)
            (rtsp_client_setup os lib fuel s url transport)
        × Whole fuel s (announce_request url sdp n) (rtsp_client_announce os lib fuel s url sdp)
        × Whole fuel s
            (record_request url n s.session_id (KcpLib.conv lib kcp))
            (rtsp_client_record os lib fuel s url)
        × Whole fuel s
            (teardown_request url n s.session_id)
            (rtsp_client_teardown os lib fuel s url)
  requests-Whole fuel s kcp url transport sdp hu ht hs hi hk = (
    options-Whole fuel s url hu,
    describe-Whole fuel s url hu,
    setup-Whole fuel s url transport hu ht,
    announce-Whole fuel s url sdp hu hs,
    record-Whole fuel s kcp url hu hi hk,
    teardown-Whole fuel s url hu hi,
  )
