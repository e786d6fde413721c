-- ===== src/Client/Handshake/Outcomes.antt =====
-- How the handshake of camera/rtsp_client.c ends.
use car_detect.Prelude.{
  ℕ, ◌+◌, ◌≤◌, ◌<◌, ◌≡◌, ◌≢◌, refl, Option, some, Bool, true, Bytes, length, arith,
}
use car_detect.Effect.{Action, pure, Ends, Ends-bind}
use car_detect.Os.{Os, interrupted}
use car_detect.Tcp.{Ret}
use car_detect.Tcp.Write.{tcp_write-Ends}
use car_detect.Udp.{UdpSocket}
use car_detect.Kcp.{KcpLib}
use car_detect.Rtsp.Session.{RtspSession, RtspState, init, ready, playing}
use car_detect.Rtsp.Requests.{
  rtsp_client_options, rtsp_client_announce, rtsp_client_setup, rtsp_client_record, options_request,
  announce_request, setup_request, record_request,
}
use car_detect.Rtsp.Requests.Lengths.{
  length-options_request, length-announce_request, length-setup_request, length-record_request,
}
use car_detect.Rtsp.Requests.Whole.{Whole, options-Whole, announce-Whole, setup-Whole, record-Whole}
use car_detect.Client.Handshake.{
  Options, rtsp_url, transport_of, sdp, exchange, and_then, open_media, start_recording, set_up,
  announce, handshake,
}
use car_detect.Client.Handshake.Stages.{
  length-rtsp_url, length-transport_of, init_playing, ready_playing, At, Reached, exchange-At,
  and_then-Reached, Whole-At,
}
use car_detect.Client.Handshake.Media.{Opened, open_media-Opened, go_on-Opened}

module _ (os : Os) (lib : KcpLib (Os.World os)) (o : Options) where
  abbrev Session : Type 0
  Session = RtspSession (KcpLib.Kcb lib)

  module _
      (creates : (conv : ℕ) (udp : UdpSocket) (w : Os.World os)
        → (k : KcpLib.Kcb lib) × ((KcpLib.ikcp_create lib conv udp w).0 ≡ some k)) where
    module _
        (quiet : (fd : Option ℕ) (buf : Bytes) (w : Os.World os)
          → (Os.write os fd buf w).0 ≢ interrupted) where
      -- A request of the handshake, and what follows it.
      request-Reached :
          (c d : ℕ) (st : RtspState) (s : Session) (text response : Bytes)
          (send : Action (Os.World os) (Session × Ret))
          (next : Session → Bytes → Action (Os.World os) (Session × Bytes × Bool)) (w : Os.World os)
          → st ≢ playing
          → c ≤ d
          → d < c + 4
          → At os lib o st d s
          → Whole os lib 1024 s text send
          → length text < 1024
          → ((s' : Session) (response' : Bytes) (v : Os.World os)
              → At os lib o st (d + 1) s'
              → Ends (Reached os lib o c) (next s' response' v))
          → Ends (Reached os lib o c) (and_then os lib o (exchange os lib o send response) next w)
      request-Reached c d st s text response send next w np lo hi at' whole short k =
          and_then-Reached os lib o c (d + 1) st (exchange os lib o send response) next w np
            (omega arith) (omega arith)
            (exchange-At os lib o st (d + 1) send response w (
              Whole-At os lib o st d 1024 s text send w whole
                (tcp_write-Ends os quiet 1024 s.client text w short) at'))
            k

      start_recording-Reached :
          (c : ℕ) (s : Session) (response : Bytes) (w : Os.World os)
          → At os lib o ready (c + 3) s
          → Ends (Reached os lib o c) (start_recording os lib o 1024 s response w)
      unfolding start_recording
      start_recording-Reached c s response w (e, (kcp, ek), n, id) =
          let url = rtsp_url o in
          let short =
            length-record_request url s.session_id (s.cseq + 1) (KcpLib.conv lib kcp)
              (length-rtsp_url o) id in
          request-Reached c (c + 3) ready s
            (record_request url (s.cseq + 1) s.session_id (KcpLib.conv lib kcp)) response
            (rtsp_client_record os lib 1024 s url)
            (λ s response. pure (record s { state = playing }, response, true)) w ready_playing
            (omega arith) (omega arith) (e, (kcp, ek), n, id)
            (record-Whole os lib 1024 s kcp url (length-rtsp_url o) id ek) (omega (arith, short))
            (λ s' response' v (e', held', n', id'). (refl, held', omega (arith, n'), id'))

      set_up-Reached :
          (c : ℕ) (s : Session) (response : Bytes) (w : Os.World os)
          → At os lib o init (c + 2) s
          → Ends (Reached os lib o c) (set_up os lib o 1024 s response w)
      unfolding set_up and_then
      set_up-Reached c s response w at' =
          let url = rtsp_url o in
          let short =
            length-setup_request url (transport_of o) (s.cseq + 1) (length-rtsp_url o)
              (length-transport_of o) in
          request-Reached c (c + 2) init s (setup_request url (transport_of o) (s.cseq + 1))
            response (rtsp_client_setup os lib 1024 s url (transport_of o))
            (λ s response.
              and_then os lib o (open_media os lib o s response) (start_recording os lib o 1024))
            w init_playing (omega arith) (omega arith) at'
            (setup-Whole os lib 1024 s url (transport_of o) (length-rtsp_url o)
              (length-transport_of o))
            (omega (arith, short))
            (λ s1 r1 v (e1, h1, n1, i1).
              Ends-bind (Opened os lib o (c + 3)) (Reached os lib o c) (open_media os lib o s1 r1) _
                v
                (open_media-Opened os lib o creates (c + 3) s1 r1 v (e1, h1, omega (arith, n1), i1))
                (λ (s2, r2, ok) u at2.
                  go_on-Opened os lib o creates c (start_recording os lib o 1024) s2 r2 ok u at2
                    (start_recording-Reached c s2 r2 u)))

      announce-Reached :
          (c : ℕ) (s : Session) (response : Bytes) (w : Os.World os)
          → At os lib o init (c + 1) s
          → Ends (Reached os lib o c) (announce os lib o 1024 s response w)
      unfolding announce
      announce-Reached c s response w at' =
          let url = rtsp_url o in
          request-Reached c (c + 1) init s (announce_request url sdp (s.cseq + 1)) response
            (rtsp_client_announce os lib 1024 s url sdp) (set_up os lib o 1024) w init_playing
            (omega arith) (omega arith) at'
            (announce-Whole os lib 1024 s url sdp (length-rtsp_url o) (omega arith))
            (length-announce_request url sdp (s.cseq + 1) (length-rtsp_url o) (omega arith))
            (λ s1 r1 v (e1, h1, n1, i1). set_up-Reached c s1 r1 v (e1, h1, omega (arith, n1), i1))

      -- Where no `write` is interrupted and KCP can be created, the handshake of a fresh session
      -- comes back, without undefined behaviour, within 1024 calls of `write` for a request. With
      -- success the session is playing, has a KCP control block, and has sent four requests; with a
      -- failure it is not playing, has sent one to four, and has a control block just when it is past
      -- the initial state.
      pub handshake-Reached :
          (c : ℕ) (s : Session) (response : Bytes) (w : Os.World os)
          → At os lib o init c s
          → Ends (Reached os lib o c) (handshake os lib o 1024 s response w)
      unfolding handshake
      handshake-Reached c s response w at' =
          let url = rtsp_url o in
          let short = length-options_request url (s.cseq + 1) (length-rtsp_url o) in
          request-Reached c c init s (options_request url (s.cseq + 1)) response
            (rtsp_client_options os lib 1024 s url) (announce os lib o 1024) w init_playing
            (omega arith) (omega arith) at' (options-Whole os lib 1024 s url (length-rtsp_url o))
            (omega (arith, short)) (announce-Reached c)
