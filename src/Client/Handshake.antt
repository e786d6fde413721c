-- ===== src/Client/Handshake.antt =====
-- camera/rtsp_client.c, lines 318 to 402: the RTSP handshake of `main`, and lines 523 to 541: its
-- cleanup. A `goto cleanup` is the result `false`.
pub mod Stages
mod Media
pub mod Outcomes
pub mod Cleanup
use car_detect.Prelude.{
  ℕ, zero, suc, Option, none, some, Bool, true, false, [], ◌∷◌, ◌++◌, Bytes, take, codes, str_eq,
  if◌then◌else◌,
}
use car_detect.Effect.{Action, pure, faults, ◌>>=◌, ◌>>◌}
use car_detect.Os.{Os}
use car_detect.Tcp.{Ret, value, minus_one}
use car_detect.Udp.{UdpSocket, udp_init}
use car_detect.Kcp.{KcpLib, act, kcp_init}
use car_detect.Rtsp.Session.{RtspSession, RtspState, init, ready, playing, rtsp_session_cleanup}
use car_detect.Rtsp.Text.{decimal}
use car_detect.Rtsp.Requests.{
  crlf, rtsp_client_options, rtsp_client_announce, rtsp_client_setup, rtsp_client_record,
  rtsp_client_teardown, rtsp_client_read_response,
}
use car_detect.Rtsp.Setup.{rtsp_parse_setup_response}
use car_detect.Client.Loop.{c_string}

-- What the command line sets, as far as the handshake reads it; `server_port` is not negative.
pub record Options : Type 0 where
  pub server_ip : Bytes
  pub server_port : ℕ
  pub url : Bytes
  pub trans_type : Bytes
  pub rtp_port : ℕ
  pub rtcp_port : ℕ

-- `char rtsp_url[256]`: `snprintf` cuts off what does not fit.
unfoldable pub rtsp_url : Options → Bytes
rtsp_url o =
    take 255 (codes "rtsp://" ++ (o.server_ip ++ (b':' ∷ (decimal o.server_port ++ o.url))))

abbrev pub sdp : Bytes
sdp =
    codes "v=0"
    ++ (crlf
        ++ (codes "o=- 0 0 IN IP4 0.0.0.0"
            ++ (crlf
                ++ (codes "s=RTSP Push"
                    ++ (crlf
                        ++ (codes "t=0 0"
                            ++ (crlf
                                ++ (codes "m=video 0 RTP/AVP 96"
                                    ++ (crlf
                                        ++ (codes "a=rtpmap:96 H264/90000"
                                            ++ (crlf
                                                ++ (codes "a=control:trackID=0" ++ crlf))))))))))))

unfoldable pub transport_of : Options → Bytes
transport_of o =
    if str_eq o.trans_type (codes "tcp")
    then codes "RTP/AVP/TCP;unicast;interleaved=0-1"
    else codes "RTP/AVP/UDP;unicast;client_port="
      ++ (decimal o.rtp_port ++ (b'-' ∷ decimal o.rtcp_port))

-- The thread and the camera, as far as the cleanup calls them. `pthread_join` comes back when the
-- thread has ended, waits for ever (`stuck`) for one that does not end, and is undefined (`crash`) on
-- the handle of a thread that was never made.
pub record Device (W : Type 0) : Type 0 where
  pub pthread_join : Action W (Unit {0})
  pub h264_encoder_cleanup : W → W
  pub v4l2_stream_off : W → W
  pub v4l2_cleanup : W → W

-- `n > 0`.
unfoldable pub positive : Ret → Bool
positive minus_one = false
positive (value zero) = false
positive (value (suc n)) = true

module _ (os : Os) (lib : KcpLib (Os.World os)) (o : Options) where
  open os use {World}
  open lib use {Kcb}

  abbrev pub Session : Type 0
  Session = RtspSession Kcb

  -- The session, what `response` holds, and whether the handshake goes on.
  abbrev pub Step : Type 0
  Step = Action World (Session × Bytes × Bool)

  -- A request, and the reading of the response to it.
  unfoldable pub answered : Session → Bytes → Ret → Step
  unfolding positive
  answered s response minus_one = pure (s, response, false)
  answered s response (value n) = do
    (got, response', eagain) ← rtsp_client_read_response os lib s response 2048
    pure (s, response', positive got)

  unfoldable pub exchange : Action World (Session × Ret) → Bytes → Step
  unfolding answered
  exchange request response = do (s, r) ← request; answered s response r

  unfoldable pub go_on : (Session → Bytes → Step) → Session → Bytes → Bool → Step
  go_on next s response true = next s response
  go_on next s response false = pure (s, response, false)

  unfoldable pub and_then : Step → (Session → Bytes → Step) → Step
  unfolding go_on
  and_then step next = do (s, response, ok) ← step; go_on next s response ok

  -- Behind the SETUP response: the parsing, the socket, and KCP.
  unfoldable pub start_kcp : Session → Bytes → UdpSocket → Ret → Step
  start_kcp s response udp minus_one = pure (record s { rtp_socket = udp }, response, false)
  start_kcp s response udp (value n) = do
    kcp ← kcp_init os lib udp
    pure (record s { rtp_socket = udp; state = ready; kcp = some kcp }, response, true)

  unfoldable pub open_socket : Session → Bytes → Ret → Step
  unfolding start_kcp
  open_socket s response minus_one = pure (s, response, false)
  open_socket s response (value n) = do
    (udp, r) ← udp_init os s.rtp_socket (some o.server_ip) s.server_rtp_port
    start_kcp s response udp r

  unfoldable pub open_media : Session → Bytes → Step
  unfolding open_socket
  open_media s response =
      let (s1, parsed) = rtsp_parse_setup_response (c_string response) s in
      open_socket s1 response parsed

  -- The four parts of the handshake, each with what follows it; `fuel` bounds the calls of write(2)
  -- for a request.
  unfoldable pub start_recording : ℕ → Session → Bytes → Step
  unfolding exchange and_then
  start_recording fuel s response =
      and_then (exchange (rtsp_client_record os lib fuel s (rtsp_url o)) response)
        (λ s response. pure (record s { state = playing }, response, true))

  unfoldable pub set_up : ℕ → Session → Bytes → Step
  unfolding exchange and_then open_media start_recording
  set_up fuel s response =
      and_then (exchange (rtsp_client_setup os lib fuel s (rtsp_url o) (transport_of o)) response)
        (λ s response. and_then (open_media s response) (start_recording fuel))

  unfoldable pub announce : ℕ → Session → Bytes → Step
  unfolding exchange and_then set_up
  announce fuel s response =
      and_then (exchange (rtsp_client_announce os lib fuel s (rtsp_url o) sdp) response)
        (set_up fuel)

  unfoldable pub handshake : ℕ → Session → Bytes → Step
  unfolding exchange and_then announce
  handshake fuel s response =
      and_then (exchange (rtsp_client_options os lib fuel s (rtsp_url o)) response) (announce fuel)

  -- TEARDOWN, whose result and response are dropped.
  unfoldable pub farewell : ℕ → Session → Bytes → Action World Session
  farewell fuel s response = do
    (s', r) ← rtsp_client_teardown os lib fuel s (rtsp_url o)
    (n, response', eagain) ← rtsp_client_read_response os lib s' response 2048
    pure s'

  unfoldable pub tear_down : RtspState → ℕ → Session → Bytes → Action World Session
  unfolding farewell
  tear_down init fuel s response = pure s
  tear_down ready fuel s response = farewell fuel s response
  tear_down playing fuel s response = farewell fuel s response

  -- `ikcp_release` asserts that its argument is no null pointer, which ends the program.
  unfoldable pub release : Option Kcb → Action World (Unit {0})
  release none = faults
  release (some kcp) = act (KcpLib.ikcp_release lib kcp)

  unfoldable pub join_video : Device World → RtspState → Action World (Unit {0})
  join_video dev init = pure tt
  join_video dev ready = pure tt
  join_video dev playing = Device.pthread_join dev

  -- Behind TEARDOWN.
  unfoldable pub close_all : Device World → Session → Action World Session
  unfolding release join_video
  close_all dev s = do
    join_video dev s.state
    act (Device.h264_encoder_cleanup dev)
    act (Device.v4l2_stream_off dev)
    act (Device.v4l2_cleanup dev)
    s' ← rtsp_session_cleanup os s
    release s'.kcp
    pure s'

  unfoldable pub cleanup : Device World → ℕ → Session → Bytes → Action World Session
  unfolding tear_down close_all
  cleanup dev fuel s response = do s' ← tear_down s.state fuel s response; close_all dev s'
