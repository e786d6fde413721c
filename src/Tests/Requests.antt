-- ===== src/Tests/Requests.antt =====
-- The theorems on requests and responses of camera/rtsp.c, applied to concrete inputs.
use car_detect.Prelude.{
  List, Bool, true, not, ◌&&◌, ◌≤◌, ◌≡◌, refl, none, [], ◌∷◌, ◌++◌, Bytes, All, ◌↔◌, codes, length,
  arith,
}
use car_detect.Tcp.{value, minus_one}
use car_detect.Rtsp.Session.{rtsp_session_init}
use car_detect.Rtsp.Requests.Whole.{Whole, requests-Whole}
use car_detect.Rtsp.Requests.{
  options_request, describe_request, setup_request, announce_request, record_request,
  teardown_request, rtsp_client_options, rtsp_client_describe, rtsp_client_setup,
  rtsp_client_announce, rtsp_client_record, rtsp_client_teardown,
}
use car_detect.Rtsp.Setup.{rtsp_parse_setup_response, session_id_in}
use car_detect.Rtsp.Setup.Transport.{
  IsIdByte, session_id_in-IsIdByte, rtsp_parse_setup_response-udp, rtsp_parse_setup_response-tcp,
  rtsp_parse_setup_response-fails,
}
use car_detect.Rtsp.Text.{strcasestr, is_digit, decimal, starts_with}
use car_detect.Tests.Machine.{machine_os, machine_kcp, pushing}
use car_detect.Rtsp.Describe.{is_end, setup_url_for}
use car_detect.Rtsp.Describe.Sdp.{SdpLine, control, rtpmap, other, sdp_text}

abbrev udp_response : Bytes
udp_response =
    codes "RTSP/1.0 200 OK"
    ++ (13 ∷ 10 ∷ codes "Session: 42a7;timeout=60"
        ++ (13 ∷ 10 ∷ codes "Transport: RTP/AVP;server_port=6970-6971" ++ (13 ∷ 10 ∷ [])))

abbrev tcp_response : Bytes
tcp_response =
    codes "Session:  9"
    ++ (13 ∷ 10 ∷ codes "Transport: RTP/AVP/TCP;interleaved=2-3" ++ (13 ∷ 10 ∷ []))

session_id_in-IsIdByte_example :
    All IsIdByte (session_id_in udp_response) × (length (session_id_in udp_response) ≤ 63)
session_id_in-IsIdByte_example = session_id_in-IsIdByte udp_response

rtsp_parse_setup_response-udp_example :
    let (s', r) = rtsp_parse_setup_response udp_response pushing in
    (r ≡ value 0)
    × (s'.trans_type ≡ codes "udp")
    × (s'.server_rtp_port ≡ 6970)
    × (s'.server_rtcp_port ≡ 6971)
    × (s'.rtp_channel ≡ 0)
    × (s'.rtcp_channel ≡ 0)
    × (s'.session_id ≡ session_id_in udp_response)
rtsp_parse_setup_response-udp_example =
    rtsp_parse_setup_response-udp pushing udp_response 6970 6971 (13 ∷ 10 ∷ [])
      (unfold strcasestr decimal in refl) (omega arith) (omega arith) (unfold is_digit in refl)

rtsp_parse_setup_response-tcp_example :
    let (s', r) = rtsp_parse_setup_response tcp_response pushing in
    (r ≡ value 0)
    × (s'.trans_type ≡ codes "tcp")
    × (s'.rtp_channel ≡ 2)
    × (s'.rtcp_channel ≡ 3)
    × (s'.server_rtp_port ≡ 0)
    × (s'.server_rtcp_port ≡ 0)
    × (s'.session_id ≡ session_id_in tcp_response)
rtsp_parse_setup_response-tcp_example =
    rtsp_parse_setup_response-tcp pushing tcp_response 2 3 (13 ∷ 10 ∷ [])
      (unfold strcasestr decimal in refl) (unfold strcasestr decimal in refl) (omega arith)
      (omega arith) (unfold is_digit in refl)

abbrev refusal : Bytes
refusal = codes "RTSP/1.0 461 Unsupported Transport"

rtsp_parse_setup_response-fails_example :
    ((rtsp_parse_setup_response refusal pushing).1 ≡ minus_one) ↔ (
      (strcasestr refusal (codes "server_port=") ≡ none)
      × (strcasestr refusal (codes "interleaved=") ≡ none)
      × ((rtsp_parse_setup_response refusal pushing).0.trans_type ≡ []))
rtsp_parse_setup_response-fails_example = rtsp_parse_setup_response-fails pushing refusal

abbrev stream_url : Bytes
stream_url = codes "rtsp://10.0.0.1:8554/live"

abbrev over_tcp : Bytes
over_tcp = codes "RTP/AVP/TCP;unicast;interleaved=0-1"

abbrev short_sdp : Bytes
short_sdp = codes "v=0"

requests-Whole_example :
    Whole machine_os machine_kcp 90 pushing
      (options_request stream_url 1)
      (rtsp_client_options machine_os machine_kcp 90 pushing stream_url)
    × Whole machine_os machine_kcp 90 pushing
        (describe_request stream_url 1)
        (rtsp_client_describe machine_os machine_kcp 90 pushing stream_url)
    × Whole machine_os machine_kcp 90 pushing
        (setup_request stream_url over_tcp 1)
        (rtsp_client_setup machine_os machine_kcp 90 pushing stream_url over_tcp)
    × Whole machine_os machine_kcp 90 pushing
        (announce_request stream_url short_sdp 1)
        (rtsp_client_announce machine_os machine_kcp 90 pushing stream_url short_sdp)
    × Whole machine_os machine_kcp 90 pushing
        (record_request stream_url 1 [] 77)
        (rtsp_client_record machine_os machine_kcp 90 pushing stream_url)
    × Whole machine_os machine_kcp 90 pushing
        (teardown_request stream_url 1 [])
        (rtsp_client_teardown machine_os machine_kcp 90 pushing stream_url)
unfolding rtsp_session_init
requests-Whole_example =
    requests-Whole machine_os machine_kcp 90 pushing 77 stream_url over_tcp short_sdp (omega arith)
      (omega arith) (omega arith) (omega arith) refl

-- A DESCRIBE response.
abbrev live_sdp : List SdpLine
live_sdp =
    other (codes "m=video 0 RTP/AVP 96")
    ∷ rtpmap 96 (codes "H264") 90000
    ∷ control (codes "trackID=0")
    ∷ []

abbrev behind_base : Bytes
behind_base = 10 ∷ 13 ∷ 10 ∷ sdp_text live_sdp

abbrev live_response : Bytes
live_response =
    codes "RTSP/1.0 200 OK"
    ++ (13 ∷ 10 ∷ codes "Content-Base: " ++ (stream_url ++ (13 ∷ behind_base)))

-- No blank and no end of a line, by evaluation.
abbrev no_end : Bytes → Bool
no_end [] = true
no_end (c ∷ s) = not (is_end c) && no_end s

setup_url_for_track :
    setup_url_for stream_url (codes "trackID=0") ≡ codes "rtsp://10.0.0.1:8554/live/trackID=0"
unfolding setup_url_for starts_with
setup_url_for_track = refl
