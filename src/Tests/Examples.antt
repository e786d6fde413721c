-- ===== src/Tests/Examples.antt =====
-- The theorems on the camera, applied to concrete inputs.
use car_detect.Prelude.{
  replicate, ℕ, ◌+◌, ◌*◌, ◌/◌, ◌≤◌, ◌<◌, ◌≡◌, refl, none, some, Bool, true, false, List, [], ◌∷◌,
  ◌++◌, map, Bytes, All, codes, length, arith,
}
use car_detect.Effect.{done, Ends}
use car_detect.Rtp.Packets.Contents.{Carries, rtp_send_h264-Carries}
use car_detect.Yuv.{Planes, yuv422p_to_yuv420p}
use car_detect.Yuv.Converted.{yuv422p_to_yuv420p-halved}
use car_detect.Client.Video.{send_frame}
use car_detect.Client.Video.Frames.{frame_packets, send_frame-frame_packets}
use car_detect.Client.Handshake.{handshake, cleanup}
use car_detect.Client.Handshake.Stages.{Reached}
use car_detect.Client.Handshake.Outcomes.{handshake-Reached}
use car_detect.Client.Handshake.Cleanup.{CleanedUp, cleanup-CleanedUp}
use car_detect.Tcp.{TcpClient, tcp_write, tcp_client_connect}
use car_detect.Tcp.Write.{tcp_write-Sent, tcp_write-Delivers, Delivers, Sent}
use car_detect.Tcp.Connection.{tcp_client_connect-Connected, Connected}
use car_detect.Rtsp.Session.{RtspSession, playing, rtsp_session_init}
use car_detect.Rtp.Header.{build_rtp_header, parse_rtp, parse-build_rtp_header}
use car_detect.Rtp.Send.{rtp_send_h264}
use car_detect.Rtp.Packets.{rtp_packets, send_all}
use car_detect.Rtp.Packets.Refinement.{rtp_send_h264-send_all}
use car_detect.AnnexB.{split_annexb_nalus, is_start_code3}
use car_detect.AnnexB.Views.{split_annexb_nalus-Between, Between}
use car_detect.AnnexB.Units.{IsNal, join_units, view_bytes}
use car_detect.AnnexB.RoundTrip.{split-join_units}
use car_detect.Client.Loop.{drain}
use car_detect.Kcp.{iclock}
use car_detect.Os.{readable}
use car_detect.Client.Loop.{LoopState, round, drive, on_activity}
use car_detect.Effect.{call, ◌>>=◌}
use car_detect.Client.Loop.Laws.{round-select, drain-feeds}
use car_detect.Tests.Machine.{
  Machine, machine_os, machine_kcp, quiet_os, quiet_os-quiet, machine_kcp-creates, machine_device,
  options, idle, pushing, machine_WriteLaws, machine_IsReliable, machine_FdLaws,
  machine_DatagramLaws,
}

abbrev idr_nalu : Bytes
idr_nalu = 0x65 ∷ 0x88 ∷ 0x84 ∷ []

rtp_send_h264-send_all_example :
    rtp_send_h264 machine_os machine_kcp 20 pushing 90000 idr_nalu
    ≡ send_all machine_os machine_kcp 20 pushing (rtp_packets 0 90000 0x12345678 idr_nalu)
unfolding rtsp_session_init
rtp_send_h264-send_all_example =
    rtp_send_h264-send_all machine_os machine_kcp 20 pushing 90000 idr_nalu

abbrev two_units : List (Bool × Bytes)
two_units = (true, 0x67 ∷ 0x42 ∷ []) ∷ (false, 0x68 ∷ 0 ∷ 0 ∷ 3 ∷ 1 ∷ []) ∷ []

two_units-IsNal : All (λ u. IsNal u.1) two_units
unfolding is_start_code3
two_units-IsNal = (ground arith, ((refl, (refl, (refl, ground arith))), tt))

split-join_units_example :
    map (view_bytes (join_units two_units)) (split_annexb_nalus (join_units two_units) 8)
    ≡ (0x67 ∷ 0x42 ∷ []) ∷ (0x68 ∷ 0 ∷ 0 ∷ 3 ∷ 1 ∷ []) ∷ []
split-join_units_example = split-join_units two_units 8 two_units-IsNal (omega arith)

split_annexb_nalus-Between_example :
    Between 0 (split_annexb_nalus (join_units two_units) 1) (length (join_units two_units))
    × (length (split_annexb_nalus (join_units two_units) 1) ≤ 1)
split_annexb_nalus-Between_example = split_annexb_nalus-Between (join_units two_units) 1

abbrev connected : TcpClient
connected = record { fd = some 3; addr = record { ip = 1; port = 8554 } }

abbrev hello : Bytes
hello = codes "OPTIONS * RTSP/1.0"

tcp_write-Sent_example :
    Sent machine_os machine_WriteLaws
      (some 3)
      (length hello)
      hello
      idle
      (tcp_write machine_os 4 connected hello idle)
tcp_write-Sent_example = tcp_write-Sent machine_os machine_WriteLaws 4 connected hello idle

tcp_write-Delivers_example :
    Delivers machine_os machine_WriteLaws
      (some 3)
      (length hello)
      hello
      idle
      (tcp_write machine_os 21 connected hello idle)
unfolding machine_IsReliable
tcp_write-Delivers_example =
    tcp_write-Delivers machine_os machine_WriteLaws 21 connected machine_IsReliable hello idle
      (omega arith)

tcp_client_connect-Connected_example :
    Connected machine_os machine_FdLaws idle
      (tcp_client_connect machine_os connected (codes "10.0.0.1") 8554 idle)
tcp_client_connect-Connected_example =
    tcp_client_connect-Connected machine_os machine_FdLaws connected (codes "10.0.0.1") 8554 idle

parse-build_rtp_header_example :
    parse_rtp (build_rtp_header 65535 90000 0x12345678 96 true ++ idr_nalu)
    ≡ some (record {
      vpxcc = 0x80;
      mpt = 224;
      marker = true;
      seq = 65535;
      timestamp = 90000;
      ssrc = 0x12345678;
      payload = idr_nalu;
    })
parse-build_rtp_header_example =
    parse-build_rtp_header 65535 90000 0x12345678 96 true idr_nalu (omega arith) (omega arith)
      (omega arith) (omega arith)

-- The loop at the time 0, when KCP's next update is due at 120.
abbrev looping : LoopState machine_os machine_kcp
looping = record { running = true; next_update = 120; session = pushing; response = [] }

round-select_example :
    (sec usec : ℕ) × (round machine_os machine_kcp 3 looping idle
      ≡ (call (λ (m : Machine). (readable false true, m))
            >>= on_activity machine_os machine_kcp 3 77 looping)
          idle)
    × (usec < 1000000)
    × (sec * 1000000 + usec ≡ 120000)
unfolding iclock drive
round-select_example =
    round-select machine_os machine_kcp 3 looping 77 0 120 idle idle idle refl refl refl

drain-feeds_example :
    (m : Machine) × (drain machine_os machine_kcp 3 pushing 77 idle ≡ done (tt, m))
    × (m.fed ≡ (1 ∷ 2 ∷ []) ∷ (3 ∷ []) ∷ [])
    × (m.queue ≡ [])
unfolding machine_DatagramLaws
drain-feeds_example =
    drain-feeds machine_os machine_kcp pushing 77 machine_DatagramLaws 3
      ((1 ∷ 2 ∷ []) ∷ (3 ∷ []) ∷ []) idle refl (omega arith, (omega arith, tt)) (omega arith)

abbrev starting : RtspSession ℕ
starting = record pushing { kcp = none }

handshake-Reached_example :
    Ends
      (Reached quiet_os machine_kcp options 0)
      (handshake quiet_os machine_kcp options 1024 starting [] idle)
unfolding rtsp_session_init
handshake-Reached_example =
    handshake-Reached quiet_os machine_kcp options machine_kcp-creates quiet_os-quiet 0 starting []
      idle (refl, refl, refl, omega arith)

abbrev streaming : RtspSession ℕ
streaming = record pushing { state = playing; session_id = codes "42a7" }

cleanup-CleanedUp_example :
    CleanedUp quiet_os machine_kcp options machine_device playing
      (cleanup quiet_os machine_kcp options machine_device 1024 streaming [] idle)
unfolding rtsp_session_init
cleanup-CleanedUp_example =
    cleanup-CleanedUp quiet_os machine_kcp options machine_device quiet_os-quiet streaming [] idle
      (77, refl) (omega arith)

send_frame-frame_packets_example :
    send_frame machine_os machine_kcp 20 pushing 1500 (join_units two_units)
    ≡ send_all machine_os machine_kcp 20 pushing
        (frame_packets 0 1500 0x12345678 ((0x67 ∷ 0x42 ∷ []) ∷ (0x68 ∷ 0 ∷ 0 ∷ 3 ∷ 1 ∷ []) ∷ []))
unfolding rtsp_session_init
send_frame-frame_packets_example =
    send_frame-frame_packets machine_os machine_kcp 20 pushing 1500 two_units two_units-IsNal
      (omega arith)

rtp_send_h264-Carries_example :
    (packets : List Bytes) × (rtp_send_h264 machine_os machine_kcp 20 pushing 1500
        (0x65 ∷ replicate 3000 7)
      ≡ send_all machine_os machine_kcp 20 pushing packets)
    × Carries 0x65 (replicate 3000 7) packets
    × All (λ p. length p ≤ 1396) packets
rtp_send_h264-Carries_example =
    rtp_send_h264-Carries machine_os machine_kcp 20 pushing 1500 0x65 (replicate 3000 7)
      (omega arith)

abbrev picture : Planes
picture = record {
  y_plane = λ i. i;
  u_plane = λ i. 2 * i;
  v_plane = λ i. 3 * i;
  stride_y = 8;
  stride_u = 4;
  stride_v = 4;
}

yuv422p_to_yuv420p-halved_example :
    let out = yuv422p_to_yuv420p picture picture 6 4 in
    ((y x : ℕ) → y < 4 → x < 6 → out.y_plane (y * 8 + x) ≡ y * 8 + x)
    × ((y x : ℕ)
        → y < 2
        → x < 3
        → out.u_plane (y * 4 + x)
          ≡ (picture.u_plane (2 * y * 4 + x) + picture.u_plane ((2 * y + 1) * 4 + x) + 1) / 2)
    × ((y x : ℕ)
        → y < 2
        → x < 3
        → out.v_plane (y * 4 + x)
          ≡ (picture.v_plane (2 * y * 4 + x) + picture.v_plane ((2 * y + 1) * 4 + x) + 1) / 2)
yuv422p_to_yuv420p-halved_example =
    yuv422p_to_yuv420p-halved picture picture 6 4 (omega arith) (omega arith) (omega arith)
