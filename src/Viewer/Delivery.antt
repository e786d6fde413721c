-- ===== src/Viewer/Delivery.antt =====
-- From the encoder of the camera to the decoder of the viewer: `video_stream_thread` of
-- camera/rtsp_client.c sends a picture, and `H264RtpReassembler` of car_detect_qt takes its packets.
use car_detect.Prelude.{
  ℕ, ◌+◌, ◌-◌, ◌%◌, ◌^◌, ◌≤◌, ◌<◌, ◌≡◌, refl, List, ◌++◌, map, Bytes, All, length,
}
use car_detect.Os.{Os}
use car_detect.Kcp.{KcpLib}
use car_detect.Rtsp.Session.{RtspSession}
use car_detect.Rtp.Header.{IsU32}
use car_detect.Rtp.Packets.{send_all}
use car_detect.AnnexB.Units.{IsNal, Unit4, join_units}
use car_detect.Client.Video.{send_frame}
use car_detect.Client.Video.Frames.{frame_packets, send_frame-frame_packets}
use car_detect.Viewer.Reassembler.{Reassembler, handle_all}
use car_detect.Viewer.Reassembler.Arrivals.{Follows}
use car_detect.Viewer.Reassembler.Runs.{Idle}
use car_detect.Viewer.Reassembler.Pictures.{
  IsSendable, IsPicture, Complete, with_codes, handle_all-picture,
}

-- A picture of at most 32 units, none of which holds a start code, is empty or ends in a zero byte,
-- each of a type from 1 to 23 and of at most 1024 fragments, and the last of which carries the marker:
-- what `send_frame` sends is packets that `handleRtp` of the viewer, given in that order, makes the same
-- units of, each behind a start code of four bytes, and hands on, so that nothing is left waiting. The
-- receiver has nothing waiting at first, the first packet's number is at most three behind the last one
-- that it has seen (or that is 0), and the numbers do not pass 65535 within the picture.
pub send_frame-Complete :
    (os : Os) (lib : KcpLib (Os.World os)) (fuel : ℕ) (s : RtspSession (KcpLib.Kcb lib))
    (timestamp : ℕ) (units : List Unit4) (r : Reassembler)
    → All (λ u. IsNal u.1) units
    → length units ≤ 32
    → All IsSendable (map (λ u. u.1) units)
    → IsPicture (map (λ u. u.1) units)
    → IsU32 timestamp
    → IsU32 s.rtp_ssrc
    → s.rtp_seq < 2 ^ 64
    → Idle r
    → Follows r.last_seq (s.rtp_seq % 2 ^ 16)
    → s.rtp_seq % 2 ^ 16
        + length (frame_packets s.rtp_seq timestamp s.rtp_ssrc (map (λ u. u.1) units))
      < 2 ^ 16
    → (packets : List Bytes) × (send_frame os lib fuel s timestamp (join_units units)
        ≡ send_all os lib fuel s packets)
      × Complete
          (s.rtp_seq % 2 ^ 16 + length packets - 1)
          (r.frame ++ with_codes (map (λ u. u.1) units))
          (handle_all packets r)
send_frame-Complete os lib fuel s timestamp units r nals few ok whole ht hs small idle follows
      last =
    (
      frame_packets s.rtp_seq timestamp s.rtp_ssrc (map (λ u. u.1) units),
      send_frame-frame_packets os lib fuel s timestamp units nals few,
      handle_all-picture timestamp s.rtp_ssrc ht hs (map (λ u. u.1) units) s.rtp_seq
          (s.rtp_seq % 2 ^ 16) r ok whole idle small refl follows last,
    )
