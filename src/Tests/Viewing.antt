-- ===== src/Tests/Viewing.antt =====
-- The theorems on the viewer, applied to concrete inputs.
use car_detect.Prelude.{
  ℕ, zero, suc, ◌+◌, ◌-◌, ◌%◌, ◌^◌, ◌≡◌, refl, inl, inr, true, false, List, [], ◌∷◌, ◌++◌, Bytes,
  All, replicate, length, arith,
}
use car_detect.Effect.{done}
use car_detect.Rtsp.Session.{rtsp_session_init}
use car_detect.Rtp.Header.{build_rtp_header}
use car_detect.Rtp.Send.{single_marker}
use car_detect.Rtp.Packets.{pieces, fragments, rtp_packets, advance, send_all}
use car_detect.AnnexB.{is_start_code3}
use car_detect.AnnexB.Units.{IsNal, Unit4, join_units}
use car_detect.Client.Video.{send_frame}
use car_detect.Client.Video.Frames.{frame_packets}
use car_detect.Viewer.Reassembler.{Reassembler, new_reassembler, handle_rtp, handle_all}
use car_detect.Viewer.Reassembler.Pictures.{IsSendable, IsPicture, Complete, with_codes}
use car_detect.Viewer.Reassembler.Invariant.{Stepped, handle_rtp-Stepped}
use car_detect.Viewer.Delivery.{send_frame-Complete}
use car_detect.Tests.Machine.{machine_os, machine_kcp, pushing}

-- A parameter set, and a slice that needs two fragments.
abbrev picture_units : List Unit4
picture_units = (true, 0x67 ∷ 0x42 ∷ []) ∷ (false, 0x65 ∷ replicate 1500 7) ∷ []

abbrev picture_nals : List Bytes
picture_nals = (0x67 ∷ 0x42 ∷ []) ∷ (0x65 ∷ replicate 1500 7) ∷ []

sevens-IsNal : (n : ℕ) → IsNal (7 ∷ replicate n 7)
unfolding is_start_code3
sevens-IsNal zero = ground arith
sevens-IsNal (suc zero) = ground arith
sevens-IsNal (suc (suc n)) = (refl, sevens-IsNal (suc n))

slice-IsNal : IsNal (0x65 ∷ replicate 1500 7)
unfolding is_start_code3
slice-IsNal = (refl, sevens-IsNal 1499)

picture_nals-IsSendable : All IsSendable picture_nals
picture_nals-IsSendable = (
  (omega arith, (omega arith, omega arith), omega arith),
  ((omega arith, (omega arith, omega arith), omega arith), tt),
)

picture_nals-IsPicture : IsPicture picture_nals
unfolding single_marker
picture_nals-IsPicture = refl

picture_count : length (frame_packets 0 1500 0x12345678 picture_nals) ≡ 3
unfolding frame_packets rtp_packets fragments pieces advance
picture_count = refl

send_frame-Complete_example :
    (packets : List Bytes) × (send_frame machine_os machine_kcp 20 pushing 1500
        (join_units picture_units)
      ≡ send_all machine_os machine_kcp 20 pushing packets)
    × Complete
        (0 % 2 ^ 16 + length packets - 1)
        (with_codes picture_nals)
        (handle_all packets new_reassembler)
unfolding rtsp_session_init new_reassembler
send_frame-Complete_example =
    send_frame-Complete machine_os machine_kcp 20 pushing 1500 picture_units new_reassembler
      ((ground arith), (slice-IsNal, tt)) (omega arith) picture_nals-IsSendable
      picture_nals-IsPicture (omega arith) (omega arith) (omega arith) (refl, refl, refl, refl)
      (inl refl) (rw picture_count (omega arith))

handle_rtp-Stepped_example :
    (t : Reassembler × List Bytes) × (handle_rtp
        (build_rtp_header 7 0 1 96 true ++ (0x65 ∷ 1 ∷ []))
        new_reassembler
      ≡ done t)
    × Stepped t
unfolding new_reassembler
handle_rtp-Stepped_example =
    handle_rtp-Stepped (build_rtp_header 7 0 1 96 true ++ (0x65 ∷ 1 ∷ [])) new_reassembler
      (inr (unfold build_rtp_header in omega arith)) (tt, omega arith, inr refl)
