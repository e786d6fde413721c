-- ===== src/Client/Video/Frames.antt =====
-- A whole picture: from the byte stream that the encoder of camera/v4l2.c returns to the packets that
-- `video_stream_thread` of camera/rtsp_client.c sends.
use car_detect.Prelude.{
  ℕ, zero, suc, ◌+◌, ◌%◌, ◌^◌, ◌≤◌, ◌≡◌, refl, sym, ap, ◌∙◌, List, [], ◌∷◌, ◌++◌, map, Bytes, All,
  length, length-append,
}
use native.Mathlib.Nat.{zero-add, suc-add}
use car_detect.Effect.{Action, pure, bind_assoc, ◌>>=◌, ◌>>◌}
use car_detect.Os.{Os}
use car_detect.Kcp.{KcpLib}
use car_detect.Rtsp.Session.{RtspSession}
use car_detect.Rtp.Send.{transmit}
use car_detect.Rtp.Packets.{rtp_packets, advance, send_each, send_all}
use car_detect.Rtp.Packets.Refinement.{send_each-seq, send_all-nil, rtp_send_h264-send_all}
use car_detect.AnnexB.{NaluView, split_annexb_nalus}
use car_detect.AnnexB.Units.{IsNal, Unit4, join_units, view_bytes}
use car_detect.AnnexB.RoundTrip.{split-join_units}
use car_detect.Client.Video.{send_views, send_frame}

-- The packets of a picture's units: one timestamp, and sequence numbers that go on from unit to unit.
unfoldable pub frame_packets : ℕ → ℕ → ℕ → List Bytes → List Bytes
frame_packets seq timestamp ssrc [] = []
frame_packets seq timestamp ssrc (nal ∷ nals) =
    let packets = rtp_packets seq timestamp ssrc nal in
    packets ++ frame_packets (advance seq (length packets)) timestamp ssrc nals

advance-add : (seq m n : ℕ) → advance seq (m + n) ≡ advance (advance seq m) n
unfolding advance
advance-add seq zero n = rw zero-add refl
advance-add seq (suc m) n = rw suc-add (advance-add ((seq + 1) % 2 ^ 64) m n)

module _ (os : Os) (lib : KcpLib (Os.World os)) (fuel : ℕ) where
  abbrev Session : Type 0
  Session = RtspSession (KcpLib.Kcb lib)

  send_each-append :
      (s : Session) (ps qs : List Bytes)
      → send_each os lib fuel s (ps ++ qs)
        ≡ (send_each os lib fuel s ps >> send_each os lib fuel s qs)
  unfolding send_each
  send_each-append s [] qs = refl
  send_each-append s (p ∷ ps) qs =
      ap (λ (t : Action (Os.World os) (Unit {0})). transmit os lib fuel s p >> t)
        (send_each-append s ps qs)
      ∙ sym (
          bind_assoc (transmit os lib fuel s p) (λ _. send_each os lib fuel s ps)
            (λ _. send_each os lib fuel s qs))

  abbrev counted : Session → ℕ → Session
  counted s n = record s { rtp_seq = advance s.rtp_seq n }

  send_all-bind :
      (s : Session) (ps : List Bytes) (next : Session → Action (Os.World os) Session)
      → (send_all os lib fuel s ps >>= next)
        ≡ (send_each os lib fuel s ps >> next (counted s (length ps)))
  unfolding send_all
  send_all-bind s ps next =
      bind_assoc (send_each os lib fuel s ps) (λ _. pure (counted s (length ps))) next

  -- Sending some packets and then others.
  send_all-append :
      (s : Session) (ps qs : List Bytes)
      → (send_all os lib fuel s ps >>= λ s'. send_all os lib fuel s' qs)
        ≡ send_all os lib fuel s (ps ++ qs)
  unfolding send_all
  send_all-append s ps qs =
      let each = send_each os lib fuel s in
      let s1 = counted s (length ps) in
      let end : Action (Os.World os) Session = pure (counted s1 (length qs)) in
      bind_assoc (each ps) (λ _. pure s1) (λ s'. send_all os lib fuel s' qs)
      ∙ ap (λ (t : Action (Os.World os) (Unit {0})). each ps >> (t >> end))
          (send_each-seq os lib fuel s (advance s.rtp_seq (length ps)) qs)
      ∙ sym (bind_assoc (each ps) (λ _. each qs) (λ _. end))
      ∙ ap (λ (t : Action (Os.World os) (Unit {0})). t >> end) (sym (send_each-append s ps qs))
      ∙ ap (λ (n : ℕ). each (ps ++ qs) >> pure (record s { rtp_seq = n }))
          (sym (advance-add s.rtp_seq (length ps) (length qs))
            ∙ ap (advance s.rtp_seq) (sym (length-append ps qs)))

  send_views-send_all :
      (s : Session) (timestamp : ℕ) (buf : Bytes) (views : List NaluView)
      → send_views os lib fuel s timestamp buf views
        ≡ send_all os lib fuel s
            (frame_packets s.rtp_seq timestamp s.rtp_ssrc (map (view_bytes buf) views))
  unfolding send_views frame_packets
  send_views-send_all s timestamp buf [] = sym (send_all-nil os lib fuel s)
  send_views-send_all s timestamp buf (v ∷ views) =
      let ps = rtp_packets s.rtp_seq timestamp s.rtp_ssrc (view_bytes buf v) in
      let s1 = counted s (length ps) in
      let qs = frame_packets s1.rtp_seq timestamp s.rtp_ssrc (map (view_bytes buf) views) in
      ap
        (λ (m : Action (Os.World os) Session).
          m >>= λ s'. send_views os lib fuel s' timestamp buf views)
        (rtp_send_h264-send_all os lib fuel s timestamp (view_bytes buf v))
      ∙ send_all-bind s ps (λ s'. send_views os lib fuel s' timestamp buf views)
      ∙ ap (λ (t : Action (Os.World os) Session). send_each os lib fuel s ps >> t)
          (send_views-send_all s1 timestamp buf views)
      ∙ sym (send_all-bind s ps (λ s'. send_all os lib fuel s' qs))
      ∙ send_all-append s ps qs

  -- A picture of at most 32 units, none of which holds a start code, is empty or ends in a zero byte,
  -- is sent as the packets of its units, in order, all with one timestamp and with sequence numbers
  -- that go on from unit to unit, whichever start codes the encoder has put before the units.
  pub send_frame-frame_packets :
      (s : Session) (timestamp : ℕ) (units : List Unit4)
      → All (λ u. IsNal u.1) units
      → length units ≤ 32
      → send_frame os lib fuel s timestamp (join_units units)
        ≡ send_all os lib fuel s
            (frame_packets s.rtp_seq timestamp s.rtp_ssrc (map (λ u. u.1) units))
  unfolding send_frame
  send_frame-frame_packets s timestamp units n h =
      send_views-send_all s timestamp (join_units units) (split_annexb_nalus (join_units units) 32)
      ∙ ap
          (λ (nals : List Bytes).
            send_all os lib fuel s (frame_packets s.rtp_seq timestamp s.rtp_ssrc nals))
          (split-join_units units 32 n h)
