-- ===== src/Media/Camera/Agreed.antt =====
-- A SETUP for UDP at the server (media/RtspConnect.cc), and what the camera (camera/rtsp.c) knows
-- afterwards.
use car_detect.Media.Sessions.{UdpConnection, MediaSession}
use car_detect.Prelude.{
  some, append_assoc, sym, ℕ, ◌^◌, ◌≤◌, ◌<◌, ◌≡◌, refl, ap, ◌∙◌, true, [], ◌∷◌, ◌++◌, Bytes, length,
  All, codes, if_cases,
}
use car_detect.Tcp.{value}
use car_detect.Rtsp.Session.{RtspSession}
use car_detect.Rtsp.Setup.{rtsp_parse_setup_response}
use car_detect.Media.Transport.{Transport, udp, has}
use car_detect.Media.Connect.{udp_added, Server, responded, send_response}
use car_detect.Media.Connect.Setup.{
  choose_ports, connection_to, open_track, udp_answer, set_up_done, set_up_udp, set_up_transport,
  with_type, tcp_answer, by_type,
}
use car_detect.Media.Camera.Answers.{set_up_response, set_up_response-agreed}
use car_detect.Media.Camera.Ids.{IsHexByte}

open_track-kept :
    (url : Bytes) (t : Transport) (w : Server)
    → ((open_track url t w).1.connect.session.session_id ≡ w.connect.session.session_id)
      × ((open_track url t w).1.connected ≡ w.connected)
unfolding open_track
open_track-kept url t w =
    if_cases
      (λ (p : (ℕ × ℕ) × Server).
        (p.1.connect.session.session_id ≡ w.connect.session.session_id)
        × (p.1.connected ≡ w.connected))
      (has url (codes "trackID=0")) _ _ (λ _. (refl, refl))
      λ _.
        if_cases
          (λ (p : (ℕ × ℕ) × Server).
            (p.1.connect.session.session_id ≡ w.connect.session.session_id)
            × (p.1.connected ≡ w.connected))
          (has url (codes "trackID=1")) _ _ (λ _. (refl, refl)) (λ _. (refl, refl))

set_up_done-sends :
    (answer : Bytes) (cseq : ℕ) (w : Server)
    → w.connected ≡ true
    → (set_up_done answer cseq w).events
      ≡ w.events ++ (responded (set_up_response w.connect.session.session_id answer cseq) ∷ [])
unfolding set_up_done send_response
set_up_done-sends answer cseq w up = rw up refl

set_up_done-session :
    (answer : Bytes) (cseq : ℕ) (w : Server)
    → (set_up_done answer cseq w).connect.session ≡ w.connect.session
unfolding set_up_done send_response
set_up_done-session answer cseq w =
    if_cases (λ (w' : Server). w'.connect.session ≡ w.connect.session) w.connected _ _ (λ _. refl)
      (λ _. refl)

-- The video's socket is opened with the first of the two ports.
open_track-video :
    (url : Bytes) (t : Transport) (w : Server)
    → has url (codes "trackID=0") ≡ true
    → let ((rtp, rtcp), w') = open_track url t w in
      (conn : UdpConnection) × (w'.events ≡ w.events ++ (udp_added conn ∷ []))
      × (w'.connect.session.video_rtp_conn ≡ some conn)
      × (conn.local_port ≡ rtp)
      × (conn.peer_ip ≡ w.connect.client_ip)
      × (conn.peer_port ≡ t.client_rtp_port)
unfolding open_track
open_track-video url t w video =
    let conn = connection_to w (choose_ports 0 t w.manager).0.0 t.client_rtp_port in
    rw video (conn, refl, refl, refl, refl, refl)

-- At a SETUP of the video for UDP, with the TCP connection there and a session id of at most 62
-- hexadecimal digits and '-', the server does two things: it opens a socket for the video, which its
-- session then holds and which sends to the client's address and port, and it sends a response. The
-- camera, having read it, has the transport udp, as the server's port the local port of that socket,
-- the RTCP port that was chosen with it, and the server's session id.
pub set_up_transport-agreed :
    {K : Type 0} (s : RtspSession K) (url : Bytes) (cseq : ℕ) (t : Transport) (w : Server)
    → t.transport_type ≡ udp
    → has url (codes "trackID=0") ≡ true
    → w.connected ≡ true
    → All IsHexByte w.connect.session.session_id
    → length w.connect.session.session_id ≤ 62
    → let (rtp, rtcp) = (open_track url t (with_type t w)).0 in
      rtp < 2 ^ 16
      → rtcp < 2 ^ 16
      → let after = set_up_transport url cseq t w in
        (conn : UdpConnection) × (text : Bytes) × (after.events
          ≡ w.events ++ (udp_added conn ∷ responded text ∷ []))
        × (after.connect.session.video_rtp_conn ≡ some conn)
        × (conn.peer_ip ≡ w.connect.client_ip)
        × (conn.peer_port ≡ t.client_rtp_port)
        × (let (s', r) = rtsp_parse_setup_response text s in
            (r ≡ value 0)
            × (s'.trans_type ≡ codes "udp")
            × (s'.server_rtp_port ≡ conn.local_port)
            × (s'.server_rtcp_port ≡ rtcp)
            × (s'.session_id ≡ w.connect.session.session_id))
unfolding set_up_transport set_up_udp
set_up_transport-agreed s url cseq t w kind video up hex short ha hb =
    let ((rtp, rtcp), w') = open_track url t (with_type t w) in
    let (same_id, same_up) = open_track-kept url t (with_type t w) in
    let (conn, opened, held, port, ip, peer) = open_track-video url t (with_type t w) video in
    let answer = udp_answer t (rtp, rtcp) in
    let by_udp : set_up_transport url cseq t w ≡ set_up_done answer cseq w' =
      ap
        (λ k.
          by_type k (set_up_udp url cseq t (with_type t w))
            (set_up_done (tcp_answer t) cseq (with_type t w)))
        kind in
    let (ok, type_read, rtp_read, rtcp_read, id_read) =
      set_up_response-agreed s t w.connect.session.session_id cseq rtp rtcp hex short ha hb in
    (
      conn,
      set_up_response w.connect.session.session_id answer cseq,
      ap (λ (v : Server). v.events) by_udp
          ∙ set_up_done-sends answer cseq w' (same_up ∙ up)
          ∙ ap (λ (id : Bytes). w'.events ++ (responded (set_up_response id answer cseq) ∷ []))
              same_id
          ∙ ap
              (λ l.
                l ++ (responded (set_up_response w.connect.session.session_id answer cseq) ∷ []))
              opened
          ∙ append_assoc w.events (udp_added conn ∷ []) _,
      ap (λ (v : Server). v.connect.session.video_rtp_conn) by_udp
          ∙ ap (λ (m : MediaSession). m.video_rtp_conn) (set_up_done-session answer cseq w')
          ∙ held,
      ip,
      peer,
      (ok, type_read, rtp_read ∙ sym port, rtcp_read, id_read),
    )
