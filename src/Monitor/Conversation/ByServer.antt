-- ===== src/Monitor/Conversation/ByServer.antt =====
-- How the monitor server (media/MonitorServer.cc) takes a viewer's answer to ADDCAM.
use car_detect.Prelude.{
  ℕ, ◌+◌, ◌%◌, ◌^◌, ◌<◌, ◌≡◌, refl, ap, ◌∙◌, some, Bool, true, false, [], ◌∷◌, ◌++◌, Bytes, All,
  arith, codes, Bool-cases, inl, inr,
}
use car_detect.Effect.{done, on_done}
use car_detect.Os.{received}
use car_detect.Rtsp.Text.{decimal}
use car_detect.Rtsp.Requests.{crlf}
use car_detect.Media.Text.{map_set, map_find, less}
use car_detect.Media.Requests.{Request}
use car_detect.Media.Camera.Lines.{InWord}
use car_detect.Media.Camera.Ids.{IsHexByte}
use car_detect.Viewer.Client.{TransUdpPort, request_head, port_line}
use car_detect.Monitor.{Address, UdpSession, QtClient, MonitorServer, fd_find, set_client}
use car_detect.Monitor.Requests.{parse_text}
use car_detect.Monitor.Viewers.{
  kcp_init, session_for, session_of_ports, has_thread, add_session, add_sessions, handle_method,
  take_request, on_bytes, on_recv, on_readable,
}
use car_detect.Monitor.Conversation.Words.{Full, three, number_at-three}
use car_detect.Monitor.Conversation.Reply.{hex-no_cseq, ports, take_request-reply, parse_text-reply}

-- The session that the server makes of the ports.
abbrev pub made_session : Bytes → TransUdpPort → UdpSession
made_session ip p =
    let addr : Address = record { ip = ip; port = p.udp_rtp_port } in
    record {
      video_udp_rtp = addr;
      video_udp_rtcp = record { ip = ip; port = p.udp_rtcp_port };
      ikcp = some (record { conv = p.conv; user = addr; interval = 10; wndsize = 256; mtu = 1450 });
      conv = p.conv;
      kcp_running = true;
      kcp_thread = true;
    }

-- The ports have 16 bits, the number has 32.
abbrev pub InRange : TransUdpPort → Type 0
InRange p = (p.udp_rtp_port < 2 ^ 16) × (p.udp_rtcp_port < 2 ^ 16) × (p.conv < 2 ^ 32)

add_session-made :
    (creates : ℕ → Bool) (id : Bytes) (p : TransUdpPort) (c : QtClient)
    → InRange p
    → creates p.conv ≡ true
    → has_thread (map_find id c.session_map) ≡ false
    → add_session creates id (three p.udp_rtp_port p.udp_rtcp_port p.conv) c
      ≡ done (record c { session_map = map_set id (made_session c.client_ip p) c.session_map })
unfolding add_session session_of_ports session_for kcp_init
add_session-made creates id p c (h0, h1, h2) made free =
    let (e0, e1, e2) =
      number_at-three p.udp_rtp_port p.udp_rtcp_port p.conv (omega arith) (omega arith)
        (omega arith) in
    let m0 : p.udp_rtp_port % 2 ^ 16 ≡ p.udp_rtp_port = omega arith in
    let m1 : p.udp_rtcp_port % 2 ^ 16 ≡ p.udp_rtcp_port = omega arith in
    let m2 : p.conv % 2 ^ 32 ≡ p.conv = omega arith in
    rw (add_session, free, e0, e1, e2, m0, m1, m2, made) refl

-- The number of the request is passed over, wherever it stands among the ids.
add_sessions-made :
    (creates : ℕ → Bool) (n : Bytes) (id ports : Bytes) (c c' : QtClient)
    → All IsHexByte id
    → add_session creates id ports c ≡ done c'
    → add_sessions creates (map_set id ports ((codes "cseq", n) ∷ [])) c ≡ done c'
unfolding add_sessions
add_sessions-made creates n id ports c c' hi e =
    let other = hex-no_cseq id hi in
    elim (Bool-cases (less id (codes "cseq"))) [
      | inl l ↦ rw (other, l, other, e) refl
      | inr l ↦ rw (other, l, other, e) refl
    ]

-- What a viewer becomes by its answer.
abbrev pub taken_up : Bytes → TransUdpPort → QtClient → QtClient
taken_up id p c = record c {
  buffer = [];
  cseq = c.cseq + 1;
  session_map = map_set id (made_session c.client_ip p) c.session_map;
}

module _ (creates : ℕ → Bool) (local : Bytes) (n : ℕ) (id : Bytes) (p : TransUdpPort)
    (hl : All InWord local) (fi : Full id) (hi : All IsHexByte id) (hp : InRange p)
    (made : creates p.conv ≡ true) where
  abbrev reply_text : Bytes
  reply_text = request_head (codes "ADDCAM") local n ++ (port_line id p ++ crlf)

  on_bytes-reply :
      (fd : ℕ) (c : QtClient) (m : MonitorServer)
      → c.buffer ≡ []
      → has_thread (map_find id c.session_map) ≡ false
      → on_bytes creates fd c reply_text m
        ≡ done (
            set_client fd
              (taken_up id p c)
              (set_client fd (record c { buffer = []; cseq = c.cseq + 1 }) m))
  unfolding on_bytes handle_method
  on_bytes-reply fd c m clear free =
      let c1 : QtClient = record c { buffer = []; cseq = c.cseq + 1 } in
      let sessions =
        add_sessions-made creates (decimal n) id (three p.udp_rtp_port p.udp_rtcp_port p.conv) c1
          (taken_up id p c) hi (add_session-made creates id p c1 hp made free) in
      ap
        (λ (q : Bytes × Bytes). on_done (parse_text q.0) (λ (r : Request).
          let c2 : QtClient = record c { buffer = q.1; cseq = c.cseq + 1 } in
          handle_method creates fd c2 r (set_client fd c2 m)))
        (ap (λ b. take_request (b ++ reply_text)) clear ∙ take_request-reply local n id p hl fi hi)
      ∙ ap (λ o. on_done o (λ (r : Request). handle_method creates fd c1 r (set_client fd c1 m)))
          (parse_text-reply local n id p hl fi hi)
      ∙ ap (λ o. on_done o (λ (c' : QtClient). done (set_client fd c' (set_client fd c1 m))))
          sessions

  -- The server takes the answer: the viewer has a session for the camera, with the ports and the
  -- number of the answer, a control block and a thread.
  pub on_readable-reply :
      (fd : ℕ) (c : QtClient) (m : MonitorServer)
      → fd_find fd m.qt_clients ≡ some c
      → c.buffer ≡ []
      → has_thread (map_find id c.session_map) ≡ false
      → on_readable creates fd (received reply_text) m
        ≡ done (
            set_client fd
              (taken_up id p c)
              (set_client fd (record c { buffer = []; cseq = c.cseq + 1 }) m))
  unfolding on_readable on_recv request_head
  on_readable-reply fd c m there clear free =
      rw (on_readable, there) (on_bytes-reply fd c m clear free)
