-- ===== src/Monitor/Viewers.antt =====
-- media/MonitorServer.cc: `acceptLoop` on its viewers' connections, and `kcp_init`.
use car_detect.Prelude.{
  ℕ, ◌+◌, ◌-◌, ◌%◌, ◌^◌, Option, none, some, Bool, true, false, ◌||◌, List, [], ◌∷◌, ◌++◌, Bytes,
  length, get_elem?, take, drop, ◌==◌, if◌then◌else◌, codes, str_eq,
}
use car_detect.Effect.{Outcome, done, crash, on_done}
use car_detect.Os.{RecvResult, received, no_data, recv_failed}
use car_detect.Rtsp.Text.{decimal, strstr}
use car_detect.Media.Text.{onto_line, map_set, map_find, stoul}
use car_detect.Media.Requests.{Headers, Request}
use car_detect.Monitor.{
  Address, ViewerKcp, UdpSession, QtClient, Effect, watched, unwatched, kcp_released, MonitorServer,
  fd_find, fd_erase, perform, set_client,
}
use car_detect.Monitor.Requests.{parse_text, send_respond}

-- A new connection.
unfoldable pub accept_client : ℕ → Bytes → MonitorServer → MonitorServer
accept_client fd client_ip m =
    let c : QtClient = record {
      tcp_fd = fd;
      client_ip = client_ip;
      session_map = [];
      buffer = [];
      cseq = 0;
    } in
    perform (watched fd ∷ []) (set_client fd c m)

-- The end of one session: its thread is joined, its control block given back.
abbrev pub release_session_kcp : Option ViewerKcp → List Effect
release_session_kcp none = []
release_session_kcp (some k) = kcp_released k ∷ []

abbrev pub released : List (Bytes × UdpSession) → List Effect
released [] = []
released ((id, s) ∷ more) = release_session_kcp s.ikcp ++ released more

-- `recv` returned 0.
unfoldable pub close_client : ℕ → QtClient → MonitorServer → MonitorServer
close_client fd c m =
    perform (unwatched fd ∷ released c.session_map)
      (record m { qt_clients = fd_erase fd m.qt_clients })

-- `std::getline` with a space, one after the other.
unfoldable pub fields : Bytes → List Bytes
fields [] = []
fields (c ∷ s) = let rest = fields s in if c == b' ' then [] ∷ rest else onto_line c rest

-- `std::stoul(ports[i])`; the vector has no test of the index.
unfoldable pub number_at : List Bytes → ℕ → Option ℕ
number_at ports i = elim (get_elem? ports i) [ none ↦ none | some t ↦ stoul t ]

-- `kcp_init`: `creates` tells for which numbers `ikcp_create` returns a control block; a null pointer
-- is written through.
unfoldable pub kcp_init : (ℕ → Bool) → ℕ → Address → Outcome ViewerKcp
kcp_init creates conv addr =
    if creates conv
    then done (record { conv = conv; user = addr; interval = 10; wndsize = 256; mtu = 1450 })
    else crash

-- A session's ports and number, and then its thread.
unfoldable pub session_for : (ℕ → Bool) → Bytes → ℕ → ℕ → ℕ → Outcome UdpSession
unfolding kcp_init
session_for creates ip rtp rtcp conv =
    let addr : Address = record { ip = ip; port = rtp % 2 ^ 16 } in
    on_done (kcp_init creates (conv % 2 ^ 32) addr) (λ (k : ViewerKcp). done (record {
      video_udp_rtp = addr;
      video_udp_rtcp = record { ip = ip; port = rtcp % 2 ^ 16 };
      ikcp = some k;
      conv = conv % 2 ^ 32;
      kcp_running = true;
      kcp_thread = true;
    }))

unfoldable pub session_of_ports :
    (ℕ → Bool) → Bytes → Option ℕ → Option ℕ → Option ℕ → Outcome UdpSession
unfolding session_for
session_of_ports creates ip (some rtp) (some rtcp) (some conv) =
    session_for creates ip rtp rtcp conv
session_of_ports creates ip none rtcp conv = crash
session_of_ports creates ip (some rtp) none conv = crash
session_of_ports creates ip (some rtp) (some rtcp) none = crash

-- The session that the new one takes the place of is destroyed; with a thread that was not joined,
-- the program ends (`std::terminate`).
abbrev pub has_thread : Option UdpSession → Bool
has_thread none = false
has_thread (some s) = s.kcp_thread

unfoldable pub add_session : (ℕ → Bool) → Bytes → Bytes → QtClient → Outcome QtClient
unfolding fields number_at session_of_ports
add_session creates id ports c =
    let ns = fields ports in
    if has_thread (map_find id c.session_map)
    then crash
    else on_done
        (session_of_ports creates c.client_ip (number_at ns 0) (number_at ns 1) (number_at ns 2))
        (λ (s : UdpSession). done (record c { session_map = map_set id s c.session_map }))

-- Each header but the number is a camera's id with the viewer's ports for it.
unfoldable pub add_sessions : (ℕ → Bool) → Headers → QtClient → Outcome QtClient
unfolding add_session
add_sessions creates [] c = done c
add_sessions creates ((id, ports) ∷ more) c =
    let rest = on_done (add_session creates id ports c) (add_sessions creates more) in
    let skipped = add_sessions creates more c in if str_eq id (codes "cseq") then skipped else rest

-- The answer to SETUP: the number of cameras, and the id of each under its index.
unfoldable pub camera_headers : ℕ → List (Bytes × Bytes) → Headers → Headers
camera_headers i [] headers = headers
camera_headers i ((id, name) ∷ more) headers =
    camera_headers (i + 1) more (map_set (decimal i) id headers)

unfoldable pub setup_headers : List (Bytes × Bytes) → Headers
unfolding camera_headers
setup_headers cams = camera_headers 0 cams (map_set (codes "CamNum") (decimal (length cams)) [])

unfoldable pub handle_method :
    (ℕ → Bool) → ℕ → QtClient → Request → MonitorServer → Outcome MonitorServer
unfolding setup_headers add_sessions
handle_method creates fd c r m =
    if str_eq r.method (codes "SETUP")
    then done (perform (send_respond (setup_headers m.cams) c ∷ []) m)
    else if str_eq r.method (codes "MESSAGE") || str_eq r.method (codes "ADDCAM")
    then on_done (add_sessions creates r.headers c) (λ (c' : QtClient). done (set_client fd c' m))
    else done m

-- What is taken off the buffer, and what stays. With no empty line in it, `find` returns -1: all of
-- the buffer is taken, and `erase(0, -1 + 4)` keeps what is behind its first three bytes.
unfoldable pub take_request : Bytes → Bytes × Bytes
take_request buffer = elim (strstr buffer (13 ∷ 10 ∷ 13 ∷ 10 ∷ [])) [
  | none ↦ (buffer, drop 3 buffer)
  | some rest ↦ (take (length buffer - length rest) buffer, drop 4 rest)
]

-- The bytes of one `recv`.
unfoldable pub on_bytes : (ℕ → Bool) → ℕ → QtClient → Bytes → MonitorServer → Outcome MonitorServer
unfolding take_request parse_text handle_method
on_bytes creates fd c bytes m =
    let (request, rest) = take_request (c.buffer ++ bytes) in
    on_done (parse_text request) (λ (r : Request).
      let c' : QtClient = record c { buffer = rest; cseq = c.cseq + 1 } in
      handle_method creates fd c' r (set_client fd c' m))

-- `append(buf, -1)` throws.
unfoldable pub on_recv :
    (ℕ → Bool) → ℕ → QtClient → RecvResult → MonitorServer → Outcome MonitorServer
unfolding close_client on_bytes
on_recv creates fd c (received []) m = done (close_client fd c m)
on_recv creates fd c (received (b ∷ bs)) m = on_bytes creates fd c (b ∷ bs) m
on_recv creates fd c no_data m = crash
on_recv creates fd c recv_failed m = crash

-- An event on a descriptor of a viewer.
unfoldable pub on_readable : (ℕ → Bool) → ℕ → RecvResult → MonitorServer → Outcome MonitorServer
unfolding on_recv
on_readable creates fd r m = elim (fd_find fd m.qt_clients) [
  | none ↦ done m
  | some c ↦ on_recv creates fd c r m
]
