-- ===== src/Monitor/Datagrams.antt =====
-- media/MonitorServer.cc: the datagrams of the viewers, and the video for them (`onNaluUdp` and
-- `onNaluTcp`).
use car_detect.Prelude.{
  ℕ, ◌+◌, ◌*◌, ◌/◌, ◌%◌, ◌^◌, Option, none, some, Bool, false, ◌||◌, List, [], ◌∷◌, ◌++◌, Bytes,
  length, get_or, take, drop, ◌==◌, if◌then◌else◌,
}
use car_detect.Effect.{Outcome, done, crash, on_done}
use car_detect.Media.Text.{map_find}
use car_detect.Monitor.{
  ViewerKcp, UdpSession, QtClient, Effect, sent, closed, kcp_input, kcp_sent, MonitorServer,
  fd_find, fd_erase, perform,
}

-- `kcp_getu32`, on the bytes of `udp_buffer`.
unfoldable pub kcp_getu32 : Bytes → ℕ
kcp_getu32 p = get_or p 0 0 + get_or p 1 0 * 2 ^ 8 + get_or p 2 0 * 2 ^ 16 + get_or p 3 0 * 2 ^ 24

-- The first session, in the order of the viewers and of the ids, that has the number.
abbrev pub session_numbered : ℕ → List (Bytes × UdpSession) → Option UdpSession
session_numbered conv [] = none
session_numbered conv ((id, s) ∷ more) =
    let rest = session_numbered conv more in if s.conv == conv then some s else rest

abbrev pub or_session : Option UdpSession → Option UdpSession → Option UdpSession
or_session none rest = rest
or_session (some s) rest = some s

unfoldable pub target_session : ℕ → List (ℕ × QtClient) → Option UdpSession
target_session conv [] = none
target_session conv ((fd, c) ∷ more) =
    or_session (session_numbered conv c.session_map) (target_session conv more)

-- What `ikcp_input` and `ikcp_send` are called on; a null pointer is gone through.
abbrev pub on_kcp : (ViewerKcp → Effect) → Option ViewerKcp → MonitorServer → Outcome MonitorServer
on_kcp f none m = crash
on_kcp f (some k) m = done (perform (f k ∷ []) m)

-- The lock of a session that was not found is a null pointer's.
unfoldable pub input_to : Option UdpSession → Bytes → MonitorServer → Outcome MonitorServer
input_to none d m = crash
input_to (some s) d m = on_kcp (λ k. kcp_input k d) s.ikcp m

-- A datagram in the first bytes of the buffer, which has 2048 bytes and keeps what it held behind them.
unfoldable pub on_datagram : Bytes → Bytes → MonitorServer → Outcome MonitorServer
unfolding kcp_getu32 target_session input_to
on_datagram held d m =
    input_to (target_session (kcp_getu32 (d ++ drop (length d) held)) m.qt_clients) d m

-- The loop ends when nothing waits, and at an empty datagram.
unfoldable pub on_datagrams : Bytes → List Bytes → MonitorServer → Outcome MonitorServer
unfolding on_datagram
on_datagrams held [] m = done m
on_datagrams held ([] ∷ ds) m = done m
on_datagrams held ((b ∷ bs) ∷ ds) m =
    let d = take 2048 (b ∷ bs) in
    on_done (on_datagram held d m) (on_datagrams (d ++ drop (length d) held) ds)

-- `onNaluUdp`
abbrev pub queue_on : Option UdpSession → Bytes → MonitorServer → Outcome MonitorServer
queue_on none d m = done m
queue_on (some s) d m = on_kcp (λ k. kcp_sent k d) s.ikcp m

unfoldable pub send_to_viewers :
    List (ℕ × QtClient) → Bytes → Bytes → MonitorServer → Outcome MonitorServer
send_to_viewers [] id d m = done m
send_to_viewers ((fd, c) ∷ more) id d m =
    on_done (queue_on (map_find id c.session_map) d m) (send_to_viewers more id d)

unfoldable pub on_nalu_udp : Bytes → Bytes → MonitorServer → Outcome MonitorServer
unfolding send_to_viewers
on_nalu_udp id d m = send_to_viewers m.qt_clients id d m

-- The frame of `onNaluTcp`: the length of the name in 16 bits, the name cut to it, the data.
unfoldable pub nalu_frame : Bytes → Bytes → Bytes
nalu_frame name d = let n = length name % 2 ^ 16 in (n / 2 ^ 8) ∷ (n % 2 ^ 8) ∷ (take n name ++ d)

abbrev pub any_thread : List (Bytes × UdpSession) → Bool
any_thread [] = false
any_thread ((id, s) ∷ more) = s.kcp_thread || any_thread more

abbrev pub frames_to : Bytes → List (ℕ × QtClient) → List Effect
frames_to frame [] = []
frames_to frame ((fd, c) ∷ more) = sent fd frame ∷ frames_to frame more

abbrev pub broken : (ℕ → Bool) → List (ℕ × QtClient) → List ℕ
broken fails [] = []
broken fails ((fd, c) ∷ more) = if fails fd then fd ∷ broken fails more else broken fails more

-- A viewer is erased with its sessions; one whose thread was not joined ends the program.
unfoldable pub drop_client : ℕ → Option QtClient → MonitorServer → Outcome MonitorServer
drop_client fd none m = done m
drop_client fd (some c) m =
    if any_thread c.session_map
    then crash
    else done (record m { qt_clients = fd_erase fd m.qt_clients })

unfoldable pub drop_clients : List ℕ → MonitorServer → Outcome MonitorServer
unfolding drop_client
drop_clients [] m = done m
drop_clients (fd ∷ fds) m =
    on_done (drop_client fd (fd_find fd m.qt_clients) (perform (closed fd ∷ []) m))
      (drop_clients fds)

-- `onNaluTcp`: `fails` tells on which sockets `send` fails.
unfoldable pub on_nalu_tcp : (ℕ → Bool) → Bytes → Bytes → MonitorServer → Outcome MonitorServer
unfolding nalu_frame drop_clients
on_nalu_tcp fails name [] m = done m
on_nalu_tcp fails [] (b ∷ bs) m = done m
on_nalu_tcp fails (n ∷ ns) (b ∷ bs) m =
    drop_clients (broken fails m.qt_clients)
      (perform (frames_to (nalu_frame (n ∷ ns) (b ∷ bs)) m.qt_clients) m)
