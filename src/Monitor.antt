-- ===== src/Monitor.antt =====
-- media/MonitorServer.h and .cc: the server of the viewers. Its maps, its requests and the datagrams
-- are here and in the children; the threads that drive KCP are in `Joining`. The set-up of its sockets
-- and the wait of `acceptLoop` are left out, and so are the address's checks: an `InetAddress` is the
-- text of the address and the port.
pub mod Requests
pub mod Viewers
pub mod Cameras
pub mod Datagrams
pub mod Joining
pub mod System
pub mod Conversation
use car_detect.Prelude.{
  ℕ, Option, none, some, Bool, List, [], ◌∷◌, ◌++◌, Bytes, ltb, ◌==◌, if◌then◌else◌,
}

pub record Address : Type 0 where
  pub ip : Bytes
  pub port : ℕ

-- A KCP control block with what `kcp_init` sets.
pub record ViewerKcp : Type 0 where
  pub conv : ℕ
  pub user : Address
  pub interval : ℕ
  pub wndsize : ℕ
  pub mtu : ℕ

-- `kcp_thread` is whether `_kcpThread` has a thread.
pub record UdpSession : Type 0 where
  pub video_udp_rtp : Address
  pub video_udp_rtcp : Address
  pub ikcp : Option ViewerKcp
  pub conv : ℕ
  pub kcp_running : Bool
  pub kcp_thread : Bool

-- `cseq` is an `int`; a viewer makes fewer than 2 ^ 31 requests.
pub record QtClient : Type 0 where
  pub tcp_fd : ℕ
  pub client_ip : Bytes
  pub session_map : List (Bytes × UdpSession)
  pub buffer : Bytes
  pub cseq : ℕ

-- What the server does to the outside: a call of `send`, whatever comes of it, and calls of epoll, of
-- `close` and of KCP.
pub data Effect : Type 0 where
  sent : ℕ → Bytes → Effect
  watched unwatched closed : ℕ → Effect
  kcp_input kcp_sent : ViewerKcp → Bytes → Effect
  kcp_released : ViewerKcp → Effect

-- `server` is the text of `_server`.
pub record MonitorServer : Type 0 where
  pub qt_clients : List (ℕ × QtClient)
  pub cams : List (Bytes × Bytes)
  pub server : Bytes
  pub effects : List Effect

abbrev pub new_monitor : Bytes → MonitorServer
new_monitor server = record { qt_clients = []; cams = []; server = server; effects = [] }

-- `std::map<int, …>`: the keys stay in order.
module _ {A : Type 0} where
  abbrev pub fd_set : ℕ → A → List (ℕ × A) → List (ℕ × A)
  fd_set k v [] = (k, v) ∷ []
  fd_set k v ((j, w) ∷ m) =
      let rest = fd_set k v m in
      if k == j then (k, v) ∷ m else if ltb k j then (k, v) ∷ (j, w) ∷ m else (j, w) ∷ rest

  abbrev pub fd_find : ℕ → List (ℕ × A) → Option A
  fd_find k [] = none
  fd_find k ((j, w) ∷ m) = let rest = fd_find k m in if k == j then some w else rest

  abbrev pub fd_erase : ℕ → List (ℕ × A) → List (ℕ × A)
  fd_erase k [] = []
  fd_erase k ((j, w) ∷ m) = let rest = fd_erase k m in if k == j then m else (j, w) ∷ rest

abbrev pub perform : List Effect → MonitorServer → MonitorServer
perform es m = record m { effects = m.effects ++ es }

abbrev pub set_client : ℕ → QtClient → MonitorServer → MonitorServer
set_client fd c m = record m { qt_clients = fd_set fd c m.qt_clients }
