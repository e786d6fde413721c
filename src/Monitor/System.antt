-- ===== src/Monitor/System.antt =====
-- media/MonitorServer.cc as a whole: whatever happens to the server of the viewers, one thing after
-- the other.
pub mod Maps
pub mod Readable
pub mod Kept
pub mod Delivered
use car_detect.Prelude.{ℕ, Bool, List, [], ◌∷◌, Bytes}
use car_detect.Effect.{Outcome, done, on_done}
use car_detect.Os.{RecvResult}
use car_detect.Monitor.{MonitorServer}
use car_detect.Monitor.Viewers.{accept_client, on_readable}
use car_detect.Monitor.Cameras.{add_cam, remove_cam}
use car_detect.Monitor.Datagrams.{on_datagrams, on_nalu_udp, on_nalu_tcp}

-- A new viewer with its address, what `recv` gives on a viewer's socket, the datagrams that wait, with
-- what the buffer held; a camera that comes or goes, with the viewers whose threads are at their locks
-- then, and its video, over KCP or TCP.
pub data Stimulus : Type 0 where
  accepted : ℕ → Bytes → Stimulus
  readable : ℕ → RecvResult → Stimulus
  datagrams : Bytes → List Bytes → Stimulus
  cam_came : Bytes → Bytes → Stimulus
  cam_went : List ℕ → Bytes → Stimulus
  nalu_udp : Bytes → Bytes → Stimulus
  nalu_tcp : (ℕ → Bool) → Bytes → Bytes → Stimulus

unfoldable pub react : (ℕ → Bool) → Stimulus → MonitorServer → Outcome MonitorServer
unfolding accept_client on_readable on_datagrams add_cam remove_cam on_nalu_udp on_nalu_tcp
react creates (accepted fd ip) m = done (accept_client fd ip m)
react creates (readable fd r) m = on_readable creates fd r m
react creates (datagrams held ds) m = on_datagrams held ds m
react creates (cam_came id name) m = done (add_cam id name m)
react creates (cam_went hung id) m = remove_cam hung id m
react creates (nalu_udp id d) m = on_nalu_udp id d m
react creates (nalu_tcp fails name d) m = on_nalu_tcp fails name d m

unfoldable pub react_all : (ℕ → Bool) → List Stimulus → MonitorServer → Outcome MonitorServer
unfolding react
react_all creates [] m = done m
react_all creates (s ∷ ss) m = on_done (react creates s m) (react_all creates ss)
