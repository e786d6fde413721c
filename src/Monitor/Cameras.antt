-- ===== src/Monitor/Cameras.antt =====
-- media/MonitorServer.cc: `addCam` and `removeCam`, which the RTSP connections call.
use car_detect.Effect.{Outcome, done, stuck}
use car_detect.Prelude.{
  Bool, false, ◌||◌, ◌&&◌, ◌==◌, if◌then◌else◌, ℕ, ◌+◌, Option, none, some, List, [], ◌∷◌, ◌++◌,
  Bytes, codes,
}
use car_detect.Rtsp.Text.{decimal}
use car_detect.Rtsp.Requests.{crlf}
use car_detect.Media.Text.{map_set, map_find, map_erase}
use car_detect.Monitor.{UdpSession, QtClient, Effect, sent, MonitorServer, perform}
use car_detect.Monitor.Viewers.{release_session_kcp}

unfoldable pub cam_request : Bytes → Bytes → ℕ → Bytes → Bytes
cam_request method server cseq id =
    method
    ++ (b' ' ∷ server
        ++ (crlf
            ++ (codes "Cseq: "
                ++ (decimal cseq ++ (crlf ++ (codes "SessionId: " ++ (id ++ (crlf ++ crlf))))))))

-- What one viewer gets, and what becomes of it.
unfoldable pub tell_added : Bytes → Bytes → QtClient → Option UdpSession → QtClient × List Effect
unfolding cam_request
tell_added server id c (some s) = (c, [])
tell_added server id c none = (
  record c { cseq = c.cseq + 1 },
  sent c.tcp_fd (cam_request (codes "ADDCAM") server (c.cseq + 1) id) ∷ [],
)

-- The thread is joined before the control block is given back.
unfoldable pub tell_removed : Bytes → Bytes → QtClient → Option UdpSession → QtClient × List Effect
unfolding cam_request
tell_removed server id c none = (c, [])
tell_removed server id c (some s) = (
  record c { session_map = map_erase id c.session_map },
  sent c.tcp_fd (cam_request (codes "DELCAM") server c.cseq id) ∷ release_session_kcp s.ikcp,
)

-- The loop over the viewers.
unfoldable pub tell_all :
    (QtClient → QtClient × List Effect) → List (ℕ × QtClient) → List (ℕ × QtClient) × List Effect
tell_all tell [] = ([], [])
tell_all tell ((fd, c) ∷ more) =
    let (c', es) = tell c in let (more', es') = tell_all tell more in ((fd, c') ∷ more', es ++ es')

unfoldable pub add_cam : Bytes → Bytes → MonitorServer → MonitorServer
unfolding tell_all tell_added
add_cam id name m =
    let (clients, es) =
      tell_all (λ c. tell_added m.server id c (map_find id c.session_map)) m.qt_clients in
    perform es (record m { qt_clients = clients; cams = map_set id name m.cams })

abbrev pub holds : ℕ → List ℕ → Bool
holds fd [] = false
holds fd (h ∷ hs) = h == fd || holds fd hs

abbrev pub waits_for : List ℕ → ℕ → Option UdpSession → Bool
waits_for hung fd none = false
waits_for hung fd (some s) = s.kcp_thread && holds fd hung

-- Whether one of the threads that are joined does not end.
unfoldable pub must_wait : List ℕ → Bytes → List (ℕ × QtClient) → Bool
must_wait hung id [] = false
must_wait hung id ((fd, c) ∷ cs) =
    waits_for hung fd (map_find id c.session_map) || must_wait hung id cs

-- Each thread is joined under the mutex of its session. `hung` are the viewers, by their descriptors,
-- whose thread is at the lock of that mutex by then: it never ends (Joining), and the call waits for
-- ever.
unfoldable pub remove_cam : List ℕ → Bytes → MonitorServer → Outcome MonitorServer
unfolding must_wait tell_all tell_removed
remove_cam hung id m =
    let (clients, es) =
      tell_all (λ c. tell_removed m.server id c (map_find id c.session_map)) m.qt_clients in
    if must_wait hung id m.qt_clients
    then stuck
    else done (perform es (record m { qt_clients = clients; cams = map_erase id m.cams }))
