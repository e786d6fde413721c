-- ===== src/Monitor/System/Kept.antt =====
-- What holds of the viewers of media/MonitorServer.cc as long as the server runs.
use car_detect.Prelude.{
  ◌≡◌, ◌⊎◌, inl, inr, false, if_cases, arith, ℕ, refl, Option, none, some, Bool, List, [], ◌∷◌,
  ◌++◌, Bytes, All, drop, length, take,
}
use car_detect.Effect.{Outcome, stuck, on_done, done, crash}
use car_detect.Media.Text.{map_find}
use car_detect.Monitor.{
  ViewerKcp, UdpSession, QtClient, Effect, MonitorServer, new_monitor, fd_find, perform, closed,
  kcp_input, kcp_sent,
}
use car_detect.Monitor.Viewers.{on_readable, accept_client}
use car_detect.Monitor.Cameras.{
  waits_for, must_wait, tell_all, tell_added, tell_removed, add_cam, remove_cam,
}
use car_detect.Monitor.Datagrams.{
  target_session, input_to, on_datagram, on_datagrams, on_kcp, queue_on, send_to_viewers,
  on_nalu_udp, drop_client, drop_clients, on_nalu_tcp, broken, frames_to, nalu_frame, kcp_getu32,
}
use car_detect.Monitor.System.{
  Stimulus, accepted, readable, datagrams, cam_came, cam_went, nalu_udp, nalu_tcp, react, react_all,
}
use car_detect.Monitor.System.Maps.{
  Safely, on_done-Safely, if-Safely, Live, Served, WellServed, map_erase-All, fd_set-All,
  fd_erase-All,
}
use car_detect.Monitor.System.Readable.{on_readable-Safely}

tell_all-Served :
    (tell : QtClient → QtClient × List Effect)
    → ((fd : ℕ) (c : QtClient) → Served (fd, c) → Served (fd, (tell c).0))
    → (cs : List (ℕ × QtClient)) → All Served cs
    → All Served (tell_all tell cs).0
unfolding tell_all
tell_all-Served tell keeps [] h = tt
tell_all-Served tell keeps ((fd, c) ∷ cs) (hc, h) = (keeps fd c hc, tell_all-Served tell keeps cs h)

tell_added-Served :
    (server id : Bytes) (o : Option UdpSession) (fd : ℕ) (c : QtClient)
    → Served (fd, c)
    → Served (fd, (tell_added server id c o).0)
unfolding tell_added
tell_added-Served server id none fd c h = h
tell_added-Served server id (some s) fd c h = h

tell_removed-Served :
    (server id : Bytes) (o : Option UdpSession) (fd : ℕ) (c : QtClient)
    → Served (fd, c)
    → Served (fd, (tell_removed server id c o).0)
unfolding tell_removed
tell_removed-Served server id none fd c h = h
tell_removed-Served server id (some s) fd c (hf, hs) = (hf, map_erase-All Live id c.session_map hs)

on_kcp-Safely :
    (f : ViewerKcp → Effect) (o : Option ViewerKcp) (m : MonitorServer)
    → WellServed m
    → Safely WellServed (on_kcp f o m)
on_kcp-Safely f none m h = tt
on_kcp-Safely f (some k) m h = h

input_to-Safely :
    (o : Option UdpSession) (d : Bytes) (m : MonitorServer)
    → WellServed m
    → Safely WellServed (input_to o d m)
unfolding input_to
input_to-Safely none d m h = tt
input_to-Safely (some s) d m h = on_kcp-Safely (λ k. kcp_input k d) s.ikcp m h

on_datagrams-Safely :
    (held : Bytes) (ds : List Bytes) (m : MonitorServer)
    → WellServed m
    → Safely WellServed (on_datagrams held ds m)
unfolding on_datagrams on_datagram
on_datagrams-Safely held [] m h = h
on_datagrams-Safely held ([] ∷ ds) m h = h
on_datagrams-Safely held ((b ∷ bs) ∷ ds) m h =
    let d = take 2048 (b ∷ bs) in
    on_done-Safely WellServed WellServed (on_datagram held d m)
      (on_datagrams (d ++ drop (length d) held) ds)
      (input_to-Safely (target_session (kcp_getu32 (d ++ drop (length d) held)) m.qt_clients) d m h)
      (λ m' h'. on_datagrams-Safely (d ++ drop (length d) held) ds m' h')

queue_on-Safely :
    (o : Option UdpSession) (d : Bytes) (m : MonitorServer)
    → WellServed m
    → Safely WellServed (queue_on o d m)
queue_on-Safely none d m h = h
queue_on-Safely (some s) d m h = on_kcp-Safely (λ k. kcp_sent k d) s.ikcp m h

send_to_viewers-Safely :
    (cs : List (ℕ × QtClient)) (id d : Bytes) (m : MonitorServer)
    → WellServed m
    → Safely WellServed (send_to_viewers cs id d m)
unfolding send_to_viewers
send_to_viewers-Safely [] id d m h = h
send_to_viewers-Safely ((fd, c) ∷ cs) id d m h =
    on_done-Safely WellServed WellServed (queue_on (map_find id c.session_map) d m)
      (send_to_viewers cs id d) (queue_on-Safely (map_find id c.session_map) d m h)
      (λ m' h'. send_to_viewers-Safely cs id d m' h')

drop_client-Safely :
    (fd : ℕ) (o : Option QtClient) (m : MonitorServer)
    → WellServed m
    → Safely WellServed (drop_client fd o m)
unfolding drop_client
drop_client-Safely fd none m h = h
drop_client-Safely fd (some c) m h =
    if-Safely WellServed _ crash (done _) tt (fd_erase-All Served fd m.qt_clients h)

drop_clients-Safely :
    (fds : List ℕ) (m : MonitorServer) → WellServed m → Safely WellServed (drop_clients fds m)
unfolding drop_clients
drop_clients-Safely [] m h = h
drop_clients-Safely (fd ∷ fds) m h =
    on_done-Safely WellServed WellServed (drop_client fd (fd_find fd m.qt_clients) _)
      (drop_clients fds)
      (drop_client-Safely fd (fd_find fd m.qt_clients) (perform (closed fd ∷ []) m) h)
      (λ m' h'. drop_clients-Safely fds m' h')

-- What a call comes to: all viewers are well served, or something undefined is met, or it is the
-- removal of a camera while the thread of a viewer is at its lock, which waits for ever.
abbrev WaitsFor : Stimulus → Type 0
WaitsFor (cam_went (h ∷ hs) id) = Unit {0}
WaitsFor _ = ⊥

abbrev StepEnds : Stimulus → Outcome MonitorServer → Type 0
StepEnds s (done m) = WellServed m
StepEnds s crash = Unit {0}
StepEnds s stuck = WaitsFor s

Safely→StepEnds : (s : Stimulus) (o : Outcome MonitorServer) → Safely WellServed o → StepEnds s o
Safely→StepEnds s (done m) h = h
Safely→StepEnds s crash h = tt
Safely→StepEnds s stuck h = elim h [ ]

waits_for-nil : (fd : ℕ) (o : Option UdpSession) → waits_for [] fd o ≡ false
waits_for-nil fd none = refl
waits_for-nil fd (some s) = ground arith

must_wait-nil : (id : Bytes) (cs : List (ℕ × QtClient)) → must_wait [] id cs ≡ false
unfolding must_wait
must_wait-nil id [] = refl
must_wait-nil id ((fd, c) ∷ cs) =
    rw (waits_for-nil fd (map_find id c.session_map)) (must_wait-nil id cs)

remove_cam-StepEnds :
    (hung : List ℕ) (id : Bytes) (m : MonitorServer)
    → WellServed m
    → StepEnds (cam_went hung id) (remove_cam hung id m)
unfolding remove_cam
remove_cam-StepEnds [] id m h = rw (must_wait-nil id m.qt_clients) (
    tell_all-Served (λ c. tell_removed m.server id c (map_find id c.session_map))
      (λ fd c. tell_removed-Served m.server id (map_find id c.session_map) fd c) m.qt_clients h)
remove_cam-StepEnds (n ∷ hung) id m h =
    if_cases (StepEnds (cam_went (n ∷ hung) id)) (must_wait (n ∷ hung) id m.qt_clients) stuck _
      (λ _. tt)
      (λ _.
        tell_all-Served (λ c. tell_removed m.server id c (map_find id c.session_map))
          (λ fd c. tell_removed-Served m.server id (map_find id c.session_map) fd c) m.qt_clients h)

nalu_tcp-Safely :
    (fails : ℕ → Bool) (name d : Bytes) (m : MonitorServer)
    → WellServed m
    → Safely WellServed (on_nalu_tcp fails name d m)
unfolding on_nalu_tcp
nalu_tcp-Safely fails name [] m h = h
nalu_tcp-Safely fails [] (b ∷ bs) m h = h
nalu_tcp-Safely fails (n ∷ ns) (b ∷ bs) m h =
    drop_clients-Safely (broken fails m.qt_clients)
      (perform (frames_to (nalu_frame (n ∷ ns) (b ∷ bs)) m.qt_clients) m) h

react-StepEnds :
    (creates : ℕ → Bool) (s : Stimulus) (m : MonitorServer)
    → WellServed m
    → StepEnds s (react creates s m)
unfolding react accept_client add_cam on_nalu_udp
react-StepEnds creates (accepted fd ip) m h = fd_set-All Served fd _ m.qt_clients (refl, tt) h
react-StepEnds creates (readable fd r) m h =
    Safely→StepEnds (readable fd r) (on_readable creates fd r m)
      (on_readable-Safely creates fd r m h)
react-StepEnds creates (datagrams held ds) m h =
    Safely→StepEnds (datagrams held ds) (on_datagrams held ds m) (on_datagrams-Safely held ds m h)
react-StepEnds creates (cam_came id name) m h =
    tell_all-Served (λ c. tell_added m.server id c (map_find id c.session_map))
      (λ fd c. tell_added-Served m.server id (map_find id c.session_map) fd c) m.qt_clients h
react-StepEnds creates (cam_went hung id) m h = remove_cam-StepEnds hung id m h
react-StepEnds creates (nalu_udp id d) m h =
    Safely→StepEnds (nalu_udp id d) (on_nalu_udp id d m)
      (send_to_viewers-Safely m.qt_clients id d m h)
react-StepEnds creates (nalu_tcp fails name d) m h =
    Safely→StepEnds (nalu_tcp fails name d) (on_nalu_tcp fails name d m)
      (nalu_tcp-Safely fails name d m h)

-- Among what happened is such a removal.
abbrev pub Waits : List Stimulus → Type 0
Waits [] = ⊥
Waits (s ∷ ss) = WaitsFor s ⊎ Waits ss

abbrev pub AllEnd : List Stimulus → Outcome MonitorServer → Type 0
AllEnd ss (done m) = WellServed m
AllEnd ss crash = Unit {0}
AllEnd ss stuck = Waits ss

AllEnd-later :
    (s : Stimulus) (ss : List Stimulus) (o : Outcome MonitorServer)
    → AllEnd ss o
    → AllEnd (s ∷ ss) o
AllEnd-later s ss (done m) h = h
AllEnd-later s ss crash h = tt
AllEnd-later s ss stuck h = inr h

on_done-AllEnd :
    (s : Stimulus) (ss : List Stimulus) (o : Outcome MonitorServer)
    (k : MonitorServer → Outcome MonitorServer)
    → StepEnds s o
    → ((m : MonitorServer) → WellServed m → AllEnd ss (k m))
    → AllEnd (s ∷ ss) (on_done o k)
on_done-AllEnd s ss (done m) k h next = AllEnd-later s ss (k m) (next m h)
on_done-AllEnd s ss crash k h next = tt
on_done-AllEnd s ss stuck k h next = inl h

react_all-AllEnd :
    (creates : ℕ → Bool) (ss : List Stimulus) (m : MonitorServer)
    → WellServed m
    → AllEnd ss (react_all creates ss m)
unfolding react_all
react_all-AllEnd creates [] m h = h
react_all-AllEnd creates (s ∷ ss) m h =
    on_done-AllEnd s ss (react creates s m) (react_all creates ss) (react-StepEnds creates s m h)
      (λ m' h'. react_all-AllEnd creates ss m' h')

-- From the server's start, whatever viewers, requests, datagrams and cameras come and go: either each
-- viewer stands under its own descriptor, and each of its sessions has a control block with the
-- session's number, and a thread that runs; or something undefined was met; or a call waits for ever,
-- and then a camera was removed while the thread of a viewer was at its lock.
pub react_all-WellServed :
    (creates : ℕ → Bool) (ss : List Stimulus) (server : Bytes)
    → AllEnd ss (react_all creates ss (new_monitor server))
react_all-WellServed creates ss server = react_all-AllEnd creates ss (new_monitor server) tt
