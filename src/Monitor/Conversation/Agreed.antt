-- ===== src/Monitor/Conversation/Agreed.antt =====
-- A camera comes: the monitor server (media/MonitorServer.cc) tells a viewer, and takes its answer
-- (car_detect_qt/monitorclientwidget.cpp).
use car_detect.Prelude.{
  ℕ, ◌+◌, ◌%◌, ◌^◌, ◌≡◌, refl, sym, ap, ◌∙◌, none, some, Bool, true, false, List, [], ◌∷◌, ◌++◌,
  Bytes, All, append_assoc, ◌==◌, ltb, codes, Bool-cases, inl, inr, ==_refl,
}
use car_detect.Effect.{done}
use car_detect.Os.{received}
use car_detect.Media.Text.{map_find}
use car_detect.Media.Camera.Lines.{InWord}
use car_detect.Media.Camera.Ids.{IsHexByte}
use car_detect.Viewer.Client.{MonitorClient, on_ready_read}
use car_detect.Monitor.{QtClient, Effect, sent, MonitorServer, fd_set, fd_find, set_client}
use car_detect.Monitor.Viewers.{has_thread, on_readable}
use car_detect.Monitor.Cameras.{cam_request, tell_all, tell_added, add_cam}
use car_detect.Monitor.Conversation.Words.{Full}
use car_detect.Monitor.Conversation.ByViewer.{
  map_find-map_set, new_port, reply, after_reply, on_ready_read-added,
}
use car_detect.Monitor.Conversation.ByServer.{made_session, taken_up, InRange, on_readable-reply}

fd_find-fd_set : {A : Type 0} (k : ℕ) (v : A) (m : List (ℕ × A)) → fd_find k (fd_set k v m) ≡ some v
fd_find-fd_set k v [] = rw (==_refl k) refl
fd_find-fd_set k v ((j, w) ∷ m) = elim (Bool-cases (k == j)) [
  | inl e ↦ rw (e, ==_refl k) refl
  | inr e ↦ elim (Bool-cases (ltb k j)) [
    | inl l ↦ rw (e, l, ==_refl k) refl
    | inr l ↦ rw (e, l, e) (fd_find-fd_set k v m)
  ]
]

-- A viewer is told what `tell` says for it, among the others.
abbrev Told : (QtClient → QtClient × List Effect) → ℕ → QtClient → List (ℕ × QtClient) → Type 0
Told tell fd c cs =
    (before : List Effect) × (after : List Effect) × ((tell_all tell cs).1
      ≡ before ++ ((tell c).1 ++ after))
    × (fd_find fd (tell_all tell cs).0 ≡ some (tell c).0)

tell_all-Told :
    (tell : QtClient → QtClient × List Effect) (fd : ℕ) (c : QtClient) (cs : List (ℕ × QtClient))
    → fd_find fd cs ≡ some c
    → Told tell fd c cs
unfolding tell_all
tell_all-Told tell fd c [] h = cc
tell_all-Told tell fd c ((j, d) ∷ cs) h = elim (Bool-cases (fd == j)) [
  | inl e ↦
      let found : some d ≡ some c = rw e at h in
      let same : d ≡ c = cc in
      rw e (
        [],
        (tell_all tell cs).1,
        ap (λ b. (tell b).1 ++ (tell_all tell cs).1) same,
        ap (λ b. some (tell b).0) same,
      )
  | inr e ↦
      let (before, after, es, there) = tell_all-Told tell fd c cs (rw e at h) in
      rw e (
        (tell d).1 ++ before,
        after,
        ap (λ s. (tell d).1 ++ s) es ∙ sym (append_assoc (tell d).1 before _),
        there,
      )
]

-- What the server sends about a camera to a viewer.
abbrev pub added_text : Bytes → Bytes → QtClient → Bytes
added_text server id c = cam_request (codes "ADDCAM") server (c.cseq + 1) id

-- A viewer with no session for the camera, and with nothing left in either buffer, the server's
-- address and the viewer's free of white space, the id of hexadecimal digits and dashes, ports of 16
-- bits, and control blocks to be had: addCam sends the viewer a text, on which the viewer's
-- onReadyRead opens two sockets with a new number, and writes an answer, on which the server gives
-- the viewer a session under the camera's id with just those ports and that number, a control block
-- and a thread. Each of the two comes in one piece.
pub add_cam-agreed :
    (creates creates' : ℕ → Bool) (port_of : ℕ → ℕ) (id name : Bytes) (fd : ℕ) (c : QtClient)
    (m : MonitorServer) (v : MonitorClient)
    → Full m.server
    → All InWord m.server
    → All InWord v.local
    → Full id
    → All IsHexByte id
    → InRange (new_port port_of v)
    → creates ((v.conv + 1) % 2 ^ 32) ≡ true
    → creates' ((v.conv + 1) % 2 ^ 32) ≡ true
    → fd_find fd m.qt_clients ≡ some c
    → map_find id c.session_map ≡ none
    → c.buffer ≡ []
    → v.buffer ≡ []
    → ((before : List Effect) × (after : List Effect) × ((add_cam id name m).effects
          ≡ m.effects ++ (before ++ (sent c.tcp_fd (added_text m.server id c) ∷ after))))
      × (v' : MonitorClient) × (on_ready_read port_of creates' (added_text m.server id c) v
          ≡ done v')
      × (map_find id v'.cam_map ≡ some (new_port port_of v))
      × (v'.written ≡ v.written ++ (reply port_of id v ∷ []))
      × (m' : MonitorServer) × (c' : QtClient) × (on_readable creates fd
            (received (reply port_of id v))
            (add_cam id name m)
          ≡ done m')
      × (fd_find fd m'.qt_clients ≡ some c')
      × (map_find id c'.session_map ≡ some (made_session c.client_ip (new_port port_of v)))
unfolding add_cam tell_added
add_cam-agreed creates creates' port_of id name fd c m v fs hs hl fi hi hp made made' there unknown
      clear clear' =
    let tell = λ (d : QtClient). tell_added m.server id d (map_find id d.session_map) in
    let (before, after, told, found) = tell_all-Told tell fd c m.qt_clients there in
    let c1 : QtClient = record c { cseq = c.cseq + 1 } in
    let free : has_thread (map_find id c.session_map) ≡ false = rw unknown refl in
    let told_one = told ∙ ap (λ o. before ++ ((tell_added m.server id c o).1 ++ after)) unknown in
    let found_one = found ∙ ap (λ o. some (tell_added m.server id c o).0) unknown in
    let c2 : QtClient = record c1 { buffer = []; cseq = c1.cseq + 1 } in
    let p = new_port port_of v in
    let m1 = set_client fd c2 (add_cam id name m) in
    (
      (before, after, ap (λ es. m.effects ++ es) told_one),
      after_reply port_of id v,
      on_ready_read-added port_of creates' m.server (c.cseq + 1) id v fs hs fi hi clear' made',
      map_find-map_set id p v.cam_map,
      refl,
      set_client fd (taken_up id p c1) m1,
      taken_up id p c1,
      on_readable-reply creates v.local (v.cseq + 1) id p hl fi hi hp made fd c1 (add_cam id name m)
          found_one clear free,
      fd_find-fd_set fd (taken_up id p c1) m1.qt_clients,
      map_find-map_set id (made_session c.client_ip p) c.session_map,
    )
