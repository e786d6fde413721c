-- ===== src/Monitor/Conversation/ByViewer.antt =====
-- How a viewer (car_detect_qt/monitorclientwidget.cpp) takes the server's ADDCAM.
use car_detect.Prelude.{
  All-map, ℕ, ◌+◌, ◌%◌, ◌^◌, ◌≡◌, ◌≢◌, refl, sym, ap, ap₂, ◌∙◌, some, Bool, true, List, [], ◌∷◌,
  ◌++◌, Bytes, All, arith, append_assoc, append-nil, codes, Bool-cases, inl, inr, str_eq,
  str_eq_iff,
}
use car_detect.Effect.{done}
use car_detect.Rtsp.Text.{decimal, is_space, strstr}
use car_detect.Rtsp.Requests.{crlf}
use car_detect.Media.Text.{strip, erase_front, erase_back, map_set, map_find, less}
use car_detect.Media.Requests.{Headers}
use car_detect.Media.Camera.Lines.{InWord}
use car_detect.Media.Camera.Ids.{IsHexByte}
use car_detect.Viewer.Client.{
  TransUdpPort, MonitorClient, Respond, trimmed, skip_empty, onto_parts, add_line, add_lines,
  respond_of, parse_split, parse_respond, request_head, port_line, send_add_cam_respond, add_camera,
  on_other, handle_respond, take_respond, on_ready_read,
}
use car_detect.Monitor.Viewers.{fields}
use car_detect.Monitor.Cameras.{cam_request}
use car_detect.Monitor.Conversation.Texts.{
  IsLine, message, before_blank, strstr-message, take-message, split-before_blank,
}
use car_detect.Monitor.Conversation.Words.{
  Full, decimal-Full, IsTight, word-IsTight, append-IsTight, strip-IsTight, strip-blank,
  fields-last, cut_at-name,
}
use car_detect.Monitor.Conversation.Lines.{
  IsHexByte→InWord, decimal-InWord, InWord-other, text-IsLine,
}

trimmed-IsTight : (v : Bytes) → IsTight is_space v → trimmed v ≡ v
trimmed-IsTight v h = ap trimmed (sym (append-nil v)) ∙ strip-IsTight is_space v [] h tt

trimmed-text :
    (c : ℕ) (text w : Bytes)
    → InWord c
    → Full w
    → All InWord w
    → trimmed ((c ∷ text) ++ w) ≡ (c ∷ text) ++ w
trimmed-text c text w hc f hw =
    trimmed-IsTight ((c ∷ text) ++ w) (append-IsTight is_space c text w hc f hw)

trimmed-blank : (w : Bytes) → Full w → All InWord w → trimmed (b' ' ∷ w) ≡ w
trimmed-blank w f h =
    strip-blank is_space b' ' w (unfold is_space in refl)
    ∙ trimmed-IsTight w (word-IsTight is_space w f h)

onto_parts-Full : (w : Bytes) (parts : List Bytes) → Full w → onto_parts w parts ≡ w ∷ parts
onto_parts-Full [] parts h = elim h [ ]
onto_parts-Full (c ∷ w) parts h = refl

pub map_find-map_set :
    {A : Type 0} (k : Bytes) (v : A) (m : List (Bytes × A)) → map_find k (map_set k v m) ≡ some v
map_find-map_set k v [] = rw ((str_eq_iff k k).1 refl) refl
map_find-map_set k v ((j, w) ∷ m) = elim (Bool-cases (str_eq k j)) [
  | inl e ↦ rw (e, (str_eq_iff k k).1 refl) refl
  | inr e ↦ elim (Bool-cases (less k j)) [
    | inl l ↦ rw (e, l, (str_eq_iff k k).1 refl) refl
    | inr l ↦ rw (e, l, e) (map_find-map_set k v m)
  ]
]

-- A line with a name and a value becomes an entry.
add_line-entry :
    (c : ℕ) (name v : Bytes) (headers : Headers)
    → InWord c
    → All (λ d. d ≢ b':') (c ∷ name)
    → trimmed (c ∷ name) ≡ c ∷ name
    → Full v
    → All InWord v
    → add_line ((c ∷ name) ++ (b':' ∷ b' ' ∷ v)) headers ≡ map_set (c ∷ name) v headers
unfolding add_line
add_line-entry c name v headers hc hn ht f hv =
    let whole : trimmed ((c ∷ name) ++ (b':' ∷ b' ' ∷ v)) ≡ (c ∷ name) ++ (b':' ∷ b' ' ∷ v) =
      ap trimmed (sym (append_assoc (c ∷ name) (b':' ∷ b' ' ∷ []) v))
      ∙ trimmed-text c (name ++ (b':' ∷ b' ' ∷ [])) v hc f hv
      ∙ append_assoc (c ∷ name) (b':' ∷ b' ' ∷ []) v in
    rw (add_line, whole, cut_at-name (c ∷ name) (b' ' ∷ v) hn)
      (ap₂ (λ k w. map_set k w headers) ht (trimmed-blank v f hv))

module _ (server : Bytes) (n : ℕ) (id : Bytes) (fs : Full server) (hs : All InWord server)
    (fi : Full id) (hi : All IsHexByte id) where
  abbrev line1 : Bytes
  line1 = codes "ADDCAM " ++ server

  abbrev line2 : Bytes
  line2 = codes "Cseq: " ++ decimal n

  abbrev line3 : Bytes
  line3 = codes "SessionId: " ++ id

  id-InWord : All InWord id
  id-InWord = All-map IsHexByte→InWord id hi

  cam_request-message :
      cam_request (codes "ADDCAM") server n id ≡ message line1 (line2 ∷ line3 ∷ [])
  unfolding cam_request
  cam_request-message = simp append_assoc refl

  line1-IsLine : IsLine line1
  line1-IsLine = text-IsLine b'A' (codes "DDCAM ") server (omega arith, omega arith) refl hs

  more-IsLine : All IsLine (line2 ∷ line3 ∷ [])
  more-IsLine = (
    text-IsLine b'C' (codes "seq: ") (decimal n) (omega arith, omega arith) refl (decimal-InWord n),
    (text-IsLine b'S' (codes "essionId: ") id (omega arith, omega arith) refl id-InWord, tt),
  )

  abbrev added_respond : Respond
  added_respond = record {
    first = codes "ADDCAM";
    second = server;
    headers = (codes "Cseq", decimal n) ∷ (codes "SessionId", id) ∷ [];
  }

  first_line : skip_empty (fields (trimmed line1)) ≡ codes "ADDCAM" ∷ server ∷ []
  unfolding skip_empty fields
  first_line =
      ap (λ l. skip_empty (fields l))
        (trimmed-text b'A' (codes "DDCAM ") server (unfold is_space in refl) fs hs)
      ∙ ap (λ ps. skip_empty (codes "ADDCAM" ∷ ps))
          (fields-last server fs (All-map InWord-other server hs))
      ∙ ap (λ ps. codes "ADDCAM" ∷ ps) (onto_parts-Full server [] fs)

  other_lines :
      add_lines (line2 ∷ line3 ∷ []) [] ≡ (codes "Cseq", decimal n) ∷ (codes "SessionId", id) ∷ []
  unfolding add_lines less
  other_lines =
      ap (add_line line3) (
        add_line-entry b'C' (codes "seq") (decimal n) [] (unfold is_space in refl) (omega arith)
          (unfold strip erase_front erase_back is_space in refl) (decimal-Full n)
          (decimal-InWord n))
      ∙ add_line-entry b'S' (codes "essionId") id ((codes "Cseq", decimal n) ∷ [])
          (unfold is_space in refl) (omega arith)
          (unfold strip erase_front erase_back is_space in refl) fi id-InWord

  parse_split-added : parse_split (line1 ∷ line2 ∷ line3 ∷ []) ≡ added_respond
  unfolding parse_split respond_of
  parse_split-added =
      ap (λ ps. respond_of ps (line2 ∷ line3 ∷ [])) first_line
      ∙ ap (λ (hd : Headers). record { first = codes "ADDCAM"; second = server; headers = hd })
          other_lines

  -- What the viewer takes from its buffer, and what it reads in it.
  take_respond-added :
      take_respond (cam_request (codes "ADDCAM") server n id)
      ≡ (before_blank line1 (line2 ∷ line3 ∷ []), [])
  unfolding take_respond strstr decimal
  take_respond-added =
      rw
        (
          cam_request-message,
          strstr-message line1 (line2 ∷ line3 ∷ []) line1-IsLine more-IsLine,
          take-message line1 (line2 ∷ line3 ∷ []),
        )
        refl

  parse_respond-added : parse_respond (before_blank line1 (line2 ∷ line3 ∷ [])) ≡ added_respond
  unfolding parse_respond
  parse_respond-added =
      ap parse_split (split-before_blank line1 (line2 ∷ line3 ∷ []) line1-IsLine more-IsLine)
      ∙ parse_split-added

-- The viewer's entry for a new camera, and what it writes.
abbrev pub new_port : (ℕ → ℕ) → MonitorClient → TransUdpPort
new_port port_of v = record {
  udp_rtp_port = port_of v.sockets;
  udp_rtcp_port = port_of (v.sockets + 1);
  conv = (v.conv + 1) % 2 ^ 32;
}

abbrev pub reply : (ℕ → ℕ) → Bytes → MonitorClient → Bytes
reply port_of id v =
    request_head (codes "ADDCAM") v.local (v.cseq + 1)
    ++ (port_line id (new_port port_of v) ++ crlf)

abbrev pub after_reply : (ℕ → ℕ) → Bytes → MonitorClient → MonitorClient
after_reply port_of id v = record v {
  cam_map = map_set id (new_port port_of v) v.cam_map;
  buffer = [];
  cseq = v.cseq + 1;
  conv = (v.conv + 1) % 2 ^ 32;
  sockets = v.sockets + 2;
  written = v.written ++ (reply port_of id v ∷ []);
}

handle_respond-added :
    (port_of : ℕ → ℕ) (creates : ℕ → Bool) (server : Bytes) (n : ℕ) (id : Bytes) (v : MonitorClient)
    → creates ((v.conv + 1) % 2 ^ 32) ≡ true
    → handle_respond port_of creates
        (record {
          first = codes "ADDCAM";
          second = server;
          headers = (codes "Cseq", decimal n) ∷ (codes "SessionId", id) ∷ [];
        })
        (record v { buffer = [] })
      ≡ done (after_reply port_of id v)
unfolding handle_respond on_other add_camera send_add_cam_respond
handle_respond-added port_of creates server n id v made =
    rw (made, send_add_cam_respond, map_find-map_set id (new_port port_of v) v.cam_map) refl

-- The viewer takes the camera up with two new sockets and a new number, and answers with them.
pub on_ready_read-added :
    (port_of : ℕ → ℕ) (creates : ℕ → Bool) (server : Bytes) (n : ℕ) (id : Bytes) (v : MonitorClient)
    → Full server
    → All InWord server
    → Full id
    → All IsHexByte id
    → v.buffer ≡ []
    → creates ((v.conv + 1) % 2 ^ 32) ≡ true
    → on_ready_read port_of creates (cam_request (codes "ADDCAM") server n id) v
      ≡ done (after_reply port_of id v)
unfolding on_ready_read
on_ready_read-added port_of creates server n id v fs hs fi hi clear made =
    ap
      (λ (p : Bytes × Bytes).
        handle_respond port_of creates (parse_respond p.0) (record v { buffer = p.1 }))
      (ap (λ b. take_respond (b ++ cam_request (codes "ADDCAM") server n id)) clear
        ∙ take_respond-added server n id fs hs fi hi)
    ∙ ap (λ r. handle_respond port_of creates r (record v { buffer = [] }))
        (parse_respond-added server n id fs hs fi hi)
    ∙ handle_respond-added port_of creates server n id v made
