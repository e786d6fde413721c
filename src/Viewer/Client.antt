-- ===== src/Viewer/Client.antt =====
-- car_detect_qt/monitorclientwidget.h and .cpp: the viewer's side of the conversation with the monitor
-- server. A `QString` is its bytes, all below 128. What is shown, and the sockets but for their ports,
-- are left out.
use car_detect.Prelude.{
  ℕ, zero, suc, ◌+◌, ◌%◌, ◌^◌, ◌-◌, Option, none, some, Bool, true, false, ◌&&◌, List, [], ◌∷◌,
  ◌++◌, Bytes, length, take, drop, ltb, ◌==◌, if◌then◌else◌, codes, str_eq,
}
use car_detect.Effect.{Outcome, done, crash, on_done}
use car_detect.Rtsp.Text.{decimal, digits_value, is_digit, is_space, strstr}
use car_detect.Rtsp.Requests.{crlf}
use car_detect.Media.Text.{lines, cut_at, strip, map_set, map_find, map_erase}
use car_detect.Media.Requests.{Headers}
use car_detect.Monitor.Viewers.{fields}

-- The two sockets by their ports.
pub record TransUdpPort : Type 0 where
  pub udp_rtp_port : ℕ
  pub udp_rtcp_port : ℕ
  pub conv : ℕ

-- `local` is the address of the connection's own end; `sockets` counts those that were bound, and
-- `written` is what was written to the server.
pub record MonitorClient : Type 0 where
  pub cam_map : List (Bytes × TransUdpPort)
  pub buffer : Bytes
  pub cseq : ℕ
  pub conv : ℕ
  pub local : Bytes
  pub sockets : ℕ
  pub written : List Bytes

abbrev pub new_viewer : Bytes → MonitorClient
new_viewer local = record {
  cam_map = [];
  buffer = [];
  cseq = 0;
  conv = 1000;
  local = local;
  sockets = 0;
  written = [];
}

-- `replace("\r\n", '\n')`
abbrev pub ends_line : ℕ → Bytes → Bool
ends_line c [] = false
ends_line c (d ∷ s) = c == 13 && d == 10

unfoldable pub unix_lines : Bytes → Bytes
unix_lines [] = []
unix_lines (c ∷ s) = let rest = unix_lines s in if ends_line c s then rest else c ∷ rest

-- `Qt::SkipEmptyParts`
abbrev pub onto_parts : Bytes → List Bytes → List Bytes
onto_parts [] parts = parts
onto_parts (c ∷ s) parts = (c ∷ s) ∷ parts

unfoldable pub skip_empty : List Bytes → List Bytes
skip_empty [] = []
skip_empty (part ∷ parts) = onto_parts part (skip_empty parts)

abbrev pub trimmed : Bytes → Bytes
trimmed s = strip is_space s

-- A line becomes an entry if something stands before its first ':'.
unfoldable pub add_line : Bytes → Headers → Headers
unfolding cut_at strip is_space
add_line line headers = elim (cut_at b':' (trimmed line)) [
  | none ↦ headers
  | some (key, behind) ↦ elim key [
    | [] ↦ headers
    | c ∷ cs ↦ map_set (trimmed (c ∷ cs)) (trimmed behind) headers
  ]
]

unfoldable pub add_lines : List Bytes → Headers → Headers
unfolding add_line
add_lines [] headers = headers
add_lines (line ∷ more) headers = add_lines more (add_line line headers)

pub record Respond : Type 0 where
  pub first : Bytes
  pub second : Bytes
  pub headers : Headers

abbrev pub no_respond : Respond
no_respond = record { first = []; second = []; headers = [] }

unfoldable pub respond_of : List Bytes → List Bytes → Respond
unfolding add_lines
respond_of [] more = no_respond
respond_of (p ∷ []) more = no_respond
respond_of (p ∷ q ∷ ps) more = record { first = p; second = q; headers = add_lines more [] }

unfoldable pub parse_split : List Bytes → Respond
unfolding respond_of skip_empty fields
parse_split [] = no_respond
parse_split (line ∷ more) = respond_of (skip_empty (fields (trimmed line))) more

unfoldable pub parse_respond : Bytes → Respond
unfolding unix_lines lines parse_split
parse_respond text = parse_split (skip_empty (lines (unix_lines text)))

-- The texts that the viewer writes.
unfoldable pub request_head : Bytes → Bytes → ℕ → Bytes
request_head method local cseq =
    method ++ (b' ' ∷ local ++ (crlf ++ (codes "Cseq: " ++ (decimal cseq ++ crlf))))

abbrev pub port_line : Bytes → TransUdpPort → Bytes
port_line id p =
    id
    ++ (codes ": "
        ++ (decimal p.udp_rtp_port
            ++ (b' ' ∷ decimal p.udp_rtcp_port ++ (b' ' ∷ decimal p.conv ++ crlf))))

unfoldable pub port_lines : List (Bytes × TransUdpPort) → Bytes
port_lines [] = []
port_lines ((id, p) ∷ more) = port_line id p ++ port_lines more

abbrev pub write_request : Bytes → MonitorClient → MonitorClient
write_request text v = record v { cseq = v.cseq + 1; written = v.written ++ (text ∷ []) }

unfoldable pub send_setup : MonitorClient → MonitorClient
unfolding request_head
send_setup v = write_request (request_head (codes "SETUP") v.local (v.cseq + 1) ++ crlf) v

unfoldable pub send_message : MonitorClient → MonitorClient
unfolding request_head port_lines
send_message v =
    write_request
      (request_head (codes "MESSAGE") v.local (v.cseq + 1) ++ (port_lines v.cam_map ++ crlf)) v

-- `_camMap[sessionId]` makes an entry where there is none, with sockets that are null pointers.
unfoldable pub send_add_cam_respond : Bytes → MonitorClient → Outcome MonitorClient
unfolding request_head
send_add_cam_respond id v = elim (map_find id v.cam_map) [
  | none ↦ crash
  | some p ↦ done (
      write_request
        (request_head (codes "ADDCAM") v.local (v.cseq + 1)
          ++ (port_line id (record p { conv = v.conv }) ++ crlf))
        v)
]

abbrev pub or_empty : Option Bytes → Bytes
or_empty none = []
or_empty (some s) = s

-- `toInt`, with no number below 0: what is not a number is 0.
abbrev pub all_digits : Bytes → Bool
all_digits [] = true
all_digits (c ∷ s) = is_digit c && all_digits s

unfoldable pub to_int : Bytes → ℕ
unfolding digits_value is_digit strip is_space
to_int text = digits_of (trimmed text)
  where
    in_range : Bytes → ℕ
    in_range s = let n = digits_value 0 s in if all_digits s && ltb n (2 ^ 31) then n else 0

    digits_of : Bytes → ℕ
    digits_of [] = 0
    digits_of (c ∷ s) = if c == b'+' then in_range s else in_range (c ∷ s)

-- `indexOf` of the empty line is -1 where there is none: then all of the buffer is taken, and four
-- bytes are removed; otherwise five from the empty line on.
unfoldable pub take_respond : Bytes → Bytes × Bytes
take_respond buffer = elim (strstr buffer (13 ∷ 10 ∷ 13 ∷ 10 ∷ [])) [
  | none ↦ (buffer, drop 4 buffer)
  | some rest ↦ (take (length buffer - length rest) buffer, drop 5 rest)
]

module _ (port_of : ℕ → ℕ) (creates : ℕ → Bool) where
  -- Two sockets and a KCP handler for a camera. `port_of` is the port that each socket in turn is
  -- bound to, and `creates` tells for which numbers `ikcp_create` returns a control block; `initKcp`
  -- writes through a null pointer.
  unfoldable pub add_camera : Bytes → MonitorClient → Outcome MonitorClient
  add_camera id v =
      let conv = (v.conv + 1) % 2 ^ 32 in
      let p : TransUdpPort = record {
        udp_rtp_port = port_of v.sockets;
        udp_rtcp_port = port_of (v.sockets + 1);
        conv = conv;
      } in
      if creates conv
      then done
          (record v { conv = conv; sockets = v.sockets + 2; cam_map = map_set id p v.cam_map })
      else crash

  -- The cameras of the answer to SETUP, from the i-th on.
  unfoldable pub add_cameras : ℕ → ℕ → Headers → MonitorClient → Outcome MonitorClient
  unfolding add_camera
  add_cameras zero i headers v = done v
  add_cameras (suc n) i headers v =
      on_done (add_camera (or_empty (map_find (decimal i) headers)) v)
        (add_cameras n (i + 1) headers)

  unfoldable pub on_other : Respond → MonitorClient → Outcome MonitorClient
  unfolding add_camera send_add_cam_respond
  on_other r v = elim (map_find (codes "SessionId") r.headers) [
    | none ↦ done v
    | some id ↦
        if str_eq r.first (codes "ADDCAM")
        then on_done (add_camera id v) (send_add_cam_respond id)
        else if str_eq r.first (codes "DELCAM")
        then done (record v { cam_map = map_erase id v.cam_map })
        else done v
  ]

  unfoldable pub handle_respond : Respond → MonitorClient → Outcome MonitorClient
  unfolding add_cameras to_int send_message on_other
  handle_respond r v = elim (map_find (codes "CamNum") r.headers) [
    | none ↦ on_other r v
    | some n ↦
        if str_eq n (codes "0")
        then on_other r v
        else on_done (add_cameras (to_int n) 0 r.headers v)
            (λ (v' : MonitorClient). done (send_message v'))
  ]

  -- `onReadyRead`, with the bytes that have come.
  unfoldable pub on_ready_read : Bytes → MonitorClient → Outcome MonitorClient
  unfolding take_respond parse_respond handle_respond
  on_ready_read bytes v =
      let (request, rest) = take_respond (v.buffer ++ bytes) in
      handle_respond (parse_respond request) (record v { buffer = rest })
