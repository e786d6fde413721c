-- ===== src/Monitor/Requests.antt =====
-- media/MonitorServer.cc: `parseRequest` and `sendRespond`.
use car_detect.Prelude.{ℕ, none, some, List, [], ◌∷◌, ◌++◌, map, Bytes, if◌then◌else◌, codes}
use car_detect.Effect.{Outcome, done, crash, on_done}
use car_detect.Rtsp.Text.{decimal, to_lower}
use car_detect.Rtsp.Requests.{crlf}
use car_detect.Media.Text.{lines, next_word, cut_at, strip, is_blank4, map_set}
use car_detect.Media.Requests.{Headers, Request, is_last_line}
use car_detect.Media.Connect.{header_lines}
use car_detect.Monitor.{Effect, sent, QtClient}

-- `line.substr(colonPos + 2)` throws when the colon is the last byte of the line.
unfoldable pub add_field : Bytes → Headers → Outcome Headers
unfolding cut_at strip to_lower
add_field line headers = elim (cut_at b':' line) [
  | none ↦ done headers
  | some (key, behind) ↦ elim behind [
    | [] ↦ crash
    | c ∷ val ↦ done (map_set (map to_lower (strip is_blank4 key)) (strip is_blank4 val) headers)
  ]
]

unfoldable pub read_fields : List Bytes → Headers → Outcome Headers
unfolding add_field
read_fields [] headers = done headers
read_fields (line ∷ more) headers =
    let rest = on_done (add_field line headers) (read_fields more) in
    if is_last_line line then done headers else rest

unfoldable pub parse_message : List Bytes → Outcome Request
unfolding next_word read_fields
parse_message [] = done (record { method = []; url = []; headers = [] })
parse_message (line ∷ more) =
    let (method, rest) = next_word line in
    on_done (read_fields more []) (λ (headers : Headers).
      done (record { method = method; url = (next_word rest).0; headers = headers }))

unfoldable pub parse_text : Bytes → Outcome Request
unfolding lines parse_message
parse_text request = parse_message (lines request)

-- `sendRespond`: 200, the number of the client, and the other headers.
unfoldable pub respond_text : ℕ → Headers → Bytes
unfolding header_lines
respond_text cseq extra =
    codes "200 OK"
    ++ (crlf ++ (codes "CSeq: " ++ (decimal cseq ++ (crlf ++ (header_lines extra ++ crlf)))))

abbrev pub send_respond : Headers → QtClient → Effect
send_respond extra c = sent c.tcp_fd (respond_text c.cseq extra)
