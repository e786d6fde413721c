-- ===== src/Monitor/Conversation/Reply.antt =====
-- A viewer's answer to ADDCAM, as the monitor server (media/MonitorServer.cc) reads it.
use car_detect.Prelude.{
  All-map, ℕ, ◌≡◌, ◌≢◌, refl, sym, ap, ap₂, ◌∙◌, false, List, [], ◌∷◌, ◌++◌, map, Bytes, All,
  All-append, arith, append_assoc, append-nil, ◌==◌, codes, str_eq,
}
use mathlib.Core.Path.{subst}
use car_detect.Effect.{done, on_done}
use car_detect.Rtsp.Text.{decimal, is_space, skip_spaces, strstr, to_lower}
use car_detect.Rtsp.Requests.{crlf}
use car_detect.Media.Text.{
  word_of, next_word, cut_at, strip, erase_front, erase_back, is_blank4, map_set,
}
use car_detect.Media.Requests.{Headers, Request, is_last_line}
use car_detect.Media.Camera.Lines.{InWord}
use car_detect.Media.Camera.Ids.{IsHexByte}
use car_detect.Viewer.Client.{TransUdpPort, request_head, port_line}
use car_detect.Monitor.Requests.{add_field, read_fields, parse_message, parse_text}
use car_detect.Monitor.Viewers.{take_request}
use car_detect.Monitor.Conversation.Texts.{
  Inside, IsLine, message, before_blank, strstr-message, take-message, lines-before_blank,
}
use car_detect.Monitor.Conversation.Words.{
  Full, decimal-Full, IsTight, word-IsTight, append-IsTight, strip-IsTight, cut_at-name, three,
}
use car_detect.Monitor.Conversation.Lines.{
  text-IsLine, InWord→Inside, IsHexByte→InWord, decimal-InWord,
}

abbrev IsKept : ℕ → Type 0
IsKept c = is_blank4 c ≡ false

InWord→IsKept : (c : ℕ) → InWord c → IsKept c
unfolding is_space
InWord→IsKept c h = ground arith

decimal-IsKept : (n : ℕ) → All IsKept (decimal n)
decimal-IsKept n = All-map InWord→IsKept (decimal n) (decimal-InWord n)

strip-word : (w : Bytes) → Full w → All InWord w → strip is_blank4 w ≡ w
strip-word w f h =
    ap (strip is_blank4) (sym (append-nil w))
    ∙ strip-IsTight is_blank4 w [] (word-IsTight is_blank4 w f (All-map InWord→IsKept w h)) tt

lower-id : (id : Bytes) → All IsHexByte id → map to_lower id ≡ id
unfolding to_lower
lower-id [] h = refl
lower-id (c ∷ id) (hc, h) =
    let same : to_lower c ≡ c = ground arith in rw (lower-id id h) (ap (λ d. d ∷ id) same)

-- Three numbers, with their spaces, at the end of a line.
words-IsTight :
    (x y z : Bytes)
    → Full x
    → All IsKept x
    → Full z
    → All IsKept z
    → IsTight is_blank4 (x ++ (b' ' ∷ (y ++ (b' ' ∷ z))))
words-IsTight [] y z fx hx fz hz = elim fx [ ]
words-IsTight (c ∷ x) y z fx (hc, hx) fz hz =
    let shape : (c ∷ (x ++ (b' ' ∷ (y ++ (b' ' ∷ []))))) ++ z
        ≡ (c ∷ x) ++ (b' ' ∷ (y ++ (b' ' ∷ z))) =
      simp append_assoc refl in
    subst (IsTight is_blank4) shape
      (append-IsTight is_blank4 c (x ++ (b' ' ∷ (y ++ (b' ' ∷ [])))) z hc fz hz)

three-IsTight : (a b c : ℕ) → IsTight is_blank4 (three a b c)
three-IsTight a b c =
    words-IsTight (decimal a) (decimal b) (decimal c) (decimal-Full a) (decimal-IsKept a)
      (decimal-Full c) (decimal-IsKept c)

hex-is_last_line : (s rest : Bytes) → Full s → All IsHexByte s → is_last_line (s ++ rest) ≡ false
hex-is_last_line [] rest f h = elim f [ ]
hex-is_last_line (c ∷ s) rest f (hc, h) =
    let other : (c == 13) ≡ false = ground arith in rw other refl

hex-no_colon : (s : Bytes) → All IsHexByte s → All (λ c. c ≢ b':') s
hex-no_colon [] h = tt
hex-no_colon (c ∷ s) (hc, h) = (ground arith, hex-no_colon s h)

-- An id is no name of a header, and no end of the headers.
pub hex-no_cseq : (id : Bytes) → All IsHexByte id → str_eq id (codes "cseq") ≡ false
hex-no_cseq [] h = refl
hex-no_cseq (c ∷ []) h = ground arith
hex-no_cseq (c ∷ d ∷ s) (hc, (hd, h)) = ground arith

read_fields-next :
    (line : Bytes) (more : List Bytes) (headers headers' : Headers)
    → is_last_line line ≡ false
    → add_field line headers ≡ done headers'
    → read_fields (line ∷ more) headers ≡ read_fields more headers'
unfolding read_fields
read_fields-next line more headers headers' last e =
    rw last (ap (λ o. on_done o (read_fields more)) e)

module _ (local : Bytes) (n : ℕ) (id : Bytes) (p : TransUdpPort) (hl : All InWord local)
    (fi : Full id) (hi : All IsHexByte id) where
  abbrev reply1 : Bytes
  reply1 = codes "ADDCAM " ++ local

  abbrev reply2 : Bytes
  reply2 = codes "Cseq: " ++ decimal n

  abbrev pub ports : Bytes
  ports = three p.udp_rtp_port p.udp_rtcp_port p.conv

  abbrev reply3 : Bytes
  reply3 = id ++ (b':' ∷ b' ' ∷ ports)

  reply-message :
      request_head (codes "ADDCAM") local n ++ (port_line id p ++ crlf)
      ≡ message reply1 (reply2 ∷ reply3 ∷ [])
  unfolding request_head
  reply-message = simp append_assoc refl

  id-InWord : All InWord id
  id-InWord = All-map IsHexByte→InWord id hi

  reply1-IsLine : IsLine reply1
  reply1-IsLine = text-IsLine b'A' (codes "DDCAM ") local (omega arith, omega arith) refl hl

  ports-Inside : All Inside ports
  ports-Inside =
      let inside_decimal = λ (k : ℕ). All-map InWord→Inside (decimal k) (decimal-InWord k) in
      All-append Inside (decimal p.udp_rtp_port) _ (inside_decimal p.udp_rtp_port) (
        (omega arith, omega arith),
        All-append Inside (decimal p.udp_rtcp_port) _ (inside_decimal p.udp_rtcp_port)
            ((omega arith, omega arith), inside_decimal p.conv),
      )

  IsLine-append : (s rest : Bytes) → Full s → All Inside s → All Inside rest → IsLine (s ++ rest)
  IsLine-append [] rest f h h' = elim f [ ]
  IsLine-append (c ∷ s) rest f (hc, h) h' = (hc, All-append Inside s rest h h')

  more-IsLine : All IsLine (reply2 ∷ reply3 ∷ [])
  more-IsLine = (
    text-IsLine b'C' (codes "seq: ") (decimal n) (omega arith, omega arith) refl (decimal-InWord n),
    (
      IsLine-append id (b':' ∷ b' ' ∷ ports) fi (All-map InWord→Inside id id-InWord)
          ((omega arith, omega arith), ((omega arith, omega arith), ports-Inside)),
      tt,
    ),
  )

  -- What the server takes from the buffer.
  pub take_request-reply :
      take_request (request_head (codes "ADDCAM") local n ++ (port_line id p ++ crlf))
      ≡ (before_blank reply1 (reply2 ∷ reply3 ∷ []), [])
  unfolding take_request strstr decimal
  take_request-reply =
      rw
        (
          reply-message,
          strstr-message reply1 (reply2 ∷ reply3 ∷ []) reply1-IsLine more-IsLine,
          take-message reply1 (reply2 ∷ reply3 ∷ []),
        )
        refl

  abbrev reply_headers : Headers
  reply_headers = map_set id ports ((codes "cseq", decimal n) ∷ [])

  add_field-cseq : add_field (reply2 ++ (13 ∷ [])) [] ≡ done ((codes "cseq", decimal n) ∷ [])
  unfolding add_field cut_at to_lower strip erase_front erase_back
  add_field-cseq =
      ap (λ v. done ((codes "cseq", v) ∷ []))
        (strip-IsTight is_blank4 (decimal n) (13 ∷ [])
          (word-IsTight is_blank4 (decimal n) (decimal-Full n) (decimal-IsKept n)) (refl, tt))

  add_field-ports : (headers : Headers) → add_field reply3 headers ≡ done (map_set id ports headers)
  unfolding add_field
  add_field-ports headers =
      let name : map to_lower (strip is_blank4 id) ≡ id =
        ap (map to_lower) (strip-word id fi id-InWord) ∙ lower-id id hi in
      let val : strip is_blank4 ports ≡ ports =
        ap (strip is_blank4) (sym (append-nil ports))
        ∙ strip-IsTight is_blank4 ports [] (three-IsTight p.udp_rtp_port p.udp_rtcp_port p.conv)
            tt in
      rw (add_field, cut_at-name id (b' ' ∷ ports) (hex-no_colon id hi))
        (ap₂ (λ k v. done (map_set k v headers)) name val)

  reply3-is_last_line : is_last_line reply3 ≡ false
  reply3-is_last_line = hex-is_last_line id (b':' ∷ b' ' ∷ ports) fi hi

  read_fields-reply : read_fields ((reply2 ++ (13 ∷ [])) ∷ reply3 ∷ []) [] ≡ done reply_headers
  unfolding read_fields
  read_fields-reply =
      let cseq_only : Headers = (codes "cseq", decimal n) ∷ [] in
      read_fields-next (reply2 ++ (13 ∷ [])) (reply3 ∷ []) [] cseq_only refl add_field-cseq
      ∙ read_fields-next reply3 [] cseq_only reply_headers reply3-is_last_line
          (add_field-ports cseq_only)

  -- The request as it is read.
  abbrev reply_request : Request
  reply_request = record {
    method = codes "ADDCAM";
    url = (next_word (next_word (reply1 ++ (13 ∷ []))).1).0;
    headers = reply_headers;
  }

  pub parse_text-reply :
      parse_text (before_blank reply1 (reply2 ∷ reply3 ∷ [])) ≡ done reply_request
  unfolding parse_text parse_message next_word word_of skip_spaces is_space
  parse_text-reply =
      ap parse_message (lines-before_blank reply1 (reply2 ∷ reply3 ∷ []) reply1-IsLine more-IsLine)
      ∙ ap
          (λ o. on_done o (λ (headers : Headers). done (record {
            method = codes "ADDCAM";
            url = (next_word (next_word (reply1 ++ (13 ∷ []))).1).0;
            headers = headers;
          })))
          read_fields-reply
