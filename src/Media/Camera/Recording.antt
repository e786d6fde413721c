-- ===== src/Media/Camera/Recording.antt =====
-- The camera's RECORD request (`rtsp_client_record` of camera/rtsp.c), as media/RtspConnect.cc reads it.
use car_detect.Prelude.{
  All-map, ℕ, ◌-◌, ◌^◌, ◌<◌, ◌≡◌, refl, ap, ap₂, ◌∙◌, Bool, true, not, ◌&&◌, List, [], ◌∷◌, ◌++◌,
  Bytes, length, All, All-append, arith, append_assoc, ◌==◌, codes, ltb, if_cases, and_left,
  and_right,
}
use car_detect.Rtsp.Text.{decimal, decimal_signed, is_space, skip_spaces, to_lower}
use car_detect.Rtsp.Requests.{request_line, record_request}
use car_detect.Media.Text.{lines, next_word, cut_at, strip, erase_front, erase_back, less}
use car_detect.Media.Requests.{Headers, add_header, read_headers, parse_lines, parse_request}
use car_detect.Rtsp.Text.Digits.{IsDigit, decimal-IsDigit}
use car_detect.Media.Camera.Lines.{InLine, InWord, IsValue, lines_line, word_of_word, strip-IsValue}

IsDigit→IsValue : (c : ℕ) → IsDigit c → IsValue c
IsDigit→IsValue c h = ground arith

IsValue→InLine : (c : ℕ) → IsValue c → InLine c
IsValue→InLine c h = ground arith

InWord→InLine : (c : ℕ) → InWord c → InLine c
unfolding is_space
InWord→InLine c h = ground arith

decimal-IsValue : (n : ℕ) → All IsValue (decimal n)
decimal-IsValue n = All-map IsDigit→IsValue (decimal n) (decimal-IsDigit n)

decimal_signed-IsValue : (n : ℕ) → All IsValue (decimal_signed n)
unfolding decimal_signed
decimal_signed-IsValue n =
    if_cases (All IsValue) (ltb n (2 ^ 31)) _ _ (λ _. decimal-IsValue n)
      (λ _. (refl, decimal-IsValue (2 ^ 32 - n)))

abbrev every_in_line : Bytes → Bool
every_in_line [] = true
every_in_line (c ∷ s) = not (c == 10) && every_in_line s

in_line : (c : ℕ) → not (c == 10) ≡ true → InLine c
in_line c h = ground arith

text-InLine : (s : Bytes) → every_in_line s ≡ true → All InLine s
text-InLine [] h = tt
text-InLine (c ∷ s) h = (
  in_line c (and_left (not (c == 10)) (every_in_line s) h),
  text-InLine s (and_right (not (c == 10)) (every_in_line s) h),
)

-- The line of a header, without its line feed.
abbrev field : Bytes → Bytes → Bytes
field name v = name ++ (b':' ∷ b' ' ∷ (v ++ (13 ∷ [])))

field-InLine : (name v : Bytes) → All InLine name → All IsValue v → All InLine (field name v)
field-InLine name v hn hv = All-append InLine name _ hn (
    All-append InLine (b':' ∷ b' ' ∷ []) (v ++ (13 ∷ [])) (text-InLine (b':' ∷ b' ' ∷ []) refl)
      (All-append InLine v (13 ∷ []) (All-map IsValue→InLine v hv) (text-InLine (13 ∷ []) refl)))

-- Lines, each with its line feed.
abbrev joined_lines : List Bytes → Bytes
joined_lines [] = []
joined_lines (l ∷ ls) = l ++ (10 ∷ joined_lines ls)

lines-joined_lines : (ls : List Bytes) → All (All InLine) ls → lines (joined_lines ls) ≡ ls
unfolding lines
lines-joined_lines [] h = refl
lines-joined_lines (l ∷ ls) (hl, hls) =
    lines_line l (joined_lines ls) hl ∙ ap (◌∷◌ l) (lines-joined_lines ls hls)

-- The second word of a request line.
second_word :
    (url rest : Bytes)
    → All InWord url
    → 0 < length url
    → (next_word (b' ' ∷ (url ++ (b' ' ∷ rest)))).0 ≡ url
unfolding next_word skip_spaces is_space
second_word [] rest h full = absurd (omega arith)
second_word (c ∷ url) rest (hc, hu) full =
    rw hc (ap (λ (p : Bytes × Bytes). p.0) (word_of_word (c ∷ url) rest (hc, hu)))

module _ (url sid : Bytes) (cseq conv : ℕ) (hu : All InWord url) (full : 0 < length url)
    (hs : All IsValue sid) where
  abbrev record_line : Bytes
  record_line = codes "RECORD " ++ (url ++ (codes " RTSP/1.0" ++ (13 ∷ [])))

  abbrev record_fields : List Bytes
  record_fields =
      field (codes "CSeq") (decimal cseq)
      ∷ field (codes "Session") sid
      ∷ field (codes "User-Agent") (codes "RTSP Client")
      ∷ field (codes "KcpId") (decimal_signed conv)
      ∷ (13 ∷ [])
      ∷ []

  record_request-joined :
      record_request url cseq sid conv ≡ joined_lines (record_line ∷ record_fields)
  unfolding record_request request_line
  record_request-joined = simp append_assoc refl

  abbrev pub record_headers : Headers
  record_headers =
      (codes "cseq", decimal cseq)
      ∷ (codes "kcpid", decimal_signed conv)
      ∷ (codes "session", sid)
      ∷ (codes "user-agent", codes "RTSP Client")
      ∷ []

  read_headers-record : read_headers record_fields [] ≡ record_headers
  unfolding read_headers add_header cut_at to_lower less strip erase_front erase_back
  read_headers-record =
      rw
        (
          strip-IsValue (decimal cseq) (decimal-IsValue cseq),
          strip-IsValue sid hs,
          strip-IsValue (decimal_signed conv) (decimal_signed-IsValue conv),
        )
        refl

  record_line-InLine : All InLine record_line
  record_line-InLine =
      All-append InLine (codes "RECORD ") (url ++ (codes " RTSP/1.0" ++ (13 ∷ [])))
        (text-InLine (codes "RECORD ") refl)
        (All-append InLine url (codes " RTSP/1.0" ++ (13 ∷ [])) (All-map InWord→InLine url hu)
          (text-InLine (codes " RTSP/1.0" ++ (13 ∷ [])) refl))

  record_fields-InLine : All (All InLine) record_fields
  record_fields-InLine = (
    field-InLine (codes "CSeq") (decimal cseq) (text-InLine (codes "CSeq") refl)
        (decimal-IsValue cseq),
    (
      field-InLine (codes "Session") sid (text-InLine (codes "Session") refl) hs,
      (
        text-InLine (field (codes "User-Agent") (codes "RTSP Client")) refl,
        (
          field-InLine (codes "KcpId") (decimal_signed conv) (text-InLine (codes "KcpId") refl)
              (decimal_signed-IsValue conv),
          (text-InLine (13 ∷ []) refl, tt),
        ),
      ),
    ),
  )

  -- What the server reads from the camera's request.
  pub parse_request-record_request :
      parse_request (record_request url cseq sid conv)
      ≡ record { method = codes "RECORD"; url = url; headers = record_headers }
  unfolding parse_request parse_lines
  parse_request-record_request =
      rw
        (
          record_request-joined,
          lines-joined_lines (record_line ∷ record_fields)
              (record_line-InLine, record_fields-InLine),
        )
        (ap₂
          (λ (u : Bytes) (hd : Headers). record { method = codes "RECORD"; url = u; headers = hd })
          (second_word url (codes "RTSP/1.0" ++ (13 ∷ [])) hu full) read_headers-record)
