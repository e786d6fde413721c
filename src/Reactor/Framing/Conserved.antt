-- ===== src/Reactor/Framing/Conserved.antt =====
-- What `recvOneItem` of reactor/TcpConnection.cc keeps of the bytes.
use car_detect.Prelude.{
  ℕ, ◌+◌, ◌-◌, ◌*◌, ◌/◌, ◌%◌, ◌^◌, ◌≤◌, ◌<◌, ◌≡◌, refl, ap, ◌∙◌, ◌⊎◌, inl, inr, Option, none, some,
  false, [], ◌∷◌, ◌++◌, Bytes, length, take, drop, ltb, ltb→lt, ◌==◌, if_cases, codes, bit_or,
  bit_or_fields, bit_and_ff, arith, take-append-drop, take-length-append, length-append,
  le→ltb_false, bit_and, shr, drop-length-append,
}
use car_detect.Rtsp.Text.{strstr}
use car_detect.Rtp.Send.{interleave}
use car_detect.Reactor.Framing.{
  InterleavedFrame, RecvItem, nothing, rtsp_request, interleaved_frame, Extracted, missing, taken,
  rfind, bytes_once_there, content_length_in, crlf_lines, with_body, rtsp_at, try_extract_rtsp,
  try_extract_interleaved, or_frame, or_request, recv_one_item,
}

-- The bytes of an item, as they came.
abbrev pub wire : RecvItem → Bytes
wire nothing = []
wire (rtsp_request text) = text
wire (interleaved_frame frame) = frame.payload

-- The item and what is left are the bytes that came, in order; or no item was found, the bytes begin
-- with the head of a frame of more than 15000 bytes, and its '$' was dropped.
abbrev pub Conserved : Bytes → Option (RecvItem × Bytes) → Type 0
Conserved bytes none = ⊥
Conserved bytes (some (item, left)) =
    (wire item ++ left ≡ bytes)
    ⊎ ((channel hi lo : ℕ) × (rest : Bytes) × (item ≡ nothing)
        × (left ≡ channel ∷ hi ∷ lo ∷ rest)
        × (b'$' ∷ channel ∷ hi ∷ lo ∷ rest ≡ bytes)
        × (15000 < bit_or (hi * 2 ^ 8) lo))

try_extract_interleaved-Conserved :
    (buf : Bytes) → Conserved buf (or_frame (try_extract_interleaved buf))
unfolding try_extract_interleaved or_frame
try_extract_interleaved-Conserved [] = inl refl
try_extract_interleaved-Conserved (a ∷ []) = inl refl
try_extract_interleaved-Conserved (a ∷ b ∷ []) = inl refl
try_extract_interleaved-Conserved (a ∷ b ∷ c ∷ []) = inl refl
try_extract_interleaved-Conserved (d ∷ channel ∷ hi ∷ lo ∷ rest) =
    let buf = d ∷ channel ∷ hi ∷ lo ∷ rest in
    let len = bit_or (hi * 2 ^ 8) lo in
    let P : Extracted InterleavedFrame → Type 0 = λ e. Conserved buf (or_frame e) in
    if_cases P (d == b'$') _ _
      (λ dollar.
        if_cases P (ltb 15000 len) _ _
          (λ long. inr (
            channel,
            hi,
            lo,
            rest,
            refl,
            refl,
            ap (λ (x : ℕ). x ∷ channel ∷ hi ∷ lo ∷ rest) (ground (arith, dollar)),
            ltb→lt 15000 len long,
          ))
          λ _.
            if_cases P (ltb (length buf) (4 + len)) _ _ (λ _. inl refl)
              (λ _. inl (take-append-drop (4 + len) buf)))
      (λ _. inl refl)

bytes_once_there-Conserved :
    (total : ℕ) (buf : Bytes) → Conserved buf (or_request (bytes_once_there total buf))
unfolding or_request
bytes_once_there-Conserved total buf =
    if_cases (λ (e : Extracted Bytes). Conserved buf (or_request e)) (ltb (length buf) total)
      (missing buf) (taken (take total buf) (drop total buf))
      (λ _. try_extract_interleaved-Conserved buf) (λ _. inl (take-append-drop total buf))

with_body-Conserved :
    (buf : Bytes) (header_end : ℕ) → Conserved buf (or_request (with_body buf header_end))
unfolding with_body
with_body-Conserved buf header_end =
    let len = content_length_in (crlf_lines false (take (header_end + 4) buf)) in
    bytes_once_there-Conserved ((header_end + 4 + len) % 2 ^ 64) buf

try_extract_rtsp-Conserved :
    (buf : Bytes)
    → rfind (codes "TEARDOWN") buf ≡ none
    → Conserved buf (or_request (try_extract_rtsp buf))
unfolding try_extract_rtsp rtsp_at or_request
try_extract_rtsp-Conserved buf word = found (strstr buf (13 ∷ 10 ∷ 13 ∷ 10 ∷ [])) refl
  where
    found :
        (o : Option Bytes)
        → strstr buf (13 ∷ 10 ∷ 13 ∷ 10 ∷ []) ≡ o
        → Conserved buf (or_request (try_extract_rtsp buf))
    found none e = rw (try_extract_rtsp, e) (try_extract_interleaved-Conserved buf)
    found (some rest) e =
        rw (try_extract_rtsp, e, word) (with_body-Conserved buf (length buf - length rest))

-- Whatever has come on a connection, in whatever portions, as long as it does not hold the word
-- TEARDOWN: `recvOneItem` throws nothing, and the item that it returns and the bytes that it keeps are
-- together the bytes that there were, in order; only where these begin with the head of a frame of
-- more than 15000 bytes its '$' may be dropped, and nothing else, with no item returned.
pub recv_one_item-Conserved :
    (bytes buf : Bytes)
    → rfind (codes "TEARDOWN") (buf ++ bytes) ≡ none
    → Conserved (buf ++ bytes) (recv_one_item (some bytes) buf)
unfolding recv_one_item
recv_one_item-Conserved bytes buf word = try_extract_rtsp-Conserved (buf ++ bytes) word

frame_at :
    (channel hi lo len : ℕ) (payload rest : Bytes)
    → bit_or (hi * 2 ^ 8) lo ≡ len
    → len ≤ 15000
    → length payload ≡ len
    → try_extract_interleaved (b'$' ∷ channel ∷ hi ∷ lo ∷ (payload ++ rest))
      ≡ taken (record { channel = channel; payload = b'$' ∷ channel ∷ hi ∷ lo ∷ payload }) rest
unfolding try_extract_interleaved
frame_at channel hi lo len payload rest e small whole =
    let buf = b'$' ∷ channel ∷ hi ∷ lo ∷ (payload ++ rest) in
    let short : ltb 15000 len ≡ false = ground arith in
    let head = b'$' ∷ channel ∷ hi ∷ lo ∷ payload in
    let size : 4 + len ≡ length head = omega (arith, whole) in
    let enough : ltb (length buf) (4 + len) ≡ false =
      le→ltb_false _ _ (omega (arith, whole, length-append payload rest)) in
    rw (e, short, enough, size, take-length-append payload rest, drop-length-append payload rest)
      refl

interleave_len : (n : ℕ) → n ≤ 15000 → bit_or (bit_and (shr n 8) 0xff * 2 ^ 8) (bit_and n 0xff) ≡ n
interleave_len n h =
    rw (bit_and_ff (shr n 8), bit_and_ff n)
      (bit_or_fields 8 (n / 256 % 256) (n % 256) (omega arith) ∙ omega arith)

try_extract_rtsp-missing :
    (buf : Bytes) → strstr buf (13 ∷ 10 ∷ 13 ∷ 10 ∷ []) ≡ none → try_extract_rtsp buf ≡ missing buf
unfolding try_extract_rtsp
try_extract_rtsp-missing buf e = rw (try_extract_rtsp, e) refl

-- A packet that the camera sends over the RTSP connection (`send_rtp_over_tcp` of camera/rtsp.c), of at
-- most 15000 bytes and on a channel of eight bits, is returned whole, with the four bytes before it,
-- when it is at the front of the bytes and these hold no end of an RTSP header.
pub recv_one_item-interleave :
    (channel : ℕ) (rtp rest buf bytes : Bytes)
    → channel < 2 ^ 8
    → length rtp ≤ 15000
    → buf ++ bytes ≡ interleave channel rtp ++ rest
    → strstr (buf ++ bytes) (13 ∷ 10 ∷ 13 ∷ 10 ∷ []) ≡ none
    → recv_one_item (some bytes) buf
      ≡ some
          (interleaved_frame (record { channel = channel; payload = interleave channel rtp }), rest)
unfolding recv_one_item or_request or_frame interleave
recv_one_item-interleave channel rtp rest buf bytes hc hd e header =
    let n = length rtp in
    let same : channel % 2 ^ 8 ≡ channel = omega arith in
    ap or_request (try_extract_rtsp-missing (buf ++ bytes) header)
    ∙ ap (λ (b : Bytes). or_frame (try_extract_interleaved b)) e
    ∙ rw same (
        ap or_frame (
          frame_at channel (bit_and (shr n 8) 0xff) (bit_and n 0xff) n rtp rest
            (interleave_len n hd) hd refl))
