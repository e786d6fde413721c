-- ===== src/Reactor/Framing.antt =====
-- reactor/TcpConnection.cc: `recvOneItem`, `tryExtractRtsp` and `tryExtractInterleaved`, which cut the
-- bytes of a connection into RTSP requests and RTP packets.
pub mod Conserved
use car_detect.Prelude.{
  ℕ, zero, suc, ◌+◌, ◌-◌, ◌*◌, ◌%◌, ◌^◌, Option, none, some, Bool, true, false, List, [], ◌∷◌, ◌++◌,
  Bytes, length, take, drop, ltb, leb, ◌==◌, if◌then◌else◌, codes, bit_or,
}
use car_detect.Rtsp.Text.{strstr, begins, is_space, is_digit, skip_spaces, digits_value, to_lower}
use car_detect.Media.Text.{onto_line, stoul}

pub record InterleavedFrame : Type 0 where
  pub channel : ℕ
  pub payload : Bytes

pub data RecvItem : Type 0 where
  nothing : RecvItem
  rtsp_request : Bytes → RecvItem
  interleaved_frame : InterleavedFrame → RecvItem

-- The result of an attempt and what is left of `_recvBuffer`; `throws` is an exception.
pub data Extracted (A : Type 0) : Type 0 where
  missing : Bytes → Extracted A
  taken : A → Bytes → Extracted A
  throws : Extracted A

-- The lines of a header, cut at "\r\n": `after_cr` is whether a '\r' waits.
unfoldable pub crlf_lines : Bool → Bytes → List Bytes
crlf_lines false [] = []
crlf_lines true [] = (13 ∷ []) ∷ []
crlf_lines false (c ∷ s) = elim (c == 13) [
  | true ↦ crlf_lines true s
  | false ↦ onto_line c (crlf_lines false s)
]
crlf_lines true (c ∷ s) = elim (c == 10) [
  | true ↦ [] ∷ crlf_lines false s
  | false ↦ elim (c == 13) [
    | true ↦ onto_line 13 (crlf_lines true s)
    | false ↦ onto_line 13 (onto_line c (crlf_lines false s))
  ]
]

-- `iequals_prefix`.
abbrev pub iequals_prefix : Bytes → Bytes → Bool
iequals_prefix s prefix = begins (λ p c. p == to_lower c) prefix s

abbrev pub leading_digits : Bytes → Bytes
leading_digits [] = []
leading_digits (c ∷ s) = let rest = leading_digits s in if is_digit c then c ∷ rest else []

abbrev pub or_zero : Option ℕ → ℕ
or_zero none = 0
or_zero (some n) = n

-- The number of the first line that names the length; without digits, or with too many, 0.
unfoldable pub content_length_in : List Bytes → ℕ
unfolding begins to_lower is_digit skip_spaces stoul
content_length_in [] = 0
content_length_in (line ∷ lines) =
    let rest = content_length_in lines in
    let trimmed = skip_spaces line in
    if iequals_prefix trimmed (codes "content-length:")
    then or_zero (stoul (leading_digits (skip_spaces (drop 15 trimmed))))
    else rest

-- `rfind`: the last place of a text.
unfoldable pub rfind : Bytes → Bytes → Option ℕ
unfolding begins
rfind pat [] = none
rfind pat (c ∷ s) = elim (rfind pat s) [
  | some n ↦ some (suc n)
  | none ↦ if begins ◌==◌ pat (c ∷ s) then some 0 else none
]

-- So many bytes from the front, once they are there.
abbrev pub bytes_once_there : ℕ → Bytes → Extracted Bytes
bytes_once_there total buf =
    if ltb (length buf) total then missing buf else taken (take total buf) (drop total buf)

-- A request whose header has come, and its body. Sizes are a `size_t`.
unfoldable pub with_body : Bytes → ℕ → Extracted Bytes
unfolding content_length_in crlf_lines
with_body buf header_end =
    let len = content_length_in (crlf_lines false (take (header_end + 4) buf)) in
    bytes_once_there ((header_end + 4 + len) % 2 ^ 64) buf

-- From the last "TEARDOWN" to the first end of a header; what else there is, is dropped. Where the
-- word stands behind that end, the length is below zero.
unfoldable pub teardown_at : Bytes → ℕ → ℕ → Extracted Bytes
teardown_at buf header_end pos =
    if leb pos header_end then taken (take (header_end - pos + 4) (drop pos buf)) [] else throws

unfoldable pub rtsp_at : Bytes → ℕ → Option ℕ → Extracted Bytes
unfolding with_body teardown_at
rtsp_at buf header_end none = with_body buf header_end
rtsp_at buf header_end (some pos) = teardown_at buf header_end pos

unfoldable pub try_extract_rtsp : Bytes → Extracted Bytes
unfolding rtsp_at rfind
try_extract_rtsp buf = elim (strstr buf (13 ∷ 10 ∷ 13 ∷ 10 ∷ [])) [
  | none ↦ missing buf
  | some rest ↦ rtsp_at buf (length buf - length rest) (rfind (codes "TEARDOWN") buf)
]

-- The frame's payload begins with the four bytes before it. A '$' before too long a frame is dropped.
unfoldable pub try_extract_interleaved : Bytes → Extracted InterleavedFrame
try_extract_interleaved (d ∷ channel ∷ hi ∷ lo ∷ rest) =
    let buf = d ∷ channel ∷ hi ∷ lo ∷ rest in
    let len = bit_or (hi * 2 ^ 8) lo in
    if d == b'$'
    then (if ltb 15000 len
        then missing (channel ∷ hi ∷ lo ∷ rest)
        else if ltb (length buf) (4 + len)
        then missing buf
        else taken (record { channel = channel; payload = take (4 + len) buf })
            (drop (4 + len) buf))
    else missing buf
try_extract_interleaved buf = missing buf

-- `none` is an exception.
unfoldable pub or_frame : Extracted InterleavedFrame → Option (RecvItem × Bytes)
or_frame (missing buf) = some (nothing, buf)
or_frame (taken frame buf) = some (interleaved_frame frame, buf)
or_frame throws = none

unfoldable pub or_request : Extracted Bytes → Option (RecvItem × Bytes)
unfolding or_frame try_extract_interleaved
or_request (missing buf) = or_frame (try_extract_interleaved buf)
or_request (taken text buf) = some (rtsp_request text, buf)
or_request throws = none

-- `recvOneItem`, with what `recv` returned: `none` is an error, the end, or nothing yet.
unfoldable pub recv_one_item : Option Bytes → Bytes → Option (RecvItem × Bytes)
unfolding or_request try_extract_rtsp
recv_one_item none buf = some (nothing, buf)
recv_one_item (some bytes) buf = or_request (try_extract_rtsp (buf ++ bytes))
