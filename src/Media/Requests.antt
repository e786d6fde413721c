-- ===== src/Media/Requests.antt =====
-- media/RtspConnect.cc: `parseRequest`, `extractCSeq` and `extractBody`.
use car_detect.Prelude.{
  ℕ, ◌+◌, ◌-◌, ◌%◌, ◌^◌, none, some, Bool, ◌||◌, List, [], ◌∷◌, map, Bytes, length, take, drop, ltb,
  ◌==◌, if◌then◌else◌, codes, str_eq,
}
use car_detect.Rtsp.Text.{strstr, to_lower}
use car_detect.Media.Text.{
  lines, next_word, cut_at, strip, is_blank4, map_set, map_find, atoi_u32, atoi_size,
}

abbrev pub Headers : Type 0
Headers = List (Bytes × Bytes)

-- A header line becomes an entry, under its name in lower case; a line without ':' is left out.
unfoldable pub add_header : Bytes → Headers → Headers
unfolding cut_at strip to_lower
add_header line headers = elim (cut_at b':' line) [
  | none ↦ headers
  | some (key, val) ↦ map_set (map to_lower (strip is_blank4 key)) (strip is_blank4 val) headers
]

abbrev pub is_last_line : Bytes → Bool
is_last_line line = str_eq line [] || str_eq line (13 ∷ [])

-- The lines up to an empty one.
unfoldable pub read_headers : List Bytes → Headers → Headers
unfolding add_header
read_headers [] headers = headers
read_headers (line ∷ more) headers =
    let rest = read_headers more (add_header line headers) in
    if is_last_line line then headers else rest

pub record Request : Type 0 where
  pub method : Bytes
  pub url : Bytes
  pub headers : Headers

unfoldable pub parse_lines : List Bytes → Request
unfolding next_word read_headers
parse_lines [] = record { method = []; url = []; headers = [] }
parse_lines (line ∷ more) =
    let (method, rest) = next_word line in
    record { method = method; url = (next_word rest).0; headers = read_headers more [] }

unfoldable pub parse_request : Bytes → Request
unfolding lines parse_lines
parse_request request = parse_lines (lines request)

-- The number, as an `int` in 32 bits.
unfoldable pub extract_cseq : Headers → ℕ
unfolding atoi_u32
extract_cseq headers = elim (map_find (codes "cseq") headers) [ none ↦ 0 | some v ↦ atoi_u32 v ]

unfoldable pub content_length : Headers → ℕ
unfolding atoi_size
content_length headers = elim (map_find (codes "content-length") headers) [
  | none ↦ 0
  | some v ↦ atoi_size v
]

-- `rest` is the text from the empty line on; positions are a `size_t`, and `substr` takes what is
-- there.
unfoldable pub body_of : Bytes → Bytes → ℕ → Bytes
body_of request rest len =
    let body = drop 4 rest in
    let pos = length request - length body in
    if len == 0
    then body
    else if ltb (length request) ((pos + len) % 2 ^ 64)
    then []
    else take len body

unfoldable pub extract_body : Bytes → Headers → Bytes
unfolding content_length body_of
extract_body request headers = elim (strstr request (13 ∷ 10 ∷ 13 ∷ 10 ∷ [])) [
  | none ↦ []
  | some rest ↦ body_of request rest (content_length headers)
]
