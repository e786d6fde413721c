-- ===== src/Rtsp/Describe/Response.antt =====
-- camera/rtsp.c: `rtsp_parse_describe_response`. The session and the response are no null pointers.
use car_detect.Prelude.{
  ℕ, zero, suc, ◌-◌, ◌%◌, ◌^◌, Option, none, some, Bool, true, false, [], ◌∷◌, Bytes, length, take,
  drop, ◌==◌, if◌then◌else◌, codes, min,
}
use car_detect.Tcp.{Ret, value, minus_one}
use car_detect.Rtsp.Session.{RtspSession}
use car_detect.Rtsp.Text.{is_digit, digits_value, skip_spaces, strstr, starts_with}
use car_detect.Rtsp.Setup.{skip_blanks}
use car_detect.Rtsp.Describe.{is_empty, trim_spaces, build_setup_url}

-- `%d` of sscanf: white space, a sign, and one digit at least. The `int` is its 32 bits; a number that
-- does not fit, which C leaves open, becomes LONG_MAX or LONG_MIN and is cut off.
unfoldable pub skip_digits : Bytes → Bytes
skip_digits [] = []
skip_digits (c ∷ s) = let rest = skip_digits s in if is_digit c then rest else c ∷ s

abbrev pub int_bits : Bool → ℕ → ℕ
int_bits true n = (2 ^ 64 - min n (2 ^ 63)) % 2 ^ 32
int_bits false n = min n (2 ^ 63 - 1) % 2 ^ 32

unfoldable pub scan_digits : Bool → Bytes → Option (ℕ × Bytes)
unfolding skip_digits
scan_digits negative [] = none
scan_digits negative (c ∷ s) =
    if is_digit c then some (int_bits negative (digits_value 0 (c ∷ s)), skip_digits s) else none

unfoldable pub scan_signed : Bytes → Option (ℕ × Bytes)
unfolding scan_digits
scan_signed [] = none
scan_signed (c ∷ s) =
    if c == b'-'
    then scan_digits true s
    else if c == b'+'
    then scan_digits false s
    else scan_digits false (c ∷ s)

unfoldable pub scan_int : Bytes → Option (ℕ × Bytes)
unfolding scan_signed
scan_int s = scan_signed (skip_spaces s)

-- `%31[^/]`: one byte to 31 that are no '/'.
unfoldable pub skip_name : ℕ → Bytes → Bytes
skip_name zero s = s
skip_name (suc room) [] = []
skip_name (suc room) (c ∷ s) = let rest = skip_name room s in if c == b'/' then c ∷ s else rest

unfoldable pub scan_name : Bytes → Option Bytes
unfolding skip_name
scan_name [] = none
scan_name (c ∷ s) = if c == b'/' then none else some (skip_name 30 s)

unfoldable pub scan_slash : Bytes → Option Bytes
scan_slash [] = none
scan_slash (c ∷ s) = if c == b'/' then some s else none

-- `sscanf(val, "%d %31[^/]/%d", ...) == 3`: the two numbers.
unfoldable pub scan_rtpmap : Bytes → Option (ℕ × ℕ)
unfolding scan_int scan_name scan_slash
scan_rtpmap val = elim (scan_int val) [
  | none ↦ none
  | some read ↦ elim (scan_name (skip_spaces read.1)) [
    | none ↦ none
    | some after_name ↦ elim (scan_slash after_name) [
      | none ↦ none
      | some after_slash ↦ elim (scan_int after_slash) [
        | none ↦ none
        | some clock ↦ some (read.0, clock.0)
      ]
    ]
  ]
]

-- The value behind Content-Base: up to 511 bytes, and no '\r'. It is looked for in the whole response.
unfoldable pub until_cr : ℕ → Bytes → Bytes
until_cr zero s = []
until_cr (suc room) [] = []
until_cr (suc room) (c ∷ s) = let more = until_cr room s in if c == 13 then [] else c ∷ more

unfoldable pub content_base_in : Bytes → Bytes
unfolding until_cr
content_base_in response = elim (strstr response (codes "Content-Base:")) [
  | none ↦ []
  | some p ↦ take 511 (trim_spaces (until_cr 511 (skip_blanks (drop 13 p))))
]

-- A line of the SDP text, of up to `room` bytes, and what stands behind it and its '\n'.
unfoldable pub cut_line : ℕ → Bytes → Bytes × Bytes
cut_line room [] = ([], [])
cut_line zero (c ∷ s) = if c == 10 then ([], s) else ([], c ∷ s)
cut_line (suc room) (c ∷ s) =
    let (line, rest) = cut_line room s in if c == 10 then ([], s) else (c ∷ line, rest)

module _ {K : Type 0} where
  -- The fields that the function resets first.
  abbrev pub reset_sdp : RtspSession K → RtspSession K
  reset_sdp s = record s {
    content_base = [];
    control_attr = [];
    setup_url = [];
    payload_type = 0;
    clock_rate = 0;
  }

  unfoldable pub with_rtpmap : Option (ℕ × ℕ) → RtspSession K → RtspSession K
  with_rtpmap none s = s
  with_rtpmap (some (pt, clock)) s = record s { payload_type = pt; clock_rate = clock }

  -- A line without the blanks around it.
  unfoldable pub take_line : Bytes → RtspSession K → RtspSession K
  unfolding with_rtpmap scan_rtpmap
  take_line line s =
      if is_empty line
      then s
      else if starts_with line (codes "a=control:")
      then record s { control_attr = take 255 (trim_spaces (drop 10 line)) }
      else if starts_with line (codes "a=rtpmap:")
      then with_rtpmap (scan_rtpmap (drop 9 line)) s
      else s

  -- The loop over the lines, `char line[256]`; each round takes a byte at least.
  unfoldable pub parse_sdp : ℕ → Bytes → RtspSession K → RtspSession K
  unfolding take_line cut_line
  parse_sdp fuel [] s = s
  parse_sdp zero (c ∷ p) s = s
  parse_sdp (suc fuel) (c ∷ p) s =
      let (line, rest) = cut_line 255 (c ∷ p) in
      parse_sdp fuel rest (take_line (trim_spaces line) s)

  unfoldable pub rtsp_parse_describe_response : Bytes → Bytes → RtspSession K → RtspSession K × Ret
  unfolding parse_sdp content_base_in
  rtsp_parse_describe_response request_url response s =
      elim (strstr response (13 ∷ 10 ∷ 13 ∷ 10 ∷ [])) [
        | none ↦ (reset_sdp s, minus_one)
        | some p ↦
            let body = drop 4 p in
            let s1 : RtspSession K = record (reset_sdp s) {
              content_base = content_base_in response;
            } in
            (build_setup_url (parse_sdp (length body) body s1) request_url, value 0)
      ]
