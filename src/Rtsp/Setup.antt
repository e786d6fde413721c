-- ===== src/Rtsp/Setup.antt =====
-- camera/rtsp.c: `rtsp_parse_setup_response`.
pub mod Transport
use car_detect.Prelude.{
  ℕ, zero, suc, Option, none, some, Bool, true, false, ◌||◌, [], ◌∷◌, Bytes, length, drop, ◌==◌,
  if◌then◌else◌, codes,
}
use car_detect.Tcp.{Ret, value, minus_one}
use car_detect.Rtsp.Session.{RtspSession}
use car_detect.Rtsp.Text.{is_space, skip_spaces, strcasestr, strchr, strtol_u16}

unfoldable pub skip_blanks : Bytes → Bytes
skip_blanks [] = []
skip_blanks (c ∷ cs) = let rest = skip_blanks cs in if c == b' ' then rest else c ∷ cs

-- The bytes of a session id: up to `room` of them, and no '\r', ';' or white space.
unfoldable pub id_bytes : ℕ → Bytes → Bytes
id_bytes zero s = []
id_bytes (suc room) [] = []
id_bytes (suc room) (c ∷ cs) =
    let more = id_bytes room cs in if c == 13 || c == b';' || is_space c then [] else c ∷ more

-- `char session_id[64]` takes 63 bytes and the terminator.
unfoldable pub session_id_in : Bytes → Bytes
unfolding skip_blanks id_bytes
session_id_in response = elim (strcasestr response (codes "Session:")) [
  | none ↦ []
  | some p ↦ id_bytes 63 (skip_blanks (drop 8 p))
]

-- The two numbers behind a keyword: `strtol` there, and behind the first '-' after it.
unfoldable pub after_dash : Option Bytes → ℕ
after_dash none = 0
after_dash (some dash) = strtol_u16 (drop 1 dash)

unfoldable pub number_pair : Bytes → ℕ × ℕ
unfolding after_dash
number_pair p = (strtol_u16 p, after_dash (strchr p b'-'))

module _ {K : Type 0} where
  -- The fields that the function resets first, and the session id.
  cleared : RtspSession K → Bytes → RtspSession K
  cleared s response = record s {
    server_rtp_port = 0;
    server_rtcp_port = 0;
    rtp_channel = 0;
    rtcp_channel = 0;
    trans_type = [];
    session_id = session_id_in response;
  }

  unfoldable pub rtsp_parse_setup_response : Bytes → RtspSession K → RtspSession K × Ret
  unfolding cleared
  rtsp_parse_setup_response response s = elim (strcasestr response (codes "server_port=")) [
    | some p ↦
        let (rtp, rtcp) = number_pair (drop 12 p) in
        (
          record (cleared s response) {
            trans_type = codes "udp";
            server_rtp_port = rtp;
            server_rtcp_port = rtcp;
          },
          value 0,
        )
    | none ↦ elim (strcasestr response (codes "interleaved=")) [
      | some p ↦
          let (rtp, rtcp) = number_pair (drop 12 p) in
          (
            record (cleared s response) {
              trans_type = codes "tcp";
              rtp_channel = rtp;
              rtcp_channel = rtcp;
            },
            value 0,
          )
      | none ↦ (cleared s response, minus_one)
    ]
  ]
