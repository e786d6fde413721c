-- ===== src/Rtsp/Requests.antt =====
-- camera/rtsp.c: `rtsp_client_options` to `rtsp_client_record`, and `rtsp_client_read_response`.
-- `Lengths` is about the buffers of the requests.
pub mod Lengths
pub mod Whole
use car_detect.Prelude.{
  ℕ, ◌+◌, ◌-◌, Option, none, some, Bool, [], ◌∷◌, ◌++◌, Bytes, length, take, ltb, ◌==◌,
  if◌then◌else◌, codes,
}
use car_detect.Effect.{Action, pure, faults, ◌>>=◌}
use car_detect.Os.{Os}
use car_detect.Tcp.{Ret, TcpClient, tcp_write, tcp_read}
use car_detect.Kcp.{KcpLib}
use car_detect.Rtsp.Session.{RtspSession}
use car_detect.Rtsp.Text.{decimal, decimal_signed}

abbrev pub crlf : Bytes
crlf = 13 ∷ 10 ∷ []

abbrev pub user_agent : Bytes
user_agent = codes "User-Agent: RTSP Client" ++ crlf

-- The lines that the requests begin with.
unfoldable pub request_line : Bytes → Bytes → ℕ → Bytes
request_line method url cseq =
    method ++ (url ++ (codes " RTSP/1.0" ++ (crlf ++ (codes "CSeq: " ++ (decimal cseq ++ crlf)))))

unfoldable pub options_request : Bytes → ℕ → Bytes
unfolding request_line
options_request url cseq = request_line (codes "OPTIONS ") url cseq ++ (user_agent ++ crlf)

unfoldable pub describe_request : Bytes → ℕ → Bytes
unfolding request_line
describe_request url cseq =
    request_line (codes "DESCRIBE ") url cseq
    ++ (user_agent ++ (codes "Accept: application/sdp" ++ (crlf ++ crlf)))

-- `char setup_url[512]`: `snprintf` cuts off what does not fit.
unfoldable pub setup_url_of : Bytes → Bytes
setup_url_of url = take 511 (url ++ codes "/trackID=0")

unfoldable pub setup_request : Bytes → Bytes → ℕ → Bytes
unfolding request_line setup_url_of
setup_request url transport cseq =
    request_line (codes "SETUP ") (setup_url_of url) cseq
    ++ (codes "Transport: " ++ (transport ++ (crlf ++ (user_agent ++ crlf))))

unfoldable pub teardown_request : Bytes → ℕ → Bytes → Bytes
unfolding request_line
teardown_request url cseq session_id =
    request_line (codes "TEARDOWN ") url cseq
    ++ (codes "Session: " ++ (session_id ++ (crlf ++ (user_agent ++ crlf))))

unfoldable pub announce_request : Bytes → Bytes → ℕ → Bytes
unfolding request_line
announce_request url sdp cseq =
    request_line (codes "ANNOUNCE ") url cseq
    ++ (codes "Content-Type: application/sdp"
        ++ (crlf
            ++ (codes "Content-Length: "
                ++ (decimal (length sdp) ++ (crlf ++ (user_agent ++ (crlf ++ sdp)))))))

unfoldable pub record_request : Bytes → ℕ → Bytes → ℕ → Bytes
unfolding request_line
record_request url cseq session_id conv =
    request_line (codes "RECORD ") url cseq
    ++ (codes "Session: "
        ++ (session_id
            ++ (crlf
                ++ (user_agent ++ (codes "KcpId: " ++ (decimal_signed conv ++ (crlf ++ crlf)))))))

module _ (os : Os) (lib : KcpLib (Os.World os)) where
  open os use {World}
  open lib use {Kcb}

  -- `snprintf(request, size, …)` and `tcp_write(…, request, len)`: `len` is the length of the whole
  -- text. Where that is `size`, the terminator is sent for the last byte; where it is more, bytes
  -- behind the buffer are read.
  unfoldable pub send_request : ℕ → ℕ → TcpClient → Bytes → Action World Ret
  send_request fuel size client text =
      if ltb (length text) size
      then tcp_write os fuel client text
      else if length text == size
      then tcp_write os fuel client (take (size - 1) text ++ (0 ∷ []))
      else faults

  -- `session->cseq++`.
  abbrev pub count_request : RtspSession Kcb → RtspSession Kcb
  count_request s = record s { cseq = s.cseq + 1 }

  unfoldable pub rtsp_client_options :
      ℕ → RtspSession Kcb → Bytes → Action World (RtspSession Kcb × Ret)
  unfolding send_request
  rtsp_client_options fuel s url = do
    let s' = count_request s
    r ← send_request fuel 512 s.client (options_request url s'.cseq)
    pure (s', r)

  unfoldable pub rtsp_client_describe :
      ℕ → RtspSession Kcb → Bytes → Action World (RtspSession Kcb × Ret)
  unfolding send_request
  rtsp_client_describe fuel s url = do
    let s' = count_request s
    r ← send_request fuel 512 s.client (describe_request url s'.cseq)
    pure (s', r)

  unfoldable pub rtsp_client_setup :
      ℕ → RtspSession Kcb → Bytes → Bytes → Action World (RtspSession Kcb × Ret)
  unfolding send_request
  rtsp_client_setup fuel s url transport = do
    let s' = count_request s
    r ← send_request fuel 512 s.client (setup_request url transport s'.cseq)
    pure (s', r)

  unfoldable pub rtsp_client_teardown :
      ℕ → RtspSession Kcb → Bytes → Action World (RtspSession Kcb × Ret)
  unfolding send_request
  rtsp_client_teardown fuel s url = do
    let s' = count_request s
    r ← send_request fuel 512 s.client (teardown_request url s'.cseq s.session_id)
    pure (s', r)

  unfoldable pub rtsp_client_announce :
      ℕ → RtspSession Kcb → Bytes → Bytes → Action World (RtspSession Kcb × Ret)
  unfolding send_request
  rtsp_client_announce fuel s url sdp = do
    let s' = count_request s
    r ← send_request fuel 1024 s.client (announce_request url sdp s'.cseq)
    pure (s', r)

  -- `session->kcp->conv` reads through the pointer.
  pub record_for : Option Kcb → ℕ → RtspSession Kcb → Bytes → Action World (RtspSession Kcb × Ret)
  unfolding send_request
  record_for none fuel s url = faults
  record_for (some kcp) fuel s url = do
    let s' = count_request s
    r ←
        send_request fuel 512 s.client
          (record_request url s'.cseq s.session_id (KcpLib.conv lib kcp))
    pure (s', r)

  unfoldable pub rtsp_client_record :
      ℕ → RtspSession Kcb → Bytes → Action World (RtspSession Kcb × Ret)
  unfolding record_for
  rtsp_client_record fuel s url = record_for s.kcp fuel s url

  -- The result, what `response` holds afterwards, and whether the error was EAGAIN.
  unfoldable pub rtsp_client_read_response :
      RtspSession Kcb → Bytes → ℕ → Action World (Ret × Bytes × Bool)
  rtsp_client_read_response s response len = tcp_read os s.client response len
