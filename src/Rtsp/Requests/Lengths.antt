-- ===== src/Rtsp/Requests/Lengths.antt =====
-- The requests of camera/rtsp.c and the buffers that they are printed into.
use car_detect.Prelude.{
  ℕ, ◌+◌, ◌≤◌, ◌<◌, ◌≡◌, ◌++◌, Bytes, length, length-append, length-take, arith, codes,
}
use car_detect.Rtsp.Text.{decimal, length-decimal, length-decimal_signed, decimal_signed}
use car_detect.Rtsp.Requests.{
  crlf, user_agent, request_line, options_request, describe_request, setup_url_of, setup_request,
  teardown_request, announce_request, record_request,
}

length-request_line :
    (method url : Bytes) (cseq : ℕ)
    → length (request_line method url cseq) ≤ length method + length url + 29
unfolding request_line
length-request_line method url cseq = omega (
  arith,
  length-append method
      (url ++ (codes " RTSP/1.0" ++ (crlf ++ (codes "CSeq: " ++ (decimal cseq ++ crlf))))),
  length-append url (codes " RTSP/1.0" ++ (crlf ++ (codes "CSeq: " ++ (decimal cseq ++ crlf)))),
  length-append (decimal cseq) crlf,
  length-decimal cseq,
)

pub length-options_request :
    (url : Bytes) (cseq : ℕ) → length url ≤ 255 → length (options_request url cseq) < 512
unfolding options_request
length-options_request url cseq h = omega (
  arith,
  length-append (request_line (codes "OPTIONS ") url cseq) (user_agent ++ crlf),
  length-request_line (codes "OPTIONS ") url cseq,
)

pub length-describe_request :
    (url : Bytes) (cseq : ℕ) → length url ≤ 255 → length (describe_request url cseq) < 512
unfolding describe_request
length-describe_request url cseq h = omega (
  arith,
  length-append (request_line (codes "DESCRIBE ") url cseq)
      (user_agent ++ (codes "Accept: application/sdp" ++ (crlf ++ crlf))),
  length-request_line (codes "DESCRIBE ") url cseq,
)

length-setup_url_of : (url : Bytes) → length (setup_url_of url) ≤ length url + 10
unfolding setup_url_of
length-setup_url_of url =
    omega
      (arith, length-take 511 (url ++ codes "/trackID=0"), length-append url (codes "/trackID=0"))

pub length-setup_request :
    (url transport : Bytes) (cseq : ℕ)
    → length url ≤ 255
    → length transport ≤ 64
    → length (setup_request url transport cseq) < 512
length-setup_request url transport cseq h k =
    let tail = codes "Transport: " ++ (transport ++ (crlf ++ (user_agent ++ crlf))) in
    let line = request_line (codes "SETUP ") (setup_url_of url) cseq in
    let whole : length (setup_request url transport cseq) ≡ length line + length tail =
      unfold setup_request in length-append line tail in
    omega (
      arith,
      whole,
      length-append transport (crlf ++ (user_agent ++ crlf)),
      length-request_line (codes "SETUP ") (setup_url_of url) cseq,
      length-setup_url_of url,
    )

pub length-teardown_request :
    (url session_id : Bytes) (cseq : ℕ)
    → length url ≤ 255
    → length session_id ≤ 63
    → length (teardown_request url cseq session_id) < 512
unfolding teardown_request
length-teardown_request url session_id cseq h k = omega (
  arith,
  length-append (request_line (codes "TEARDOWN ") url cseq)
      (codes "Session: " ++ (session_id ++ (crlf ++ (user_agent ++ crlf)))),
  length-append session_id (crlf ++ (user_agent ++ crlf)),
  length-request_line (codes "TEARDOWN ") url cseq,
)

pub length-announce_request :
    (url sdp : Bytes) (cseq : ℕ)
    → length url ≤ 255
    → length sdp ≤ 511
    → length (announce_request url sdp cseq) < 1024
unfolding announce_request
length-announce_request url sdp cseq h k = omega (
  arith,
  length-append (request_line (codes "ANNOUNCE ") url cseq) (
      codes "Content-Type: application/sdp"
      ++ (crlf
          ++ (codes "Content-Length: "
              ++ (decimal (length sdp) ++ (crlf ++ (user_agent ++ (crlf ++ sdp))))))),
  length-append (decimal (length sdp)) (crlf ++ (user_agent ++ (crlf ++ sdp))),
  length-decimal (length sdp),
  length-request_line (codes "ANNOUNCE ") url cseq,
)

pub length-record_request :
    (url session_id : Bytes) (cseq conv : ℕ)
    → length url ≤ 255
    → length session_id ≤ 63
    → length (record_request url cseq session_id conv) < 512
unfolding record_request
length-record_request url session_id cseq conv h k = omega (
  arith,
  length-append (request_line (codes "RECORD ") url cseq) (
      codes "Session: "
      ++ (session_id
          ++ (crlf
              ++ (user_agent ++ (codes "KcpId: " ++ (decimal_signed conv ++ (crlf ++ crlf))))))),
  length-append session_id
      (crlf ++ (user_agent ++ (codes "KcpId: " ++ (decimal_signed conv ++ (crlf ++ crlf))))),
  length-append (decimal_signed conv) (crlf ++ crlf),
  length-decimal_signed conv,
  length-request_line (codes "RECORD ") url cseq,
)
