-- ===== src/Media/Camera/Answers.antt =====
-- The server's answer to SETUP (`handleSetup` of media/RtspConnect.cc), as the camera reads it
-- (`rtsp_parse_setup_response` of camera/rtsp.c).
use car_detect.Prelude.{
  All-map, ℕ, ◌^◌, ◌≤◌, ◌<◌, ◌≡◌, refl, ap, ◌∙◌, some, true, List, [], ◌∷◌, ◌++◌, Bytes, length,
  All, append_assoc, arith, codes,
}
use car_detect.Tcp.{value}
use car_detect.Rtsp.Session.{RtspSession}
use car_detect.Rtsp.Text.{decimal, decimal_signed, is_digit, strcasestr, search, begins, to_lower}
use car_detect.Rtsp.Requests.{crlf}
use car_detect.Rtsp.Setup.{id_bytes, session_id_in, rtsp_parse_setup_response}
use car_detect.Rtsp.Setup.Transport.{IsIdByte, rtsp_parse_setup_response-udp}
use car_detect.Media.Transport.{Transport}
use car_detect.Media.Connect.{header_lines, response_text}
use car_detect.Media.Connect.Setup.{udp_answer}
use car_detect.Media.Camera.Search.{
  is_clear, may_begin, pieces_then, strcasestr-pieces, is_clear_first,
}
use car_detect.Media.Camera.Ids.{
  IsHexByte, hex_no_s, hex_id, decimal_no_s, decimal_signed_no_s, id_bytes-IsIdByte_then,
  skip_blanks-IsIdByte,
}

-- The text of the answer to a SETUP that succeeds.
abbrev pub set_up_response : Bytes → Bytes → ℕ → Bytes
set_up_response sid answer cseq =
    response_text 200 (codes "OK")
      ((codes "Session", sid ++ codes ";timeout=60") ∷ (codes "Transport", answer) ∷ []) cseq

module _ (sid answer : Bytes) (cseq : ℕ) (hex : All IsHexByte sid) (short : length sid ≤ 62) where
  -- The pieces up to the session id, and from there to the transport.
  abbrev head_pieces : List Bytes
  head_pieces =
      codes "RTSP/1.0 "
      ∷ decimal 200
      ∷ (codes " OK" ++ (crlf ++ codes "CSeq: "))
      ∷ decimal_signed cseq
      ∷ (crlf ++ (codes "Server: RTSP Server/1.0" ++ crlf))
      ∷ []

  abbrev from_session : Bytes
  from_session =
      codes "Session: "
      ++ (sid
          ++ (b';' ∷ codes "timeout=60"
              ++ (crlf ++ (codes "Transport: " ++ (answer ++ (crlf ++ crlf))))))

  response-pieces : set_up_response sid answer cseq ≡ pieces_then head_pieces from_session
  unfolding response_text header_lines
  response-pieces = simp append_assoc refl

  clear_head_session : All (λ s. is_clear (codes "Session:") s ≡ true) head_pieces
  unfolding is_clear may_begin to_lower decimal
  clear_head_session = (
    refl,
    (
      refl,
      (
        refl,
        (
          is_clear_first b'S' (codes "ession:") (decimal_signed cseq) (decimal_signed_no_s cseq),
          (refl, tt),
        ),
      ),
    ),
  )

  session_id_in-response : session_id_in (set_up_response sid answer cseq) ≡ sid
  unfolding session_id_in
  session_id_in-response =
      rw
        (
          response-pieces,
          session_id_in,
          strcasestr-pieces (codes "Session:") head_pieces from_session clear_head_session,
          found,
        )
        (ap (id_bytes 63) (skip_blanks-IsIdByte sid _ ids)
          ∙ id_bytes-IsIdByte_then 63 sid _ ids (omega arith))
    where
      ids : All IsIdByte sid
      ids = All-map hex_id sid hex

      found : strcasestr from_session (codes "Session:") ≡ some from_session
      found = unfold strcasestr search begins to_lower in refl

module _ {K : Type 0} (s : RtspSession K) (t : Transport) (sid : Bytes) (cseq rtp rtcp : ℕ) where
  abbrev transport_pieces : List Bytes
  transport_pieces =
      codes "RTSP/1.0 "
      ∷ decimal 200
      ∷ (codes " OK" ++ (crlf ++ codes "CSeq: "))
      ∷ decimal_signed cseq
      ∷ (crlf ++ (codes "Server: RTSP Server/1.0" ++ (crlf ++ codes "Session: ")))
      ∷ sid
      ∷ (codes ";timeout=60" ++ (crlf ++ codes "Transport: RTP/AVP/UDP;unicast;client_port="))
      ∷ decimal t.client_rtp_port
      ∷ codes "-"
      ∷ decimal t.client_rtcp_port
      ∷ codes ";"
      ∷ []

  abbrev from_ports : Bytes
  from_ports = codes "server_port=" ++ (decimal rtp ++ (b'-' ∷ (decimal rtcp ++ (crlf ++ crlf))))

  answer-pieces :
      set_up_response sid (udp_answer t (rtp, rtcp)) cseq ≡ pieces_then transport_pieces from_ports
  unfolding response_text header_lines udp_answer
  answer-pieces = simp append_assoc refl

  clear_transport :
      All IsHexByte sid → All (λ p. is_clear (codes "server_port=") p ≡ true) transport_pieces
  unfolding is_clear may_begin to_lower decimal
  clear_transport hex =
      let clear_digits : (n : ℕ) → is_clear (codes "server_port=") (decimal n) ≡ true =
        λ n. is_clear_first b's' (codes "erver_port=") (decimal n) (decimal_no_s n) in
      (
        refl,
        (
          refl,
          (
            refl,
            (
              is_clear_first b's' (codes "erver_port=") (decimal_signed cseq)
                  (decimal_signed_no_s cseq),
              (
                refl,
                (
                  is_clear_first b's' (codes "erver_port=") sid (All-map hex_no_s sid hex),
                  (
                    refl,
                    (
                      clear_digits t.client_rtp_port,
                      (refl, (clear_digits t.client_rtcp_port, (refl, tt))),
                    ),
                  ),
                ),
              ),
            ),
          ),
        ),
      )

  ports_found :
      All IsHexByte sid
      → strcasestr (set_up_response sid (udp_answer t (rtp, rtcp)) cseq) (codes "server_port=")
        ≡ some from_ports
  ports_found hex =
      rw
        (
          answer-pieces,
          strcasestr-pieces (codes "server_port=") transport_pieces from_ports
              (clear_transport hex),
        )
        (unfold strcasestr search begins to_lower in refl)

  -- The camera reads the server's answer to a SETUP for UDP: the transport is udp, the ports and the
  -- session id are the server's, whatever the ports and the number of the request; for session ids
  -- of hexadecimal digits and '-', of at most 62 bytes, as the server gives them.
  pub set_up_response-agreed :
      All IsHexByte sid
      → length sid ≤ 62
      → rtp < 2 ^ 16
      → rtcp < 2 ^ 16
      → let (s', r) =
          rtsp_parse_setup_response (set_up_response sid (udp_answer t (rtp, rtcp)) cseq) s in
        (r ≡ value 0)
        × (s'.trans_type ≡ codes "udp")
        × (s'.server_rtp_port ≡ rtp)
        × (s'.server_rtcp_port ≡ rtcp)
        × (s'.session_id ≡ sid)
  set_up_response-agreed hex short ha hb =
      let (r, kind, a, b, c, d, id) =
        rtsp_parse_setup_response-udp s (set_up_response sid (udp_answer t (rtp, rtcp)) cseq) rtp
          rtcp (crlf ++ crlf) (ports_found hex) ha hb (unfold is_digit in refl) in
      (r, kind, a, b, id ∙ session_id_in-response sid (udp_answer t (rtp, rtcp)) cseq hex short)
